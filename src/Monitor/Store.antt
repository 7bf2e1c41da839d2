-- ===== src/Monitor/Store.antt =====
-- `InMemoryStore` of pkg/monitor/store.go. A message is its encoding.
use kubecc.Common.{
  ℕ, ◌≡◌, ◌↔◌, refl, ap, sym, ◌∙◌, if◌then◌else◌, List, [], Option, none, some, Bool, true, false,
  not, Str, str_eq, str_eq_iff, str_eq_refl, length, arith, Bool-cases, inl, inr,
}
use kubecc.Common.Map.{Map, lookup, insert, delete, keys, lookup-insert}

unfoldable pub new_store : Map Str
new_store = []

unfoldable pub set_key : Str → Str → Map Str → Map Str
set_key key value m = insert key value m

unfoldable pub delete_key : Str → Map Str → Map Str
delete_key key m = delete key m

unfoldable pub get_key : Str → Map Str → Option Str
get_key key m = lookup key m

-- Whether a found message is the value.
unfoldable pub holds : Option Str → Str → Bool
holds none value = false
holds (some found) value = str_eq found value

-- `CAS`: the store, and whether it changed.
unfoldable pub compare_and_set : Str → Str → Map Str → Map Str × Bool
compare_and_set key value m =
    if not (holds (lookup key m) value) then (insert key value m, true) else (m, false)

unfoldable pub store_keys : Map Str → List Str
store_keys m = keys m

unfoldable pub store_len : Map Str → ℕ
store_len m = length m

holds→≡ : (o : Option Str) (value : Str) → holds o value ≡ true → o ≡ some value
unfolding holds
holds→≡ none value h = absurd (grind arith)
holds→≡ (some found) value h = ap some ((str_eq_iff found value).0 h)

holds_refl : (o : Option Str) (value : Str) → o ≡ some value → holds o value ≡ true
unfolding holds
holds_refl none value h = absurd (grind arith)
holds_refl (some found) value h = (str_eq_iff found value).1 (grind arith)

-- For every store, key and value: after `CAS`, whatever it answers, the store gives the value for the key and what it gave before
-- for every other key; and `CAS` answers that nothing changed just when the key had the value.
compare_and_set_lem :
    (key value : Str) (m : Map Str)
    → ((j : Str)
        → get_key j (compare_and_set key value m).0
          ≡ (if str_eq key j then some value else get_key j m))
      × ((compare_and_set key value m).1 ≡ false ↔ get_key key m ≡ some value)
unfolding compare_and_set get_key
compare_and_set_lem key value m = elim (Bool-cases (holds (lookup key m) value)) [
  | inl e ↦ rw e (
    (λ j. elim (Bool-cases (str_eq key j)) [
      | inl k ↦ rw (k, sym ((str_eq_iff key j).0 k)) (holds→≡ (lookup key m) value e)
      | inr k ↦ rw k refl
    ]),
    ((λ h. holds→≡ (lookup key m) value e), (λ h. refl)),
  )
  | inr e ↦ rw e (
    (λ j. lookup-insert key j value m),
    ((λ h. absurd (grind arith)), (λ h. absurd (grind (arith, holds_refl (lookup key m) value h)))),
  )
]

pub compare_and_set-changed :
    (key value : Str) (m : Map Str)
    → (compare_and_set key value m).1 ≡ not (holds (lookup key m) value)
unfolding compare_and_set
compare_and_set-changed key value m = grind arith

pub compare_and_set-found :
    (key value : Str) (m : Map Str) → get_key key (compare_and_set key value m).0 ≡ some value
compare_and_set-found key value m =
    (compare_and_set_lem key value m).0 key ∙ rw (str_eq_refl key) refl

pub compare_and_set-kept :
    (key value : Str) (m : Map Str)
    → (compare_and_set key value m).1 ≡ false
    → get_key key m ≡ some value
compare_and_set-kept key value m = (compare_and_set_lem key value m).1.0
