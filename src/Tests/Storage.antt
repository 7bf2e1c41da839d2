-- ===== src/Tests/Storage.antt =====
-- The theorems on storage at concrete inputs.
use mathlib.Core.List.{Perm}
use kubecc.Common.{
  ℕ, zero, suc, ◌≡◌, ◌≤◌, refl, List, [], ◌∷◌, Option, none, some, true, go, arith, All,
}
use kubecc.Common.{◌<◌, ◌+◌, Bool, false}
use kubecc.Common.Map.{Map, lookup, insert, delete, lookup-insert_self}
use kubecc.Storage.Volatile.{CacheObject, Cache, Volatile, volatile_put}
use kubecc.Storage.Volatile.Serve.{KeepsItems}
use kubecc.Storage.Heap.{Entry, push, pop}
use kubecc.Storage.Heap.Order.{IsHeap}
use kubecc.Storage.Heap.Items.{push_refines, pop_refines}
use kubecc.Storage.Chain.{Provider, chain_get}
use kubecc.Storage.Chain.WriteBack.{chain_get-written}

abbrev entry : ℕ → Entry
entry date = record { hash = go "a"; date = date }

abbrev dates : List Entry
dates = entry 5 ∷ entry 3 ∷ entry 9 ∷ []

push_refines_example :
    IsHeap (push (go "b") 1 dates)
    × Perm (push (go "b") 1 dates) (record { hash = go "b"; date = 1 } ∷ dates)
push_refines_example = push_refines (go "b") 1 dates

abbrev heap : List Entry
heap = entry 3 ∷ entry 5 ∷ entry 9 ∷ []

heap-IsHeap : IsHeap heap
heap-IsHeap zero h = ((λ c. omega arith), (λ c. omega arith))
heap-IsHeap (suc p) h = ((λ c. absurd (omega arith)), (λ c. absurd (omega arith)))

pop_refines_example :
    (h : List Entry) × (pop heap ≡ (some (entry 3), h))
    × IsHeap h
    × Perm h (entry 5 ∷ entry 9 ∷ [])
    × All (λ x. 3 ≤ x.date) heap
pop_refines_example = pop_refines (entry 3) (entry 5 ∷ entry 9 ∷ []) heap-IsHeap

-- A provider with the number of its gets and its room for objects: `Get` counts, and `Put` fails
-- without room.
abbrev Shelf : Type 0
Shelf = ℕ × ℕ × Option ℕ

abbrev put_shelf : Shelf → ℕ → Shelf × Bool
put_shelf (n, zero, o) v = ((n, zero, o), false)
put_shelf (n, suc m, o) v = ((n, m, some v), true)

abbrev shelf : Provider Shelf ℕ ℕ ℕ
shelf = record {
  get = λ s k. ((s.0 + 1, s.1, s.2), s.2);
  put = λ s k v. put_shelf s v;
  query = λ s ks. [];
}

abbrev empty_shelf : ℕ → Shelf
empty_shelf room = (0, room, none)

chain_get-written_example :
    chain_get shelf 1 (empty_shelf 4 ∷ empty_shelf 0 ∷ empty_shelf 2 ∷ (0, 1, some 7) ∷ [])
    ≡ ((1, 4, none) ∷ (1, 0, none) ∷ (1, 1, some 7) ∷ (1, 1, some 7) ∷ [], some 7, false)
chain_get-written_example =
    chain_get-written shelf 1 7 (some (empty_shelf 4 ∷ [], empty_shelf 0)) (empty_shelf 2 ∷ [])
      (0, 1, some 7) [] ((refl, tt), (refl, refl)) ((refl, refl), tt) refl

-- A cache that drops nothing.
abbrev ample : Cache (Map CacheObject)
ample = record {
  item = λ c hash. lookup hash c;
  expired = λ c hash. false;
  set_until = λ c hash object date. insert hash object c;
  extend = λ c hash date. c;
  remove = λ c hash. delete hash c;
}

ample-KeepsItems : KeepsItems ample (λ date. 5 < date)
ample-KeepsItems = record {
  item_set = λ c hash object date. lookup-insert_self hash object c;
  fresh = λ c hash object date h. refl;
}

abbrev empty : Volatile (Map CacheObject)
empty = record { cache = []; total_size = 0; cache_hits = 0; cache_misses = 0 }

abbrev object : CacheObject
object = record { content = go "data"; size = 0; timestamp = 0; expiration_date = 9 }

stored_lem : (volatile_put ample 5 empty (go "h") object).1 ≡ true
unfolding volatile_put lookup
stored_lem = refl
