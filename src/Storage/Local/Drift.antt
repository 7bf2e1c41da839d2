-- ===== src/Storage/Local/Drift.antt =====
-- The counts of pkg/storage/local.go over a `Put` and the expiration of its object.
use kubecc.Common.{
  ℕ, ◌+◌, ◌≤◌, ◌≡◌, refl, ap, sym, ◌∙◌, subst, Option, none, some, Bool, true, false, Str, ok,
  length, take, arith,
}
use kubecc.Storage.Local.{
  ObjectMeta, LocalObject, Files, Format, LocalStorage, object_path, manage, local_put, removed,
  delete_file, delete_dir, delete_expired,
}
use kubecc.Storage.Local.Roundtrip.{FilesLaws, local_put-Written, Written-stat, prefix-ok}

module _ {F : Type 0} (ops : Files F) (format : Format) where
  -- A file that is removed is counted with its size.
  record Counted (p r : LocalStorage F) (size : ℕ) : Type 0 where
    objects_added : r.objects_added ≡ p.objects_added
    size_added : r.size_added ≡ p.size_added
    objects_removed : r.objects_removed ≡ p.objects_removed + 1
    size_removed : r.size_removed ≡ p.size_removed + size

  removed-Counted :
      (p : LocalStorage F) (size : ℕ) (f : F × Bool)
      → f.1 ≡ true
      → Counted p (removed ops format p size f) size
  unfolding removed
  removed-Counted p size (f, false) h = absurd (grind arith)
  removed-Counted p size (f, true) h = record {
    objects_added = refl;
    size_added = refl;
    objects_removed = refl;
    size_removed = refl;
  }

  delete_file-Counted :
      (p : LocalStorage F) (path : Str) (o : Option ℕ) (size : ℕ)
      → o ≡ some size
      → (ops.remove p.files path).1 ≡ true
      → Counted p (delete_file ops format p path o) size
  unfolding delete_file
  delete_file-Counted p path none size e h = absurd (grind arith)
  delete_file-Counted p path (some n) size e h =
      subst (Counted p (removed ops format p n (ops.remove p.files path))) (grind arith)
        (removed-Counted p n (ops.remove p.files path) h)

  some_inj : (a b : Str) → some a ≡ some b → a ≡ b
  some_inj a b h = cc

  ok_inj : (a b : LocalStorage F) → ok a ≡ ok b → a ≡ b
  ok_inj a b h = cc

  module _ (laws : FilesLaws ops format) where
    -- For every object with metadata and every hash of at least two bytes, where the file system and
    -- the wire format are as the code relies on: when `Put` succeeds and then the object expires and
    -- its file is removed, the count of objects is what it was before, and the total size has gained
    -- the bytes of the content and lost those of the marshalled object.
    pub local_put-delete_expired :
        (now : ℕ) (p q r : LocalStorage F) (hash bytes : Str) (object : LocalObject)
        (m : ObjectMeta)
        → 2 ≤ length hash
        → object.metadata ≡ some m
        → format.marshal (manage now object m) ≡ some bytes
        → local_put ops format now p hash object ≡ ok (q, true)
        → (ops.remove q.files (object_path ops format q (take 2 hash) hash)).1 ≡ true
        → delete_expired ops format q hash ≡ ok r
        → (r.objects_added + p.objects_removed ≡ p.objects_added + r.objects_removed)
          × (r.size_added + p.size_removed + length bytes
              ≡ p.size_added + r.size_removed + length object.content)
    unfolding delete_expired delete_dir manage
    local_put-delete_expired now p q r hash bytes object m s e b h g d =
        let w = local_put-Written ops format now p q hash object m s e h in
        let path = object_path ops format q (take 2 hash) hash in
        let c =
          delete_file-Counted q path (ops.stat q.files path) (length w.bytes)
            (Written-stat ops format laws p q (take 2 hash) hash _ w) g in
        let k : delete_file ops format q path (ops.stat q.files path) ≡ r =
          ok_inj _ _ (sym (ap (delete_dir ops format q hash) (prefix-ok hash s)) ∙ d) in
        let n : length w.bytes ≡ length bytes = ap length (some_inj _ _ (sym w.marshalled ∙ b)) in
        let t = subst (λ x. Counted q x (length w.bytes)) k c in
        (
          omega (arith, t.objects_added, t.objects_removed, w.objects_added, w.objects_removed),
          omega (arith, t.size_added, t.size_removed, w.size_added, w.size_removed, n),
        )
