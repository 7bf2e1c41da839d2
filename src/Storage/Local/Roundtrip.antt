-- ===== src/Storage/Local/Roundtrip.antt =====
-- `Put` and `Get` of pkg/storage/local.go, one after the other.
use kubecc.Common.{
  ℕ, ◌+◌, ◌≤◌, ◌≡◌, refl, ap, sym, ◌∙◌, subst, [], ◌∷◌, Option, none, some, Bool, true, false, Str,
  ok, length, take, leb, arith,
}
use kubecc.Storage.Local.{
  ManagedFields, ObjectMeta, LocalObject, Files, Format, LocalStorage, prefix, object_path, stored,
  write_object, put_in, manage, put_managed, local_put, with_metadata, touch, found,
  unmarshal_found, get_at, local_get, get_dir,
}

-- What the code relies on: a file that was written is there and reads as what was written, a message
-- is read as it was marshalled, and joining in two steps is joining in one.
pub record FilesLaws {F : Type 0} (ops : Files F) (format : Format) : Type 0 where
  pub read_written :
      (f : F) (path bytes : Str)
      → (ops.write_file f path bytes).1 ≡ true
      → ops.read_file (ops.write_file f path bytes).0 path ≡ some bytes
  pub stat_written :
      (f : F) (path bytes : Str)
      → (ops.write_file f path bytes).1 ≡ true
      → ops.stat (ops.write_file f path bytes).0 path ≡ some (length bytes)
  pub unmarshal_marshal :
      (o : LocalObject) (bytes : Str)
      → format.marshal o ≡ some bytes
      → format.unmarshal bytes ≡ some o
  pub join_join :
      (a b c : Str) → format.join (format.join (a ∷ b ∷ []) ∷ c ∷ []) ≡ format.join (a ∷ b ∷ c ∷ [])

leb-true : (a b : ℕ) → a ≤ b → leb a b ≡ true
leb-true a b h = ground arith

pub prefix-ok : (hash : Str) → 2 ≤ length hash → prefix hash ≡ ok (take 2 hash)
unfolding prefix
prefix-ok hash h = rw (leb-true 2 (length hash) h) refl

module _ {F : Type 0} (ops : Files F) (format : Format) where
  -- What a successful `Put` did.
  pub record Written (p q : LocalStorage F) (dir hash : Str) (object : LocalObject) : Type 0 where
    pub bytes : Str
    pub marshalled : format.marshal object ≡ some bytes
    pub before : F
    pub succeeded :
        (ops.write_file before (format.join (format.join (p.root ∷ dir ∷ []) ∷ hash ∷ [])) bytes).1
        ≡ true
    pub files :
        q.files
        ≡ (ops.write_file before
            (format.join (format.join (p.root ∷ dir ∷ []) ∷ hash ∷ []))
            bytes).0
    pub root : q.root ≡ p.root
    pub size_added : q.size_added ≡ p.size_added + length object.content
    pub objects_added : q.objects_added ≡ p.objects_added + 1
    pub size_removed : q.size_removed ≡ p.size_removed
    pub objects_removed : q.objects_removed ≡ p.objects_removed

  stored-Written :
      (p q : LocalStorage F) (dir hash : Str) (object : LocalObject) (bytes : Str) (r : F × Bool)
      → format.marshal object ≡ some bytes
      → ops.write_file p.files (format.join (format.join (p.root ∷ dir ∷ []) ∷ hash ∷ [])) bytes ≡ r
      → stored ops format p hash object r ≡ (q, true)
      → Written p q dir hash object
  unfolding stored
  stored-Written p q dir hash object bytes (f, false) m w h =
      absurd (grind (arith, ap (λ r. r.1) h))
  stored-Written p q dir hash object bytes (f, true) m w h =
      let e = ap (λ r. r.0) h in
      record {
        bytes = bytes;
        marshalled = m;
        before = p.files;
        succeeded = ap (λ r. r.1) w;
        files = sym (ap (λ s. s.files) e) ∙ sym (ap (λ r. r.0) w);
        root = sym (ap (λ s. s.root) e);
        size_added = sym (ap (λ s. s.size_added) e);
        objects_added = sym (ap (λ s. s.objects_added) e);
        size_removed = sym (ap (λ s. s.size_removed) e);
        objects_removed = sym (ap (λ s. s.objects_removed) e);
      }

  write_object-Written :
      (p q : LocalStorage F) (dir hash : Str) (object : LocalObject) (o : Option Str)
      → format.marshal object ≡ o
      → write_object ops format p dir hash object o ≡ (q, true)
      → Written p q dir hash object
  unfolding write_object
  write_object-Written p q dir hash object none m h = absurd (grind (arith, ap (λ r. r.1) h))
  write_object-Written p q dir hash object (some bytes) m h =
      stored-Written p q dir hash object bytes _ m refl h

  put_in-Written :
      (p q : LocalStorage F) (dir hash : Str) (object : LocalObject) (r : F × Bool)
      → put_in ops format p dir hash object r ≡ (q, true)
      → Written p q dir hash object
  unfolding put_in
  put_in-Written p q dir hash object (f, false) h = absurd (grind (arith, ap (λ r. r.1) h))
  put_in-Written p q dir hash object (f, true) h =
      let w = write_object-Written (record p { files = f }) q dir hash object _ refl h in
      record {
        bytes = w.bytes;
        marshalled = w.marshalled;
        before = w.before;
        succeeded = w.succeeded;
        files = w.files;
        root = w.root;
        size_added = w.size_added;
        objects_added = w.objects_added;
        size_removed = w.size_removed;
        objects_removed = w.objects_removed;
      }

  ok_inj : (a b : LocalStorage F × Bool) → ok a ≡ ok b → a ≡ b
  ok_inj a b h = cc

  local_put_lem :
      (now : ℕ) (p : LocalStorage F) (hash : Str) (object : LocalObject) (m : ObjectMeta)
      → 2 ≤ length hash
      → object.metadata ≡ some m
      → local_put ops format now p hash object
        ≡ ok (
            put_in ops format p
              (take 2 hash)
              hash
              (manage now object m)
              (ops.mkdir_all p.files (format.join (p.root ∷ take 2 hash ∷ []))))
  unfolding local_put put_managed manage
  local_put_lem now p hash object m s e = rw (local_put, e, put_managed, prefix-ok hash s) refl

  pub local_put-Written :
      (now : ℕ) (p q : LocalStorage F) (hash : Str) (object : LocalObject) (m : ObjectMeta)
      → 2 ≤ length hash
      → object.metadata ≡ some m
      → local_put ops format now p hash object ≡ ok (q, true)
      → Written p q (take 2 hash) hash (manage now object m)
  local_put-Written now p q hash object m s e h =
      put_in-Written p q (take 2 hash) hash (manage now object m)
        (ops.mkdir_all p.files (format.join (p.root ∷ take 2 hash ∷ [])))
        (ok_inj _ _ (sym (local_put_lem now p hash object m s e) ∙ h))

  -- `Get` of a file with an object.
  get_at-found :
      (now n : ℕ) (p : LocalStorage F) (path bytes : Str) (object : LocalObject) (m : ObjectMeta)
      (f : ManagedFields)
      → ops.stat p.files path ≡ some n
      → ops.read_file p.files path ≡ some bytes
      → format.unmarshal bytes
        ≡ some (record object { metadata = some (record m { managed = some f }) })
      → get_at ops format now p path ≡ (
        record p { cache_hits = p.cache_hits + 1 },
        ok (
            some (record object {
              metadata = some (record m { managed = some (record f { timestamp = now }) });
            })),
      )
  unfolding get_at unmarshal_found found with_metadata touch
  get_at-found now n p path bytes object m f a b c = rw (a, b, unmarshal_found, c) refl

  module _ (laws : FilesLaws ops format) where
    -- The path that `Get` takes for a file that was written.
    Written-path :
        (p q : LocalStorage F) (dir hash : Str) (object : LocalObject)
        → Written p q dir hash object
        → format.join (format.join (p.root ∷ dir ∷ []) ∷ hash ∷ [])
          ≡ object_path ops format q dir hash
    unfolding object_path
    Written-path p q dir hash object w =
        laws.join_join p.root dir hash ∙ ap (λ r. format.join (r ∷ dir ∷ hash ∷ [])) (sym w.root)

    pub Written-stat :
        (p q : LocalStorage F) (dir hash : Str) (object : LocalObject)
        → (w : Written p q dir hash object)
        → ops.stat q.files (object_path ops format q dir hash) ≡ some (length w.bytes)
    Written-stat p q dir hash object w =
        let old = format.join (format.join (p.root ∷ dir ∷ []) ∷ hash ∷ []) in
        let files = (ops.write_file w.before old w.bytes).0 in
        ap (λ f. ops.stat f (object_path ops format q dir hash)) w.files
        ∙ subst (λ x. ops.stat files x ≡ some (length w.bytes)) (Written-path p q dir hash object w)
            (laws.stat_written w.before old w.bytes w.succeeded)

    Written-read :
        (p q : LocalStorage F) (dir hash : Str) (object : LocalObject)
        → (w : Written p q dir hash object)
        → ops.read_file q.files (object_path ops format q dir hash) ≡ some w.bytes
    Written-read p q dir hash object w =
        let old = format.join (format.join (p.root ∷ dir ∷ []) ∷ hash ∷ []) in
        let files = (ops.write_file w.before old w.bytes).0 in
        ap (λ f. ops.read_file f (object_path ops format q dir hash)) w.files
        ∙ subst (λ x. ops.read_file files x ≡ some w.bytes) (Written-path p q dir hash object w)
            (laws.read_written w.before old w.bytes w.succeeded)

    -- For every object with metadata and every hash of at least two bytes, where the file system and
    -- the wire format are as the code relies on: when `Put` succeeds, a `Get` of the hash at any
    -- time counts a hit and gives the object with its size and that time in its managed fields.
    pub local_put-local_get :
        (now later : ℕ) (p q : LocalStorage F) (hash : Str) (object : LocalObject) (m : ObjectMeta)
        → 2 ≤ length hash
        → object.metadata ≡ some m
        → local_put ops format now p hash object ≡ ok (q, true)
        → local_get ops format later q hash
          ≡ (record q { cache_hits = q.cache_hits + 1 }, ok (some (manage later object m)))
    unfolding local_get get_dir manage
    local_put-local_get now later p q hash object m s e h =
        let w = local_put-Written now p q hash object m s e h in
        ap (get_dir ops format later q hash) (prefix-ok hash s)
        ∙ get_at-found later (length w.bytes) q (object_path ops format q (take 2 hash) hash)
            w.bytes object m (record { size = length object.content; timestamp = now; score = 0 })
            (Written-stat p q (take 2 hash) hash _ w) (Written-read p q (take 2 hash) hash _ w)
            (laws.unmarshal_marshal _ w.bytes w.marshalled)
