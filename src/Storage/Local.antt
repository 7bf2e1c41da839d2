-- ===== src/Storage/Local.antt =====
-- `LocalStorageProvider` of pkg/storage/local.go. The file system, the wire format and the operations
-- on paths are parameters. A count that goes up and down is kept as what was added and what was taken
-- away, since the difference may be below 0.
pub mod Roundtrip
pub mod Drift
pub mod Missing
use kubecc.Common.{
  ℕ, ◌+◌, ◌*◌, if◌then◌else◌, List, [], ◌∷◌, ◌++◌, Option, none, some, Bool, true, false, ◌&&◌, Str,
  Checked, ok, panic, length, take, leb, ltb, is_some,
}
use kubecc.Common.Map.{Map}
use kubecc.Storage.Notifier.{ExpirationNotifier, new_expiration_notifier, notifier_add}

pub record ManagedFields : Type 0 where
  pub size : ℕ
  pub timestamp : ℕ
  pub score : ℕ

pub record ObjectMeta : Type 0 where
  pub tags : Map Str
  pub expiration_date : ℕ
  pub managed : Option ManagedFields

pub record LocalObject : Type 0 where
  pub content : Str
  pub metadata : Option ObjectMeta

-- The calls of the packages os, ioutil and filepath: a file's size and content, the changes and whether
-- they succeeded, and the files under a directory with their sizes.
pub record Files (F : Type 0) : Type 0 where
  pub stat : F → Str → Option ℕ
  pub read_file : F → Str → Option Str
  pub write_file : F → Str → Str → F × Bool
  pub remove : F → Str → F × Bool
  pub mkdir_all : F → Str → F × Bool
  pub walk : F → Str → Option (List (Str × ℕ))

-- `proto.Marshal` and `proto.Unmarshal`, `path.Join` and `filepath.Base`.
pub record Format : Type 0 where
  pub marshal : LocalObject → Option Str
  pub unmarshal : Str → Option LocalObject
  pub join : List Str → Str
  pub base : Str → Str

pub record LocalStorage (F : Type 0) : Type 0 where
  pub files : F
  pub root : Str
  pub size_limit : ℕ
  pub objects_added : ℕ
  pub objects_removed : ℕ
  pub size_added : ℕ
  pub size_removed : ℕ
  pub cache_hits : ℕ
  pub cache_misses : ℕ
  pub notifier : ExpirationNotifier

-- `object.Metadata.GetExpirationDate()`
unfoldable pub get_expiration_date : Option ObjectMeta → ℕ
get_expiration_date none = 0
get_expiration_date (some m) = m.expiration_date

-- `hash[0:2]`
unfoldable pub prefix : Str → Checked Str
prefix hash = if leb 2 (length hash) then ok (take 2 hash) else panic

-- The object with its managed fields, as `Put` fills them in.
unfoldable pub manage : ℕ → LocalObject → ObjectMeta → LocalObject
manage now object m = record object {
  metadata = some (record m {
    managed = some (record { size = length object.content; timestamp = now; score = 0 });
  });
}

-- `Metadata` with the fields that are left out when they are empty.
unfoldable pub with_metadata : Option ObjectMeta → ObjectMeta
with_metadata none = record { tags = []; expiration_date = 0; managed = none }
with_metadata (some m) = m

-- `object.Metadata.ManagedFields.Timestamp = now`
unfoldable pub touch : ℕ → LocalObject → ObjectMeta → Option ManagedFields → Checked LocalObject
touch now object m none = panic
touch now object m (some f) =
    ok (record object {
      metadata = some (record m { managed = some (record f { timestamp = now }) });
    })

unfoldable pub found : ℕ → LocalObject → Checked (Option LocalObject)
found now object =
    let m = with_metadata object.metadata in
    elim (touch now object m m.managed) [ ok o ↦ ok (some o) | panic ↦ panic ]

module _ {F : Type 0} where
  unfoldable pub new_local_storage : F → Str → ℕ → LocalStorage F
  new_local_storage files root limit = record {
    files = files;
    root = root;
    size_limit = limit;
    objects_added = 0;
    objects_removed = 0;
    size_added = 0;
    size_removed = 0;
    cache_hits = 0;
    cache_misses = 0;
    notifier = new_expiration_notifier;
  }

module _ {F : Type 0} (ops : Files F) (format : Format) where
  -- The file of a hash.
  unfoldable pub object_path : LocalStorage F → Str → Str → Str
  object_path p dir hash = format.join (p.root ∷ dir ∷ hash ∷ [])

  -- `Put` once the file is written.
  unfoldable pub stored : LocalStorage F → Str → LocalObject → F × Bool → LocalStorage F × Bool
  stored p hash object (files, false) = (record p { files = files }, false)
  stored p hash object (files, true) = (
    record p {
      files = files;
      size_added = p.size_added + length object.content;
      objects_added = p.objects_added + 1;
      notifier = notifier_add p.notifier hash (get_expiration_date object.metadata);
    },
    true,
  )

  unfoldable pub write_object :
      LocalStorage F → Str → Str → LocalObject → Option Str → LocalStorage F × Bool
  write_object p dir hash object none = (p, false)
  write_object p dir hash object (some bytes) =
      stored p hash object
        (ops.write_file p.files (format.join (format.join (p.root ∷ dir ∷ []) ∷ hash ∷ [])) bytes)

  unfoldable pub put_in :
      LocalStorage F → Str → Str → LocalObject → F × Bool → LocalStorage F × Bool
  put_in p dir hash object (files, false) = (record p { files = files }, false)
  put_in p dir hash object (files, true) =
      write_object (record p { files = files }) dir hash object (format.marshal object)

  unfoldable pub put_managed :
      LocalStorage F → Str → LocalObject → Checked Str → Checked (LocalStorage F × Bool)
  put_managed p hash object (ok dir) =
      ok (put_in p dir hash object (ops.mkdir_all p.files (format.join (p.root ∷ dir ∷ []))))
  put_managed p hash object panic = panic

  -- `Put`, at a time: an object without metadata is a nil pointer.
  unfoldable pub local_put :
      ℕ → LocalStorage F → Str → LocalObject → Checked (LocalStorage F × Bool)
  local_put now p hash object = elim object.metadata [
    | none ↦ panic
    | some m ↦ put_managed p hash (manage now object m) (prefix hash)
  ]

  unfoldable pub unmarshal_found : ℕ → Option Str → Checked (Option LocalObject)
  unmarshal_found now none = ok none
  unmarshal_found now (some bytes) = elim (format.unmarshal bytes) [
    | none ↦ ok none
    | some object ↦ found now object
  ]

  -- `Get`, at a time: the provider with its counts, and the object, where `none` is an error.
  unfoldable pub get_at : ℕ → LocalStorage F → Str → LocalStorage F × Checked (Option LocalObject)
  get_at now p path =
      if is_some (ops.stat p.files path)
      then (
        record p { cache_hits = p.cache_hits + 1 },
        unmarshal_found now (ops.read_file p.files path),
      )
      else (record p { cache_misses = p.cache_misses + 1 }, ok none)

  unfoldable pub get_dir :
      ℕ → LocalStorage F → Str → Checked Str → LocalStorage F × Checked (Option LocalObject)
  get_dir now p hash (ok dir) = get_at now p (object_path p dir hash)
  get_dir now p hash panic = (p, panic)

  unfoldable pub local_get :
      ℕ → LocalStorage F → Str → LocalStorage F × Checked (Option LocalObject)
  local_get now p hash = get_dir now p hash (prefix hash)

  -- The metadata of one file; a file that is not there or cannot be read is passed over.
  unfoldable pub file_meta : LocalStorage F → Str → Option ObjectMeta
  file_meta p path = elim (ops.stat p.files path) [
    | none ↦ none
    | some n ↦ elim (ops.read_file p.files path) [
      | none ↦ none
      | some bytes ↦ elim (format.unmarshal bytes) [
        | none ↦ none
        | some object ↦ some (with_metadata object.metadata)
      ]
    ]
  ]

  unfoldable pub add_meta :
      Option ObjectMeta → Checked (List ObjectMeta) → Checked (List ObjectMeta)
  add_meta none rest = rest
  add_meta (some m) (ok ms) = ok (m ∷ ms)
  add_meta (some m) panic = panic

  unfoldable pub query_dir :
      LocalStorage F → Str → Checked Str → Checked (List ObjectMeta) → Checked (List ObjectMeta)
  query_dir p hash (ok dir) rest = add_meta (file_meta p (object_path p dir hash)) rest
  query_dir p hash panic rest = panic

  unfoldable pub local_query : LocalStorage F → List Str → Checked (List ObjectMeta)
  local_query p [] = ok []
  local_query p (hash ∷ hashes) =
      let rest = local_query p hashes in query_dir p hash (prefix hash) rest

  -- The goroutine that deletes an expired object.
  unfoldable pub removed : LocalStorage F → ℕ → F × Bool → LocalStorage F
  removed p size (files, false) = record p { files = files }
  removed p size (files, true) = record p {
    files = files;
    size_removed = p.size_removed + size;
    objects_removed = p.objects_removed + 1;
  }

  unfoldable pub delete_file : LocalStorage F → Str → Option ℕ → LocalStorage F
  delete_file p path none = p
  delete_file p path (some size) = removed p size (ops.remove p.files path)

  unfoldable pub delete_dir : LocalStorage F → Str → Checked Str → Checked (LocalStorage F)
  delete_dir p hash (ok dir) =
      let path = object_path p dir hash in ok (delete_file p path (ops.stat p.files path))
  delete_dir p hash panic = panic

  unfoldable pub delete_expired : LocalStorage F → Str → Checked (LocalStorage F)
  delete_expired p hash = delete_dir p hash (prefix hash)

  -- The walk of `Configure` over the files: `none` is its error; the files to delete.
  unfoldable pub scanned : LocalStorage F → Str → Option LocalObject → LocalStorage F × List Str
  scanned p path none = (p, path ∷ [])
  scanned p path (some object) = (
    record p {
      notifier = notifier_add p.notifier (format.base path) (get_expiration_date object.metadata);
    },
    [],
  )

  unfoldable pub scan_file : LocalStorage F → Str → ℕ → Option (LocalStorage F × List Str)
  scan_file p path size =
      let counted = record p {
        objects_added = p.objects_added + 1;
        size_added = p.size_added + size;
      } in
      elim (ops.read_file p.files path) [
        | none ↦ none
        | some bytes ↦ some (scanned counted path (format.unmarshal bytes))
      ]

  unfoldable pub scan_files :
      LocalStorage F → List (Str × ℕ) → List Str → Option (LocalStorage F × List Str)
  scan_files p [] bad = some (p, bad)
  scan_files p ((path, size) ∷ rest) bad = elim (scan_file p path size) [
    | none ↦ none
    | some r ↦ scan_files r.0 rest (bad ++ r.1)
  ]

  -- The files that could not be read are deleted; an error is only logged.
  unfoldable pub remove_files : F → List Str → F
  remove_files files [] = files
  remove_files files (path ∷ rest) = remove_files (ops.remove files path).0 rest

  unfoldable pub configure_root : LocalStorage F → F × Bool → Option (LocalStorage F)
  configure_root p (files, false) = none
  configure_root p (files, true) =
      let q = record p {
        files = files;
        objects_added = 0;
        objects_removed = 0;
        size_added = 0;
        size_removed = 0;
      } in
      elim (ops.walk files p.root) [
        | none ↦ none
        | some found ↦ elim (scan_files q found []) [
          | none ↦ none
          | some r ↦ some (record r.0 { files = remove_files r.0.files r.1 })
        ]
      ]

  -- `Configure` up to its goroutines.
  unfoldable pub configure : LocalStorage F → Option (LocalStorage F)
  configure p = configure_root p (ops.mkdir_all p.files p.root)

  -- Every minute: whether the size is over the limit.
  unfoldable pub over_limit : LocalStorage F → Bool
  over_limit p = ltb (p.size_limit + p.size_removed) p.size_added

  -- The loop of `DeleteObjectsClosestToExpiration` goes on at nine tenths of the limit.
  unfoldable pub to_reclaim : LocalStorage F → Bool
  to_reclaim p = leb (9 * p.size_limit + 10 * p.size_removed) (10 * p.size_added)
