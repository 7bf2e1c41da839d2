-- ===== src/Storage/S3.antt =====
-- `S3StorageProvider` of pkg/storage/s3.go. The client and the texts of numbers are parameters. The
-- goroutines of `Get` are run to their ends: the read gives the bytes it got, and whether it failed.
pub mod Reads
use kubecc.Common.{
  ℕ, ◌+◌, if◌then◌else◌, List, [], ◌∷◌, ◌++◌, Option, none, some, Bool, true, false, Str, go,
}
use kubecc.Common.Map.{Map, lookup, insert}
use kubecc.Storage.Local.{ManagedFields, ObjectMeta, LocalObject}

pub record ObjectInfo : Type 0 where
  pub size : ℕ
  pub expiration : ℕ
  pub user_tags : Map Str
  pub user_metadata : Map Str

-- What a read of an object gives: an error before any byte, or bytes and whether it went to the end.
pub record S3Client (C : Type 0) : Type 0 where
  pub bucket_exists : C → Option Bool
  pub make_bucket : C → C × Bool
  pub get_lifecycle : C → Option (List ℕ)
  pub set_lifecycle : C → List ℕ → C × Bool
  pub put_object : C → Str → Str → Map Str → Map Str → C × Bool
  pub stat_object : C → Str → Option ObjectInfo
  pub get_object : C → Str → Option (Str × Bool)
  pub copy_object : C → Str → Map Str → C

pub record NumberText : Type 0 where
  pub parse_int : Str → Option ℕ
  pub format_int : ℕ → Str

pub record S3Storage (C : Type 0) : Type 0 where
  pub client : C
  pub expiration_days : ℕ
  pub cache_hits : ℕ
  pub cache_misses : ℕ

-- The bytes that `Get` takes from the buffer.
unfoldable pub bytes_read : Option (Str × Bool) → Str
bytes_read none = []
bytes_read (some (bytes, finished)) = bytes

unfoldable pub tags_of : Option ObjectMeta → Map Str
tags_of none = []
tags_of (some m) = m.tags

module _ {C : Type 0} (ops : S3Client C) (numbers : NumberText) where
  unfoldable pub configured : S3Storage C → C × Bool → S3Storage C × Bool
  configured sp (client, fine) = (record sp { client = client }, fine)

  -- The rule of expiration is added to those of the bucket.
  unfoldable pub add_rule : S3Storage C → Option (List ℕ) → S3Storage C × Bool
  add_rule sp none = (sp, false)
  add_rule sp (some rules) =
      configured sp (ops.set_lifecycle sp.client (rules ++ sp.expiration_days ∷ []))

  unfoldable pub set_up_bucket : S3Storage C → C × Bool → S3Storage C × Bool
  set_up_bucket sp (client, false) = (record sp { client = client }, false)
  set_up_bucket sp (client, true) =
      add_rule (record sp { client = client }) (ops.get_lifecycle client)

  unfoldable pub bucket_found : S3Storage C → Option Bool → S3Storage C × Bool
  bucket_found sp none = (sp, false)
  bucket_found sp (some true) = (sp, true)
  bucket_found sp (some false) = set_up_bucket sp (ops.make_bucket sp.client)

  -- `createBucketIfNotExists`: the provider, and whether it succeeded.
  unfoldable pub create_bucket_if_not_exists : S3Storage C → S3Storage C × Bool
  create_bucket_if_not_exists sp = bucket_found sp (ops.bucket_exists sp.client)

  unfoldable pub s3_put : ℕ → S3Storage C → Str → LocalObject → S3Storage C × Bool
  s3_put now sp hash object = configured sp (
      ops.put_object sp.client hash object.content
        ((go "timestamp", numbers.format_int now) ∷ (go "score", go "1") ∷ [])
        (tags_of object.metadata))

  -- The score that the metadata has, or 1.
  unfoldable pub parsed_score : Option ℕ → ℕ
  parsed_score none = 1
  parsed_score (some n) = n

  unfoldable pub old_score : Option Str → ℕ
  old_score none = 1
  old_score (some value) = parsed_score (numbers.parse_int value)

  unfoldable pub next_score : ObjectInfo → ℕ
  next_score info = old_score (lookup (go "score") info.user_metadata) + 1

  unfoldable pub s3_object : ℕ → ObjectInfo → Str → LocalObject
  s3_object now info bytes = record {
    content = bytes;
    metadata = some (record {
      tags = info.user_tags;
      expiration_date = info.expiration;
      managed = some (record { size = info.size; timestamp = now; score = next_score info });
    });
  }

  unfoldable pub get_info :
      ℕ → Bool → S3Storage C → Str → Option ObjectInfo → S3Storage C × Option LocalObject
  get_info now cancelled sp hash none = (record sp { cache_misses = sp.cache_misses + 1 }, none)
  get_info now cancelled sp hash (some info) =
      let read = ops.get_object sp.client hash in
      let scored = insert (go "score") (numbers.format_int (next_score info)) info.user_metadata in
      (
        record sp {
          client = ops.copy_object sp.client hash scored;
          cache_hits = sp.cache_hits + 1;
        },
        (if cancelled then none else some (s3_object now info (bytes_read read))),
      )

  -- `Get`, at a time, and whether the context ends before the read: an error of the read comes over
  -- the channel `done`, and is dropped.
  unfoldable pub s3_get : ℕ → Bool → S3Storage C → Str → S3Storage C × Option LocalObject
  s3_get now cancelled sp hash = get_info now cancelled sp hash (ops.stat_object sp.client hash)

  unfoldable pub with_score : ObjectInfo → Option ℕ → Option ℕ → Option ObjectMeta
  with_score info none score = none
  with_score info (some timestamp) none = none
  with_score info (some timestamp) (some score) = some (record {
    tags = info.user_tags;
    expiration_date = info.expiration;
    managed = some (record { size = info.size; timestamp = timestamp; score = score });
  })

  -- A value that is not there is the empty text.
  unfoldable pub number_at : Option Str → Option ℕ
  number_at none = numbers.parse_int []
  number_at (some value) = numbers.parse_int value

  unfoldable pub info_meta : Option ObjectInfo → Option ObjectMeta
  info_meta none = none
  info_meta (some info) =
      with_score info (number_at (lookup (go "timestamp") info.user_metadata))
        (number_at (lookup (go "score") info.user_metadata))

  -- `Query`, of a context that does not end.
  unfoldable pub s3_query : S3Storage C → List Str → List (Option ObjectMeta)
  s3_query sp [] = []
  s3_query sp (hash ∷ hashes) = info_meta (ops.stat_object sp.client hash) ∷ s3_query sp hashes
