-- ===== src/Storage/S3/Reads.antt =====
-- The reads of pkg/storage/s3.go.
use kubecc.Common.{ℕ, ◌+◌, ◌≡◌, refl, Option, none, some, false, Str, is_some, arith}
use kubecc.Storage.S3.{ObjectInfo, S3Client, NumberText, S3Storage, get_info, s3_get}

-- What a `Get` answers, and what it counts.
abbrev pub hits_and_misses : {C : Type 0} → S3Storage C → ℕ
hits_and_misses sp = sp.cache_hits + sp.cache_misses

module _ {C : Type 0} (ops : S3Client C) (numbers : NumberText) where
  info_case :
      (now : ℕ) (sp : S3Storage C) (hash : Str) (o : Option ObjectInfo)
      → let r = get_info ops numbers now false sp hash o in
        (is_some r.1 ≡ is_some o) × (hits_and_misses r.0 ≡ hits_and_misses sp + 1)
  unfolding get_info
  info_case now sp hash none = (refl, omega arith)
  info_case now sp hash (some info) = (refl, omega arith)

  -- For every client and provider, while the context does not end: `Get` answers with an object just
  -- when the object's information is there, whether or not the read of its bytes fails; and each
  -- call counts one hit or one miss.
  pub s3_get-is_some :
      (now : ℕ) (sp : S3Storage C) (hash : Str)
      → let r = s3_get ops numbers now false sp hash in
        (is_some r.1 ≡ is_some (ops.stat_object sp.client hash))
        × (hits_and_misses r.0 ≡ hits_and_misses sp + 1)
  unfolding s3_get
  s3_get-is_some now sp hash = info_case now sp hash (ops.stat_object sp.client hash)
