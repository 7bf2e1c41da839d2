-- ===== src/Tests/Local.antt =====
-- The theorems on the local and the S3 storage and on the notifier at concrete inputs: the files are a
-- map, and an object's text has its numbers in front of its content.
use kubecc.Common.{
  ℕ, ◌+◌, ◌≡◌, refl, ap, sym, List, [], ◌∷◌, Option, none, some, true, false, Str, str_eq, go,
  Checked, ok, panic, length, map, arith,
}
use kubecc.Common.Map.{Map, lookup, insert, delete, lookup-insert_self}
use kubecc.Storage.Chain.{Provider}
use kubecc.Storage.Notifier.{
  ExpirationNotifier, new_expiration_notifier, asleep, NotifierEvent, adds, pushes, signals, ticks,
  forces, rescans, wakes, notifier_add, notifier_run,
}
use kubecc.Storage.Local.{
  ManagedFields, ObjectMeta, LocalObject, Files, Format, LocalStorage, new_local_storage, manage,
  local_put, local_get, local_query, delete_expired, object_path, file_meta, put_managed, prefix,
  put_in, write_object, stored, get_expiration_date, delete_dir, delete_file, removed,
}
use kubecc.Storage.Local.Roundtrip.{FilesLaws, local_put-local_get}
use kubecc.Storage.S3.{ObjectInfo, S3Client, NumberText, S3Storage}

abbrev history : List NotifierEvent
history = adds (go "aa") 5 ∷ wakes ∷ adds (go "bb") 3 ∷ rescans ∷ ticks 4 ∷ adds (go "cc") 9 ∷ []

abbrev reached : ExpirationNotifier
reached = notifier_run new_expiration_notifier history

abbrev idle : ExpirationNotifier
idle = record { heap = []; expired = []; rescan = false; added = false; state = asleep }

abbrev two_adds : List NotifierEvent
two_adds =
    pushes (go "aa") 5
    ∷ pushes (go "bb") 3
    ∷ signals (go "aa")
    ∷ signals (go "bb")
    ∷ wakes
    ∷ forces
    ∷ []

-- The size of a file that is there.
abbrev size_of : Option Str → Option ℕ
size_of none = none
size_of (some bytes) = some (length bytes)

abbrev files : Files (Map Str)
files = record {
  stat = λ f path. size_of (lookup path f);
  read_file = λ f path. lookup path f;
  write_file = λ f path bytes. (insert path bytes f, true);
  remove = λ f path. (delete path f, true);
  mkdir_all = λ f path. (f, true);
  walk = λ f path. some [];
}

abbrev encode : Str → ℕ → Map Str → Option ManagedFields → Option Str
encode content date [] none = none
encode content date [] (some f) = some (date ∷ f.size ∷ f.timestamp ∷ f.score ∷ content)
encode content date (t ∷ tags) managed = none

abbrev encode_meta : Str → Option ObjectMeta → Option Str
encode_meta content none = none
encode_meta content (some m) = encode content m.expiration_date m.tags m.managed

abbrev decode : Str → Option LocalObject
decode (date ∷ size ∷ timestamp ∷ score ∷ content) = some (record {
  content = content;
  metadata = some (record {
    tags = [];
    expiration_date = date;
    managed = some (record { size = size; timestamp = timestamp; score = score });
  });
})
decode (a ∷ b ∷ c ∷ []) = none
decode (a ∷ b ∷ []) = none
decode (a ∷ []) = none
decode [] = none

-- A path is the name of its file.
abbrev last_part : List Str → Str
last_part [] = []
last_part (a ∷ []) = a
last_part (a ∷ b ∷ l) = last_part (b ∷ l)

abbrev format : Format
format = record {
  marshal = λ o. encode_meta o.content o.metadata;
  unmarshal = decode;
  join = last_part;
  base = λ path. path;
}

some_inj : (a b : Str) → some a ≡ some b → a ≡ b
some_inj a b h = cc

decode-encode :
    (content : Str) (date : ℕ) (tags : Map Str) (managed : Option ManagedFields) (bytes : Str)
    → encode content date tags managed ≡ some bytes
    → decode bytes
      ≡ some (record {
        content = content;
        metadata = some (record { tags = tags; expiration_date = date; managed = managed });
      })
decode-encode content date [] none bytes h = absurd (grind arith)
decode-encode content date [] (some f) bytes h = ap decode (some_inj bytes _ (sym h))
decode-encode content date (t ∷ tags) managed bytes h = absurd (grind arith)

decode-encode_meta :
    (content : Str) (m : Option ObjectMeta) (bytes : Str)
    → encode_meta content m ≡ some bytes
    → decode bytes ≡ some (record { content = content; metadata = m })
decode-encode_meta content none bytes h = absurd (grind arith)
decode-encode_meta content (some m) bytes h =
    decode-encode content m.expiration_date m.tags m.managed bytes h

laws : FilesLaws files format
laws = record {
  read_written = λ f path bytes h. lookup-insert_self path bytes f;
  stat_written = λ f path bytes h. ap size_of (lookup-insert_self path bytes f);
  unmarshal_marshal = λ o bytes h. decode-encode_meta o.content o.metadata bytes h;
  join_join = λ a b c. refl;
}

abbrev a_meta : ObjectMeta
a_meta = record { tags = []; expiration_date = 9; managed = none }

abbrev an_object : LocalObject
an_object = record { content = 1 ∷ 2 ∷ []; metadata = some a_meta }

abbrev before : LocalStorage (Map Str)
before = new_local_storage [] (go "/") 100

abbrev written : Str
written = 9 ∷ 2 ∷ 5 ∷ 0 ∷ 1 ∷ 2 ∷ []

abbrev after : LocalStorage (Map Str)
after = record {
  files = (go "abc", 9 ∷ 2 ∷ 5 ∷ 0 ∷ 1 ∷ 2 ∷ []) ∷ [];
  root = go "/";
  size_limit = 100;
  objects_added = 1;
  objects_removed = 0;
  size_added = 2;
  size_removed = 0;
  cache_hits = 0;
  cache_misses = 0;
  notifier = notifier_add new_expiration_notifier (go "abc") 9;
}

put_lem : local_put files format 5 before (go "abc") an_object ≡ ok (after, true)
unfolding local_put new_local_storage insert put_managed prefix put_in write_object manage stored
    get_expiration_date
put_lem = refl

local_put-local_get_example :
    local_get files format 8 after (go "abc")
    ≡ (record after { cache_hits = after.cache_hits + 1 }, ok (some (manage 8 an_object a_meta)))
local_put-local_get_example =
    local_put-local_get files format laws 5 8 before after (go "abc") an_object a_meta (omega arith)
      refl put_lem

abbrev deleted : LocalStorage (Map Str)
deleted = record after { files = []; objects_removed = 1; size_removed = 6 }

delete_lem : delete_expired files format after (go "abc") ≡ ok deleted
unfolding delete_expired delete lookup delete_dir prefix delete_file str_eq object_path removed
delete_lem = refl

marshal_lem : format.marshal (manage 5 an_object a_meta) ≡ some written
unfolding manage
marshal_lem = refl

abbrev all_results : Checked (List ObjectMeta) → List (Option ObjectMeta)
all_results (ok ms) = map some ms
all_results panic = []

abbrev chain : Provider (LocalStorage (Map Str)) Str LocalObject ObjectMeta
chain = record {
  get = λ p k. (p, none);
  put = λ p k v. (p, false);
  query = λ p ks. all_results (local_query files format p ks);
}

chain-answers :
    (p : LocalStorage (Map Str)) (ks : List Str) (ms : List ObjectMeta)
    → local_query files format p ks ≡ ok ms
    → chain.query p ks ≡ map some ms
chain-answers p ks ms h = ap all_results h

no_file : file_meta files format after (object_path files format after (go "xy") (go "xyz")) ≡ none
unfolding file_meta object_path lookup str_eq
no_file = refl

abbrev an_info : ObjectInfo
an_info = record { size = 4; expiration = 9; user_tags = []; user_metadata = [] }

-- A client whose reads break off after one byte.
abbrev client : S3Client Unit
client = record {
  bucket_exists = λ c. some true;
  make_bucket = λ c. (c, true);
  get_lifecycle = λ c. some [];
  set_lifecycle = λ c rules. (c, true);
  put_object = λ c hash bytes meta tags. (c, true);
  stat_object = λ c hash. some an_info;
  get_object = λ c hash. some (1 ∷ [], false);
  copy_object = λ c hash meta. c;
}

abbrev numbers : NumberText
numbers = record { parse_int = λ s. none; format_int = λ n. n ∷ [] }

abbrev s3 : S3Storage Unit
s3 = record { client = tt; expiration_days = 3; cache_hits = 0; cache_misses = 0 }
