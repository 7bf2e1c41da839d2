-- ===== src/Toolchains/Update.antt =====
-- `UpdateIfNeeded` of pkg/toolchains/store.go. The toolchain that it gets is the store's own object, so
-- what `fillInfo` sets before a query fails stays. A modification time that could not be read is the
-- zero time.
use kubecc.Common.{
  ◌==◌, if◌then◌else◌, [], Option, none, some, Bool, true, false, Str, Checked, ok, panic,
}
use kubecc.Common.Map.{Map, lookup, insert, delete}
use kubecc.Types.Toolchain.{Toolchain, Kind, Lang}
use kubecc.Toolchains.Store.{ModTime, modified, path_error, other_error, Querier, ToolchainData}

-- What each query sets, and whether the next one runs.
unfoldable pub fill_arch : Toolchain → Option Str → Toolchain × Bool
fill_arch tc none = (record tc { target_arch = [] }, false)
fill_arch tc (some arch) = (record tc { target_arch = arch }, true)

unfoldable pub fill_version : Toolchain × Bool → Option Str → Toolchain × Bool
fill_version (tc, false) o = (tc, false)
fill_version (tc, true) none = (record tc { version = [] }, false)
fill_version (tc, true) (some version) = (record tc { version = version }, true)

unfoldable pub fill_pic : Toolchain × Bool → Option Bool → Toolchain × Bool
fill_pic (tc, false) o = (tc, false)
fill_pic (tc, true) none = (record tc { pic_default = false }, false)
fill_pic (tc, true) (some pic) = (record tc { pic_default = pic }, true)

unfoldable pub fill_kind : Toolchain × Bool → Option Kind → Toolchain × Bool
fill_kind (tc, false) o = (tc, false)
fill_kind (tc, true) none = (record tc { kind = Kind.unknown }, false)
fill_kind (tc, true) (some kind) = (record tc { kind = kind }, true)

unfoldable pub fill_lang : Toolchain × Bool → Option Lang → Toolchain × Bool
fill_lang (tc, false) o = (tc, false)
fill_lang (tc, true) none = (record tc { lang = Lang.unknown }, false)
fill_lang (tc, true) (some lang) = (record tc { lang = lang }, true)

-- `fillInfo` on the store's toolchain; a query gives the zero value with its error.
unfoldable pub fill_in_place : Toolchain → Querier → Toolchain × Bool
fill_in_place tc q =
    let exe = tc.executable in
    fill_lang
      (fill_kind
        (fill_pic (fill_version (fill_arch tc (q.target_arch exe)) (q.version exe))
          (q.is_pic_default exe))
        (q.kind exe))
      (q.lang exe)

unfoldable pub same_time : ModTime → ModTime → Bool
same_time (modified a) (modified b) = a == b
same_time (modified a) path_error = false
same_time (modified a) other_error = false
same_time path_error (modified b) = false
same_time path_error path_error = true
same_time path_error other_error = true
same_time other_error (modified b) = false
same_time other_error path_error = true
same_time other_error other_error = true

pub data UpdateError : Type 0 where
  gone invalid : UpdateError

-- The store, its toolchain, the error and whether something was updated.
pub record Updated : Type 0 where
  pub store : Map ToolchainData
  pub toolchain : Toolchain
  pub error : Option UpdateError
  pub updated : Bool

unfoldable pub refilled : Map ToolchainData → ToolchainData → ModTime → Toolchain × Bool → Updated
refilled s data_of time (tc, true) = record {
  store = insert tc.executable (record data_of { toolchain = tc; mod_time = time }) s;
  toolchain = tc;
  error = none;
  updated = true;
}
refilled s data_of time (tc, false) = record {
  store = insert tc.executable (record data_of { toolchain = tc }) s;
  toolchain = tc;
  error = some invalid;
  updated = true;
}

unfoldable pub update_changed : Map ToolchainData → Toolchain → ToolchainData → ModTime → Updated
update_changed s tc data_of time =
    if same_time time data_of.mod_time
    then record { store = s; toolchain = tc; error = none; updated = false }
    else refilled s data_of time (fill_in_place tc data_of.querier)

unfoldable pub update_data : Map ToolchainData → Toolchain → ToolchainData → ModTime → Updated
update_data s tc data_of path_error = record {
  store = delete tc.executable s;
  toolchain = tc;
  error = some gone;
  updated = true;
}
update_data s tc data_of (modified t) = update_changed s tc data_of (modified t)
update_data s tc data_of other_error = update_changed s tc data_of other_error

-- A toolchain that the store does not have is a nil pointer.
unfoldable pub update_if_needed : Map ToolchainData → Toolchain → Checked Updated
update_if_needed s tc = elim (lookup tc.executable s) [
  | none ↦ panic
  | some d ↦ ok (update_data s tc d (d.querier.mod_time tc.executable))
]
