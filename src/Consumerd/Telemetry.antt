-- ===== src/Consumerd/Telemetry.antt =====
-- `Telemetry` of pkg/consumerd/telemetry.go: its history and the parts of it. A time is a number, and the
-- zero time is 0; a value is the number that its bits are. `sort.Search` finds the first index that passes, as
-- it does where the entries are in the order of their times.
pub mod Range
use kubecc.Common.{
  ℕ, zero, suc, ◌+◌, ◌-◌, ◌==◌, if◌then◌else◌, List, [], ◌∷◌, ◌++◌, Option, none, some, Bool, true,
  false, not, ◌&&◌, ◌||◌, Checked, ok, panic, length, take, drop, keep_if, ltb, leb,
}
use kubecc.Consumerd.Queue.{SplitQueue}

pub data EntryKind : Type 0 where
  invalid completed_tasks_local completed_tasks_remote running_tasks queued_tasks delegated_tasks :
      EntryKind

pub record Entry : Type 0 where
  pub x : ℕ
  pub y : ℕ
  pub kind : EntryKind

pub record Telemetry : Type 0 where
  pub recording : Bool
  pub history : List Entry
  pub start_time : ℕ

unfoldable pub new_telemetry : Telemetry
new_telemetry = record { recording = false; history = []; start_time = 0 }

unfoldable pub record_entry : ℕ → Entry → Telemetry → Telemetry
record_entry now e t =
    if t.recording then record t { history = t.history ++ record e { x = now } ∷ [] } else t

unfoldable pub start_recording : ℕ → Telemetry → Telemetry
start_recording now t = record t { start_time = now; recording = true }

unfoldable pub stop_recording : Telemetry → Telemetry
stop_recording t = record t { recording = false }

unfoldable pub clear_history : Telemetry → Telemetry
clear_history t = record t { history = [] }

unfoldable pub filter_entries : (Entry → Bool) → List Entry → List Entry
filter_entries include entries = keep_if include entries

-- `sort.Search` for the first entry that is not before a time.
unfoldable pub search_from : ℕ → List Entry → ℕ
search_from time [] = 0
search_from time (e ∷ entries) =
    let rest = search_from time entries in if leb time e.x then 0 else suc rest

-- `e[start:end]`
unfoldable pub slice_entries : List Entry → ℕ → ℕ → Checked (List Entry)
slice_entries entries start end =
    if leb start end && leb end (length entries) then ok (drop start (take end entries)) else panic

-- Where no end is given it is the last index, which an empty history does not have.
unfoldable pub slice_to_last : List Entry → ℕ → Checked (List Entry)
slice_to_last [] start = panic
slice_to_last (e ∷ entries) start = slice_entries (e ∷ entries) start (length entries)

unfoldable pub start_index : List Entry → ℕ → ℕ
start_index entries begin = if begin == 0 then 0 else search_from begin entries

-- `TimeRange`
unfoldable pub time_range : List Entry → ℕ → ℕ → Checked (List Entry)
time_range entries begin end =
    if ltb end begin
    then panic
    else if end == 0
    then slice_to_last entries (start_index entries begin)
    else slice_entries entries (start_index entries begin) (search_from end entries)
