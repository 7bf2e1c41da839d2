-- ===== src/Scheduler/Router.antt =====
-- `Router` and `route` of pkg/scheduler/router.go. Routes are objects that goroutines go on
-- pointing to after the map has dropped them, so they stand in a heap: a pointer is an index.
-- The goroutines that wait for a consumerd's or an agent's context are the list `attached`.
-- The MD5 hash of a toolchain is code outside the repository: the parameter `tc_hash`.
pub mod Counts
pub mod History
pub mod Update
use kubecc.Common.{
  ℕ, zero, suc, ◌+◌, ◌-◌, List, [], ◌∷◌, ◌++◌, Option, none, some, Bool, true, false, not, ◌&&◌,
  Str, str_eq, length, get_or, ltb, leb, ◌==◌, if◌then◌else◌, any, modify, get_elem?, erase_idx,
}
use kubecc.Common.Map.{Map, lookup, insert, delete}
use kubecc.Types.Toolchain.{Kind, Lang, Toolchain, equivalent_to}

pub record Route : Type 0 where
  pub hash : Str
  pub rx_ref_count : ℕ
  pub tx_ref_count : ℕ
  pub senders : List Str
  pub receivers : List Str
  pub cancelled : Bool
  pub closed : Bool

abbrev pub new_route : Str → Route
new_route hash = record {
  hash = hash;
  rx_ref_count = 0;
  tx_ref_count = 0;
  senders = [];
  receivers = [];
  cancelled = false;
  closed = false;
}

pub data Side : Type 0 where
  sender receiver : Side

-- A goroutine that will undo an attachment.
pub record Attachment : Type 0 where
  pub side : Side
  pub route : ℕ
  pub uuid : Str

pub record Router : Type 0 where
  pub senders : Map (List Toolchain)
  pub receivers : Map (List Toolchain)
  pub routes : Map ℕ
  pub heap : List Route
  pub attached : List Attachment

abbrev pub new_router : Router
new_router = record { senders = []; receivers = []; routes = []; heap = []; attached = [] }

abbrev pub route_at : Router → ℕ → Route
route_at r p = get_or r.heap p (new_route [])

-- `mapset.Set` of identities.
unfoldable pub set_add : Str → List Str → List Str
set_add u l = if any (str_eq u) l then l else l ++ u ∷ []

unfoldable pub set_remove : Str → List Str → List Str
set_remove u [] = []
set_remove u (v ∷ l) = if str_eq u v then set_remove u l else v ∷ set_remove u l

unfoldable pub can_send : Route → Bool
can_send rt = ltb 0 rt.rx_ref_count

-- `cancel` if a count is at most 0 after its decrement and the other one is.
abbrev pub cancel_if_unused : Route → Route
cancel_if_unused rt =
    if rt.rx_ref_count == 0 && rt.tx_ref_count == 0 then record rt { cancelled = true } else rt

abbrev pub dec_rx : Route → Route
dec_rx rt = cancel_if_unused (record rt { rx_ref_count = rt.rx_ref_count - 1 })

abbrev pub dec_tx : Route → Route
dec_tx rt = cancel_if_unused (record rt { tx_ref_count = rt.tx_ref_count - 1 })

unfoldable pub attach : Side → Str → Route → Route
attach sender uuid rt = record rt {
  senders = set_add uuid rt.senders;
  tx_ref_count = rt.tx_ref_count + 1;
}
attach receiver uuid rt = record rt {
  receivers = set_add uuid rt.receivers;
  rx_ref_count = rt.rx_ref_count + 1;
}

-- The deferred calls of an attachment's goroutine, the last one first.
unfoldable pub detach : Side → Str → Route → Route
detach sender uuid rt = let rt' = dec_tx rt in record rt' { senders = set_remove uuid rt'.senders }
detach receiver uuid rt =
    let rt' = dec_rx rt in record rt' { receivers = set_remove uuid rt'.receivers }

-- `attachSender` and `attachReceiver`: the change and the goroutine that will undo it.
unfoldable pub attach_to : Side → Str → Router → ℕ → Router
attach_to side uuid r p = record r {
  heap = modify p (attach side uuid) r.heap;
  attached = record { side = side; route = p; uuid = uuid } ∷ r.attached;
}

-- Whether a list has a toolchain equivalent to the given one.
unfoldable pub has_equivalent : Toolchain → List Toolchain → Bool
has_equivalent tc tcs = any (equivalent_to tc) tcs

-- What the second loop leaves: its variable, and the functions it deferred, the last one first. Such
-- a function captures the variable of the loop, which all iterations share, and reads it when it runs.
pub record SecondLoop : Type 0 where
  pub new_tc : Option Toolchain
  pub deferred : List (Option Toolchain → Router → Router)

unfoldable pub run_deferred :
    List (Option Toolchain → Router → Router) → Option Toolchain → Router → Router
run_deferred [] new_tc r = r
run_deferred (f ∷ fs) new_tc r = run_deferred fs new_tc (f new_tc r)

module _ (tc_hash : Toolchain → Str) where
  unfoldable pub route_for_toolchain : Router → Toolchain → Router × ℕ
  route_for_toolchain r tc = elim (lookup (tc_hash tc) r.routes) [
    | none ↦
        let p = length r.heap in
        (
          record r {
            routes = insert (tc_hash tc) p r.routes;
            heap = r.heap ++ new_route (tc_hash tc) ∷ [];
          },
          p,
        )
    | some p ↦ (r, p)
  ]

  abbrev pub attach_toolchain : Side → Str → Router → Toolchain → Router
  attach_toolchain side uuid r tc =
      let found = route_for_toolchain r tc in attach_to side uuid found.0 found.1

  unfoldable pub attach_all : Side → Str → Router → List Toolchain → Router
  attach_all side uuid r [] = r
  attach_all side uuid r (tc ∷ tcs) = attach_all side uuid (attach_toolchain side uuid r tc) tcs

  unfoldable pub add_sender : Router → Str → List Toolchain → Router
  add_sender r uuid tcs =
      attach_all sender uuid (record r { senders = insert uuid tcs r.senders }) tcs

  unfoldable pub add_receiver : Router → Str → List Toolchain → Router
  add_receiver r uuid tcs =
      attach_all receiver uuid (record r { receivers = insert uuid tcs r.receivers }) tcs

  abbrev pub cancel_route : Router → Toolchain → Router
  cancel_route r tc =
      let found = route_for_toolchain r tc in
      record found.0 { heap = modify found.1 (λ rt. record rt { cancelled = true }) found.0.heap }

  -- The first loop: routes of the toolchains that are gone are cancelled.
  unfoldable pub cancel_missing : Router → List Toolchain → List Toolchain → Router
  cancel_missing r [] new = r
  cancel_missing r (old ∷ olds) new =
      cancel_missing (if has_equivalent old new then r else cancel_route r old) olds new

  -- The deferred function.
  unfoldable pub attach_captured : Str → Option Toolchain → Router → Router
  attach_captured uuid none r = r
  attach_captured uuid (some tc) r = attach_toolchain sender uuid r tc

  unfoldable pub attach_new : Str → List Toolchain → List Toolchain → SecondLoop → SecondLoop
  attach_new uuid old [] l = l
  attach_new uuid old (tc ∷ tcs) l = attach_new uuid old tcs (record {
    new_tc = some tc;
    deferred = if has_equivalent tc old then l.deferred else attach_captured uuid ∷ l.deferred;
  })

  -- `UpdateSenderToolchains`; the deferred functions run when it returns.
  unfoldable pub update_sender_toolchains : Router → Str → List Toolchain → Router
  update_sender_toolchains r uuid new = elim (lookup uuid r.senders) [
    | none ↦ r
    | some old ↦
        let r' = cancel_missing r old new in
        let l = attach_new uuid old new (record { new_tc = none; deferred = [] }) in
        run_deferred l.deferred l.new_tc (record r' { senders = insert uuid new r'.senders })
  ]

-- The goroutine of an attachment ends: its context is done, or the route's channel is closed.
unfoldable pub detach_at : Router → ℕ → Router
detach_at r i = elim (get_elem? r.attached i) [
  | none ↦ r
  | some a ↦ record r {
    heap = modify a.route (detach a.side a.uuid) r.heap;
    attached = erase_idx r.attached i;
  }
]

-- The goroutine of `newRoute`, once the route is cancelled.
unfoldable pub reap : Router → ℕ → Router
reap r p =
    if (route_at r p).cancelled && not (route_at r p).closed
    then record r {
      heap = modify p (λ rt. record rt { closed = true }) r.heap;
      routes = delete (route_at r p).hash r.routes;
    }
    else r
