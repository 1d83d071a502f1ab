-- ===== src/Server.antt =====
-- launcher/internal/server/server.go: the gates that a request passes, the requests that are on their
-- way at one time, and the drain. Requests are counted by how far they are, since nothing else of them
-- is shared.
pub mod Paths
pub mod Draining
pub mod Closing
pub mod Watch
pub mod Watching
pub mod Updates
pub mod Cancelling
use kobra_game.Base.{
  ℕ, zero, suc, ◌+◌, String, Bool, true, false, not, Option, none, some, List, [], ◌∷◌, ◌&&◌, ◌||◌,
  ltb, ◌==◌, if◌then◌else◌,
}
use kobra_game.Base.Int.{ℤ, pos, negsuc, leb_ℤ, ◌+ℤ◌}
use kobra_game.Storage.Text.{Text, same_text}
use kobra_game.Update.Archive.{split, clean_path, dot, dot_dot}

-- What the gates read of a request; a missing Origin is empty.
pub record Incoming : Type 0 where
  pub host : Text
  pub origin : Text
  pub path : Text

-- The server's address, as a Host and as an origin.
pub record Address : Type 0 where
  pub own_host : Text
  pub own_origin : Text

-- How a request ends before the handlers, or the components of the path it goes on with.
pub data Gate : Type 0 where
  draining misdirected bad_origin not_found : Gate
  passed : List Text → Gate

abbrev pub contains_byte : ℕ → Text → Bool
contains_byte b [] = false
contains_byte b (c ∷ s) = (c == b) || contains_byte b s

-- `Contains(raw, "//")`
abbrev pub double_slash : Text → Bool
double_slash [] = false
double_slash (c ∷ []) = false
double_slash (c ∷ d ∷ s) = ((c == 47) && (d == 47)) || double_slash (d ∷ s)

abbrev pub dotted : List Text → Bool
dotted [] = false
dotted (w ∷ ws) = same_text w dot || same_text w dot_dot || dotted ws

abbrev pub or_root : Text → Text
or_root [] = 47 ∷ []
or_root (c ∷ s) = c ∷ s

-- `normalisePath` by the components of the cleaned path, none for a refusal.
unfoldable pub normalise_path : Text → Option (List Text)
normalise_path path =
    let raw = or_root path in
    if contains_byte 92 raw || double_slash raw
    then none
    else if dotted (split raw)
    then none
    else some (clean_path [] (split raw))

abbrev path_gate : Option (List Text) → Gate
path_gate none = not_found
path_gate (some components) = passed components

-- `drainGate`, `hostGate`, `originGate` and `normalisePath`, in their order.
unfoldable pub gates : Address → Bool → Incoming → Gate
gates a drains r =
    if drains
    then draining
    else if not (same_text r.host a.own_host)
    then misdirected
    else if not (same_text r.origin []) && not (same_text r.origin a.own_origin)
    then bad_origin
    else path_gate (normalise_path r.path)

abbrev pub max_concurrent_requests : ℕ
max_concurrent_requests = 32

pub record Server : Type 0 where
  pub drains : Bool
  pub in_flight : ℤ
  pub slots : ℕ  -- what the channel `sem` holds
  pub panicked : Bool
  pub shutdown : Option String  -- the reason in `shutdownCh`
  pub cancelled : Bool  -- the base context is
  pub closed : Bool  -- the listener is closed and the sessions are cleared
  pub gated : ℕ  -- requests past the gates and not counted yet
  pub tracked : ℕ  -- counted, before the semaphore
  pub handling : ℕ  -- in a handler
  pub leaving : ℕ  -- out of it, still counted
  pub crashing : ℕ  -- likewise, after a panic

-- One move of one of the goroutines.
pub data Event : Type 0 where
  arrives : Incoming → Event
  tracks admits busies finishes panics leaves recovers : Event
  asks : String → Event
  drain_begins drain_closes : Event
  drain_ends : Bool → Event

-- `Shutdown`: only the first reason is kept.
abbrev pub shut_down : String → Option String → Option String
shut_down reason none = some reason
shut_down reason (some first) = some first

abbrev is_passed : Gate → Bool
is_passed (passed _) = true
is_passed _ = false

abbrev arrived : Gate → Server → Server
arrived g s = if is_passed g then record s { gated = s.gated + 1 } else s

-- The moves of requests at a stage, from how many are there; none where there are none.
abbrev track_one : ℕ → Server → Option Server
track_one zero s = none
track_one (suc n) s =
    some (record s { gated = n; tracked = s.tracked + 1; in_flight = s.in_flight +ℤ pos 1 })

abbrev admit_one : ℕ → Server → Option Server
admit_one zero s = none
admit_one (suc n) s =
    if ltb s.slots max_concurrent_requests
    then some (record s { tracked = n; handling = s.handling + 1; slots = s.slots + 1 })
    else none

abbrev refuse_one : ℕ → Server → Option Server
refuse_one zero s = none
refuse_one (suc n) s =
    if ltb s.slots max_concurrent_requests
    then none
    else some (record s { tracked = n; leaving = s.leaving + 1 })

-- The receive from `sem` waits while it is empty.
abbrev finish_one : ℕ → ℕ → Server → Option Server
finish_one zero held s = none
finish_one (suc n) zero s = none
finish_one (suc n) (suc held) s =
    some (record s { handling = n; slots = held; leaving = s.leaving + 1 })

abbrev panic_one : ℕ → ℕ → Server → Option Server
panic_one zero held s = none
panic_one (suc n) zero s = none
panic_one (suc n) (suc held) s =
    some (record s { handling = n; slots = held; crashing = s.crashing + 1 })

abbrev leave_one : ℕ → Server → Option Server
leave_one zero s = none
leave_one (suc n) s = some (record s { leaving = n; in_flight = s.in_flight +ℤ negsuc 0 })

abbrev recover_one : ℕ → Server → Option Server
recover_one zero s = none
recover_one (suc n) s = some (record s {
  crashing = n;
  in_flight = s.in_flight +ℤ negsuc 0;
  panicked = true;
  shutdown = shut_down "panic" s.shutdown;
})

-- `Serve` receives the reason and begins the drain.
abbrev begin_drain : Option String → Server → Option Server
begin_drain none s = none
begin_drain (some reason) s = some (record s { drains = true })

-- The wait of `drain` is over, and it cancels the context, when nothing is in flight or the deadline has passed.
abbrev end_drain : Bool → Server → Option Server
end_drain late s =
    if s.drains && (leb_ℤ s.in_flight (pos 0) || late)
    then some (record s { cancelled = true })
    else none

-- The end of `drain`; `Shutdown` of net/http gives the connections two seconds before it.
abbrev close_down : Server → Option Server
close_down s = if s.cancelled then some (record s { closed = true }) else none

-- A move, where it can happen.
unfoldable pub step : Address → Event → Server → Option Server
step a (arrives r) s = some (arrived (gates a s.drains r) s)
step a tracks s = track_one s.gated s
step a admits s = admit_one s.tracked s
step a busies s = refuse_one s.tracked s
step a finishes s = finish_one s.handling s.slots s
step a panics s = panic_one s.handling s.slots s
step a leaves s = leave_one s.leaving s
step a recovers s = recover_one s.crashing s
step a (asks reason) s = some (record s { shutdown = shut_down reason s.shutdown })
step a drain_begins s = begin_drain s.shutdown s
step a (drain_ends late) s = end_drain late s
step a drain_closes s = close_down s

abbrev or_stay : Server → Option Server → Server
or_stay s none = s
or_stay s (some t) = t

-- A schedule; a move that cannot happen is left out.
unfoldable pub run : Address → List Event → Server → Server
run a [] s = s
run a (e ∷ es) s = run a es (or_stay s (step a e s))

abbrev pub idle_server : Server
idle_server = record {
  drains = false;
  in_flight = pos 0;
  slots = 0;
  panicked = false;
  shutdown = none;
  cancelled = false;
  closed = false;
  gated = 0;
  tracked = 0;
  handling = 0;
  leaving = 0;
  crashing = 0;
}
