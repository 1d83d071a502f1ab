-- ===== src/Port/Allocation.antt =====
-- The scan, the bind and the events of launcher/internal/port (scan.go, bind.go, probe.go,
-- events.go). The clock, the probe of a port and the bind are arguments.
use kobra_game.Base.{
  ℕ, zero, suc, ◌+◌, ◌-◌, ◌*◌, ◌%◌, ◌^◌, String, [], ◌∷◌, ◌++◌, List, Bool, true, false, not,
  Option, none, some, leb, ltb, ◌==◌, ◌&&◌, ◌||◌, if◌then◌else◌, str_eq,
}
use kobra_game.Port.DenyList.{DenyList, contains, reserved, default_window}

pub data ProbeResult : Type 0 where
  probe_free probe_ours probe_other_game probe_other_app : ProbeResult

abbrev pub usable : ProbeResult → Bool
usable probe_free = true
usable probe_ours = true
usable probe_other_game = false
usable probe_other_app = false

-- What the HTTP client answers to the probe's request: the connection is refused, another failure,
-- or a response with its status and its body, `none` for one that does not decode.
pub data Answer : Type 0 where
  refused transport_error : Answer
  responded : ℕ → Option (String × String) → Answer

-- A result, and whether it comes with an error.
abbrev pub Probed : Type 0
Probed = ProbeResult × Bool

abbrev pub named : String → String → String → ProbeResult
named ours app game_id =
    if not (str_eq app "kobra-launcher")
    then probe_other_app
    else if str_eq game_id ours
    then probe_ours
    else probe_other_game

abbrev pub decoded : String → Option (String × String) → ProbeResult
decoded ours none = probe_other_app
decoded ours (some (app, game_id)) = named ours app game_id

unfoldable pub probe : String → Answer → Probed
probe ours refused = (probe_free, false)
probe ours transport_error = (probe_other_app, true)
probe ours (responded status body) =
    (if status == 200 then decoded ours body else probe_other_app, false)

abbrev pub lowest_user_port : ℕ
lowest_user_port = 1024

abbrev pub reserved_ephemeral_low : ℕ
reserved_ephemeral_low = 49152

-- Durations in milliseconds; a timeout of 0 is one that is not positive.
unfoldable pub scan_budget : ℕ → ℕ
scan_budget timeout =
    let budget = 20 * (if timeout == 0 then 500 else timeout) in
    if ltb 15000 budget then 15000 else budget

abbrev pub Exclude : Type 0
Exclude = ℕ → Bool

unfoldable pub candidate_usable : ℕ → Option DenyList → Exclude → Bool
candidate_usable p d exclude =
    if exclude p
    then false
    else if ltb p lowest_user_port || leb reserved_ephemeral_low p
    then false
    else if contains d p || reserved d p
    then false
    else true

-- The answer of the loop's probe allows the port.
abbrev pub takes : Probed → Bool
takes (res, failed) = not failed && usable res

-- What one scan meets: the clock at each turn of the loop, counted from the start of the scan,
-- and the answer of each port.
pub record Weather : Type 0 where
  pub clock : ℕ → ℕ
  pub answer : ℕ → Probed

-- The loop of `scanWindow` with so many turns left, at turn `i`.
unfoldable pub scan_loop : ℕ → Option DenyList → Exclude → ℕ → Weather → ℕ → ℕ → Option ℕ
unfolding candidate_usable
scan_loop base d exclude deadline w zero i = none
scan_loop base d exclude deadline w (suc left) i =
    let next = scan_loop base d exclude deadline w left (suc i) in
    if ltb deadline (w.clock i)
    then none
    else if ltb 65535 (base + i)
    then none
    else if not (candidate_usable (base + i) d exclude)
    then next
    else if not (takes (w.answer (base + i)))
    then next
    else some (base + i)

-- `none` is ErrNoPort.
unfoldable pub scan_window : ℕ → ℕ → Option DenyList → Exclude → ℕ → Weather → Option ℕ
unfolding scan_loop scan_budget
scan_window base span d exclude timeout w =
    if span == 0 then none else scan_loop base d exclude (scan_budget timeout) w span 0

abbrev pub wide_scan : Option DenyList → Exclude → ℕ → Weather → Option ℕ
wide_scan d exclude timeout w =
    scan_window lowest_user_port (reserved_ephemeral_low - lowest_user_port) d exclude timeout w

abbrev pub scan_found : Option ℕ → ℕ
scan_found none = 0
scan_found (some p) = p

-- The error of a bind: EADDRINUSE, or another with its errno.
pub data BindError : Type 0 where
  addr_in_use : BindError
  other_bind_error : ℕ → BindError

pub data Event : Type 0 where
  log_probe : ℕ → ProbeResult → Event
  log_bind_failed : ℕ → BindError → Event
  log_scan : ℕ → ℕ → ℕ → Event
  log_change : ℕ → ℕ → Event

-- The error of `Available`.
pub data NotAvailable : Type 0 where
  err_no_port : NotAvailable
  bind_failed : BindError → NotAvailable

-- What one allocation meets: the probe of the candidate, its bind, and for the scan of the window
-- and the wide scan the weather and the bind that follows.
pub record Weathers : Type 0 where
  pub first_answer : Probed
  pub first_bind : ℕ → Option BindError
  pub window_weather : Weather
  pub window_bind : ℕ → Option BindError
  pub wide_weather : Weather
  pub wide_bind : ℕ → Option BindError

-- The port and its open listener, or the error; and the events, in order.
abbrev pub Allocated : Type 0
Allocated = Option ℕ × Option NotAvailable × List Event

abbrev pub gave : ℕ → List Event → Allocated
gave p events = (some p, none, events)

abbrev pub refuses : NotAvailable → List Event → Allocated
refuses e events = (none, some e, events)

abbrev pub skip_candidate : ℕ → Exclude → Exclude
skip_candidate candidate exclude = λ p. if p == candidate then true else exclude p

abbrev pub wide_bound : ℕ → ℕ → Option BindError → List Event → Allocated
wide_bound candidate p none events = gave p (events ++ log_change candidate p ∷ [])
wide_bound candidate p (some _) events = refuses err_no_port events

abbrev pub wide_scanned : ℕ → Weathers → Option ℕ → List Event → Allocated
wide_scanned candidate w none events = refuses err_no_port events
wide_scanned candidate w (some p) events = wide_bound candidate p (w.wide_bind p) events

abbrev pub go_wide : ℕ → Option DenyList → Exclude → ℕ → Weathers → List Event → Allocated
go_wide candidate d skip timeout w events =
    let found = wide_scan d skip timeout w.wide_weather in
    wide_scanned candidate w found
      (events ++ log_scan lowest_user_port (reserved_ephemeral_low - 1) (scan_found found) ∷ [])

abbrev pub window_bound :
    ℕ → ℕ → Option BindError → Option DenyList → Exclude → ℕ → Weathers → List Event → Allocated
window_bound candidate p none d skip timeout w events =
    gave p (events ++ log_change candidate p ∷ [])
window_bound candidate p (some _) d skip timeout w events =
    go_wide candidate d skip timeout w events

abbrev pub window_scanned :
    ℕ → Option ℕ → Option DenyList → Exclude → ℕ → Weathers → List Event → Allocated
window_scanned candidate none d skip timeout w events = go_wide candidate d skip timeout w events
window_scanned candidate (some p) d skip timeout w events =
    window_bound candidate p (w.window_bind p) d skip timeout w events

-- The last port of a window, as the 16-bit `base + span - 1`.
abbrev pub window_end : ℕ → ℕ → ℕ
window_end base span = (base + span + 2 ^ 16 - 1) % 2 ^ 16

abbrev pub go_window : ℕ → ℕ → ℕ → Option DenyList → Exclude → ℕ → Weathers → List Event → Allocated
go_window candidate base zero d skip timeout w events = go_wide candidate d skip timeout w events
go_window candidate base (suc n) d skip timeout w events =
    let found = scan_window base (suc n) d skip timeout w.window_weather in
    window_scanned candidate found d skip timeout w
      (events ++ log_scan base (window_end base (suc n)) (scan_found found) ∷ [])

-- What follows the bind of the candidate.
abbrev pub first_bound :
    ℕ → Option BindError → Option DenyList → Exclude → ℕ → Weathers → List Event → Allocated
first_bound candidate none d exclude timeout w events = gave candidate events
first_bound candidate (some addr_in_use) d exclude timeout w events =
    go_window candidate (default_window d).0 (default_window d).1 d
      (skip_candidate candidate exclude) timeout w
      (events ++ log_bind_failed candidate addr_in_use ∷ [])
first_bound candidate (some (other_bind_error n)) d exclude timeout w events =
    refuses (bind_failed (other_bind_error n))
      (events ++ log_bind_failed candidate (other_bind_error n) ∷ [])

unfoldable pub available : ℕ → Option DenyList → Exclude → ℕ → Weathers → Allocated
unfolding scan_window
available candidate d exclude timeout w =
    first_bound candidate (w.first_bind candidate) d exclude timeout w
      (log_probe candidate w.first_answer.0 ∷ [])
