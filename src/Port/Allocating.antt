-- ===== src/Port/Allocating.antt =====
-- What `Available` of launcher/internal/port/bind.go promises of the port that it returns.
use kobra_game.Base.{ℕ, suc, zero, ◌≡◌, refl, List, true, false, Option, none, some, arith, ◌==◌}
use kobra_game.Port.DenyList.{DenyList, validate}
use kobra_game.Port.Allocation.{
  Exclude, Weather, Weathers, Event, Allocated, available, first_bound, go_window, go_wide,
  window_scanned, window_bound, wide_scanned, wide_bound, scan_window, skip_candidate, BindError,
  addr_in_use, other_bind_error, err_no_port, bind_failed,
}
use kobra_game.Port.Scanning.{fit, scan_first, candidate_usable-validate}

-- A port that replaces the candidate: it is another port, the caller does not exclude it, and
-- `Validate` accepts it.
pub record Substitute (candidate : ℕ) (d : Option DenyList) (exclude : Exclude) (p : ℕ)
    : Type 0 where
  pub other : (p == candidate) ≡ false
  pub not_excluded : exclude p ≡ false
  pub valid : validate p d ≡ none

fit-Substitute :
    (candidate : ℕ)
    → (d : Option DenyList) → (ex : Exclude) → (w : Weather) → (p : ℕ)
    → fit d (skip_candidate candidate ex) w p ≡ true
    → Substitute candidate d ex p
unfolding fit
fit-Substitute candidate d ex w p h =
    let (valid, skipped, reserved) =
      candidate_usable-validate p d (skip_candidate candidate ex) (ground arith) in
    record {
      other = ground (arith, skipped);
      not_excluded = ground (arith, skipped);
      valid = valid;
    }

scanned-Substitute :
    (candidate base span : ℕ)
    → (d : Option DenyList) → (ex : Exclude) → (timeout : ℕ) → (w : Weather) → (p : ℕ)
    → scan_window base span d (skip_candidate candidate ex) timeout w ≡ some p
    → Substitute candidate d ex p
scanned-Substitute candidate base span d ex timeout w p h =
    fit-Substitute candidate d ex w p
      (scan_first base span d (skip_candidate candidate ex) timeout w p h).fits

-- The answer after the candidate's bind met a port in use: a substitute, or ErrNoPort.
abbrev pub Retried : ℕ → Option DenyList → Exclude → Allocated → Type 0
Retried candidate d ex (some p, e, events) = Substitute candidate d ex p × (e ≡ none)
Retried candidate d ex (none, e, events) = e ≡ some err_no_port

wide_bound-Retried :
    (candidate : ℕ)
    → (d : Option DenyList) → (ex : Exclude) → (p : ℕ) → (b : Option BindError)
    → (events : List Event) → Substitute candidate d ex p
    → Retried candidate d ex (wide_bound candidate p b events)
wide_bound-Retried candidate d ex p none events s = (s, refl)
wide_bound-Retried candidate d ex p (some _) events s = refl

wide_scanned-Retried :
    (candidate : ℕ)
    → (d : Option DenyList) → (ex : Exclude) → (w : Weathers) → (found : Option ℕ)
    → (events : List Event) → ((p : ℕ) → found ≡ some p → Substitute candidate d ex p)
    → Retried candidate d ex (wide_scanned candidate w found events)
wide_scanned-Retried candidate d ex w none events s = refl
wide_scanned-Retried candidate d ex w (some p) events s =
    wide_bound-Retried candidate d ex p (w.wide_bind p) events (s p refl)

go_wide-Retried :
    (candidate : ℕ)
    → (d : Option DenyList) → (ex : Exclude) → (timeout : ℕ) → (w : Weathers)
    → (events : List Event)
    → Retried candidate d ex (go_wide candidate d (skip_candidate candidate ex) timeout w events)
go_wide-Retried candidate d ex timeout w events =
    wide_scanned-Retried candidate d ex w _ _
      (scanned-Substitute candidate _ _ d ex timeout w.wide_weather)

window_bound-Retried :
    (candidate : ℕ)
    → (d : Option DenyList) → (ex : Exclude) → (timeout : ℕ) → (w : Weathers) → (p : ℕ)
    → (b : Option BindError) → (events : List Event) → Substitute candidate d ex p
    → Retried candidate d ex
        (window_bound candidate p b d (skip_candidate candidate ex) timeout w events)
window_bound-Retried candidate d ex timeout w p none events s = (s, refl)
window_bound-Retried candidate d ex timeout w p (some _) events s =
    go_wide-Retried candidate d ex timeout w events

window_scanned-Retried :
    (candidate : ℕ)
    → (d : Option DenyList) → (ex : Exclude) → (timeout : ℕ) → (w : Weathers) → (found : Option ℕ)
    → (events : List Event) → ((p : ℕ) → found ≡ some p → Substitute candidate d ex p)
    → Retried candidate d ex
        (window_scanned candidate found d (skip_candidate candidate ex) timeout w events)
window_scanned-Retried candidate d ex timeout w none events s =
    go_wide-Retried candidate d ex timeout w events
window_scanned-Retried candidate d ex timeout w (some p) events s =
    window_bound-Retried candidate d ex timeout w p (w.window_bind p) events (s p refl)

go_window-Retried :
    (candidate base span : ℕ)
    → (d : Option DenyList) → (ex : Exclude) → (timeout : ℕ) → (w : Weathers)
    → (events : List Event)
    → Retried candidate d ex
        (go_window candidate base span d (skip_candidate candidate ex) timeout w events)
go_window-Retried candidate base zero d ex timeout w events =
    go_wide-Retried candidate d ex timeout w events
go_window-Retried candidate base (suc n) d ex timeout w events =
    window_scanned-Retried candidate d ex timeout w _ _
      (scanned-Substitute candidate base (suc n) d ex timeout w.window_weather)

-- What the candidate's bind decides: the candidate itself, one retry, or the bind's own error.
abbrev pub Allocates : ℕ → Option DenyList → Exclude → Option BindError → Allocated → Type 0
Allocates candidate d ex none r = (r.0 ≡ some candidate) × (r.1 ≡ none)
Allocates candidate d ex (some addr_in_use) r = Retried candidate d ex r
Allocates candidate d ex (some (other_bind_error n)) r =
    (r.0 ≡ none) × (r.1 ≡ some (bind_failed (other_bind_error n)))

first_bound-Allocates :
    (candidate : ℕ)
    → (d : Option DenyList) → (ex : Exclude) → (timeout : ℕ) → (w : Weathers)
    → (b : Option BindError) → (events : List Event)
    → Allocates candidate d ex b (first_bound candidate b d ex timeout w events)
first_bound-Allocates candidate d ex timeout w none events = (refl, refl)
first_bound-Allocates candidate d ex timeout w (some (other_bind_error n)) events = (refl, refl)
first_bound-Allocates candidate d ex timeout w (some addr_in_use) events =
    go_window-Retried candidate _ _ d ex timeout w _

-- `Available` returns the candidate when it binds, whatever its probe said. When it is in use the
-- answer is another port, not excluded and accepted by `Validate`, or ErrNoPort. Any other error of
-- the bind is returned as it is.
pub available-Allocates :
    (candidate : ℕ)
    → (d : Option DenyList) → (ex : Exclude) → (timeout : ℕ) → (w : Weathers)
    → Allocates candidate d ex (w.first_bind candidate) (available candidate d ex timeout w)
unfolding available
available-Allocates candidate d ex timeout w =
    first_bound-Allocates candidate d ex timeout w (w.first_bind candidate) _
