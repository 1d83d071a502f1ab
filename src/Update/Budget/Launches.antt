-- ===== src/Update/Budget/Launches.antt =====
-- The retry budget of launcher/internal/update (runtime.go, apply.go) over the starts of the launcher.
use kobra_game.Base.{
  ℕ, suc, ◌+◌, ◌≤◌, ◌≡◌, refl, sym, ap, Bool, true, false, Option, none, some, List, [], ◌∷◌,
  length, arith, ◌&&◌, ◌∙◌, not, if◌then◌else◌,
}
use mathlib.Core.Path.{subst}
use kobra_game.Base.Int.{ℤ, pos, leb_ℤ, ◌+ℤ◌, wrap64}
use kobra_game.Base.Faults.{Run, returned, died, Faulty, after}
use kobra_game.Base.Faults.Clean.{Clean}
use kobra_game.Storage.Text.{Text}
use kobra_game.Update.Pending.{Pending, retry_budget}
use kobra_game.Update.World.{World, Answers, LockAnswer, lock_acquired, lock_held, lock_failed}
use kobra_game.Update.Reports.{ApplyResult}
use kobra_game.Update.Apply.{skipped, marked, locked, apply}
use kobra_game.Update.Budget.{
  Marker, cleared, counted, waiting, has_room, gets_in, launches, all_ready,
}
use kobra_game.Update.Budget.Requested.{apply-Closes}

-- Without a marker nothing happens.
marked-none :
    (a : Answers)
    → (launcher : Text) → (w : World) → (o : Option Pending) → o ≡ none
    → after (marked a launcher o w []) ≡ w
marked-none a launcher w o e = subst (λ q. after (marked a launcher q w []) ≡ w) (sym e) refl

locked-none :
    (a : Answers)
    → (launcher : Text) → (w : World) → w.pending ≡ none
    → (l : LockAnswer) → after (locked a launcher l w []) ≡ w
locked-none a launcher w e lock_acquired = marked-none a launcher w w.pending e
locked-none a launcher w e lock_held = refl
locked-none a launcher w e lock_failed = refl

if_none :
    (w : World)
    → (m k : Faulty World ApplyResult) → (b : Bool) → after (m w []) ≡ w
    → after (k w []) ≡ w
    → after ((if b then m else k) w []) ≡ w
if_none w m k true e f = e
if_none w m k false e f = f

apply-none :
    (a : Answers)
    → (launcher : Text) → (w : World) → w.pending ≡ none
    → after (apply a launcher false false w []) ≡ w
apply-none a launcher w e =
    if_none w (skipped a launcher "sidecar_unwritable") (locked a launcher a.lock) (not a.makes_dir)
      refl (locked-none a launcher w e a.lock)

idle :
    (launcher : Text)
    → (answers : List Answers) → (w : World) → w.pending ≡ none
    → (launches launcher answers w).pending ≡ none
unfolding launches
idle launcher [] w e = e
idle launcher (a ∷ later) w e =
    idle launcher later _ (ap (λ v. v.pending) (apply-none a launcher w e) ∙ e)

-- The marker's state after a run.
closed :
    (a : Answers)
    → (p : Pending) → (r : Run World ApplyResult) → Clean (λ x v. Marker a p x v.pending) r
    → (x : ApplyResult) × Marker a p x (after r).pending
closed a p (returned x w []) e = (x, e)
closed a p (returned x w (f ∷ fs)) e = absurd e
closed a p (died w) e = absurd e

one_more :
    (z : ℤ)
    → (k : ℕ) → z ≡ pos k
    → k ≤ 3
    → leb_ℤ retry_budget (wrap64 (z +ℤ pos 1)) ≡ false
    → (k + 1 ≤ 2) × (wrap64 (z +ℤ pos 1) ≡ pos (k + 1))
unfolding wrap64 ◌+ℤ◌
one_more z k e le h = ground arith

ready_parts : (x y z : Bool) → (x && y && z) ≡ true → (x ≡ true) × (y ≡ true) × (z ≡ true)
ready_parts x y z h = ground arith

-- After a launch, with the rest of them to come.
after_launch :
    (launcher : Text)
    → (later : List Answers) → (a : Answers) → (p : Pending) → (k : ℕ) → p.retry_count ≡ pos k
    → k ≤ 3
    → 3 ≤ k + suc (length later)
    → has_room a ≡ true
    → (v : World)
    → ((k' : ℕ)
        → (p' : Pending) → v.pending ≡ some p'
        → p'.retry_count ≡ pos k'
        → k' ≤ 3
        → 1 ≤ length later
        → 3 ≤ k' + length later
        → (launches launcher later v).pending ≡ none)
    → (x : ApplyResult) → (o : Option Pending) → v.pending ≡ o
    → Marker a p x o
    → (launches launcher later v).pending ≡ none
after_launch launcher later a p k count le enough room v next x _ e (cleared f) =
    idle launcher later v e
after_launch launcher later a p k count le enough room v next x _ e (counted t left) =
    let more = one_more p.retry_count k count le left in
    let few = more.0 in
    next (k + 1)
      (record p {
        retry_count = wrap64 (p.retry_count +ℤ pos 1);
        last_attempt = a.now;
        last_reason = x.reason;
      })
      e more.1 (omega arith) (omega arith) (omega arith)
after_launch launcher later a p k count le enough room v next x _ e (waiting t full) =
    ground (arith, room, full)

-- A requested update is settled within its retry budget: from a marker that counts 3 attempts at
-- most, when as many launches as it has left (3 less those attempts, and at least one) get to the
-- marker, find the disk space and are not cut short, no marker is left after them, whatever else the
-- calls of each launch answer.
pub launches_settle :
    (launcher : Text)
    → (answers : List Answers) → (k : ℕ) → (w : World) → (p : Pending) → w.pending ≡ some p
    → p.retry_count ≡ pos k
    → k ≤ 3
    → 1 ≤ length answers
    → 3 ≤ k + length answers
    → all_ready answers ≡ true
    → (launches launcher answers w).pending ≡ none
unfolding launches all_ready
launches_settle launcher [] k w p e count le one enough r = ground arith
launches_settle launcher (a ∷ later) k w p e count le one enough r =
    let parts = ready_parts (gets_in a) (has_room a) (all_ready later) r in
    let run = apply a launcher false false w [] in
    let end = closed a p run (apply-Closes a launcher p parts.0 w e) in
    after_launch launcher later a p k count le enough parts.1 (after run)
      (λ k' p' e' c' le' one' enough'.
        launches_settle launcher later k' (after run) p' e' c' le' one' enough' parts.2)
      end.0 (after run).pending refl end.1
