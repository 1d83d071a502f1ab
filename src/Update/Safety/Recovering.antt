-- ===== src/Update/Safety/Recovering.antt =====
-- `Recover` of launcher/internal/update/swap.go under every schedule of faults.
use kobra_game.Base.{ℕ, String, Bool, true, false, Option, none, some, List}
use kobra_game.Base.Faults.{Fault, attempt, pure, ◌>>=◌}
use kobra_game.Update.Disk.{Tree, full, Step, begin, promoted, garbled, Folder, at_game, at_backup}
use kobra_game.Base.Faults.Triple.{Ends, Always, attempt_rule, atomic_rule, last_rule}
use kobra_game.Update.Swap.{promote_dir}
use kobra_game.Update.Recover.{
  Recovery, did, recovery_none, rolled_back, rolled_forward, recover, abort, clean, roll_forward,
  roll_forward_cleared, roll_back, settle, recover_from,
}
use kobra_game.Update.Safety.{
  same_device, folder, Safe, untouched, unmoved, marked, moved, undone, installed, proven, unproven,
}

abbrev Good : ℕ → ℕ → Recovery → Folder → Type 0
Good o n r w = Safe o n w

-- The new release is in game/ and the marker is to be cleared.
landed : (o n : ℕ) → (m : Option Step) → Safe o n (folder (some (full n)) (some (full o)) none m)
landed o n none = installed _
landed o n (some begin) = undone _ false
landed o n (some promoted) = proven _
landed o n (some garbled) = undone _ true

abort-Safe :
    (o n : ℕ)
    → (s : Option Tree) → (m : Option Step) → (b : Bool)
    → Always (Safe o n) (Good o n) (abort b) (folder (some (full o)) none s m)
abort-Safe o n s m false =
    last_rule (Safe o n) (Good o n) _ _ _ (unmoved _ _) (unmoved _ _) (unmoved _ _)
abort-Safe o n s m true =
    attempt_rule (Safe o n) (Good o n) _ _ _ _ (unmoved _ _) (unmoved _ _)
      (last_rule (Safe o n) (Good o n) _ _ _ (unmoved _ _) (unmoved _ _) (unmoved _ _))
      (λ _. unmoved _ _) (λ _. unmoved _ _)

clean-Safe :
    (o n : ℕ)
    → (b s : Option Tree) → (new : Bool)
    → Always (Safe o n) (Good o n) (clean new) (folder (some (full o)) b s none)
clean-Safe o n b s false = λ _. untouched _ _
clean-Safe o n b s true =
    attempt_rule (Safe o n) (Good o n) _ _ _ _ (untouched _ _) (untouched _ _) (λ _. untouched _ _)
      (λ _. untouched _ _) (λ _. untouched _ _)

-- `last_rule` where the new release is in game/.
settled-Safe :
    (o n : ℕ)
    → (m : Option Step) → (r : Recovery)
    → Always
        (Safe o n)
        (Good o n)
        (attempt (λ w. record w { marker = none }) (λ w. w) >>= (λ _. pure tt) >>= λ _. pure r)
        (folder (some (full n)) (some (full o)) none m)
settled-Safe o n m r =
    last_rule (Safe o n) (Good o n) _ _ _ (landed o n m) (installed _) (landed o n m)

forward-Safe :
    (o n : ℕ)
    → (m : Option Step)
    → Always
        (Safe o n)
        (Good o n)
        (roll_forward_cleared false true)
        (folder (some (full o)) none (some (full n)) m)
forward-Safe o n m =
    atomic_rule (Safe o n) (Good o n) _ _ _ (marked _ _)
      (atomic_rule (Safe o n) (Good o n) _ _ _ (moved _) (settled-Safe o n m (did rolled_forward))
        (atomic_rule (Safe o n) (Good o n) _ _ _ (moved _) (λ _. marked _ _) (λ _. moved _)))
      (λ _. marked _ _)

roll_forward-Safe :
    (o n : ℕ)
    → (b : Tree) → (m : Option Step)
    → Always
        (Safe o n)
        (Good o n)
        (roll_forward false)
        (folder (some (full o)) (some b) (some (full n)) m)
roll_forward-Safe o n b m =
    attempt_rule (Safe o n) (Good o n) _ _ _ _ (marked _ _) (marked _ _) (forward-Safe o n m)
      (λ _. marked _ _) (λ _. marked _ _)

complete-Safe :
    (o n : ℕ)
    → (m : Option Step)
    → Always
        (Safe o n)
        (Good o n)
        (recover_from false m false true true)
        (folder none (some (full o)) (some (full n)) m)
complete-Safe o n m =
    atomic_rule (Safe o n) (Good o n) _ _ _ (moved _) (settled-Safe o n m (did rolled_forward))
      (λ _. moved _)

restore-Safe :
    (o n : ℕ)
    → (g : Bool) → (reason : String)
    → Always
        (Safe o n)
        (Good o n)
        (promote_dir false at_backup at_game >>= settle rolled_back reason)
        (folder none (some (full o)) none (some (unproven g)))
restore-Safe o n g reason =
    atomic_rule (Safe o n) (Good o n) _ _ _ (undone _ g)
      (last_rule (Safe o n) (Good o n) _ _ _ (unmoved _ _) (unmoved _ _) (unmoved _ _))
      (λ _. undone _ g)

roll_back-Safe :
    (o n : ℕ)
    → (t : Tree) → (g : Bool)
    → Always
        (Safe o n)
        (Good o n)
        roll_back
        (folder (some t) (some (full o)) none (some (unproven g)))
roll_back-Safe o n t g =
    attempt_rule (Safe o n) (Good o n) _ _ _ _ (undone _ g) (undone _ g)
      (restore-Safe o n g "roll_back") (λ _. undone _ g) (λ _. undone _ g)

finish-Safe :
    (o n : ℕ)
    → (t : Option Tree) → (g : Bool)
    → Always
        (Safe o n)
        (Good o n)
        (recover same_device)
        (folder t (some (full o)) none (some (unproven g)))
finish-Safe o n none true = restore-Safe o n true "interrupted"
finish-Safe o n none false = restore-Safe o n false "interrupted"
finish-Safe o n (some t) true = roll_back-Safe o n t true
finish-Safe o n (some t) false = roll_back-Safe o n t false

installed-Safe :
    (o n : ℕ)
    → (b : Option Tree) → (r : Recovery)
    → Always
        (Safe o n)
        (Good o n)
        (attempt (λ w. record w { marker = none }) (λ w. w) >>= (λ _. pure tt) >>= λ _. pure r)
        (folder (some (full n)) b none (some promoted))
installed-Safe o n b r = last_rule (Safe o n) (Good o n) _ _ _ (proven _) (installed _) (proven _)

-- Every interrupted `Recover` leaves a safe arrangement: it may fail or die at any operation, from
-- any safe arrangement, and the folder can be recovered again.
pub recover-Safe :
    (o n : ℕ)
    → (w : Folder) → Safe o n w
    → (fs : List Fault) → Ends (Safe o n) (λ _ v. Safe o n v) (recover same_device w fs)
recover-Safe o n _ (untouched none none) = clean-Safe o n _ _ false
recover-Safe o n _ (untouched (some b) none) = clean-Safe o n _ _ false
recover-Safe o n _ (untouched none (some s)) = clean-Safe o n _ _ true
recover-Safe o n _ (untouched (some b) (some s)) = clean-Safe o n _ _ true
recover-Safe o n _ (unmoved none none) = clean-Safe o n _ _ false
recover-Safe o n _ (unmoved (some s) none) = clean-Safe o n _ _ true
recover-Safe o n _ (unmoved none (some st)) = abort-Safe o n _ _ false
recover-Safe o n _ (unmoved (some s) (some st)) = abort-Safe o n _ _ true
recover-Safe o n _ (marked none none) = clean-Safe o n _ _ true
recover-Safe o n _ (marked (some b) none) = clean-Safe o n _ _ true
recover-Safe o n _ (marked none (some st)) = abort-Safe o n _ _ true
recover-Safe o n _ (marked (some b) (some st)) = roll_forward-Safe o n b (some st)
recover-Safe o n _ (moved m) = complete-Safe o n m
recover-Safe o n _ (undone t g) = finish-Safe o n t g
recover-Safe o n _ (installed none) = λ _. installed _
recover-Safe o n _ (installed (some b)) = λ _. installed _
recover-Safe o n _ (proven none) = installed-Safe o n none (did recovery_none)
recover-Safe o n _ (proven (some b)) = installed-Safe o n (some b) (did rolled_forward)
