-- ===== src/Update/Safety/Restarts.antt =====
-- `Swap` and the runs of `Recover` after it (launcher/internal/update/swap.go).
use kobra_game.Base.{ℕ, true, false, Option, none, some, refl, inl, inr, List, [], ◌∷◌}
use kobra_game.Base.Faults.{Fault, after, attempt}
use kobra_game.Update.Disk.{Tree, full, Step, Folder}
use kobra_game.Base.Faults.Triple.{Ends-after}
use kobra_game.Update.Swap.{swap}
use kobra_game.Update.Recover.{recover}
use kobra_game.Update.Safety.{
  same_device, folder, Safe, untouched, unmoved, marked, moved, undone, installed, proven,
  recoveries, Settled,
}
use kobra_game.Update.Safety.Swapping.{swap-Safe, Answered}
use kobra_game.Update.Safety.Recovering.{recover-Safe}

pub recoveries-Safe :
    (o n : ℕ)
    → (fss : List (List Fault)) → (w : Folder) → Safe o n w
    → Safe o n (recoveries same_device fss w)
unfolding recoveries
recoveries-Safe o n [] w safe = safe
recoveries-Safe o n (fs ∷ fss) w safe = recoveries-Safe o n fss (after (recover same_device w fs)) (
    Ends-after {C = Safe o n} (λ _ v. Safe o n v) (recover same_device w fs) (λ _ _ s. s)
      (recover-Safe o n w safe fs))

kept : {o n : ℕ} → {b : Option Tree} → Settled o n (folder (some (full o)) b none none)
kept = record { whole = inl refl; no_staging = refl; no_marker = refl }

replaced : {o n : ℕ} → {b : Option Tree} → Settled o n (folder (some (full n)) b none none)
replaced = record { whole = inr refl; no_staging = refl; no_marker = refl }

-- A `Recover` that no fault interrupts.
pub recover-Settled :
    (o n : ℕ) → (w : Folder) → Safe o n w → Settled o n (after (recover same_device w []))
unfolding attempt
recover-Settled o n _ (untouched none none) = kept
recover-Settled o n _ (untouched (some b) none) = kept
recover-Settled o n _ (untouched none (some s)) = kept
recover-Settled o n _ (untouched (some b) (some s)) = kept
recover-Settled o n _ (unmoved none none) = kept
recover-Settled o n _ (unmoved (some s) none) = kept
recover-Settled o n _ (unmoved none (some st)) = kept
recover-Settled o n _ (unmoved (some s) (some st)) = kept
recover-Settled o n _ (marked none none) = kept
recover-Settled o n _ (marked (some b) none) = kept
recover-Settled o n _ (marked none (some st)) = kept
recover-Settled o n _ (marked (some b) (some st)) = replaced
recover-Settled o n _ (moved m) = replaced
recover-Settled o n _ (undone none true) = kept
recover-Settled o n _ (undone none false) = kept
recover-Settled o n _ (undone (some t) true) = kept
recover-Settled o n _ (undone (some t) false) = kept
recover-Settled o n _ (installed none) = replaced
recover-Settled o n _ (installed (some b)) = replaced
recover-Settled o n _ (proven none) = replaced
recover-Settled o n _ (proven (some b)) = replaced

-- However `Swap` is interrupted (an operation fails, or the power is lost in the middle of one),
-- and however many runs of `Recover` alone after it are interrupted too, the first `Recover` that is
-- not leaves one of the two releases complete in game/, with no staged release and no marker: the
-- installed release and the staged one being complete when `Swap` begins, on one file system. An
-- `Apply` that a start goes on to after a `Recover` that failed is not among those runs.
pub swap_recovers :
    (o n : ℕ)
    → (b : Option Tree) → (m : Option Step) → (fs : List Fault) → (fss : List (List Fault))
    → Settled o n (
        after (
          recover same_device
            (recoveries same_device fss
              (after (swap same_device (folder (some (full o)) b (some (full n)) m) fs)))
            []))
swap_recovers o n b m fs fss = recover-Settled o n _ (
    recoveries-Safe o n fss _ (
      Ends-after {C = Safe o n} (λ r w. Safe o n w × Answered o n r w)
        (swap same_device (folder (some (full o)) b (some (full n)) m) fs) (λ _ _ s. s.0)
        (swap-Safe o n b m fs)))
