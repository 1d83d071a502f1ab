-- ===== src/Update/Safety/Starting.antt =====
-- The pass of launcher/internal/update/startup.go under every schedule of faults, and the starts of
-- the launcher after it.
use kobra_game.Base.{ℕ, ◌≡◌, Bool, true, false, Option, none, some, List, []}
use mathlib.Core.Path.{subst}
use kobra_game.Base.Faults.{Fault, after}
use kobra_game.Base.Faults.Triple.{Ends-after, Always, attempt_rule}
use kobra_game.Storage.Text.{Text}
use kobra_game.Update.Disk.{Tree, full, Folder}
use kobra_game.Update.Pending.{Pending}
use kobra_game.Update.World.{World, Answers, on_folder}
use kobra_game.Update.Install.{setup}
use kobra_game.Update.Recover.{Recovery, recover, clean}
use kobra_game.Update.Startup.{
  startup, recovered, apply_pending, if_pending, clear_stale_count, rolled_back_by, with_result,
}
use kobra_game.Update.Safety.{same_device, folder, Safe, untouched, recoveries, Settled}
use kobra_game.Update.Safety.Restarts.{recoveries-Safe, recover-Settled}
use kobra_game.Update.Safety.Leads.{
  Leads, Leaves, Leads-on_folder, Leads-bind, Leaves-then, quiet-Leaves,
}
use kobra_game.Update.Safety.Applying.{Ready, ready, Ready→Safe, same_setup}
use kobra_game.Update.Safety.Requested.{apply-Good}

module _ (o n : ℕ) where
  clean-Ready :
      (b s : Option Tree)
      → (new : Bool)
      → Always (Safe o n) (λ _. Ready o) (clean new) (folder (some (full o)) b s none)
  clean-Ready b s false = λ _. ready _ _
  clean-Ready b s true =
      attempt_rule (Safe o n) (λ _. Ready o) _ _ _ _ (untouched _ _) (untouched _ _)
        (λ _. ready _ _) (λ _. ready _ _) (λ _. ready _ _)

  -- With no swap to finish.
  recover-Ready :
      (f : Folder) → Ready o f → Always (Safe o n) (λ _. Ready o) (recover same_device) f
  recover-Ready _ (ready none none) = clean-Ready _ _ false
  recover-Ready _ (ready (some b) none) = clean-Ready _ _ false
  recover-Ready _ (ready none (some s)) = clean-Ready _ _ true
  recover-Ready _ (ready (some b) (some s)) = clean-Ready _ _ true

module _ (o : ℕ) (a : Answers) (launcher : Text) (sidecar_empty : Bool)
    (blank : a.staging_blank ≡ false) (device : a.cross_device ≡ false) where
  abbrev Good : Folder → Type 0
  Good = Safe o a.tree

  setup-Ready : (f : Folder) → Ready o f → Always Good (λ _. Ready o) (recover (setup a)) f
  setup-Ready =
      subst (λ c. (f : Folder) → Ready o f → Always Good (λ _. Ready o) (recover c) f)
        (same_setup a blank device) (recover-Ready o a.tree)

  stale-Ready :
      (back empty : Bool)
      → Leaves Good (Ready o) (clear_stale_count a launcher sidecar_empty back empty)
  stale-Ready true false = quiet-Leaves Good (Ready o) (Ready→Safe o a.tree) _ (λ _ r. r)
  stale-Ready true true = λ w r fs. r
  stale-Ready false empty = λ w r fs. r

  if_pending-Good :
      (p : Option Pending)
      → Leads Good (Ready o) (λ _. Good) (if_pending a launcher sidecar_empty p)
  if_pending-Good none = λ w r fs. Ready→Safe o a.tree _ r
  if_pending-Good (some p) = apply-Good o a launcher blank device false a.staging_blank

  apply_pending-Good :
      (empty : Bool)
      → Leads Good (Ready o) (λ _. Good) (apply_pending a launcher sidecar_empty empty)
  apply_pending-Good true = λ w r fs. Ready→Safe o a.tree _ r
  apply_pending-Good false = λ w. if_pending-Good w.pending w

  recovered-Good :
      (r : Recovery) → Leads Good (Ready o) (λ _. Good) (recovered a launcher sidecar_empty r)
  recovered-Good r =
      Leads-bind Good (Ready o) (λ _. Good) (λ _. Good) _ (with_result a launcher sidecar_empty r)
        (Leaves-then Good (Ready o) (Ready→Safe o a.tree) (λ _. Good) _ _
          (stale-Ready (rolled_back_by r) sidecar_empty) (apply_pending-Good sidecar_empty))
        (λ x w g fs. g)

  startup-Good :
      (folder_blank : Bool)
      → Leads Good (Ready o) (λ _. Good) (startup a launcher sidecar_empty folder_blank)
  startup-Good true = λ w r fs. Ready→Safe o a.tree _ r
  startup-Good false =
      Leads-bind Good (Ready o) (λ _. Ready o) (λ _. Good) (on_folder (recover (setup a)))
        (recovered a launcher sidecar_empty)
        (Leads-on_folder Good (Ready o) (λ _. Ready o) (recover (setup a)) setup-Ready)
        recovered-Good

-- However a start of the launcher that installs an update is cut short (an operation fails, or the
-- power is lost in the middle of one), whatever its calls answer, and however many runs of `Recover`
-- alone after it are cut short too, the first `Recover` that is not leaves the installed release or
-- the one that the archive holds complete in game/, with no staged release and no marker of a swap:
-- from a world whose installed release is complete and has no swap under way, on one file system and
-- with a sidecar whose name is not blank. An `Apply` that a later start goes on to after a `Recover`
-- that failed is not among those runs.
pub startup_recovers :
    (o : ℕ)
    → (a : Answers) → (launcher : Text) → (sidecar_empty folder_blank : Bool)
    → a.staging_blank ≡ false
    → a.cross_device ≡ false
    → (w : World) → Ready o w.folder
    → (fs : List Fault) → (fss : List (List Fault))
    → Settled o a.tree (
        after (
          recover same_device
            (recoveries same_device fss
              (after (startup a launcher sidecar_empty folder_blank w fs)).folder)
            []))
startup_recovers o a launcher sidecar_empty folder_blank blank device w r fs fss =
    recover-Settled o a.tree _ (
      recoveries-Safe o a.tree fss _ (
        Ends-after {C = λ v. Safe o a.tree v.folder} (λ _ v. Safe o a.tree v.folder)
          (startup a launcher sidecar_empty folder_blank w fs) (λ _ _ s. s)
          (startup-Good o a launcher sidecar_empty blank device folder_blank w r fs)))
