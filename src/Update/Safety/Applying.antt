-- ===== src/Update/Safety/Applying.antt =====
-- `Apply` of launcher/internal/update/apply.go, from the verification of the archive on, under every
-- schedule of faults.
use kobra_game.Base.{ℕ, ◌≡◌, sym, false, Option, none, some}
use kobra_game.Base.Faults.{Faulty, pure, ◌>>◌}
use kobra_game.Base.Faults.Triple.{Always, bare_rule}
use kobra_game.Update.Disk.{Tree, full, Folder, at_staging, remove_all}
use kobra_game.Update.World.{World, Answers, Violation, ignore}
use kobra_game.Update.Install.{setup, remove_game_staging, remove_launcher_staging, discard_staging}
use kobra_game.Update.Safety.{same_device, folder, Safe, untouched}
use kobra_game.Update.Safety.Leads.{Leads, Leaves, Leads-on_folder, Leaves-then, quiet-Leaves}

-- The installed release is whole and no swap is under way.
pub data Ready (o : ℕ) : Folder → Type 0 where
  ready : (b s : Option Tree) → Ready o (folder (some (full o)) b s none)

-- The new release is staged, too.
pub data Staged (o n : ℕ) : Folder → Type 0 where
  staged : (b : Option Tree) → Staged o n (folder (some (full o)) b (some (full n)) none)

pub Ready→Safe : (o n : ℕ) → (f : Folder) → Ready o f → Safe o n f
Ready→Safe o n _ (ready b s) = untouched b s

pub Staged→Ready : (o n : ℕ) → (f : Folder) → Staged o n f → Ready o f
Staged→Ready o n _ (staged b) = ready b _

pub Staged→Safe : (o n : ℕ) → (f : Folder) → Staged o n f → Safe o n f
Staged→Safe o n _ (staged b) = untouched b _

-- What `Extract` answers, and what it leaves.
abbrev pub Unpacked : ℕ → ℕ → Option Violation → Folder → Type 0
Unpacked o n none f = Staged o n f
Unpacked o n (some v) f = Ready o f

pub same_setup :
    (a : Answers) → a.staging_blank ≡ false → a.cross_device ≡ false → same_device ≡ setup a
same_setup a blank device i = record {
  folder_blank = false;
  staging_blank = sym blank i;
  cross_device = sym device i;
}

module _ (o n : ℕ) where
  remove-Ready :
      (f : Folder) → Ready o f → Always (Safe o n) (λ _. Ready o) (remove_all at_staging) f
  remove-Ready _ (ready b s) =
      bare_rule (Safe o n) (λ _. Ready o) _ _ _ (untouched _ _) (untouched _ _) (ready _ _)
        (ready _ _) (ready _ _)

  pub remove_game_staging-Ready : Leaves (Safe o n) (Ready o) remove_game_staging
  remove_game_staging-Ready =
      Leads-on_folder _ _ (λ _. Ready o) (remove_all at_staging) remove-Ready

  discard_staging-Ready : Leaves (Safe o n) (Ready o) discard_staging
  discard_staging-Ready =
      Leaves-then _ _ (Ready→Safe o n) (λ _. Ready o) (ignore remove_game_staging)
        (ignore remove_launcher_staging)
        (Leaves-then _ _ (Ready→Safe o n) (λ _. Ready o) remove_game_staging (pure tt)
          remove_game_staging-Ready (λ w r fs. r))
        (quiet-Leaves _ _ (Ready→Safe o n) _ (λ _ r. r))

  -- The staged release is dropped before what follows.
  pub discard_staging-then :
      {A : Type 0}
      → (m : Faulty World A) → Leaves (Safe o n) (Safe o n) m
      → Leads (Safe o n) (Ready o) (λ _. Safe o n) (discard_staging >> m)
  discard_staging-then m h =
      Leaves-then _ _ (Ready→Safe o n) (λ _. Safe o n) discard_staging m discard_staging-Ready
        (λ w r. h w (Ready→Safe o n _ r))
