-- ===== src/Update/Safety.antt =====
-- The states of the game folder between `Swap` and the end of `Recover`
-- (launcher/internal/update/swap.go), when the staging root is on the folder's file system.
pub mod Swapping
pub mod Recovering
pub mod Restarts
pub mod Leads
pub mod Quiet
pub mod Applying
pub mod Promoting
pub mod Installing
pub mod Requested
pub mod Starting
use kobra_game.Base.{ℕ, Bool, true, false, Option, none, some, ◌≡◌, ◌⊎◌, List, [], ◌∷◌}
use kobra_game.Base.Faults.{after, Fault, Run, died, returned}
use kobra_game.Update.Disk.{Tree, full, torn, Step, begin, promoted, garbled, Folder}
use kobra_game.Update.Swap.{Setup}
use kobra_game.Update.Recover.{recover, Recovery}

abbrev pub same_device : Setup
same_device = record { folder_blank = false; staging_blank = false; cross_device = false }

abbrev pub folder : Option Tree → Option Tree → Option Tree → Option Step → Folder
folder g b s m = record { game = g; backup = b; staging = s; marker = m; copy = none }

-- A marker that does not record the promotion.
abbrev pub unproven : Bool → Step
unproven true = garbled
unproven false = begin

-- The arrangements from which recovery is safe, from the installed release `o` to the new one.
pub data Safe (o n : ℕ) : Folder → Type 0 where
  untouched : (b s : Option Tree) → Safe o n (folder (some (full o)) b s none)
  unmoved : (s : Option Tree) → (m : Option Step) → Safe o n (folder (some (full o)) none s m)
  marked :
      (b : Option Tree) → (m : Option Step) → Safe o n (folder (some (full o)) b (some (full n)) m)
  moved : (m : Option Step) → Safe o n (folder none (some (full o)) (some (full n)) m)
  undone :
      (t : Option Tree) → (g : Bool) → Safe o n (folder t (some (full o)) none (some (unproven g)))
  installed : (b : Option Tree) → Safe o n (folder (some (full n)) b none none)
  proven : (b : Option Tree) → Safe o n (folder (some (full n)) b none (some promoted))

-- Runs of `Recover` one after another, each with its own faults.
unfoldable pub recoveries : Setup → List (List Fault) → Folder → Folder
recoveries c [] w = w
recoveries c (fs ∷ fss) w = recoveries c fss (after (recover c w fs))

-- One of the two releases is whole in game/, no staged release is left and no marker.
pub record Settled (o n : ℕ) (w : Folder) : Type 0 where
  pub whole : (w.game ≡ some (full o)) ⊎ (w.game ≡ some (full n))
  pub no_staging : w.staging ≡ none
  pub no_marker : w.marker ≡ none
