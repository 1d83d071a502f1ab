-- ===== src/Update/Disk.antt =====
-- The directories and the marker that launcher/internal/update/swap.go moves, and the operations on
-- them.
use kobra_game.Base.{ℕ, Bool, true, false, Option, none, some}
use kobra_game.Base.Faults.{Faulty, pure, attempt}

-- What a directory holds: the complete tree of a release, or some of the files of one.
pub data Tree : Type 0 where
  full torn : ℕ → Tree

abbrev pub tear : Option Tree → Option Tree
tear none = none
tear (some (full r)) = some (torn r)
tear (some (torn r)) = some (torn r)

-- The `step` of update.state; `garbled` is a marker that does not parse.
pub data Step : Type 0 where
  begin promoted garbled : Step

pub record Folder : Type 0 where
  pub game : Option Tree  -- game/
  pub backup : Option Tree  -- game.old/
  pub staging : Option Tree  -- game.new/, in the staging root
  pub marker : Option Step  -- update.state
  pub copy : Option Tree  -- .game.promote-*, beside game/

abbrev pub Disk : Type 0 → Type 0
Disk A = Faulty Folder A

abbrev pub exists : {A : Type 0} → Option A → Bool
exists none = false
exists (some _) = true

-- The directories, by name.
pub data Place : Type 0 where
  at_game at_backup at_staging at_copy : Place

abbrev pub tree_at : Place → Folder → Option Tree
tree_at at_game w = w.game
tree_at at_backup w = w.backup
tree_at at_staging w = w.staging
tree_at at_copy w = w.copy

abbrev pub put : Place → Option Tree → Folder → Folder
put at_game t w = record w { game = t }
put at_backup t w = record w { backup = t }
put at_staging t w = record w { staging = t }
put at_copy t w = record w { copy = t }

-- `os.Rename` of a directory: it wants a source and no directory in its way, and it happens as a
-- whole or not at all.
abbrev pub rename_if : Option Tree → Option Tree → Place → Place → Disk Bool
rename_if none _ src dst = pure false
rename_if (some t) (some _) src dst = pure false
rename_if (some t) none src dst = attempt (λ w. put src none (put dst (some t) w)) (λ w. w)

abbrev pub rename : Place → Place → Disk Bool
rename src dst w = rename_if (tree_at src w) (tree_at dst w) src dst w

-- `os.RemoveAll`: cut short, it leaves some of the files.
abbrev pub remove_all : Place → Disk Bool
remove_all p = attempt (put p none) (λ w. put p (tear (tree_at p w)) w)

-- A marker is written beside the old one and renamed over it, or removed: as a whole or not at
-- all.
abbrev pub set_marker : Option Step → Disk Bool
set_marker m = attempt (λ w. record w { marker = m }) (λ w. w)
