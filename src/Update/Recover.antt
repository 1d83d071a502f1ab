-- ===== src/Update/Recover.antt =====
-- `Recover` of launcher/internal/update/swap.go, which runs at every start of the launcher.
use kobra_game.Base.{String, Bool, true, false, Option, none, some, ◌&&◌, not}
use kobra_game.Base.Faults.{pure, ◌>>=◌, ◌>>◌}
use kobra_game.Update.Disk.{
  Tree, Step, begin, promoted, garbled, Folder, Disk, exists, at_game, at_backup, at_staging,
  at_copy, rename, remove_all,
}
use kobra_game.Update.Swap.{Setup, clear_state, promote_dir}

pub data RecoveryAction : Type 0 where
  recovery_none rolled_forward rolled_back cleaned_stray : RecoveryAction

-- What was done, or the reason in the error's details.
pub data Recovery : Type 0 where
  did : RecoveryAction → Recovery
  failed : String → Recovery

abbrev pub remove_promote_debris : Option Tree → Disk Unit
remove_promote_debris none = pure tt
remove_promote_debris (some _) = remove_all at_copy >> pure tt

-- A step that ends the branch: an error with this reason, or the marker cleared and this answer.
abbrev pub settle : RecoveryAction → String → Bool → Disk Recovery
settle act reason false = pure (failed reason)
settle act reason true = clear_state >> pure (did act)

abbrev pub roll_forward_promoted : Bool → Disk Recovery
roll_forward_promoted false = rename at_backup at_game >> pure (failed "roll_forward")
roll_forward_promoted true = clear_state >> pure (did rolled_forward)

abbrev pub roll_forward_moved : Bool → Bool → Disk Recovery
roll_forward_moved cross false = pure (failed "roll_forward")
roll_forward_moved cross true = promote_dir cross at_staging at_game >>= roll_forward_promoted

abbrev pub roll_forward_cleared : Bool → Bool → Disk Recovery
roll_forward_cleared cross false = pure (failed "roll_forward")
roll_forward_cleared cross true = rename at_game at_backup >>= roll_forward_moved cross

abbrev pub roll_forward : Bool → Disk Recovery
roll_forward cross = remove_all at_backup >>= roll_forward_cleared cross

abbrev pub roll_back_cleared : Bool → Disk Recovery
roll_back_cleared false = pure (failed "roll_back")
roll_back_cleared true = promote_dir false at_backup at_game >>= settle rolled_back "roll_back"

abbrev pub roll_back : Disk Recovery
roll_back = remove_all at_game >>= roll_back_cleared

abbrev pub abort_cleaned : Bool → Disk Recovery
abort_cleaned false = pure (failed "clean_staging")
abort_cleaned true = clear_state >> pure (did cleaned_stray)

-- A marker, and no arrangement that calls for a move.
abbrev pub abort : Bool → Disk Recovery
abort true = remove_all at_staging >>= abort_cleaned
abort false = clear_state >> pure (did recovery_none)

abbrev pub cleaned : Bool → Disk Recovery
cleaned false = pure (failed "clean_staging")
cleaned true = pure (did cleaned_stray)

-- No marker.
abbrev pub clean : Bool → Disk Recovery
clean true = remove_all at_staging >>= cleaned
clean false = pure (did recovery_none)

-- A game and a backup under a marker whose step is the argument.
abbrev pub finish : Step → Disk Recovery
finish promoted = clear_state >> pure (did rolled_forward)
finish begin = roll_back
finish garbled = roll_back

-- The marker, and which of game/, game.new/ and game.old/ exist.
abbrev pub recover_from : Bool → Option Step → Bool → Bool → Bool → Disk Recovery
recover_from cross m false true old =
    promote_dir cross at_staging at_game >>= settle rolled_forward "recovery_complete"
recover_from cross m false false true =
    promote_dir false at_backup at_game >>= settle rolled_back "interrupted"
recover_from cross (some st) true true true = roll_forward cross
recover_from cross (some st) true false true = finish st
recover_from cross (some st) false false false = pure (failed "unrecoverable")
recover_from cross (some st) true new false = abort new
recover_from cross none true new old = clean new
recover_from cross none false false false = clean false

-- A blank staging root has no staged release.
abbrev pub staged : Setup → Folder → Bool
staged c w = not c.staging_blank && exists w.staging

abbrev pub recover_read : Setup → Disk Recovery
recover_read c w =
    recover_from c.cross_device w.marker (exists w.game) (staged c w) (exists w.backup) w

abbrev pub recover_rooted : Setup → Bool → Disk Recovery
recover_rooted c true = pure (failed "no_game_folder")
recover_rooted c false = λ w. (remove_promote_debris w.copy >> recover_read c) w

abbrev pub recover : Setup → Disk Recovery
recover c = recover_rooted c c.folder_blank
