-- ===== src/Update/Swap.antt =====
-- `Swap` and `promoteDir` of launcher/internal/update (swap.go, movedir.go).
use kobra_game.Base.{String, Bool, true, false, Option, none, some}
use kobra_game.Base.Faults.{attempt, look, pure, ◌>>=◌, ◌>>◌}
use kobra_game.Update.Disk.{
  tear, Step, begin, promoted, Disk, exists, Place, at_game, at_backup, at_staging, at_copy,
  tree_at, put, rename, remove_all, set_marker,
}

-- The two arguments' blankness, and whether the staging root is on another file system.
pub record Setup : Type 0 where
  pub folder_blank : Bool
  pub staging_blank : Bool
  pub cross_device : Bool

abbrev pub write_state : Step → Disk Bool
write_state st = set_marker (some st)

abbrev pub remove_state : Disk Bool
remove_state = set_marker none

abbrev pub clear_state : Disk Unit
clear_state = remove_state >> pure tt

-- `copyTree` into the directory that `MkdirTemp` made.
abbrev pub copy_tree : Place → Disk Bool
copy_tree src =
    attempt (λ w. put at_copy (tree_at src w) w) (λ w. put at_copy (tear (tree_at src w)) w)

abbrev pub make_temp : Place → Disk Bool
make_temp src = attempt (λ w. put at_copy (tear (tree_at src w)) w) (λ w. w)

abbrev pub drop_copy : Disk Bool
drop_copy = remove_all at_copy >> pure false

abbrev pub finish_copy : Place → Bool → Disk Bool
finish_copy src false = drop_copy
finish_copy src true = remove_all src >> pure true

abbrev pub rename_copy : Place → Place → Bool → Disk Bool
rename_copy src dst false = drop_copy
rename_copy src dst true = rename at_copy dst >>= finish_copy src

abbrev pub fill_copy : Place → Place → Bool → Disk Bool
fill_copy src dst false = pure false
fill_copy src dst true = copy_tree src >>= rename_copy src dst

-- The first argument: the rename fails with EXDEV.
abbrev pub promote_dir : Bool → Place → Place → Disk Bool
promote_dir false src dst = rename src dst
promote_dir true src dst = make_temp src >>= fill_copy src dst

-- The answer of `Swap`: no error, or the reason in its details.
abbrev pub Outcome : Type 0
Outcome = Option String

abbrev pub put_back : Bool → Disk Unit
put_back true = clear_state
put_back false = pure tt

abbrev pub swap_promoted : Bool → Disk Outcome
swap_promoted false = rename at_backup at_game >>= λ ok. put_back ok >> pure (some "promote_move")
swap_promoted true = write_state promoted >>= λ _. clear_state >> pure none

abbrev pub swap_backed_up : Bool → Bool → Disk Outcome
swap_backed_up cross false = clear_state >> pure (some "backup_move")
swap_backed_up cross true = promote_dir cross at_staging at_game >>= swap_promoted

abbrev pub swap_cleared : Bool → Bool → Disk Outcome
swap_cleared cross false = clear_state >> pure (some "stale_backup")
swap_cleared cross true = rename at_game at_backup >>= swap_backed_up cross

abbrev pub discard_backup : Bool → Disk Bool
discard_backup false = pure true
discard_backup true = remove_all at_backup

abbrev pub swap_marked : Bool → Bool → Disk Outcome
swap_marked cross false = pure (some "state_write")
swap_marked cross true = look (λ w. exists w.backup) >>= discard_backup >>= swap_cleared cross

abbrev pub swap_checked : Bool → Bool → Bool → Disk Outcome
swap_checked cross false _ = pure (some "no_staging")
swap_checked cross true false = pure (some "no_game")
swap_checked cross true true = write_state begin >>= swap_marked cross

abbrev pub swap_rooted : Setup → Bool → Bool → Disk Outcome
swap_rooted c true _ = pure (some "no_game_folder")
swap_rooted c false true = pure (some "no_staging_root")
swap_rooted c false false = λ w. swap_checked c.cross_device (exists w.staging) (exists w.game) w

abbrev pub swap : Setup → Disk Outcome
swap c = swap_rooted c c.folder_blank c.staging_blank
