-- ===== src/Storage/Atomic.antt =====
-- `writeAtomic` and `renameCrossDevice` of launcher/internal/storage/storage.go.
use kobra_game.Base.{Bool, true, false}
use kobra_game.Base.Faults.{Faulty, pure, ◌>>=◌, attempt, atomic}

-- The file that is written, by what each operation on it does to the world.
pub record Target (W : Type 0) : Type 0 where
  pub present : W → Bool  -- the target exists
  pub drop_bak : W → W  -- removes its .bak
  pub back_up : W → W  -- renames it to its .bak
  pub land : W → W  -- the new content is in it
  pub spoil : W → W  -- it is truncated, or has a part of the new content
  pub clear : W → W  -- removes it
  pub add_temp : W → W  -- one temporary file more
  pub drop_temp : W → W  -- one less

module _ {W : Type 0} (t : Target W) where
  -- Removing the temporary file; the write has failed.
  abbrev pub give_up : Faulty W Bool
  give_up = atomic t.drop_temp >>= λ _. pure false

  abbrev pub remove_source : Bool → Faulty W Bool
  remove_source false = pure false
  remove_source true = atomic t.drop_temp

  abbrev pub close_copy : Bool → Faulty W Bool
  close_copy false = atomic t.clear >>= λ _. pure false
  close_copy true = atomic (λ w. w) >>= remove_source

  abbrev pub sync_copy : Bool → Faulty W Bool
  sync_copy false = atomic t.clear >>= λ _. pure false
  sync_copy true = atomic (λ w. w) >>= close_copy

  abbrev pub copy_over : Bool → Faulty W Bool
  copy_over false = pure false
  copy_over true = attempt t.land t.spoil >>= sync_copy

  abbrev pub open_copy : Bool → Faulty W Bool
  open_copy false = pure false
  open_copy true = atomic t.spoil >>= copy_over

  abbrev pub rename_cross_device : Faulty W Bool
  rename_cross_device = atomic (λ w. w) >>= open_copy

  abbrev pub or_give_up : Bool → Faulty W Bool
  or_give_up false = give_up
  or_give_up true = pure true

  -- The last rename; the argument says that it fails with EXDEV.
  abbrev pub rename_temp : Bool → Faulty W Bool
  rename_temp false = atomic (λ w. t.drop_temp (t.land w)) >>= or_give_up
  rename_temp true = rename_cross_device >>= or_give_up

  abbrev pub backed_up : Bool → Bool → Faulty W Bool
  backed_up exdev false = give_up
  backed_up exdev true = rename_temp exdev

  abbrev pub keep_old : Bool → Bool → Faulty W Bool
  keep_old exdev false = rename_temp exdev
  keep_old exdev true = atomic t.drop_bak >>= λ _. atomic t.back_up >>= backed_up exdev

  abbrev pub verified : Bool → Bool → Faulty W Bool
  verified exdev false = give_up
  verified exdev true = λ w. keep_old exdev (t.present w) w

  abbrev pub closed : Bool → Bool → Faulty W Bool
  closed exdev false = give_up
  closed exdev true = atomic (λ w. w) >>= verified exdev

  abbrev pub synced : Bool → Bool → Faulty W Bool
  synced exdev false = give_up
  synced exdev true = atomic (λ w. w) >>= closed exdev

  abbrev pub written : Bool → Bool → Faulty W Bool
  written exdev false = give_up
  written exdev true = atomic (λ w. w) >>= synced exdev

  abbrev pub temp_open : Bool → Bool → Faulty W Bool
  temp_open exdev false = pure false
  temp_open exdev true = atomic (λ w. w) >>= written exdev

  abbrev pub dir_made : Bool → Bool → Faulty W Bool
  dir_made exdev false = pure false
  dir_made exdev true = atomic t.add_temp >>= temp_open exdev

  abbrev pub space_checked : Bool → Bool → Faulty W Bool
  space_checked exdev false = pure false
  space_checked exdev true = atomic (λ w. w) >>= dir_made exdev

  abbrev pub not_cancelled : Bool → Bool → Faulty W Bool
  not_cancelled exdev false = pure false
  not_cancelled exdev true = atomic (λ w. w) >>= space_checked exdev

  -- The checks of the context and of the space, the temporary file (opened, written, synced, closed
  -- and its size verified), the backup of the target and the rename, in their order. The answer
  -- says whether there is no error.
  abbrev pub write_atomic : Bool → Faulty W Bool
  write_atomic exdev = atomic (λ w. w) >>= not_cancelled exdev
