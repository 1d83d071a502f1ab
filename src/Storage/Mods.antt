-- ===== src/Storage/Mods.antt =====
-- The mods of a game: `readModsState`, `EnabledModIDs`, `ModAction` and `DeleteMod` of
-- launcher/internal/storage/mods.go.
pub mod Enabled
use kobra_game.Base.{
  ℕ, suc, ◌-◌, String, [], ◌∷◌, List, Bool, true, false, not, Option, none, some, str_eq, ◌||◌,
  if◌then◌else◌,
}
use kobra_game.Base.Faults.{Faulty, pure, ◌>>=◌, ◌>>◌, atomic}
use kobra_game.Storage.Text.{Text, before}
use kobra_game.Storage.Identifier.{validate_identifier}
use kobra_game.Storage.Atomic.{Target, write_atomic}
use kobra_game.Storage.Slots.{
  SaveError, read_only, bad_identifier, malformed, not_found, write_failed, out_of_root, exists,
}

-- The content of mods.json: the list of the enabled mods, or bytes that do not decode.
pub data StateFile : Type 0 where
  enabled_list : List String → StateFile
  no_state : StateFile

-- mods.json, its .bak, stray temporary files, the folders in mods/, and those in the trash.
pub record Mods : Type 0 where
  pub main : Option StateFile
  pub bak : Option StateFile
  pub temps : ℕ
  pub installed : List String
  pub trashed : List String

abbrev pub mods_target : StateFile → Target Mods
mods_target f = record {
  present = λ s. exists s.main;
  drop_bak = λ s. record s { bak = none };
  back_up = λ s. record s { main = none; bak = s.main };
  land = λ s. record s { main = some f };
  spoil = λ s. record s { main = some no_state };
  clear = λ s. record s { main = none };
  add_temp = λ s. record s { temps = suc s.temps };
  drop_temp = λ s. record s { temps = s.temps - 1 };
}

unfoldable pub has_id : String → List String → Bool
has_id x [] = false
has_id x (y ∷ ys) = str_eq y x || has_id x ys

unfoldable pub drop_id : String → List String → List String
drop_id x [] = []
drop_id x (y ∷ ys) = let rest = drop_id x ys in if str_eq y x then rest else y ∷ rest

-- `enabled[id] = true`, on the set of a list.
abbrev pub add_id : String → List String → List String
add_id x ids = x ∷ drop_id x ids

-- The keys of the set of a list.
unfoldable pub id_set : List String → List String
unfolding drop_id
id_set [] = []
id_set (x ∷ xs) = add_id x (id_set xs)

pub data ModAction : Type 0 where
  enable disable install other_action : ModAction

pub data ModResult : Type 0 where
  changed : ModResult
  unchanged : SaveError → ModResult

-- `bytes` are the characters of a name.
module _ (bytes : String → Text) where
  unfoldable pub place_id : String → List String → List String
  place_id x [] = x ∷ []
  place_id x (y ∷ ys) =
      let rest = place_id x ys in if before (bytes y) (bytes x) then y ∷ rest else x ∷ y ∷ ys

  -- `sort.Strings`
  unfoldable pub sort_ids : List String → List String
  unfolding place_id
  sort_ids [] = []
  sort_ids (x ∷ xs) = place_id x (sort_ids xs)

  unfoldable pub valid_ids : List String → List String
  valid_ids [] = []
  valid_ids (x ∷ xs) =
      let rest = valid_ids xs in if validate_identifier (bytes x) then x ∷ rest else rest

  -- `readModsState`; the .bak is not read.
  abbrev pub state_of : Option StateFile → List String
  state_of none = []
  state_of (some no_state) = []
  state_of (some (enabled_list ids)) = valid_ids ids

  abbrev pub read_mods_state : Mods → List String
  read_mods_state s = state_of s.main

  -- `EnabledModIDs`
  abbrev pub enabled_mod_ids : Mods → List String
  enabled_mod_ids s = sort_ids (read_mods_state s)

  abbrev pub report_action : Bool → Faulty Mods ModResult
  report_action true = pure changed
  report_action false = pure (unchanged write_failed)

  module _ (exdev : Bool) where
    abbrev pub write_enabled : List String → Faulty Mods ModResult
    write_enabled ids =
        write_atomic (mods_target (enabled_list (sort_ids ids))) exdev >>= report_action

    -- `unpack` is what the archive does to the folder, and whether it can be unpacked.
    module _ (unpack : Mods → Mods × Bool) where
      abbrev pub after_unpack : String → List String → Bool → Faulty Mods ModResult
      after_unpack id ids false = pure (unchanged malformed)
      after_unpack id ids true = write_enabled (add_id id ids)

      -- The set is that of the state before.
      abbrev pub apply_action : String → List String → ModAction → Faulty Mods ModResult
      apply_action id ids enable = λ s.
          (if has_id id s.installed
              then write_enabled (add_id id ids)
              else pure (unchanged not_found))
            s
      apply_action id ids disable = write_enabled (drop_id id ids)
      apply_action id ids install = λ s. after_unpack id ids (unpack s).1 (unpack s).0
      apply_action id ids other_action = pure (unchanged malformed)

      -- `ModAction`
      abbrev pub mod_action :
          (writable : Bool) → (reason : String) → String → ModAction → Faulty Mods ModResult
      mod_action writable reason id a =
          if not (validate_identifier (bytes id))
          then pure (unchanged bad_identifier)
          else if writable
          then (λ s. apply_action id (id_set (read_mods_state s)) a s)
          else pure (unchanged (read_only reason))

    -- `DeleteMod`: the folder to the trash, then the list without the mod, whose failure counts for
    -- nothing.
    abbrev pub delist : String → Bool → Faulty Mods ModResult
    delist id false = pure (unchanged write_failed)
    delist id true = λ s.
        (write_atomic (mods_target (enabled_list (drop_id id (read_mods_state s)))) exdev
            >> pure changed)
          s

    abbrev pub trash_made : String → Bool → Faulty Mods ModResult
    trash_made id false = pure (unchanged write_failed)
    trash_made id true =
        atomic (λ s. record s { installed = drop_id id s.installed; trashed = add_id id s.trashed })
        >>= delist id

    abbrev pub delete_present : String → Bool → Faulty Mods ModResult
    delete_present id false = pure (unchanged not_found)
    delete_present id true = atomic (λ s. s) >>= trash_made id

    -- `inside` is the answer of `paths.Confine`.
    abbrev pub delete_mod : (inside : Bool) → String → Faulty Mods ModResult
    delete_mod inside id =
        if not (validate_identifier (bytes id))
        then pure (unchanged bad_identifier)
        else if inside
        then (λ s. delete_present id (has_id id s.installed) s)
        else pure (unchanged out_of_root)
