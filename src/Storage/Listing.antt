-- ===== src/Storage/Listing.antt =====
-- `ListSaves` of launcher/internal/storage/storage.go. The file index.json is the file of the slot
-- named index.
pub mod Readable
use kobra_game.Base.{
  ℕ, String, Dict, [], ◌∷◌, List, Bool, true, false, not, Option, none, some, lookup, str_eq, ◌&&◌,
  ◌||◌, if◌then◌else◌,
}
use kobra_game.Base.Int.{ℤ, pos, ltb_ℤ}
use kobra_game.Storage.Text.{Text, before, same_text}
use kobra_game.Storage.Types.{SaveHeader, File, Slot, Engine, slot_of}
use kobra_game.Storage.Identifier.{validate_identifier}
use kobra_game.Storage.Slots.{parse_save, verify_checksum, eq_ℤ, exists}

pub record SaveSummary : Type 0 where
  pub slot : String
  pub save_version : ℤ
  pub game_version : String
  pub modified : String
  pub revision : ℤ
  pub playtime_seconds : Option ℤ
  pub size : ℕ
  pub corrupt : Bool

pub record SaveList : Type 0 where
  pub saves : List SaveSummary
  pub rebuilt_index : Bool

-- A revision of 0 is shown as 1.
abbrev pub shown : ℤ → ℤ
shown r = if eq_ℤ r (pos 0) then pos 1 else r

-- The header's revision, where it has one.
abbrev pub listed_revision : SaveHeader → ℤ → ℤ
listed_revision h r = shown (if ltb_ℤ (pos 0) h.revision then h.revision else r)

abbrev pub or_empty : Option String → String
or_empty none = ""
or_empty (some s) = s

abbrev pub indexed : Option (Dict String) → String → String
indexed none slot = ""
indexed (some entries) slot = or_empty (lookup slot entries)

-- What is not empty first.
abbrev pub first_text : String → String → String
first_text a b = if str_eq a "" then b else a

module _ (sha256 : Text → String) (size_of : File → ℕ) (mtime : String → String)
    (index : Option (Dict String)) where
  -- From the file and its header, if it has a good one.
  abbrev pub summarise : String → ℤ → File → Option SaveHeader → SaveSummary
  summarise slot revision f none = record {
    slot = slot;
    save_version = pos 0;
    game_version = "";
    modified = first_text (indexed index slot) (mtime slot);
    revision = shown revision;
    playtime_seconds = none;
    size = size_of f;
    corrupt = true;
  }
  summarise slot revision f (some h) = record {
    slot = slot;
    save_version = h.save_version;
    game_version = h.game_version;
    modified = first_text h.modified (first_text (indexed index slot) (mtime slot));
    revision = listed_revision h revision;
    playtime_seconds = h.playtime_seconds;
    size = size_of f;
    corrupt = not (verify_checksum sha256 h);
  }

  abbrev pub summary : String → ℤ → File → SaveSummary
  summary slot revision f = summarise slot revision f (parse_save f)

  abbrev pub add_summary : String → Slot → Option File → List SaveSummary → List SaveSummary
  add_summary slot s none rest = rest
  add_summary slot s (some f) rest = summary slot s.revision f ∷ rest

  -- The slots with a valid name that have a file.
  unfoldable pub collect : (String → Text) → Dict Slot → List SaveSummary
  collect bytes [] = []
  collect bytes ((name, s) ∷ slots) =
      let rest = collect bytes slots in
      if validate_identifier (bytes name) then add_summary name s s.main rest else rest

module _ (bytes : String → Text) where
  -- The latest first, and by name where they agree.
  abbrev pub comes_before : SaveSummary → SaveSummary → Bool
  comes_before a b =
      if not (str_eq a.modified b.modified)
      then before (bytes b.modified) (bytes a.modified)
      else before (bytes a.slot) (bytes b.slot)

  unfoldable pub place_summary : SaveSummary → List SaveSummary → List SaveSummary
  place_summary a [] = a ∷ []
  place_summary a (b ∷ bs) =
      let rest = place_summary a bs in if comes_before b a then b ∷ rest else a ∷ b ∷ bs

  unfoldable pub sort_saves : List SaveSummary → List SaveSummary
  unfolding place_summary
  sort_saves [] = []
  sort_saves (a ∷ as_) = place_summary a (sort_saves as_)

-- `readIndex`, by what the file decodes to.
abbrev pub read_index : (File → Option (Dict String)) → Option File → Option (Dict String)
read_index decode none = none
read_index decode (some f) = decode f

module _ (sha256 : Text → String) (size_of : File → ℕ) (mtime : String → String)
    (decode : File → Option (Dict String)) (bytes : String → Text) where
  abbrev pub list_indexed : Option (Dict String) → Engine → SaveList
  list_indexed index e = record {
    saves = sort_saves bytes (collect sha256 size_of mtime index bytes e.slots);
    rebuilt_index = not (exists index);
  }

  -- `ListSaves`; the arguments say that the context is live and that the folder is there.
  unfoldable pub list_saves : Bool → Bool → Engine → Option SaveList
  unfolding collect sort_saves
  list_saves false there e = none
  list_saves true false e = some (record { saves = []; rebuilt_index = false })
  list_saves true true e = some (list_indexed (read_index decode (slot_of "index" e).main) e)
