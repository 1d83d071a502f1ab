-- ===== src/Storage/Types.antt =====
-- The files of a save slot and the state of `Engine` (launcher/internal/storage/storage.go).
use kobra_game.Base.{ℕ, String, Dict, [], List, Bool, Option, none, some, lookup}
use kobra_game.Base.Int.{ℤ, pos}
use kobra_game.Storage.Json.{Json}

-- What `json.Unmarshal` gives of a save file. No payload is one of length 0.
pub record SaveHeader : Type 0 where
  pub schema : String
  pub save_version : ℤ
  pub game_version : String
  pub release : String
  pub created : String
  pub modified : String
  pub revision : ℤ
  pub playtime_seconds : Option ℤ
  pub checksum : String
  pub compression : String
  pub payload : Option Json

-- The content of a file: a document, or bytes that do not decode.
pub data File : Type 0 where
  document : SaveHeader → File
  undecodable : File

-- <slot>.json, <slot>.json.bak, the numbers of the <slot>.json.<rev>, the stray .<slot>.json.tmp-*
-- and the slot's file and .bak in the trash, by the second of the directory; and its entry in `revisions`, 0 for none.
pub record Slot : Type 0 where
  pub main : Option File
  pub bak : Option File
  pub sidecars : List ℤ
  pub temps : ℕ
  pub trash : Dict File
  pub trash_bak : Dict File
  pub revision : ℤ

abbrev pub no_files : Slot
no_files = record {
  main = none;
  bak = none;
  sidecars = [];
  temps = 0;
  trash = [];
  trash_bak = [];
  revision = pos 0;
}

-- What `New` fixes, and whether a rename inside the data directory fails with EXDEV.
pub record Config : Type 0 where
  pub keep_revisions : ℤ
  pub release : String
  pub engine_version : String
  pub save_version : ℤ
  pub exdev : Bool

pub record Engine : Type 0 where
  pub slots : Dict Slot
  pub writer : String
  pub writable : Bool
  pub probe_reason : String

abbrev pub or_no_files : Option Slot → Slot
or_no_files none = no_files
or_no_files (some s) = s

abbrev pub slot_of : String → Engine → Slot
slot_of name e = or_no_files (lookup name e.slots)
