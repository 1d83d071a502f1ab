-- ===== src/Storage/Settings.antt =====
-- The settings document of launcher/internal/storage/storage.go: `readConfigBytes`, `ReadConfig` and
-- `MergeConfig`.
pub mod Merging
use kobra_game.Base.{
  ℕ, suc, ◌-◌, String, Dict, [], ◌∷◌, List, Bool, true, false, Option, none, some, insert,
  if◌then◌else◌,
}
use kobra_game.Base.Int.{ℤ, pos}
use kobra_game.Base.Faults.{Faulty, pure, ◌>>=◌}
use kobra_game.Storage.Json.{Json}
use kobra_game.Storage.Atomic.{Target, write_atomic}
use kobra_game.Storage.Slots.{
  SaveError, read_only, conflict, malformed, write_failed, eq_ℤ, exists, next_after,
}

-- The content of settings.json: an object, `null`, or bytes that do not decode to a map.
pub data Document : Type 0 where
  settings : Dict Json → Document
  null_document : Document
  no_object : Document

-- settings.json, its .bak, stray temporary files, and the entry in `revisions`.
pub record Settings : Type 0 where
  pub main : Option Document
  pub bak : Option Document
  pub temps : ℕ
  pub revision : ℤ

abbrev pub settings_target : Document → Target Settings
settings_target f = record {
  present = λ s. exists s.main;
  drop_bak = λ s. record s { bak = none };
  back_up = λ s. record s { main = none; bak = s.main };
  land = λ s. record s { main = some f };
  spoil = λ s. record s { main = some no_object };
  clear = λ s. record s { main = none };
  add_temp = λ s. record s { temps = suc s.temps };
  drop_temp = λ s. record s { temps = s.temps - 1 };
}

-- `readConfigBytes`, the files being readable: the document, and whether it is the .bak.
abbrev pub or_bak : Option Document → Document × Bool
or_bak none = (settings [], false)
or_bak (some b) = (b, true)

abbrev pub read_config_bytes : Option Document → Option Document → Document × Bool
read_config_bytes (some f) bak = (f, false)
read_config_bytes none bak = or_bak bak

-- `ReadConfig`; `none` is a cancelled request.
abbrev pub read_config : Bool → Settings → Option Document
read_config false s = none
read_config true s = some (read_config_bytes s.main s.bak).0

-- A request; a `merge` that does not encode is `none`.
pub record ConfigMerge : Type 0 where
  pub if_revision : Option ℤ
  pub merge : Option (Dict Json)

unfoldable pub merge_into : Dict Json → Dict Json → Dict Json
merge_into cur [] = cur
merge_into cur ((k, v) ∷ rest) = merge_into (insert k v cur) rest

-- The document to write; `none` is a panic: `null` decodes to a nil map, in which an assignment
-- panics. A document that does not decode counts as the empty one.
abbrev pub merged_document : Document → Dict Json → Option Document
merged_document (settings fields) m = some (settings (merge_into fields m))
merged_document no_object m = some (settings (merge_into [] m))
merged_document null_document [] = some null_document
merged_document null_document (e ∷ m) = none

pub data MergeResult : Type 0 where
  merged : (revision : ℤ) → MergeResult
  not_merged : SaveError → MergeResult
  panicked : MergeResult

abbrev pub merge_landed : Bool → Faulty Settings MergeResult
merge_landed false = pure (not_merged write_failed)
merge_landed true =
    λ s. pure (merged (next_after s.revision)) (record s { revision = next_after s.revision })

abbrev pub put_merged : Bool → Option Document → Faulty Settings MergeResult
put_merged exdev none = pure panicked
put_merged exdev (some f) = write_atomic (settings_target f) exdev >>= merge_landed

abbrev pub merge_body : Bool → Option (Dict Json) → Faulty Settings MergeResult
merge_body exdev none = pure (not_merged malformed)
merge_body exdev (some m) =
    λ s. put_merged exdev (merged_document (read_config_bytes s.main s.bak).0 m) s

-- `modified` is that of the save slot named settings, which `checkRevision` reports here as well.
abbrev pub merge_checked : Bool → String → ConfigMerge → Option ℤ → Faulty Settings MergeResult
merge_checked exdev modified m none = merge_body exdev m.merge
merge_checked exdev modified m (some r) = λ s.
    (if eq_ℤ r s.revision
        then merge_body exdev m.merge
        else pure (not_merged (conflict s.revision modified)))
      s

abbrev pub merge_config : Bool → String → Bool → String → ConfigMerge → Faulty Settings MergeResult
merge_config exdev modified false reason m = pure (not_merged (read_only reason))
merge_config exdev modified true reason m = merge_checked exdev modified m m.if_revision
