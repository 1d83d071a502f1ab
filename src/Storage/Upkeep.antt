-- ===== src/Storage/Upkeep.antt =====
-- What a start of the launcher tidies in the data directory: `QuarantineStrayTemps` and
-- `CleanupTrash` of launcher/internal/storage/storage.go.
pub mod Exact
use kobra_game.Base.{
  ℕ, suc, ◌+◌, [], ◌∷◌, List, Bool, true, false, not, Option, none, some, ◌==◌, ◌&&◌, ◌||◌,
  if◌then◌else◌,
}
use kobra_game.Base.Int.{ℤ, pos, leb_ℤ, ltb_ℤ, ◌-ℤ◌}
use kobra_game.Storage.Text.{Text, same_text}

abbrev pub starts_text : Text → Text → Bool
starts_text [] s = true
starts_text (c ∷ p) [] = false
starts_text (c ∷ p) (d ∷ s) = (c == d) && starts_text p s

abbrev pub contains_text : Text → Text → Bool
contains_text p [] = starts_text p []
contains_text p (c ∷ s) = starts_text p (c ∷ s) || contains_text p s

-- `isWriteTempName`: a dot in front, and .tmp- in it.
abbrev pub is_write_temp_name : Text → Bool
is_write_temp_name name =
    starts_text (46 ∷ []) name && contains_text (46 ∷ 116 ∷ 109 ∷ 112 ∷ 45 ∷ []) name

pub record DirEntry : Type 0 where
  pub name : Text
  pub is_dir : Bool
  pub modified : Option ℤ  -- `none` where `Info` fails

pub record Area : Type 0 where
  pub entries : List DirEntry
  pub trash : List DirEntry

abbrev pub stray : DirEntry → Bool
stray d = not d.is_dir && is_write_temp_name d.name

-- One area; `moves` says which file can be moved. What cannot stays.
unfoldable pub quarantine_area : (DirEntry → Bool) → List DirEntry → Area
quarantine_area moves [] = record { entries = []; trash = [] }
quarantine_area moves (d ∷ ds) =
    let rest = quarantine_area moves ds in
    if stray d && moves d
    then record { entries = rest.entries; trash = d ∷ rest.trash }
    else record { entries = d ∷ rest.entries; trash = rest.trash }

pub record Quarantined : Type 0 where
  pub saves : Area
  pub config : Area
  pub count : ℕ

abbrev pub count_of : List DirEntry → ℕ
count_of [] = 0
count_of (d ∷ ds) = suc (count_of ds)

abbrev pub quarantined : Area → Area → Quarantined
quarantined s c = record { saves = s; config = c; count = count_of s.trash + count_of c.trash }

-- `QuarantineStrayTemps` of saves/ and config/, the request being live and the folders readable.
abbrev pub quarantine_stray_temps : (DirEntry → Bool) → List DirEntry → List DirEntry → Quarantined
quarantine_stray_temps moves saves config =
    quarantined (quarantine_area moves saves) (quarantine_area moves config)

abbrev pub not_after : Option ℤ → ℤ → Bool
not_after none cutoff = false
not_after (some t) cutoff = leb_ℤ t cutoff

-- A directory .trash-* from the cutoff or before.
abbrev pub old_trash : ℤ → DirEntry → Bool
old_trash cutoff d =
    d.is_dir
    && starts_text (46 ∷ 116 ∷ 114 ∷ 97 ∷ 115 ∷ 104 ∷ 45 ∷ []) d.name
    && not_after d.modified cutoff

-- What is left; `removes` says which directory can be removed.
unfoldable pub cleanup_entries : (DirEntry → Bool) → ℤ → List DirEntry → List DirEntry
cleanup_entries removes cutoff [] = []
cleanup_entries removes cutoff (d ∷ ds) =
    let rest = cleanup_entries removes cutoff ds in
    if old_trash cutoff d && removes d then rest else d ∷ rest

-- `CleanupTrash`; `age` is the retention in nanoseconds, from `days`.
abbrev pub cleanup_trash : (DirEntry → Bool) → (days age now : ℤ) → List DirEntry → List DirEntry
cleanup_trash removes days age now ds =
    if leb_ℤ days (pos 0) then ds else cleanup_entries removes (now -ℤ age) ds
