-- ===== src/Storage/Slots.antt =====
-- What launcher/internal/storage/storage.go does to the files of one slot, with `writeMu` held.
pub mod Writing
pub mod Pruning
pub mod Durable
pub mod Revisions
pub mod History
pub mod Landing
pub mod Trash
pub mod Sound
use Prim.Native.String.{◌++◌ as append}
use kobra_game.Base.{
  ℕ, zero, suc, ◌-◌, String, Dict, insert, [], ◌∷◌, List, Bool, true, false, not, Option, none,
  some, length, str_eq, leb, ◌&&◌, ◌||◌, if◌then◌else◌,
}
use kobra_game.Base.Int.{ℤ, pos, negsuc, leb_ℤ, ltb_ℤ, ◌+ℤ◌, wrap64, pos_part}
use kobra_game.Base.Faults.{Faulty, pure, ◌>>=◌, ◌>>◌, attempt, atomic, look}
use kobra_game.Storage.Text.{Text}
use kobra_game.Storage.Json.{Json, encode_canonical}
use kobra_game.Storage.Types.{SaveHeader, File, document, undecodable, Slot, Config}
use kobra_game.Storage.Atomic.{Target, write_atomic}

abbrev pub schema_save : String
schema_save = "kobra.save/1"

abbrev pub eq_ℤ : ℤ → ℤ → Bool
eq_ℤ a b = leb_ℤ a b && leb_ℤ b a

abbrev pub exists : {A : Type 0} → Option A → Bool
exists none = false
exists (some _) = true

-- `parseSave`
abbrev pub checked_header : Option Json → SaveHeader → Option SaveHeader
checked_header none h = none
checked_header (some v) h =
    if not (str_eq h.schema schema_save)
    then none
    else if ltb_ℤ h.save_version (pos 1)
    then none
    else some h

unfoldable pub parse_save : File → Option SaveHeader
parse_save undecodable = none
parse_save (document h) = checked_header h.payload h

abbrev pub read_save_header : Option File → Option SaveHeader
read_save_header none = none
read_save_header (some f) = parse_save f

module _ (sha256 : Text → String) where
  abbrev pub checksum_of : Json → String
  checksum_of v = append "sha256:" (sha256 (encode_canonical v))

  -- `verifyChecksum`; a payload that is not there does not decode.
  abbrev pub checksum_matches : Option Json → String → Bool
  checksum_matches none sum = false
  checksum_matches (some v) sum = str_eq sum (checksum_of v)

  unfoldable pub verify_checksum : SaveHeader → Bool
  verify_checksum h = if str_eq h.checksum "" then true else checksum_matches h.payload h.checksum

-- `revs` of `pruneRevisions`, sorted.
unfoldable pub insert_rev : ℤ → List ℤ → List ℤ
insert_rev r [] = r ∷ []
insert_rev r (q ∷ qs) = let rest = insert_rev r qs in if ltb_ℤ q r then q ∷ rest else r ∷ q ∷ qs

unfoldable pub sort_revs : List ℤ → List ℤ
unfolding insert_rev
sort_revs [] = []
sort_revs (r ∷ rs) = insert_rev r (sort_revs rs)

unfoldable pub drop_rev : ℤ → List ℤ → List ℤ
drop_rev r [] = []
drop_rev r (q ∷ qs) = let rest = drop_rev r qs in if eq_ℤ q r then rest else q ∷ rest

unfoldable pub has_rev : ℤ → List ℤ → Bool
has_rev r [] = false
has_rev r (q ∷ qs) = eq_ℤ q r || has_rev r qs

-- The sidecars that go: the first of the sorted ones, so many.
unfoldable pub evict_revs : ℕ → List ℤ → Faulty Slot Unit
evict_revs zero rs = pure tt
evict_revs (suc n) [] = pure tt
evict_revs (suc n) (r ∷ rs) =
    atomic (λ s. record s { sidecars = drop_rev r s.sidecars }) >>= λ _. evict_revs n rs

abbrev pub prune_listed : ℤ → Bool → Faulty Slot Unit
prune_listed keep false = pure tt
prune_listed keep true =
    λ s. evict_revs (length s.sidecars - pos_part keep) (sort_revs s.sidecars) s

unfoldable pub prune_revisions : ℤ → Faulty Slot Unit
unfolding evict_revs
prune_revisions keep =
    if leb_ℤ keep (pos 0) then pure tt else (atomic (λ s. s) >>= prune_listed keep)

-- <slot>.json with this content.
abbrev pub save_target : File → Target Slot
save_target f = record {
  present = λ s. exists s.main;
  drop_bak = λ s. record s { bak = none };
  back_up = λ s. record s { main = none; bak = s.main };
  land = λ s. record s { main = some f };
  spoil = λ s. record s { main = some undecodable };
  clear = λ s. record s { main = none };
  add_temp = λ s. record s { temps = suc s.temps };
  drop_temp = λ s. record s { temps = s.temps - 1 };
}

-- <slot>.json.<rev>: only its name is ever read.
abbrev pub sidecar_target : ℤ → Target Slot
sidecar_target rev = record {
  present = λ s. has_rev rev s.sidecars;
  drop_bak = λ s. s;
  back_up = λ s. record s { sidecars = drop_rev rev s.sidecars };
  land = λ s. record s { sidecars = rev ∷ drop_rev rev s.sidecars };
  spoil = λ s. record s { sidecars = rev ∷ drop_rev rev s.sidecars };
  clear = λ s. record s { sidecars = drop_rev rev s.sidecars };
  add_temp = λ s. record s { temps = suc s.temps };
  drop_temp = λ s. record s { temps = s.temps - 1 };
}

pub record SaveWrite : Type 0 where
  pub slot : String
  pub if_revision : Option ℤ
  pub claim : Bool
  pub compression : String
  pub payload : Option Json  -- `none` is a body that is not JSON
  pub playtime_seconds : Option ℤ
  pub session_id : String

pub data SaveError : Type 0 where
  cancelled bad_identifier out_of_root malformed write_failed : SaveError
  read_only : String → SaveError
  writer_held : String → SaveError
  conflict : (current : ℤ) → (modified : String) → SaveError
  not_found header_corrupt checksum_corrupt : SaveError

pub data SaveResult : Type 0 where
  saved : (revision : ℤ) → SaveResult
  refused : SaveError → SaveResult

abbrev pub header_text : (SaveHeader → String) → Option SaveHeader → String
header_text f none = ""
header_text f (some h) = f h

-- `checkRevision`
abbrev pub check_revision : Option ℤ → Slot → Option SaveError
check_revision none s = none
check_revision (some r) s =
    if eq_ℤ r s.revision
    then none
    else some (conflict s.revision (header_text (λ h. h.modified) (read_save_header s.main)))

abbrev pub created_or : String → String → String
created_or now prev = if str_eq prev "" then now else prev

abbrev pub next_after : ℤ → ℤ
next_after r = wrap64 (r +ℤ pos 1)

abbrev pub next_revision : Slot → ℤ
next_revision s = next_after s.revision

module _ (sha256 : Text → String) (c : Config) (now : String) where
  -- The document of a write.
  abbrev pub new_header : SaveWrite → Json → Slot → SaveHeader
  new_header w v s = record {
    schema = schema_save;
    save_version = c.save_version;
    game_version = c.engine_version;
    release = c.release;
    created =
        created_or now (header_text (λ (h : SaveHeader). h.created) (read_save_header s.main));
    modified = now;
    revision = next_revision s;
    playtime_seconds = w.playtime_seconds;
    checksum = checksum_of sha256 v;
    compression = w.compression;
    payload = some v;
  }

  -- After the data is durable: the revision, the eviction and the sidecar, whose failure counts for
  -- nothing.
  abbrev pub save_landed : ℤ → Bool → Faulty Slot SaveResult
  save_landed rev false = pure (refused write_failed)
  save_landed rev true = λ s.
      ((prune_revisions c.keep_revisions >> write_atomic (sidecar_target rev) c.exdev)
          >> pure (saved rev))
        (record s { revision = rev })

  abbrev pub save_document : SaveWrite → Option Json → Faulty Slot SaveResult
  save_document w none = pure (refused malformed)
  save_document w (some v) = λ s.
      (write_atomic (save_target (document (new_header w v s))) c.exdev
          >>= save_landed (next_revision s))
        s

  abbrev pub save_checked : SaveWrite → Option SaveError → Faulty Slot SaveResult
  save_checked w (some e) = pure (refused e)
  save_checked w none = save_document w w.payload

  -- `WriteSave` from `writeMu.Lock` on.
  abbrev pub write_slot : SaveWrite → Faulty Slot SaveResult
  write_slot w = λ s. save_checked w (check_revision w.if_revision s) s

pub data ReadResult : Type 0 where
  payload_of : Json → ReadResult
  unreadable : SaveError → ReadResult

abbrev pub payload_or : SaveError → Option Json → ReadResult
payload_or e none = unreadable e
payload_or e (some v) = payload_of v

module _ (sha256 : Text → String) where
  -- The .bak in the place of a file that is missing or fails its check: its checksum is verified.
  abbrev pub bak_verified : SaveError → Option SaveHeader → ReadResult
  bak_verified e none = unreadable e
  bak_verified e (some h) =
      if verify_checksum sha256 h then payload_or e h.payload else unreadable e

  -- The .bak in the place of a file with no good header: it is not.
  abbrev pub bak_parsed : SaveError → Option SaveHeader → ReadResult
  bak_parsed e none = unreadable e
  bak_parsed e (some h) = payload_or e h.payload

  abbrev pub read_main : Option SaveHeader → Option File → ReadResult
  read_main none bak = bak_parsed header_corrupt (read_save_header bak)
  read_main (some h) bak =
      if not (verify_checksum sha256 h)
      then bak_verified checksum_corrupt (read_save_header bak)
      else payload_or header_corrupt h.payload

  abbrev pub read_files : Option File → Option File → ReadResult
  read_files none bak = bak_verified not_found (read_save_header bak)
  read_files (some f) bak = read_main (parse_save f) bak

  -- `ReadSave` with the read lock held, the files being readable.
  abbrev pub read_slot : Slot → ReadResult
  read_slot s = read_files s.main s.bak

abbrev pub put_file : String → Option File → Dict File → Dict File
put_file ts none files = files
put_file ts (some f) files = insert ts f files

-- `moveToTrash` of the file and of its .bak into the directory of this second: the directory, then
-- the rename, which replaces a file of that name.
abbrev pub rename_main : String → Bool → Faulty Slot Bool
rename_main ts false = pure false
rename_main ts true = atomic (λ s. record s { main = none; trash = put_file ts s.main s.trash })

abbrev pub rename_bak : String → Bool → Faulty Slot Bool
rename_bak ts false = pure false
rename_bak ts true =
    atomic (λ s. record s { bak = none; trash_bak = put_file ts s.bak s.trash_bak })

abbrev pub bak_to_trash : String → Bool → Faulty Slot Bool
bak_to_trash ts false = pure true
bak_to_trash ts true = atomic (λ s. s) >>= rename_bak ts

pub data DeleteResult : Type 0 where
  deleted : DeleteResult
  not_deleted : SaveError → DeleteResult

abbrev pub report_delete : Bool → Faulty Slot DeleteResult
report_delete true = pure deleted
report_delete false = pure (not_deleted cancelled)

abbrev pub delete_rest : String → Bool → Faulty Slot DeleteResult
delete_rest ts false = pure (not_deleted write_failed)
delete_rest ts true = (λ s. bak_to_trash ts (exists s.bak) s) >>= λ _.
    (λ s. (atomic (λ w. w) >>= report_delete) (record s { revision = pos 0 }))

abbrev pub delete_found : String → Bool → Faulty Slot DeleteResult
delete_found ts false = pure (not_deleted not_found)
delete_found ts true = atomic (λ s. s) >>= rename_main ts >>= delete_rest ts

-- `DeleteSave`, from `writeMu.Lock` on; `ts` is the second. The last check is that of the context.
abbrev pub delete_slot : String → Faulty Slot DeleteResult
delete_slot ts = λ s. delete_found ts (exists s.main) s

-- The largest sidecar above 0, or 0.
unfoldable pub max_rev : List ℤ → ℤ → ℤ
max_rev [] m = m
max_rev (r ∷ rs) m = max_rev rs (if ltb_ℤ m r then r else m)

abbrev pub header_revision : Option SaveHeader → ℤ
header_revision none = pos 1
header_revision (some h) = if ltb_ℤ (pos 0) h.revision then h.revision else pos 1

abbrev pub recovered_revision : ℤ → Slot → ℤ
recovered_revision max s =
    if eq_ℤ max (pos 0) then header_revision (read_save_header s.main) else max

abbrev pub init_found : Bool → Slot → Slot
init_found false s = s
init_found true s = record s { revision = recovered_revision (max_rev s.sidecars (pos 0)) s }

-- A start of the launcher: the map of revisions is new, and `InitRevisions` fills it.
unfoldable pub init_slot : Slot → Slot
unfolding max_rev
init_slot s = init_found (exists s.main) (record s { revision = pos 0 })
