-- ===== src/Tests/OnStorage.antt =====
-- Saves, settings, deletions and writers.
use kobra_game.Base.{
  ◌≡◌, ◌≢◌, refl, String, Bool, true, false, some, none, Option, List, [], ◌∷◌, arith, eq_iff,
  lookup, if◌then◌else◌, Dict,
}
use kobra_game.Base.Int.{ℤ, pos, ◌≤ℤ◌, ◌+ℤ◌, wrap64}
use kobra_game.Base.Faults.{Fault, succeeds, dies, returned, attempt}
use kobra_game.Base.Faults.Triple.{Ends}
use kobra_game.Storage.Text.{Text, same_text}
use kobra_game.Storage.Json
use kobra_game.Storage.Json.Order.{
  encode-SameValue, in_array, both_item, both_nil, in_object, under, both_end, swapped,
}
use kobra_game.Storage.Types.{SaveHeader, File, document, Slot, Config, Engine, no_files, slot_of}
use kobra_game.Storage.Slots
use kobra_game.Storage.Slots.Durable.{Holds, read_as}
use kobra_game.Storage.Slots.History.{Move, saves, starts, moves, Tried, saves_survive}
use kobra_game.Storage.Slots.Landing.{saved_then_read}
use kobra_game.Storage.Slots.Revisions.{one_writer_wins, sidecar_lost, sidecar_fails, old_save}
use kobra_game.Storage.Settings
use kobra_game.Storage.Settings.Merging.{Either, Answered, merge_all_or_nothing}
use kobra_game.Storage.Engine
use kobra_game.Storage.Engine.Roles.{acts, act, claims, releases, writer_exclusive}
use kobra_game.Storage.Engine.Slotwise.{save_all_or_nothing, KeptAt, ReportedAt}

abbrev pub digest : Text → String
digest t = if same_text t (55 ∷ []) then "07" else "ff"

abbrev pub config : Config
config = record {
  keep_revisions = pos 5;
  release = "1.0";
  engine_version = "1.0.0";
  save_version = pos 1;
  exdev = false;
}

pub version : pos 1 ≤ℤ config.save_version
version = omega arith

pub one_device : config.exdev ≡ false
one_device = refl

abbrev seven : Json.Json
seven = Json.number (55 ∷ [])

abbrev eight : Json.Json
eight = Json.number (56 ∷ [])

abbrev write : Option ℤ → Json.Json → Slots.SaveWrite
write known v = record {
  slot = "one";
  if_revision = known;
  claim = false;
  compression = "";
  payload = some v;
  playtime_seconds = none;
  session_id = "tab";
}

abbrev header : SaveHeader
header = Slots.new_header digest config "noon" (write none seven) seven no_files

abbrev saved_once : Slot
saved_once = record no_files {
  main = some (document header);
  sidecars = pos 1 ∷ [];
  revision = pos 1;
}

Holds-seven : Holds digest (some seven) saved_once
unfolding Slots.parse_save Slots.verify_checksum Json.encode_canonical same_text
Holds-seven = (header, refl, refl, refl)

-- The power is lost when the old file is the .bak and the new one is not in place.
abbrev pub lost : List Fault
lost =
    succeeds ∷ succeeds ∷ succeeds ∷ succeeds ∷ succeeds ∷ succeeds ∷ succeeds ∷ succeeds ∷ succeeds
    ∷ succeeds ∷ dies ∷ []

abbrev bytes : String → Text
bytes name = 111 ∷ 110 ∷ 101 ∷ []

abbrev pub inside : String → Bool
inside name = true

abbrev engine : Engine
engine = record {
  slots = ("one", saved_once) ∷ [];
  writer = "";
  writable = true;
  probe_reason = "";
}

in_place : Holds digest (some seven) (slot_of "one" engine)
unfolding lookup
in_place = Holds-seven

abbrev next_write : Slots.SaveWrite
next_write = write (some (pos 1)) eight

save_all_or_nothing_example :
    Ends
      (KeptAt bytes inside digest config "one" next_write version one_device
        (some seven)
        eight
        refl)
      (ReportedAt bytes inside digest config "one" next_write version one_device
        (some seven)
        eight
        refl)
      (Engine.write_save bytes inside digest config "one" true next_write engine lost)
save_all_or_nothing_example =
    save_all_or_nothing bytes inside digest config "one" next_write version one_device (some seven)
      eight refl true engine lost in_place

abbrev history : List Move
history = saves "one" next_write eight lost ∷ starts ∷ saves "two" (write none eight) seven [] ∷ []

saves_survive_example :
    (x : Option Json.Json) × Tried x (some seven) history
    × (Slots.read_slot digest (moves digest config history saved_once) ≡ read_as digest x)
saves_survive_example =
    saves_survive digest config version one_device history (some seven) saved_once Holds-seven

up_to_date : Slots.check_revision (some (pos 1)) saved_once ≡ none
up_to_date = refl

saved_then_read_example :
    (t : Slot) × (Slots.write_slot digest config "one" next_write saved_once []
      ≡ returned (Slots.saved (Slots.next_revision saved_once)) t [])
    × (Slots.read_slot digest t ≡ Slots.payload_of eight)
saved_then_read_example =
    saved_then_read digest config one_device version "one" (some seven) next_write eight saved_once
      refl up_to_date Holds-seven

abbrev saved_twice : Slot
saved_twice = record saved_once {
  main = some (document (Slots.new_header digest config "one" next_write eight saved_once));
  bak = some (document header);
  sidecars = pos 2 ∷ pos 1 ∷ [];
  revision = pos 2;
}

second_save :
    Slots.write_slot digest config "one" next_write saved_once []
    ≡ returned (Slots.saved (pos 2)) saved_twice []
unfolding attempt Slots.prune_revisions Slots.evict_revs Slots.has_rev Slots.drop_rev
    Slots.sort_revs wrap64 ◌+ℤ◌
second_save = refl

one_writer_wins_example :
    (pos 2 ≡ Slots.next_revision saved_once)
    × (m : String) × (Slots.write_slot digest config "two" next_write saved_twice []
        ≡ returned (Slots.refused (Slots.conflict (pos 2) m)) saved_twice [])
one_writer_wins_example =
    one_writer_wins digest config one_device "one" "two" next_write next_write (pos 1) (pos 2)
      saved_once saved_twice [] [] refl refl second_save

sidecar_lost_example :
    (t : Slot) × (gs : List Fault) × (Slots.write_slot digest config "one"
        (write none eight)
        (old_save (document header) 0)
        sidecar_fails
      ≡ returned (Slots.saved (Slots.next_revision (old_save (document header) 0))) t gs)
    × (t.main
        ≡ some (
            document (
              Slots.new_header digest config "one"
                (write none eight)
                eight
                (old_save (document header) 0))))
    × (Slots.check_revision (some (pos 1)) (Slots.init_slot t) ≡ none)
sidecar_lost_example =
    sidecar_lost digest config "one" (write none eight) eight (document header) 0 refl refl refl

abbrev merge : Settings.ConfigMerge
merge = record { if_revision = some (pos 4); merge = some (("volume", eight) ∷ []) }

abbrev stored : Settings.Settings
stored = record {
  main = some (Settings.settings (("volume", seven) ∷ ("lang", eight) ∷ []));
  bak = none;
  temps = 0;
  revision = pos 4;
}

merge_all_or_nothing_example :
    Ends
      (Either (Settings.read_config_bytes stored.main stored.bak).0 merge.merge)
      (Answered (Settings.read_config_bytes stored.main stored.bak).0 merge.merge)
      (Settings.merge_config false "" true "" merge stored lost)
merge_all_or_nothing_example = merge_all_or_nothing false refl "" "" true merge stored lost

abbrev a_key : Text
a_key = 97 ∷ []

abbrev b_key : Text
b_key = 98 ∷ []

different : a_key ≢ b_key
different = ground arith

abbrev inner : Json.Fields
inner = Json.field a_key seven (Json.field b_key eight Json.end_)

abbrev inner_other : Json.Fields
inner_other = Json.field b_key eight (Json.field a_key seven Json.end_)

encode-SameValue_example :
    Json.encode_canonical (
      Json.array
        (Json.item (Json.object (Json.field a_key (Json.object inner) Json.end_)) Json.nil))
    ≡ Json.encode_canonical (
        Json.array
          (Json.item (Json.object (Json.field a_key (Json.object inner_other) Json.end_)) Json.nil))
encode-SameValue_example =
    encode-SameValue
      (Json.array
        (Json.item (Json.object (Json.field a_key (Json.object inner) Json.end_)) Json.nil))
      (Json.array
        (Json.item (Json.object (Json.field a_key (Json.object inner_other) Json.end_)) Json.nil))
      (in_array _ _ (
        both_item _ _ _ _
          (in_object _ _ (
            under a_key _ _ _ _
              (in_object _ _ (swapped a_key b_key seven eight Json.end_ different)) both_end))
          both_nil))

abbrev tab_b : String
tab_b = "b"

b_not_a : tab_b ≢ "a"
b_not_a = ground (arith, eq_iff "b" "a")

writer_exclusive_example :
    ((acts (claims "b" ∷ releases "b" ∷ []) (act (claims "a") engine)).writer ≡ "a")
    × ((Engine.claim_writer "b" (acts (claims "b" ∷ releases "b" ∷ []) (act (claims "a") engine))).0
        ≡ some (Slots.writer_held "a"))
writer_exclusive_example =
    writer_exclusive "a" "b" engine (claims "b" ∷ releases "b" ∷ []) (ground (arith, eq_iff "a" ""))
      b_not_a refl (b_not_a, (b_not_a, tt))

abbrev no_index : File → Option (Dict String)
no_index f = none
