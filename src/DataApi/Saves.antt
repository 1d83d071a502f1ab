-- ===== src/DataApi/Saves.antt =====
-- The handlers of launcher/internal/dataapi/handlers.go over the engine of
-- launcher/internal/storage/storage.go. Each save and each deletion has its time, whether its
-- request is still there, and its own faults; a power loss ends the process, and what is left of it
-- is the files. The methods that touch no save are an argument.
use kobra_game.Base.{
  String, Dict, List, [], ◌∷◌, Bool, true, false, Option, none, some, ◌≡◌, lookup,
}
use kobra_game.Base.Int.{ℤ, pos, ◌≤ℤ◌}
use kobra_game.Base.Faults.{Fault, Run, returned, died, after}
use kobra_game.KobraErr.Types.{Err, nil}
use kobra_game.Storage.Text.{Text}
use kobra_game.Storage.Json.{Json}
use kobra_game.Storage.Types.{Slot, Config, Engine, or_no_files}
use kobra_game.Storage.Slots
use kobra_game.Storage.Slots.Durable.{read_as}
use kobra_game.Storage.Slots.Sound.{read-Sound}
use kobra_game.Storage.Engine
use kobra_game.Storage.Engine.Sound.{AllSound, write_save-Sound, delete_save-Sound}
use kobra_game.DataApi.Service.{
  SaveMeta, SaveWriteRequest, SaveWriteResponse, Outcome, done, failed, Fault as WriteFault,
  conflicting, other, Saved, saved, refused, Op, read_save, delete_save, write_save, Answer, Setup,
  Call, State,
}
use kobra_game.DataApi.Replies.{Route}
use kobra_game.DataApi.Once.{serve_all, serve_all-Kept}

pub record Attempt : Type 0 where
  pub now : String
  pub live : Bool
  pub faults : List Fault

-- A launcher with what is to come, or the files that a power loss leaves.
pub data Machine : Type 0 where
  up : Engine → List Attempt → Machine
  down : Dict Slot → Machine

abbrev pub files : Machine → Dict Slot
files (up e steps) = e.slots
files (down slots) = slots

abbrev next_attempt : List Attempt → Attempt
next_attempt [] = record { now = ""; live = true; faults = [] }
next_attempt (t ∷ steps) = t

abbrev later_attempts : List Attempt → List Attempt
later_attempts [] = []
later_attempts (t ∷ steps) = steps

-- What `json` and the errors' envelopes make of the engine's values.
pub record Wire (V : Type 0) : Type 0 where
  pub parse : Text → Option Json
  pub print : Json → Text
  pub size : SaveWriteRequest → ℤ
  pub explain : Slots.SaveError → Err
  pub elsewhere : (o : Op) → Answer V o

abbrev playtime : Option SaveMeta → Option ℤ
playtime none = none
playtime (some m) = m.playtime_seconds

module _ {V : Type 0} (wire : Wire V) (bytes : String → Text) (inside : String → Bool)
    (sha256 : Text → String) (config : Config) where
  -- The `storage.SaveWrite` of `handleSaveWrite`.
  abbrev pub to_write : SaveWriteRequest → String → Slots.SaveWrite
  to_write r id = record {
    slot = r.slot;
    if_revision = r.if_revision;
    claim = r.claim;
    compression = r.compression;
    payload = wire.parse r.payload;
    playtime_seconds = playtime r.meta;
    session_id = id;
  }

  abbrev fault_of : String → Slots.SaveError → WriteFault
  fault_of slot (Slots.conflict current modified) = conflicting slot current modified
  fault_of slot e = other (wire.explain e)

  abbrev wrote : SaveWriteRequest → String → Slots.SaveResult → Saved SaveWriteResponse
  wrote r now (Slots.saved revision) =
      saved (record { slot = r.slot; revision = revision; modified = now; bytes = wire.size r })
  wrote r now (Slots.refused e) = refused (fault_of r.slot e)

  abbrev deleting : Slots.DeleteResult → Outcome (Unit {0})
  deleting Slots.deleted = done tt
  deleting (Slots.not_deleted e) = failed (wire.explain e)

  abbrev reading_of : Slots.ReadResult → Outcome Text
  reading_of (Slots.payload_of v) = done (wire.print v)
  reading_of (Slots.unreadable e) = failed (wire.explain e)

  -- A run of the engine ends with an answer, or it ends the process and none goes out.
  abbrev conclude : {A B : Type 0} → B → (A → B) → List Attempt → Run Engine A → B × Machine
  conclude unsent show steps (returned a e fs) = (show a, up e steps)
  conclude unsent show steps (died e) = (unsent, down e.slots)

  abbrev pub run_op : (o : Op) → Machine → Answer V o × Machine
  run_op (write_save r id) (up e steps) =
      let t = next_attempt steps in
      conclude (refused (other nil)) (wrote r t.now) (later_attempts steps)
        (Engine.write_save bytes inside sha256 config t.now t.live (to_write r id) e t.faults)
  run_op (delete_save slot) (up e steps) =
      let t = next_attempt steps in
      conclude (failed nil) deleting (later_attempts steps)
        (Engine.delete_save bytes inside t.now slot e t.faults)
  run_op (read_save slot) (up e steps) =
      (reading_of (Engine.read_save bytes inside sha256 true slot e), up e steps)
  run_op o m = (wire.elsewhere o, m)

  abbrev pub over : Setup Machine V → Setup Machine V
  over x = record x { call = run_op }

  module _ (version : pos 1 ≤ℤ config.save_version) (one_device : config.exdev ≡ false) where
    conclude-Sound :
        {A B : Type 0} (unsent : B)
        → (show : A → B) → (steps : List Attempt) → (r : Run Engine A)
        → AllSound sha256 (after r).slots
        → AllSound sha256 (files (conclude unsent show steps r).1)
    conclude-Sound unsent show steps (returned a e fs) h = h
    conclude-Sound unsent show steps (died e) h = h

    run_op-Sound :
        (o : Op)
        → (m : Machine) → AllSound sha256 (files m)
        → AllSound sha256 (files (run_op o m).1)
    run_op-Sound (write_save r id) (up e steps) h =
        let t = next_attempt steps in
        conclude-Sound (refused (other nil)) (wrote r t.now) (later_attempts steps)
          (Engine.write_save bytes inside sha256 config t.now t.live (to_write r id) e t.faults)
          (write_save-Sound sha256 bytes inside config t.now version one_device (to_write r id)
            t.live e t.faults h)
    run_op-Sound (delete_save slot) (up e steps) h =
        let t = next_attempt steps in
        conclude-Sound (failed nil) deleting (later_attempts steps)
          (Engine.delete_save bytes inside t.now slot e t.faults)
          (delete_save-Sound sha256 bytes inside t.now slot e t.faults h)
    run_op-Sound (read_save slot) (up e steps) h = h
    run_op-Sound o m h = h

    -- Whatever requests the page makes, in any order, and whatever fails or is cut off by a power
    -- loss while they are served, each slot then reads as the payload of a complete save, or as
    -- having none. Each slot's file and .bak were absent or complete saves, the save version is
    -- positive, and renames stay on one file system.
    pub saves_stay_readable :
        (x : Setup Machine V)
        → (cs : List (Route × Call)) → (s : State Machine) → AllSound sha256 (files s.world)
        → (slot : String)
        → (o : Option Json) × (Slots.read_slot sha256
              (or_no_files (lookup slot (files (serve_all (over x) cs s).world)))
            ≡ read_as sha256 o)
    saves_stay_readable x cs s h slot =
        read-Sound sha256 (or_no_files (lookup slot (files (serve_all (over x) cs s).world)))
          (serve_all-Kept (over x) (λ m. AllSound sha256 (files m)) run_op-Sound cs s h slot)
