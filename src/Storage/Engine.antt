-- ===== src/Storage/Engine.antt =====
-- `Engine` of launcher/internal/storage/storage.go over all slots: its construction, the write
-- probe, the role of the writer, and the guards of the operations on saves.
pub mod Roles
pub mod Slotwise
pub mod Sound
use kobra_game.Base.{
  String, Dict, [], ◌∷◌, List, Bool, true, false, not, Option, none, some, lookup, insert, str_eq,
  ◌&&◌, if◌then◌else◌,
}
use kobra_game.Base.Int.{ℤ, pos, ltb_ℤ}
use kobra_game.Base.Faults.{Fault, Run, returned, died, Faulty, pure}
use kobra_game.Storage.Text.{Text}
use kobra_game.Storage.Types.{Slot, no_files, Config, Engine, slot_of}
use kobra_game.Storage.Identifier.{validate_identifier}
use kobra_game.Storage.Slots

abbrev pub or_text : String → String → String
or_text d s = if str_eq s "" then d else s

abbrev pub at_least : ℤ → ℤ → ℤ
at_least m x = if ltb_ℤ x m then m else x

-- What `New` makes of its options; nothing is probed yet.
abbrev pub new_config : Config → Config
new_config o = record {
  keep_revisions = at_least (pos 0) o.keep_revisions;
  release = o.release;
  engine_version = or_text "0.0.0" o.engine_version;
  save_version = at_least (pos 1) o.save_version;
  exdev = o.exdev;
}

abbrev pub new_engine : Dict Slot → Engine
new_engine slots = record { slots = slots; writer = ""; writable = false; probe_reason = "" }

-- How an operation of the probe fails.
pub data Errno : Type 0 where
  permission read_only_fs not_exist cross_device other : Errno

abbrev pub classify_mkdir : Errno → String
classify_mkdir permission = "permission_denied"
classify_mkdir read_only_fs = "read_only_filesystem"
classify_mkdir _ = "unknown"

abbrev pub classify_open : Errno → String
classify_open permission = "permission_denied"
classify_open read_only_fs = "read_only_filesystem"
classify_open not_exist = "not_a_directory"
classify_open _ = "unknown"

-- The outcome of each step of the probe; the removals count for nothing.
pub record Probe : Type 0 where
  pub mkdir : Option Errno
  pub open_ : Option Errno
  pub write : Option Errno
  pub sync : Option Errno
  pub close : Option Errno
  pub rename : Option Errno

-- `probeWriteLocked`: the reason, and whether there is an error.
abbrev pub probe_rename : Option Errno → String × Bool
probe_rename none = ("", false)
probe_rename (some cross_device) = ("", false)
probe_rename (some _) = ("unknown", true)

abbrev pub probe_file : Option Errno → String × Bool → String × Bool
probe_file none rest = rest
probe_file (some e) rest = ("unknown", true)

abbrev pub probe_open : Option Errno → String × Bool → String × Bool
probe_open none rest = rest
probe_open (some e) rest = (classify_open e, true)

abbrev pub probe_mkdir : Option Errno → String × Bool → String × Bool
probe_mkdir none rest = rest
probe_mkdir (some e) rest = (classify_mkdir e, true)

abbrev pub probe_write_locked : Probe → String × Bool
probe_write_locked p = probe_mkdir p.mkdir (
    probe_open p.open_
      (probe_file p.write (probe_file p.sync (probe_file p.close (probe_rename p.rename)))))

-- `ProbeWrite`
abbrev pub record_probe : String × Bool → Engine → Engine
record_probe (reason, failed) e = record e {
  writable = not failed && str_eq reason "";
  probe_reason = reason;
}

abbrev pub probe_write : Probe → Engine → Engine
probe_write p e = record_probe (probe_write_locked p) e

-- `ClaimWriter`; the holder where it is another.
abbrev pub claim_writer : String → Engine → Option Slots.SaveError × Engine
claim_writer session e =
    if str_eq e.writer session
    then (none, e)
    else if str_eq e.writer ""
    then (none, record e { writer = session })
    else (some (Slots.writer_held e.writer), e)

abbrev pub release_writer : String → Engine → Engine
release_writer session e = if str_eq e.writer session then record e { writer = "" } else e

-- A program on one slot, on the engine.
abbrev pub zoom_run : {A : Type 0} → String → Engine → Run Slot A → Run Engine A
zoom_run name e (returned a s fs) = returned a (record e { slots = insert name s e.slots }) fs
zoom_run name e (died s) = died (record e { slots = insert name s e.slots })

abbrev pub zoom : {A : Type 0} → String → Faulty Slot A → Faulty Engine A
zoom name m e fs = zoom_run name e (m (slot_of name e) fs)

-- `bytes` are the characters of a name, `inside` is the answer of `paths.Confine`.
module _ (bytes : String → Text) (inside : String → Bool) where
  -- `savePath`
  abbrev pub save_path : String → Option Slots.SaveError
  save_path slot =
      if not (validate_identifier (bytes slot))
      then some Slots.bad_identifier
      else if inside slot
      then none
      else some Slots.out_of_root

  module _ (sha256 : Text → String) where
    module _ (c : Config) (now : String) where
      abbrev pub write_claimed :
          Slots.SaveWrite → Option Slots.SaveError × Engine → Faulty Engine Slots.SaveResult
      write_claimed w (some x, e) = λ _. pure (Slots.refused x) e
      write_claimed w (none, e) = λ _. zoom w.slot (Slots.write_slot sha256 c now w) e

      abbrev pub write_at :
          Slots.SaveWrite → Option Slots.SaveError → Faulty Engine Slots.SaveResult
      write_at w (some x) = pure (Slots.refused x)
      write_at w none =
          λ e. write_claimed w (if w.claim then claim_writer w.session_id e else (none, e)) e

      abbrev pub write_probed : Slots.SaveWrite → Bool → Faulty Engine Slots.SaveResult
      write_probed w false = λ e. pure (Slots.refused (Slots.read_only e.probe_reason)) e
      write_probed w true = write_at w (save_path w.slot)

      abbrev pub write_live : Slots.SaveWrite → Bool → Faulty Engine Slots.SaveResult
      write_live w false = pure (Slots.refused Slots.cancelled)
      write_live w true = λ e. write_probed w e.writable e

      -- `WriteSave`; the argument says that the context is live.
      abbrev pub write_save : Bool → Slots.SaveWrite → Faulty Engine Slots.SaveResult
      write_save live w = write_live w live

    abbrev pub read_at : Option Slots.SaveError → Bool → String → Engine → Slots.ReadResult
    read_at (some x) live slot e = Slots.unreadable x
    read_at none false slot e = Slots.unreadable Slots.cancelled
    read_at none true slot e = Slots.read_slot sha256 (slot_of slot e)

    -- `ReadSave`
    abbrev pub read_save : Bool → String → Engine → Slots.ReadResult
    read_save live slot e = read_at (save_path slot) live slot e

  abbrev pub delete_at : Option Slots.SaveError → String → String → Faulty Engine Slots.DeleteResult
  delete_at (some x) ts slot = pure (Slots.not_deleted x)
  delete_at none ts slot = zoom slot (Slots.delete_slot ts)

  -- `DeleteSave`
  abbrev pub delete_save : String → String → Faulty Engine Slots.DeleteResult
  delete_save ts slot = delete_at (save_path slot) ts slot

  -- `InitRevisions` at a start, over the slots with a valid name.
  unfoldable pub init_slots : Dict Slot → Dict Slot
  init_slots [] = []
  init_slots ((name, s) ∷ rest) =
      let more = init_slots rest in
      if validate_identifier (bytes name)
      then (name, Slots.init_slot s) ∷ more
      else (name, record s { revision = pos 0 }) ∷ more

  abbrev pub init_revisions : Dict Slot → Engine
  init_revisions slots = new_engine (init_slots slots)
