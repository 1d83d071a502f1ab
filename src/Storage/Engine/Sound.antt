-- ===== src/Storage/Engine/Sound.antt =====
-- The saves and the deletions of launcher/internal/storage/storage.go keep every slot sound.
use mathlib.Core.Path.{subst}
use kobra_game.Base.{
  String, Dict, List, Bool, true, false, Bool-cases, inl, inr, Option, none, some, ◌≡◌, sym, lookup,
  insert, lookup-insert, str_eq, if◌then◌else◌,
}
use kobra_game.Base.Int.{pos, ◌≤ℤ◌}
use kobra_game.Base.Faults.{Fault, Run, returned, died, after}
use kobra_game.Base.Faults.Triple.{Ends}
use kobra_game.Storage.Text.{Text}
use kobra_game.Storage.Types.{Slot, Config, Engine, slot_of, or_no_files}
use kobra_game.Storage.Slots
use kobra_game.Storage.Slots.Sound.{Sound, write_slot-Sound, delete_slot-Sound}
use kobra_game.Storage.Engine
use kobra_game.Storage.Engine.Slotwise.{claim-slots}

module _ (sha256 : Text → String) where
  -- Every slot is sound.
  abbrev pub AllSound : Dict Slot → Type 0
  AllSound slots = (name : String) → Sound sha256 (or_no_files (lookup name slots))

  insert-Sound :
      (name : String)
      → (s : Slot) → (slots : Dict Slot) → Sound sha256 s
      → AllSound slots
      → AllSound (insert name s slots)
  insert-Sound name s slots h k other =
      subst (λ m. Sound sha256 (or_no_files m)) (sym (lookup-insert name other s slots))
        (either (str_eq name other))
    where
      either : (b : Bool) → Sound sha256 (or_no_files (if b then some s else lookup other slots))
      either true = h
      either false = k other

  zoom-Sound :
      {A : Type 0} (name : String)
      → (e : Engine) → (r : Run Slot A) → Ends (Sound sha256) (λ _ s. Sound sha256 s) r
      → AllSound e.slots
      → AllSound (after (Engine.zoom_run name e r)).slots
  zoom-Sound name e (returned a s fs) h k = insert-Sound name s e.slots h k
  zoom-Sound name e (died s) h k = insert-Sound name s e.slots h k

  module _ (bytes : String → Text) (inside : String → Bool) where
    module _ (c : Config) (now : String) (version : pos 1 ≤ℤ c.save_version)
        (one_device : c.exdev ≡ false) (w : Slots.SaveWrite) where
      write_claimed-Sound :
          (r : Option Slots.SaveError)
          → (e d : Engine) → (fs : List Fault) → AllSound e.slots
          → AllSound (after (Engine.write_claimed bytes inside sha256 c now w (r, e) d fs)).slots
      write_claimed-Sound (some x) e d fs h = h
      write_claimed-Sound none e d fs h =
          zoom-Sound w.slot e (Slots.write_slot sha256 c now w (slot_of w.slot e) fs)
            (write_slot-Sound sha256 c now version one_device w (slot_of w.slot e) (h w.slot) fs) h

      write_at-Sound :
          (x : Option Slots.SaveError)
          → (e : Engine) → (fs : List Fault) → AllSound e.slots
          → AllSound (after (Engine.write_at bytes inside sha256 c now w x e fs)).slots
      write_at-Sound (some x) e fs h = h
      write_at-Sound none e fs h = elim (Bool-cases w.claim) [
        | inl k ↦ rw k (
            write_claimed-Sound (Engine.claim_writer w.session_id e).0
              (Engine.claim_writer w.session_id e).1 e fs (rw (claim-slots w.session_id e) h))
        | inr k ↦ rw k (write_claimed-Sound none e e fs h)
      ]

      write_probed-Sound :
          (b : Bool)
          → (e : Engine) → (fs : List Fault) → AllSound e.slots
          → AllSound (after (Engine.write_probed bytes inside sha256 c now w b e fs)).slots
      write_probed-Sound false e fs h = h
      write_probed-Sound true e fs h = write_at-Sound (Engine.save_path bytes inside w.slot) e fs h

      pub write_save-Sound :
          (live : Bool)
          → (e : Engine) → (fs : List Fault) → AllSound e.slots
          → AllSound (after (Engine.write_save bytes inside sha256 c now live w e fs)).slots
      write_save-Sound false e fs h = h
      write_save-Sound true e fs h = write_probed-Sound e.writable e fs h

    delete_at-Sound :
        (x : Option Slots.SaveError)
        → (ts slot : String) → (e : Engine) → (fs : List Fault) → AllSound e.slots
        → AllSound (after (Engine.delete_at bytes inside x ts slot e fs)).slots
    delete_at-Sound (some x) ts slot e fs h = h
    delete_at-Sound none ts slot e fs h =
        zoom-Sound slot e (Slots.delete_slot ts (slot_of slot e) fs)
          (delete_slot-Sound sha256 ts (slot_of slot e) (h slot) fs) h

    pub delete_save-Sound :
        (ts slot : String)
        → (e : Engine) → (fs : List Fault) → AllSound e.slots
        → AllSound (after (Engine.delete_save bytes inside ts slot e fs)).slots
    delete_save-Sound ts slot e fs h =
        delete_at-Sound (Engine.save_path bytes inside slot) ts slot e fs h
