-- ===== src/Storage/Engine/Slotwise.antt =====
-- What the guarded operations of launcher/internal/storage/storage.go do to the other slots, and
-- what a save at the engine guarantees.
use kobra_game.Base.{
  String, Bool, true, false, Option, none, some, ◌≡◌, ◌≢◌, refl, ◌∙◌, ap, inl, inr, List, arith,
  eq_iff, Bool-cases, lookup, insert, lookup-insert, if◌then◌else◌,
}
use kobra_game.Base.Int.{pos, ◌≤ℤ◌}
use kobra_game.Base.Faults.{Fault, Run, returned, died, after}
use kobra_game.Base.Faults.Triple.{Ends}
use kobra_game.Storage.Text.{Text}
use kobra_game.Storage.Json.{Json}
use kobra_game.Storage.Types.{Slot, Config, Engine, slot_of, or_no_files}
use kobra_game.Storage.Slots
use kobra_game.Storage.Slots.Durable.{Holds, Kept, Reported, write_slot-Kept}
use kobra_game.Storage.Engine

slot_of-insert :
    (name other : String)
    → (s : Slot) → (e : Engine) → other ≢ name
    → slot_of other (record e { slots = insert name s e.slots }) ≡ slot_of other e
slot_of-insert name other s e d = ap or_no_files (
    lookup-insert name other s e.slots
    ∙ ap (λ (b : Bool). if b then some s else lookup other e.slots) {y = false}
        (ground (arith, eq_iff name other)))

slot_of-same :
    (name : String)
    → (s : Slot) → (e : Engine) → slot_of name (record e { slots = insert name s e.slots }) ≡ s
slot_of-same name s e = ap or_no_files (
    lookup-insert name name s e.slots
    ∙ ap (λ (b : Bool). if b then some s else lookup name e.slots) {y = true}
        (ground (arith, eq_iff name name)))

zoom-others :
    {A : Type 0}
    → (name other : String) → (e : Engine) → (r : Run Slot A) → other ≢ name
    → slot_of other (after (Engine.zoom_run name e r)) ≡ slot_of other e
zoom-others name other e (returned a s fs) d = slot_of-insert name other s e d
zoom-others name other e (died s) d = slot_of-insert name other s e d

pub claim-slots : (s : String) → (e : Engine) → (Engine.claim_writer s e).1.slots ≡ e.slots
claim-slots s e = ground arith

module _ (bytes : String → Text) (inside : String → Bool) (sha256 : Text → String) (c : Config)
    (now : String) (w : Slots.SaveWrite) where
  module _ (other : String) (apart : other ≢ w.slot) where
    write_claimed-others :
        (r : Option Slots.SaveError)
        → (e d : Engine) → (fs : List Fault) → e.slots ≡ d.slots
        → slot_of other (after (Engine.write_claimed bytes inside sha256 c now w (r, e) d fs))
          ≡ slot_of other d
    write_claimed-others (some x) e d fs p = ap (λ m. or_no_files (lookup other m)) p
    write_claimed-others none e d fs p =
        zoom-others w.slot other e (Slots.write_slot sha256 c now w (slot_of w.slot e) fs) apart
        ∙ ap (λ m. or_no_files (lookup other m)) p

    write_at-others :
        (x : Option Slots.SaveError)
        → (e : Engine) → (fs : List Fault)
        → slot_of other (after (Engine.write_at bytes inside sha256 c now w x e fs))
          ≡ slot_of other e
    write_at-others (some x) e fs = refl
    write_at-others none e fs = elim (Bool-cases w.claim) [
      | inl k ↦ rw k (
          write_claimed-others (Engine.claim_writer w.session_id e).0
            (Engine.claim_writer w.session_id e).1 e fs (claim-slots w.session_id e))
      | inr k ↦ rw k (write_claimed-others none e e fs refl)
    ]

    write_probed-others :
        (b : Bool)
        → (e : Engine) → (fs : List Fault)
        → slot_of other (after (Engine.write_probed bytes inside sha256 c now w b e fs))
          ≡ slot_of other e
    write_probed-others false e fs = refl
    write_probed-others true e fs = write_at-others (Engine.save_path bytes inside w.slot) e fs

    -- A save leaves every other slot as it is, whatever its guards say and whatever goes wrong.
    pub others_untouched :
        (live : Bool)
        → (e : Engine) → (fs : List Fault)
        → slot_of other (after (Engine.write_save bytes inside sha256 c now live w e fs))
          ≡ slot_of other e
    others_untouched false e fs = refl
    others_untouched true e fs = write_probed-others e.writable e fs

  module _ (version : pos 1 ≤ℤ c.save_version) (one_device : c.exdev ≡ false) (o : Option Json)
      (v : Json) (valid : w.payload ≡ some v) where
    abbrev pub KeptAt : Engine → Type 0
    KeptAt e = Kept sha256 o v (slot_of w.slot e)

    abbrev pub ReportedAt : Slots.SaveResult → Engine → Type 0
    ReportedAt r e = Reported sha256 o v r (slot_of w.slot e)

    zoom-Kept :
        (e : Engine)
        → (r : Run Slot Slots.SaveResult) → Ends (Kept sha256 o v) (Reported sha256 o v) r
        → Ends KeptAt ReportedAt (Engine.zoom_run w.slot e r)
    zoom-Kept e (returned a s fs) h = rw (slot_of-same w.slot s e) h
    zoom-Kept e (died s) h = rw (slot_of-same w.slot s e) h

    write_claimed-Kept :
        (r : Option Slots.SaveError)
        → (e d : Engine) → (fs : List Fault) → e.slots ≡ d.slots
        → Holds sha256 o (slot_of w.slot d)
        → Ends KeptAt ReportedAt (Engine.write_claimed bytes inside sha256 c now w (r, e) d fs)
    write_claimed-Kept (some x) e d fs p h = rw p h
    write_claimed-Kept none e d fs p h =
        zoom-Kept e (Slots.write_slot sha256 c now w (slot_of w.slot e) fs) (
          write_slot-Kept sha256 c now version one_device o w v (slot_of w.slot e) fs valid
            (rw p h))

    write_at-Kept :
        (x : Option Slots.SaveError)
        → (e : Engine) → (fs : List Fault) → Holds sha256 o (slot_of w.slot e)
        → Ends KeptAt ReportedAt (Engine.write_at bytes inside sha256 c now w x e fs)
    write_at-Kept (some x) e fs h = h
    write_at-Kept none e fs h = elim (Bool-cases w.claim) [
      | inl k ↦ rw k (
          write_claimed-Kept (Engine.claim_writer w.session_id e).0
            (Engine.claim_writer w.session_id e).1 e fs (claim-slots w.session_id e) h)
      | inr k ↦ rw k (write_claimed-Kept none e e fs refl h)
    ]

    write_probed-Kept :
        (b : Bool)
        → (e : Engine) → (fs : List Fault) → Holds sha256 o (slot_of w.slot e)
        → Ends KeptAt ReportedAt (Engine.write_probed bytes inside sha256 c now w b e fs)
    write_probed-Kept false e fs h = h
    write_probed-Kept true e fs h = write_at-Kept (Engine.save_path bytes inside w.slot) e fs h

    -- However `WriteSave` goes (a guard refuses, an operation on the disk fails, or the power is
    -- lost), the slot holds the payload that it held or the new one, complete and with its
    -- checksum; the new one where the answer is a success, and what it held where it is an error.
    -- The slot's file was good or absent, with a good .bak or none in its place; the save version
    -- is positive and renames stay on one file system.
    pub save_all_or_nothing :
        (live : Bool)
        → (e : Engine) → (fs : List Fault) → Holds sha256 o (slot_of w.slot e)
        → Ends KeptAt ReportedAt (Engine.write_save bytes inside sha256 c now live w e fs)
    save_all_or_nothing false e fs h = h
    save_all_or_nothing true e fs h = write_probed-Kept e.writable e fs h
