-- ===== src/Storage/Slots/Durable.antt =====
-- Crash safety of a save slot: `WriteSave` and `ReadSave` of launcher/internal/storage/storage.go.
use kobra_game.Base.{
  String, Bool, true, false, Option, none, some, ◌≡◌, refl, ◌⊎◌, inl, inr, List, arith, eq_refl,
  str_eq, if◌then◌else◌,
}
use kobra_game.Base.Int.{ℤ, pos, ◌≤ℤ◌}
use kobra_game.Base.Faults.{Fault}
use kobra_game.Base.Faults.Triple.{Ends, Always, bind_rule}
use kobra_game.Storage.Text.{Text}
use kobra_game.Storage.Json.{Json}
use kobra_game.Storage.Types.{SaveHeader, File, document, Slot, Config}
use kobra_game.Storage.Slots
use kobra_game.Storage.Slots.Writing.{Carries, Told, Told-same, write_atomic_rule}
use kobra_game.Storage.Slots.Pruning.{prune_rule}

module _ (sha256 : Text → String) where
  -- The file is a save of this payload that passes its checks.
  abbrev pub Good : Json → File → Type 0
  Good v f =
      (h : SaveHeader) × (Slots.parse_save f ≡ some h)
      × (Slots.verify_checksum sha256 h ≡ true)
      × (h.payload ≡ some v)

  -- The slot holds this payload, `none` for no save: in its file, or in its .bak where there is no
  -- file.
  abbrev pub HoldsFiles : Option Json → Option File → Option File → Type 0
  HoldsFiles none none none = Unit
  HoldsFiles none none (some b) = ⊥
  HoldsFiles none (some f) b = ⊥
  HoldsFiles (some v) (some f) b = Good v f
  HoldsFiles (some v) none (some b) = Good v b
  HoldsFiles (some v) none none = ⊥

  abbrev pub Holds : Option Json → Slot → Type 0
  Holds o s = HoldsFiles o s.main s.bak

  abbrev pub read_as : Option Json → Slots.ReadResult
  read_as none = Slots.unreadable Slots.not_found
  read_as (some v) = Slots.payload_of v

  files-read :
      (o : Option Json)
      → (m b : Option File) → HoldsFiles o m b
      → Slots.read_files sha256 m b ≡ read_as o
  files-read none none none h = refl
  files-read none none (some b) h = absurd h
  files-read none (some f) b h = absurd h
  files-read (some v) (some f) b (h, parsed, sum, pay) = rw (parsed, sum, pay) refl
  files-read (some v) none (some b) (h, parsed, sum, pay) = rw (parsed, sum, pay) refl
  files-read (some v) none none h = absurd h

  -- A read of a slot that holds a payload gives it.
  pub Holds-read : (o : Option Json) → (s : Slot) → Holds o s → Slots.read_slot sha256 s ≡ read_as o
  Holds-read o s h = files-read o s.main s.bak h

  files-drop :
      (o : Option Json)
      → (m b : Option File) → Slots.exists m ≡ true
      → HoldsFiles o m b
      → HoldsFiles o m none
  files-drop o none b p h = ground (arith, p)
  files-drop none (some f) b p h = h
  files-drop (some v) (some f) b p h = h

  files-back :
      (o : Option Json)
      → (m b : Option File) → Slots.exists m ≡ true
      → HoldsFiles o m b
      → HoldsFiles o none m
  files-back o none b p h = ground (arith, p)
  files-back none (some f) b p h = h
  files-back (some v) (some f) b p h = h

  save-Carries :
      (o : Option Json)
      → (v : Json) → (f : File) → Good v f
      → Carries (Slots.save_target f) (Holds o) (Holds (some v))
  save-Carries o v f g = record {
    temp_added = λ s h. h;
    temp_dropped = λ s h. h;
    bak_dropped = λ s p h. files-drop o s.main s.bak p h;
    backed = λ s p h. files-back o s.main s.bak p h;
    backed_after_drop = λ s p h. files-back o s.main s.bak p h;
    landed = λ s h. g;
  }

  sidecar-Carries :
      (o : Option Json) → (r : ℤ) → Carries (Slots.sidecar_target r) (Holds o) (Holds o)
  sidecar-Carries o r = record {
    temp_added = λ s h. h;
    temp_dropped = λ s h. h;
    bak_dropped = λ s p h. h;
    backed = λ s p h. h;
    backed_after_drop = λ s p h. h;
    landed = λ s h. h;
  }

  -- What a write's answer says: on success the slot holds the new payload, else what it held.
  abbrev pub Reported : Option Json → Json → Slots.SaveResult → Slot → Type 0
  Reported o v (Slots.saved r) s = Holds (some v) s
  Reported o v (Slots.refused e) s = Holds o s

  abbrev pub Kept : Option Json → Json → Slot → Type 0
  Kept o v s = Holds o s ⊎ Holds (some v) s

  checksum_good :
      (v : Json) (sum : String)
      → (str_eq sum (Slots.checksum_of sha256 v)) ≡ true
      → (if str_eq sum "" then true else Slots.checksum_matches sha256 (some v) sum) ≡ true
  checksum_good v sum h = ground (arith, h)

  module _ (c : Config) (now : String) (version : pos 1 ≤ℤ c.save_version)
      (one_device : c.exdev ≡ false) where
    pub new_header-Good :
        (w : Slots.SaveWrite)
        → (v : Json) → (s : Slot) → Good v (document (Slots.new_header sha256 c now w v s))
    unfolding Slots.parse_save Slots.verify_checksum
    new_header-Good w v s = (
      Slots.new_header sha256 c now w v s,
      ground (arith, version),
      checksum_good v (Slots.checksum_of sha256 v) (eq_refl (Slots.checksum_of sha256 v)),
      refl,
    )

    save_landed-Kept :
        (o : Option Json)
        → (v : Json) → (rev : ℤ) → (b : Bool) → (s : Slot) → Told (Holds o) (Holds (some v)) b s
        → Always (Kept o v) (Reported o v) (Slots.save_landed sha256 c now rev b) s
    save_landed-Kept o v rev false s h = λ _. h
    save_landed-Kept o v rev true s h = λ fs.
        bind_rule (Kept o v) (Told (Holds (some v)) (Holds (some v))) (Reported o v) _ _
          (bind_rule (Kept o v) (λ _. Holds (some v)) (Told (Holds (some v)) (Holds (some v))) _ _
            (prune_rule (Kept o v) (Holds (some v)) (λ _ k. inr k) (λ rs t k. k) c.keep_revisions _
              h fs)
            (λ _ t k gs.
              write_atomic_rule (Slots.sidecar_target rev) (Kept o v) (Holds (some v))
                (Holds (some v)) (sidecar-Carries (some v) rev) (λ _ g. inr g) c.exdev one_device t
                k gs))
          (λ b t k gs. Told-same (Holds (some v)) b t k)

    save_checked-Kept :
        (o : Option Json)
        → (w : Slots.SaveWrite) → (v : Json) → w.payload ≡ some v
        → (e : Option Slots.SaveError) → (s : Slot) → Holds o s
        → Always (Kept o v) (Reported o v) (Slots.save_checked sha256 c now w e) s
    save_checked-Kept o w v p (some e) s h = λ _. h
    save_checked-Kept o w v p none s h = rw p (λ fs.
        bind_rule (Kept o v) (Told (Holds o) (Holds (some v))) (Reported o v)
          (Slots.save_landed sha256 c now (Slots.next_revision s)) _
          (write_atomic_rule (Slots.save_target (document (Slots.new_header sha256 c now w v s)))
            (Kept o v) (Holds o) (Holds (some v)) (save-Carries o v _ (new_header-Good w v s))
            (λ _ g. inl g) c.exdev one_device s h fs)
          (λ b t k. save_landed-Kept o v (Slots.next_revision s) b t k))

    -- However a write to a slot is interrupted (an operation fails, or the power is lost), the slot
    -- holds the payload that it held or the new one, complete and with its checksum; and the new
    -- one exactly as the answer says where there is an answer. The slot's file was good or absent,
    -- with a good .bak or none in its place; renames stay on one file system.
    pub write_slot-Kept :
        (o : Option Json)
        → (w : Slots.SaveWrite) → (v : Json) → (s : Slot) → (fs : List Fault) → w.payload ≡ some v
        → Holds o s
        → Ends (Kept o v) (Reported o v) (Slots.write_slot sha256 c now w s fs)
    write_slot-Kept o w v s fs p h =
        save_checked-Kept o w v p (Slots.check_revision w.if_revision s) s h fs

    ends-read :
        (o : Option Json)
        → (v : Json) → (s : Slot) → Kept o v s
        → (Slots.read_slot sha256 s ≡ read_as o) ⊎ (Slots.read_slot sha256 s ≡ Slots.payload_of v)
    ends-read o v s (inl h) = inl (Holds-read o s h)
    ends-read o v s (inr h) = inr (Holds-read (some v) s h)
