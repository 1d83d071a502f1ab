-- ===== src/Storage/Slots/Sound.antt =====
-- A slot whose file and .bak are each absent or a complete save, which is what
-- launcher/internal/storage/storage.go keeps through saves and deletions alike.
use kobra_game.Base.{String, Bool, true, false, Option, none, some, ◌≡◌}
use kobra_game.Base.Int.{ℤ, pos, ◌≤ℤ◌}
use kobra_game.Base.Faults.Triple.{Always, atomic_rule, only_rule, bind_rule}
use kobra_game.Storage.Text.{Text}
use kobra_game.Storage.Json.{Json}
use kobra_game.Storage.Types.{File, document, Slot, Config}
use kobra_game.Storage.Slots
use kobra_game.Storage.Slots.Writing.{Carries, Told, Told-same, write_atomic_rule}
use kobra_game.Storage.Slots.Pruning.{prune_rule}
use kobra_game.Storage.Slots.Durable.{Good, HoldsFiles, Holds-read, read_as, new_header-Good}

module _ (sha256 : Text → String) where
  abbrev pub GoodFile : Option File → Type 0
  GoodFile none = Unit {0}
  GoodFile (some f) = (v : Json) × Good sha256 v f

  abbrev pub Sound : Slot → Type 0
  Sound s = GoodFile s.main × GoodFile s.bak

  abbrev Ended : {A : Type 0} → A → Slot → Type 0
  Ended a s = Sound s

  files-Held :
      (m b : Option File) → GoodFile m → GoodFile b → (o : Option Json) × HoldsFiles sha256 o m b
  files-Held none none h k = (none, tt)
  files-Held none (some b) h (v, g) = (some v, g)
  files-Held (some f) b (v, g) k = (some v, g)

  -- A read gives the payload of a save, or says that there is none.
  pub read-Sound :
      (s : Slot) → Sound s → (o : Option Json) × (Slots.read_slot sha256 s ≡ read_as sha256 o)
  read-Sound s (h, k) =
      let (o, held) = files-Held s.main s.bak h k in (o, Holds-read sha256 o s held)

  save-Sound : (f : File) → GoodFile (some f) → Carries (Slots.save_target f) Sound Sound
  save-Sound f g = record {
    temp_added = λ s h. h;
    temp_dropped = λ s h. h;
    bak_dropped = λ s p h. (h.0, tt);
    backed = λ s p h. (tt, h.0);
    backed_after_drop = λ s p h. (tt, h.0);
    landed = λ s h. (g, h.1);
  }

  sidecar-Sound : (r : ℤ) → Carries (Slots.sidecar_target r) Sound Sound
  sidecar-Sound r = record {
    temp_added = λ s h. h;
    temp_dropped = λ s h. h;
    bak_dropped = λ s p h. h;
    backed = λ s p h. h;
    backed_after_drop = λ s p h. h;
    landed = λ s h. h;
  }

  module _ (c : Config) (now : String) (version : pos 1 ≤ℤ c.save_version)
      (one_device : c.exdev ≡ false) where
    save_landed-Sound :
        (rev : ℤ)
        → (b : Bool) → (s : Slot) → Sound s
        → Always Sound Ended (Slots.save_landed sha256 c now rev b) s
    save_landed-Sound rev false s h = λ _. h
    save_landed-Sound rev true s h = λ fs.
        bind_rule Sound (Told Sound Sound) Ended _ _
          (bind_rule Sound Ended (Told Sound Sound) _ _
            (prune_rule Sound Sound (λ _ k. k) (λ rs t k. k) c.keep_revisions _ h fs)
            (λ _ t k gs.
              write_atomic_rule (Slots.sidecar_target rev) Sound Sound Sound (sidecar-Sound rev)
                (λ _ g. g) c.exdev one_device t k gs))
          (λ b t k gs. Told-same Sound b t k)

    save_document-Sound :
        (w : Slots.SaveWrite)
        → (o : Option Json) → (s : Slot) → Sound s
        → Always Sound Ended (Slots.save_document sha256 c now w o) s
    save_document-Sound w none s h = λ _. h
    save_document-Sound w (some v) s h = λ fs.
        bind_rule Sound (Told Sound Sound) Ended
          (Slots.save_landed sha256 c now (Slots.next_revision s)) _
          (write_atomic_rule (Slots.save_target (document (Slots.new_header sha256 c now w v s)))
            Sound Sound Sound
            (save-Sound _ (v, new_header-Good sha256 c now version one_device w v s)) (λ _ g. g)
            c.exdev one_device s h fs)
          (λ b t k. save_landed-Sound (Slots.next_revision s) b t (Told-same Sound b t k))

    save_checked-Sound :
        (w : Slots.SaveWrite)
        → (e : Option Slots.SaveError) → (s : Slot) → Sound s
        → Always Sound Ended (Slots.save_checked sha256 c now w e) s
    save_checked-Sound w (some e) s h = λ _. h
    save_checked-Sound w none s h = save_document-Sound w w.payload s h

    pub write_slot-Sound :
        (w : Slots.SaveWrite)
        → (s : Slot) → Sound s
        → Always Sound Ended (Slots.write_slot sha256 c now w) s
    write_slot-Sound w s h = save_checked-Sound w (Slots.check_revision w.if_revision s) s h

  module _ (ts : String) where
    bak-Sound : (b : Bool) → (s : Slot) → Sound s → Always Sound Ended (Slots.bak_to_trash ts b) s
    bak-Sound false s h = λ _. h
    bak-Sound true s h =
        atomic_rule Sound Ended _ (Slots.rename_bak ts) s h
          (only_rule Sound Ended _ s h (h.0, tt) h) (λ _. h)

    rest-Sound : (b : Bool) → (s : Slot) → Sound s → Always Sound Ended (Slots.delete_rest ts b) s
    rest-Sound false s h = λ _. h
    rest-Sound true s h = λ fs.
        bind_rule Sound Ended Ended _ (Slots.bak_to_trash ts (Slots.exists s.bak) s fs)
          (bak-Sound (Slots.exists s.bak) s h fs)
          (λ _ t k.
            atomic_rule Sound Ended _ Slots.report_delete (record t { revision = pos 0 }) k (λ _. k)
              (λ _. k))

    renamed-Sound :
        (b : Bool) → (s : Slot) → Sound s → Always Sound Ended (Slots.rename_main ts b) s
    renamed-Sound false s h = λ _. h
    renamed-Sound true s h = only_rule Sound Ended _ s h (tt, h.1) h

    found-Sound : (b : Bool) → (s : Slot) → Sound s → Always Sound Ended (Slots.delete_found ts b) s
    found-Sound false s h = λ _. h
    found-Sound true s h = λ fs.
        bind_rule Sound Ended Ended (Slots.delete_rest ts) _
          (atomic_rule Sound Ended _ (Slots.rename_main ts) s h (renamed-Sound true s h)
            (renamed-Sound false s h) fs)
          (λ b t k. rest-Sound b t k)

    pub delete_slot-Sound : (s : Slot) → Sound s → Always Sound Ended (Slots.delete_slot ts) s
    delete_slot-Sound s h = found-Sound (Slots.exists s.main) s h
