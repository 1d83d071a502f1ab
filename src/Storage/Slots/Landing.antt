-- ===== src/Storage/Slots/Landing.antt =====
-- A save that nothing disturbs, and its read: `WriteSave` and `ReadSave` of
-- launcher/internal/storage/storage.go.
use mathlib.Core.Path.{subst}
use kobra_game.Base.{
  ℕ, zero, suc, String, Bool, true, false, Option, none, some, ◌≡◌, refl, ◌∙◌, ap, inl, inr, List,
  [], ◌∷◌, arith, Bool-cases, length, ◌-◌,
}
use kobra_game.Base.Int.{ℤ, pos, pos_part, leb_ℤ, ◌≤ℤ◌}
use kobra_game.Base.Faults.{Fault, Faulty, Run, returned, attempt, and_then, pure, ◌>>=◌, ◌>>◌}
use kobra_game.Base.Faults.Triple.{Ends}
use kobra_game.Storage.Text.{Text}
use kobra_game.Storage.Json.{Json}
use kobra_game.Storage.Types.{document, Slot, Config}
use kobra_game.Storage.Atomic.{Target, write_atomic, keep_old}
use kobra_game.Storage.Slots
use kobra_game.Storage.Slots.Durable.{Holds, Holds-read, Kept, Reported, write_slot-Kept}

-- Without faults the run returns this answer.
abbrev pub Smooth : {A : Type 0} → A → Faulty Slot A → Slot → Type 0
Smooth a m s = (t : Slot) × (m s [] ≡ returned a t [])

bind-Smooth :
    {A B : Type 0}
    → (a : A) → (b : B) → (m : Faulty Slot A) → (f : A → Faulty Slot B) → (s : Slot) → Smooth a m s
    → ((t : Slot) → Smooth b (f a) t)
    → Smooth b (m >>= f) s
bind-Smooth a b m f s (t, p) next = ((next t).0, ap (λ r. and_then r f) p ∙ (next t).1)

keep-Smooth : (t : Target Slot) → (b : Bool) → (s : Slot) → Smooth true (keep_old t false b) s
unfolding attempt
keep-Smooth t false s = (t.drop_temp (t.land s), refl)
keep-Smooth t true s = (t.drop_temp (t.land (t.back_up (t.drop_bak s))), refl)

write-Smooth :
    (t : Target Slot)
    → (exdev : Bool) → exdev ≡ false
    → (s : Slot) → Smooth true (write_atomic t exdev) s
unfolding attempt
write-Smooth t true e s = ground (arith, e)
write-Smooth t false e s = keep-Smooth t (t.present (t.add_temp s)) (t.add_temp s)

evict-Smooth : (n : ℕ) → (rs : List ℤ) → (s : Slot) → Smooth tt (Slots.evict_revs n rs) s
unfolding attempt Slots.evict_revs
evict-Smooth zero rs s = (s, refl)
evict-Smooth (suc n) [] s = (s, refl)
evict-Smooth (suc n) (r ∷ rs) s =
    evict-Smooth n rs (record s { sidecars = Slots.drop_rev r s.sidecars })

prune-Smooth : (keep : ℤ) → (s : Slot) → Smooth tt (Slots.prune_revisions keep) s
unfolding attempt Slots.prune_revisions
prune-Smooth keep s = elim (Bool-cases (leb_ℤ keep (pos 0))) [
  | inl e ↦ (s, rw e refl)
  | inr e ↦
      (let (t, p) =
          evict-Smooth (length s.sidecars - pos_part keep) (Slots.sort_revs s.sidecars) s in
        (t, rw e p))
]

module _ (sha256 : Text → String) (c : Config) (one_device : c.exdev ≡ false) where
  save_landed-Smooth :
      (now : String)
      → (rev : ℤ) → (s : Slot)
      → Smooth (Slots.saved rev) (Slots.save_landed sha256 c now rev true) s
  save_landed-Smooth now rev s =
      bind-Smooth true (Slots.saved rev)
        (Slots.prune_revisions c.keep_revisions >> write_atomic (Slots.sidecar_target rev) c.exdev)
        (λ _. pure (Slots.saved rev)) (record s { revision = rev })
        (bind-Smooth tt true (Slots.prune_revisions c.keep_revisions)
          (λ _. write_atomic (Slots.sidecar_target rev) c.exdev) (record s { revision = rev })
          (prune-Smooth c.keep_revisions _)
          (λ t. write-Smooth (Slots.sidecar_target rev) c.exdev one_device t))
        (λ t. (t, refl))

  save_document-Smooth :
      (now : String)
      → (w : Slots.SaveWrite) → (v : Json) → (s : Slot)
      → Smooth (Slots.saved (Slots.next_revision s)) (Slots.save_document sha256 c now w (some v)) s
  save_document-Smooth now w v s =
      bind-Smooth true (Slots.saved (Slots.next_revision s))
        (write_atomic (Slots.save_target (document (Slots.new_header sha256 c now w v s))) c.exdev)
        (Slots.save_landed sha256 c now (Slots.next_revision s)) s
        (write-Smooth (Slots.save_target (document (Slots.new_header sha256 c now w v s))) c.exdev
          one_device s)
        (λ t. save_landed-Smooth now (Slots.next_revision s) t)

  write_slot-Smooth :
      (now : String)
      → (w : Slots.SaveWrite) → (v : Json) → (s : Slot) → w.payload ≡ some v
      → Slots.check_revision w.if_revision s ≡ none
      → Smooth (Slots.saved (Slots.next_revision s)) (Slots.write_slot sha256 c now w) s
  write_slot-Smooth now w v s p k = after_check (save_document-Smooth now w v s)
    where
      after_check :
          Smooth
            (Slots.saved (Slots.next_revision s))
            (Slots.save_document sha256 c now w (some v))
            s
          → Smooth (Slots.saved (Slots.next_revision s)) (Slots.write_slot sha256 c now w) s
      after_check (t, e) = (
        t,
        ap (λ x. Slots.save_checked sha256 c now w x s []) k
            ∙ (ap (λ x. Slots.save_document sha256 c now w x s []) p ∙ e),
      )

  acknowledged :
      (o : Option Json)
      → (v : Json) → (q : ℤ) → (t : Slot) → (gs : List Fault) → (r : Run Slot Slots.SaveResult)
      → Ends (Kept sha256 o v) (Reported sha256 o v) r
      → r ≡ returned (Slots.saved q) t gs
      → Slots.read_slot sha256 t ≡ Slots.payload_of v
  acknowledged o v q t gs r e p =
      Holds-read sha256 (some v) t (subst (Ends (Kept sha256 o v) (Reported sha256 o v)) p e)

  module _ (version : pos 1 ≤ℤ c.save_version) where
    -- A write of a payload to a slot that is good, at a revision that is not behind, is answered with
    -- the next revision where nothing fails, and a read then gives that payload. The save version is
    -- positive and renames stay on one file system.
    pub saved_then_read :
        (now : String)
        → (o : Option Json) → (w : Slots.SaveWrite) → (v : Json) → (s : Slot) → w.payload ≡ some v
        → Slots.check_revision w.if_revision s ≡ none
        → Holds sha256 o s
        → (t : Slot) × (Slots.write_slot sha256 c now w s []
            ≡ returned (Slots.saved (Slots.next_revision s)) t [])
          × (Slots.read_slot sha256 t ≡ Slots.payload_of v)
    saved_then_read now o w v s p k h =
        let (t, e) = write_slot-Smooth now w v s p k in
        (
          t,
          e,
          acknowledged o v (Slots.next_revision s) t [] _
              (write_slot-Kept sha256 c now version one_device o w v s [] p h) e,
        )
