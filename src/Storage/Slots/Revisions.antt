-- ===== src/Storage/Slots/Revisions.antt =====
-- The revisions of a save slot and the conflicts of its writers: `checkRevision`, `WriteSave` and
-- `InitRevisions` of launcher/internal/storage/storage.go.
use kobra_game.Base.{
  ℕ, suc, String, Bool, true, false, Option, none, some, ◌≡◌, refl, sym, ◌∙◌, ap, inl, inr, List,
  [], ◌∷◌, arith, Bool-cases,
}
use kobra_game.Base.Int.{ℤ, pos, negsuc, ◌+ℤ◌, wrap64, leb_ℤ}
use kobra_game.Base.Faults.{Fault, succeeds, fails, Run, returned, attempt}
use mathlib.Core.Path.{subst}
use kobra_game.Base.Faults.Triple.{Ends, Always, bind_rule}
use kobra_game.Storage.Text.{Text}
use kobra_game.Storage.Json.{Json}
use kobra_game.Storage.Types.{File, document, Slot, Config}
use kobra_game.Storage.Slots
use kobra_game.Storage.Slots.Writing.{Carries, Told, Told-same, write_atomic_rule}
use kobra_game.Storage.Slots.Pruning.{prune_rule}

abbrev pub Matches : Option ℤ → ℤ → Type 0
Matches none x = Unit
Matches (some r) x = Slots.eq_ℤ r x ≡ true

-- What a success says: the writer knew revision `old`, and the new one is `new`.
abbrev pub Answers : Option ℤ → ℤ → ℤ → Slots.SaveResult → Slot → Type 0
Answers known old new (Slots.saved q) t = (q ≡ new) × (t.revision ≡ new) × Matches known old
Answers known old new (Slots.refused e) t = Unit

abbrev pub Anything : Slot → Type 0
Anything s = Unit

abbrev pub Revised : ℤ → Slot → Type 0
Revised rev s = s.revision ≡ rev

save-Carries : (f : File) → Carries (Slots.save_target f) Anything Anything
save-Carries f = record {
  temp_added = λ s h. tt;
  temp_dropped = λ s h. tt;
  bak_dropped = λ s p h. tt;
  backed = λ s p h. tt;
  backed_after_drop = λ s p h. tt;
  landed = λ s h. tt;
}

sidecar-Carries : (r rev : ℤ) → Carries (Slots.sidecar_target r) (Revised rev) (Revised rev)
sidecar-Carries r rev = record {
  temp_added = λ s h. h;
  temp_dropped = λ s h. h;
  bak_dropped = λ s p h. h;
  backed = λ s p h. h;
  backed_after_drop = λ s p h. h;
  landed = λ s h. h;
}

module _ (sha256 : Text → String) (c : Config) (one_device : c.exdev ≡ false) where
  save_landed-Answers :
      (now : String)
      → (known : Option ℤ) → (old rev : ℤ) → Matches known old
      → (b : Bool) → (s : Slot)
      → Always Anything (Answers known old rev) (Slots.save_landed sha256 c now rev b) s
  save_landed-Answers now known old rev m false s = λ _. tt
  save_landed-Answers now known old rev m true s = λ fs.
      bind_rule Anything (Told (Revised rev) (Revised rev)) (Answers known old rev) _ _
        (bind_rule Anything (λ _. Revised rev) (Told (Revised rev) (Revised rev)) _ _
          (prune_rule Anything (Revised rev) (λ _ _. tt) (λ rs t k. k) c.keep_revisions _ refl fs)
          (λ _ t k gs.
            write_atomic_rule (Slots.sidecar_target rev) Anything (Revised rev) (Revised rev)
              (sidecar-Carries rev rev) (λ _ _. tt) c.exdev one_device t k gs))
        (λ b t k gs. (refl, Told-same (Revised rev) b t k, m))

  save_document-Answers :
      (now : String)
      → (w : Slots.SaveWrite) → (known : Option ℤ) → (s : Slot) → Matches known s.revision
      → (p : Option Json)
      → Always Anything
          (Answers known s.revision (Slots.next_revision s))
          (Slots.save_document sha256 c now w p)
          s
  save_document-Answers now w known s m none = λ _. tt
  save_document-Answers now w known s m (some v) = λ fs.
      bind_rule Anything (Told Anything Anything) (Answers known s.revision (Slots.next_revision s))
        (Slots.save_landed sha256 c now (Slots.next_revision s)) _
        (write_atomic_rule (Slots.save_target (document (Slots.new_header sha256 c now w v s)))
          Anything Anything Anything (save-Carries _) (λ _ _. tt) c.exdev one_device s tt fs)
        (λ b t k. save_landed-Answers now known s.revision (Slots.next_revision s) m b t)

  known-Answers :
      (now : String)
      → (w : Slots.SaveWrite) → (known : Option ℤ) → (s : Slot)
      → Always Anything
          (Answers known s.revision (Slots.next_revision s))
          (Slots.save_checked sha256 c now w (Slots.check_revision known s))
          s
  known-Answers now w none s = save_document-Answers now w none s tt w.payload
  known-Answers now w (some r) s = elim (Bool-cases (Slots.eq_ℤ r s.revision)) [
    | inl e ↦ rw e (save_document-Answers now w (some r) s e w.payload)
    | inr e ↦ rw e (λ _. tt)
  ]

  answered :
      (known : Option ℤ)
      → (old new q : ℤ) → (t : Slot) → (gs : List Fault) → (r : Run Slot Slots.SaveResult)
      → Ends Anything (Answers known old new) r
      → r ≡ returned (Slots.saved q) t gs
      → Answers known old new (Slots.saved q) t
  answered known old new q t gs r e p = subst (Ends Anything (Answers known old new)) p e

-- r is s, and its successor is not s.
moved_on : (r s : ℤ) → Slots.eq_ℤ r s ≡ true → Slots.eq_ℤ r (wrap64 (s +ℤ pos 1)) ≡ false
unfolding wrap64 ◌+ℤ◌
moved_on (pos a) (pos b) h = ground (arith, h)
moved_on (pos a) (negsuc b) h = ground (arith, h)
moved_on (negsuc a) (pos b) h = ground (arith, h)
moved_on (negsuc a) (negsuc b) h = ground (arith, h)

refused_behind :
    (sha256 : Text → String)
    → (c : Config) → (now : String) → (w : Slots.SaveWrite) → (r q : ℤ) → (t : Slot)
    → (gs : List Fault) → w.if_revision ≡ some r
    → t.revision ≡ q
    → Slots.eq_ℤ r q ≡ false
    → (m : String) × (Slots.write_slot sha256 c now w t gs
        ≡ returned (Slots.refused (Slots.conflict q m)) t gs)
refused_behind sha256 c now w r q t gs k e n =
    (Slots.header_text (λ h. h.modified) (Slots.read_save_header t.main), rw (k, e, n) refl)

module _ (sha256 : Text → String) (c : Config) (one_device : c.exdev ≡ false) where
  -- Of two writes that know one revision of a slot, where the first is answered with a success, the
  -- second is refused with the revision of that answer and changes nothing, whatever failed in the
  -- first and fails in the second; and the new revision is the int64 after the known one. Renames
  -- stay on one file system.
  pub one_writer_wins :
      (now later : String)
      → (w u : Slots.SaveWrite) → (r q : ℤ) → (s t : Slot) → (fs gs : List Fault)
      → w.if_revision ≡ some r
      → u.if_revision ≡ some r
      → Slots.write_slot sha256 c now w s fs ≡ returned (Slots.saved q) t gs
      → (q ≡ Slots.next_revision s)
        × (m : String) × (Slots.write_slot sha256 c later u t gs
            ≡ returned (Slots.refused (Slots.conflict q m)) t gs)
  one_writer_wins now later w u r q s t fs gs kw ku p =
      let done =
        answered sha256 c one_device (some r) s.revision (Slots.next_revision s) q t gs
          (Slots.save_checked sha256 c now w (Slots.check_revision (some r) s) s fs)
          (known-Answers sha256 c one_device now w (some r) s fs)
          (ap (λ k. Slots.save_checked sha256 c now w (Slots.check_revision k s) s fs) (sym kw)
            ∙ p) in
      let behind =
        refused_behind sha256 c later u r q t gs ku (done.1 ∙ sym (done.0))
          (rw (done.0) (moved_on r s.revision (done.2))) in
      (done.0, behind.0, behind.1)

-- The launcher's write of a save whose sidecar fails: the file has landed.
abbrev pub sidecar_fails : List Fault
sidecar_fails =
    succeeds ∷ succeeds ∷ succeeds ∷ succeeds ∷ succeeds ∷ succeeds ∷ succeeds ∷ succeeds ∷ succeeds
    ∷ succeeds ∷ succeeds ∷ fails ∷ fails ∷ []

abbrev pub old_save : File → ℕ → Slot
old_save f n = record {
  main = some f;
  bak = none;
  sidecars = pos (suc n) ∷ [];
  temps = 0;
  trash = [];
  trash_bak = [];
  revision = pos (suc n);
}

abbrev kept_old : (Text → String) → Config → String → Slots.SaveWrite → Json → File → ℕ → Slot
kept_old sha256 c now w v f n = record (old_save f n) {
  main = some (document (Slots.new_header sha256 c now w v (old_save f n)));
  bak = some f;
  revision = Slots.next_revision (old_save f n);
}

-- A save without a known revision, to a slot of revision n + 1 with the sidecar of that, is answered
-- with the next revision while its sidecar is not written. After the next start the slot has the new
-- payload, yet its revision is n + 1 again, and a write that knows only n + 1 is not refused.
pub sidecar_lost :
    (sha256 : Text → String)
    → (c : Config) → (now : String) → (w : Slots.SaveWrite) → (v : Json) → (f : File) → (n : ℕ)
    → c.exdev ≡ false
    → w.if_revision ≡ none
    → w.payload ≡ some v
    → (t : Slot) × (gs : List Fault) × (Slots.write_slot sha256 c now w (old_save f n) sidecar_fails
        ≡ returned (Slots.saved (Slots.next_revision (old_save f n))) t gs)
      × (t.main ≡ some (document (Slots.new_header sha256 c now w v (old_save f n))))
      × (Slots.check_revision (some (pos (suc n))) (Slots.init_slot t) ≡ none)
unfolding attempt Slots.prune_revisions Slots.init_slot Slots.max_rev
sidecar_lost sha256 c now w v f n x k p = elim (Bool-cases (leb_ℤ c.keep_revisions (pos 0))) [
  | inl e ↦ (kept_old sha256 c now w v f n, fails ∷ [], rw (k, p, x, e) refl, refl, ground arith)
  | inr e ↦ (kept_old sha256 c now w v f n, [], rw (k, p, x, e) refl, refl, ground arith)
]
