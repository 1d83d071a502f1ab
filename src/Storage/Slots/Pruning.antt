-- ===== src/Storage/Slots/Pruning.antt =====
-- What `pruneRevisions` of launcher/internal/storage/storage.go keeps: it touches the sidecars only.
use kobra_game.Base.{ℕ, zero, suc, [], ◌∷◌, List, inl, inr, Bool-cases}
use kobra_game.Base.Int.{ℤ, pos, leb_ℤ}
use kobra_game.Base.Faults.Triple.{Always, atomic_rule}
use kobra_game.Storage.Types.{Slot}
use kobra_game.Storage.Slots

module _ (C P : Slot → Type 0) (weaken : (s : Slot) → P s → C s)
    (dropped : (rs : List ℤ) → (s : Slot) → P s → P (record s { sidecars = rs })) where
  evict_rule :
      (n : ℕ) → (rs : List ℤ) → (s : Slot) → P s → Always C (λ _. P) (Slots.evict_revs n rs) s
  unfolding Slots.evict_revs
  evict_rule zero rs s h = λ _. h
  evict_rule (suc n) [] s h = λ _. h
  evict_rule (suc n) (r ∷ rs) s h =
      atomic_rule C (λ _. P) _ (λ _. Slots.evict_revs n rs) s (weaken s h)
        (evict_rule n rs _ (dropped (Slots.drop_rev r s.sidecars) s h)) (evict_rule n rs s h)

  pub prune_rule : (keep : ℤ) → (s : Slot) → P s → Always C (λ _. P) (Slots.prune_revisions keep) s
  unfolding Slots.prune_revisions
  prune_rule keep s h = elim (Bool-cases (leb_ℤ keep (pos 0))) [
    | inl e ↦ rw e (λ _. h)
    | inr e ↦ rw e (
        atomic_rule C (λ _. P) _ (Slots.prune_listed keep) s (weaken s h) (evict_rule _ _ s h)
          (λ _. h))
  ]
