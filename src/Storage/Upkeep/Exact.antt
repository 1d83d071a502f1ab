-- ===== src/Storage/Upkeep/Exact.antt =====
-- What the tidying at a start (launcher/internal/storage/storage.go) leaves.
use kobra_game.Base.{◌≡◌, [], ◌∷◌, List, Bool, true, ◌&&◌, arith, inl, inr, ◌⊎◌, Bool-cases}
use kobra_game.Base.Int.{ℤ}
use kobra_game.Storage.Upkeep

-- The entry is in the list.
abbrev pub Among : Upkeep.DirEntry → List Upkeep.DirEntry → Type 0
Among d [] = ⊥
Among d (x ∷ xs) = (x ≡ d) ⊎ Among d xs

-- Every entry of an area stays, or it is a stray temporary file and in the trash.
pub quarantined_or_kept :
    (moves : Upkeep.DirEntry → Bool)
    → (d : Upkeep.DirEntry) → (ds : List Upkeep.DirEntry) → Among d ds
    → Among d (Upkeep.quarantine_area moves ds).entries
      ⊎ ((Upkeep.stray d ≡ true) × Among d (Upkeep.quarantine_area moves ds).trash)
unfolding Upkeep.quarantine_area
quarantined_or_kept moves d [] m = absurd m
quarantined_or_kept moves d (x ∷ xs) (inl e) = elim (Bool-cases (Upkeep.stray x && moves x)) [
  | inl b ↦ rw b (inr (rw⁻¹ e (ground (arith, b)), inl e))
  | inr b ↦ rw b (inl (inl e))
]
quarantined_or_kept moves d (x ∷ xs) (inr m) = elim (Bool-cases (Upkeep.stray x && moves x)) [
  | inl b ↦
      rw b (elim (quarantined_or_kept moves d xs m) [ inl k ↦ inl k | inr (s, k) ↦ inr (s, inr k) ])
  | inr b ↦
      rw b
        (elim (quarantined_or_kept moves d xs m) [ inl k ↦ inl (inr k) | inr (s, k) ↦ inr (s, k) ])
]

-- An entry that the clean-up does not leave is an old directory of the trash.
pub cleaned_or_kept :
    (removes : Upkeep.DirEntry → Bool)
    → (cutoff : ℤ) → (d : Upkeep.DirEntry) → (ds : List Upkeep.DirEntry) → Among d ds
    → Among d (Upkeep.cleanup_entries removes cutoff ds) ⊎ (Upkeep.old_trash cutoff d ≡ true)
unfolding Upkeep.cleanup_entries
cleaned_or_kept removes cutoff d [] m = absurd m
cleaned_or_kept removes cutoff d (x ∷ xs) (inl e) =
    elim (Bool-cases (Upkeep.old_trash cutoff x && removes x)) [
      | inl b ↦ inr (rw⁻¹ e (ground (arith, b)))
      | inr b ↦ rw b (inl (inl e))
    ]
cleaned_or_kept removes cutoff d (x ∷ xs) (inr m) =
    elim (Bool-cases (Upkeep.old_trash cutoff x && removes x)) [
      | inl b ↦ rw b (cleaned_or_kept removes cutoff d xs m)
      | inr b ↦
          rw b
            (elim (cleaned_or_kept removes cutoff d xs m) [ inl k ↦ inl (inr k) | inr o ↦ inr o ])
    ]
