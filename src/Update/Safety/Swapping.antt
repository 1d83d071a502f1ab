-- ===== src/Update/Safety/Swapping.antt =====
-- `Swap` of launcher/internal/update/swap.go under every schedule of faults.
use kobra_game.Base.{ℕ, true, false, Option, none, some, ◌≡◌, refl, ◌⊎◌, inl, inr, List}
use kobra_game.Base.Faults.{Fault}
use kobra_game.Update.Disk.{Tree, full, tear, Step, begin, Folder}
use kobra_game.Base.Faults.Triple.{Ends, Always, attempt_rule, atomic_rule, last_rule}
use kobra_game.Update.Swap.{Outcome, swap, swap_cleared, swap_marked, swap_promoted}
use kobra_game.Update.Safety.{
  same_device, folder, Safe, untouched, unmoved, marked, moved, undone, installed, proven,
}

-- What the answer of `Swap` says of the folder: no error means the new release is in game/ and the
-- old one in game.old/; an error means the old release is in game/, or waits in game.old/ under the
-- marker.
abbrev pub Answered : ℕ → ℕ → Outcome → Folder → Type 0
Answered o n none w = (w.game ≡ some (full n)) × (w.backup ≡ some (full o))
Answered o n (some _) w =
    (w.game ≡ some (full o))
    ⊎ ((w.game ≡ none) × (w.backup ≡ some (full o)) × (w.marker ≡ some begin))

abbrev Good : ℕ → ℕ → Outcome → Folder → Type 0
Good o n r w = Safe o n w × Answered o n r w

promoted-Good :
    (o n : ℕ)
    → Always
        (Safe o n)
        (Good o n)
        (swap_promoted true)
        (folder (some (full n)) (some (full o)) none (some begin))
promoted-Good o n =
    atomic_rule (Safe o n) (Good o n) _ _ _ (undone _ false)
      (last_rule (Safe o n) (Good o n) _ _ _ (proven _) (installed _, (refl, refl))
        (proven _, (refl, refl)))
      (last_rule (Safe o n) (Good o n) _ _ _ (undone _ false) (installed _, (refl, refl))
        (undone _ false, (refl, refl)))

put_back-Good :
    (o n : ℕ)
    → Always
        (Safe o n)
        (Good o n)
        (swap_promoted false)
        (folder none (some (full o)) (some (full n)) (some begin))
put_back-Good o n =
    atomic_rule (Safe o n) (Good o n) _ _ _ (moved _)
      (last_rule (Safe o n) (Good o n) _ _ _ (unmoved _ _) (untouched _ _, inl refl)
        (unmoved _ _, inl refl))
      (λ _. (moved _, inr (refl, refl, refl)))

cleared-Good :
    (o n : ℕ)
    → Always
        (Safe o n)
        (Good o n)
        (swap_cleared false true)
        (folder (some (full o)) none (some (full n)) (some begin))
cleared-Good o n =
    atomic_rule (Safe o n) (Good o n) _ _ _ (unmoved _ _)
      (atomic_rule (Safe o n) (Good o n) _ _ _ (moved _) (promoted-Good o n) (put_back-Good o n))
      (last_rule (Safe o n) (Good o n) _ _ _ (unmoved _ _) (untouched _ _, inl refl)
        (unmoved _ _, inl refl))

kept_backup :
    (o n : ℕ)
    → (b : Option Tree)
    → Always
        (Safe o n)
        (Good o n)
        (swap_cleared false false)
        (folder (some (full o)) b (some (full n)) (some begin))
kept_backup o n b =
    last_rule (Safe o n) (Good o n) _ _ _ (marked _ _) (untouched _ _, inl refl)
      (marked _ _, inl refl)

marked-Good :
    (o n : ℕ)
    → (b : Option Tree)
    → Always
        (Safe o n)
        (Good o n)
        (swap_marked false true)
        (folder (some (full o)) b (some (full n)) (some begin))
marked-Good o n none = cleared-Good o n
marked-Good o n (some t) =
    attempt_rule (Safe o n) (Good o n) _ _ _ _ (marked _ _) (marked _ _) (cleared-Good o n)
      (kept_backup o n (some t)) (kept_backup o n (tear (some t)))

-- `Swap` from a complete installed release and a complete staged one on the same file system,
-- whatever game.old/ and the marker are and whichever operations fail or are cut short: it ends in
-- a safe arrangement. Where it returns no error the new release is in game/ and the old one in
-- game.old/; where it returns one the old release is in game/, or waits in game.old/ under the
-- marker.
pub swap-Safe :
    (o n : ℕ)
    → (b : Option Tree) → (m : Option Step) → (fs : List Fault)
    → Ends
        (Safe o n)
        (λ r w. Safe o n w × Answered o n r w)
        (swap same_device (folder (some (full o)) b (some (full n)) m) fs)
swap-Safe o n b m =
    atomic_rule (Safe o n) (Good o n) _ _ _ (marked _ _) (marked-Good o n b)
      (λ _. (marked _ _, inl refl))
