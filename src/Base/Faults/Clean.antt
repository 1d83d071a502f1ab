-- ===== src/Base/Faults/Clean.antt =====
-- Runs that no fault interrupts.
use mathlib.Core.List.{[], ◌∷◌}
use kobra_game.Base.Faults.{Run, returned, died, Faulty, and_then}

-- The run returns into `Q` with no faults left over.
abbrev pub Clean : {W A : Type 0} → (A → W → Type 0) → Run W A → Type 0
Clean Q (returned a w []) = Q a w
Clean Q (returned a w (f ∷ fs)) = ⊥
Clean Q (died w) = ⊥

pub Clean-bind :
    {W A B : Type 0}
    → (P : A → W → Type 0) → (Q : B → W → Type 0) → (f : A → Faulty W B) → (r : Run W A) → Clean P r
    → ((a : A) → (w : W) → P a w → Clean Q (f a w []))
    → Clean Q (and_then r f)
Clean-bind P Q f (returned a w []) e next = next a w e
Clean-bind P Q f (returned a w (x ∷ fs)) e next = absurd e
Clean-bind P Q f (died w) e next = absurd e

pub Clean-weaken :
    {W A : Type 0}
    → (P Q : A → W → Type 0) → ((a : A) → (w : W) → P a w → Q a w)
    → (r : Run W A) → Clean P r
    → Clean Q r
Clean-weaken P Q weaken (returned a w []) e = weaken a w e
Clean-weaken P Q weaken (returned a w (x ∷ fs)) e = absurd e
Clean-weaken P Q weaken (died w) e = absurd e
