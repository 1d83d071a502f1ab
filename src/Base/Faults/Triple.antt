-- ===== src/Base/Faults/Triple.antt =====
-- What a program on the disk guarantees under every schedule of faults.
use mathlib.Core.Bool.{Bool, true, false}
use mathlib.Core.List.{List, [], ◌∷◌}
use kobra_game.Base.Faults.{
  Fault, succeeds, fails, fails_midway, dies, dies_midway, Run, returned, died, Faulty, pure, ◌>>=◌,
  attempt, after, and_then,
}

-- Where a run ends: it returns into `Q`, or it dies in `C`.
abbrev pub Ends : {W A : Type 0} → (W → Type 0) → (A → W → Type 0) → Run W A → Type 0
Ends C Q (returned a w fs) = Q a w
Ends C Q (died w) = C w

-- `m` on this folder, whatever the faults.
abbrev pub Always : {W A : Type 0} → (W → Type 0) → (A → W → Type 0) → Faulty W A → W → Type 0
Always C Q m w = (fs : List Fault) → Ends C Q (m w fs)

pub attempt_rule :
    {W A : Type 0}
    → (C : W → Type 0) → (Q : A → W → Type 0) → (act cut : W → W) → (k : Bool → Faulty W A)
    → (w : W) → C w
    → C (cut w)
    → Always C Q (k true) (act w)
    → Always C Q (k false) w
    → Always C Q (k false) (cut w)
    → Always C Q (attempt act cut >>= k) w
unfolding attempt
attempt_rule C Q act cut k w c c' done failed half [] = done []
attempt_rule C Q act cut k w c c' done failed half (succeeds ∷ fs) = done fs
attempt_rule C Q act cut k w c c' done failed half (fails ∷ fs) = failed fs
attempt_rule C Q act cut k w c c' done failed half (fails_midway ∷ fs) = half fs
attempt_rule C Q act cut k w c c' done failed half (dies ∷ fs) = c
attempt_rule C Q act cut k w c c' done failed half (dies_midway ∷ fs) = c'

-- An operation that happens as a whole or not at all.
pub atomic_rule :
    {W A : Type 0}
    → (C : W → Type 0) → (Q : A → W → Type 0) → (act : W → W) → (k : Bool → Faulty W A) → (w : W)
    → C w
    → Always C Q (k true) (act w)
    → Always C Q (k false) w
    → Always C Q (attempt act (λ v. v) >>= k) w
atomic_rule C Q act k w c done failed = attempt_rule C Q act (λ v. v) k w c c done failed failed

-- Such an operation at the end.
pub only_rule :
    {W : Type 0}
    → (C : W → Type 0) → (Q : Bool → W → Type 0) → (act : W → W) → (w : W) → C w
    → Q true (act w)
    → Q false w
    → Always C Q (attempt act (λ v. v)) w
unfolding attempt
only_rule C Q act w c done failed [] = done
only_rule C Q act w c done failed (succeeds ∷ fs) = done
only_rule C Q act w c done failed (fails ∷ fs) = failed
only_rule C Q act w c done failed (fails_midway ∷ fs) = failed
only_rule C Q act w c done failed (dies ∷ fs) = c
only_rule C Q act w c done failed (dies_midway ∷ fs) = c

-- An operation whose answer is ignored, at the end.
pub last_rule :
    {W A : Type 0}
    → (C : W → Type 0) → (Q : A → W → Type 0) → (act : W → W) → (x : A) → (w : W) → C w
    → Q x (act w)
    → Q x w
    → Always C Q (attempt act (λ v. v) >>= (λ _. pure tt) >>= λ _. pure x) w
unfolding attempt
last_rule C Q act x w c done failed [] = done
last_rule C Q act x w c done failed (succeeds ∷ fs) = done
last_rule C Q act x w c done failed (fails ∷ fs) = failed
last_rule C Q act x w c done failed (fails_midway ∷ fs) = failed
last_rule C Q act x w c done failed (dies ∷ fs) = c
last_rule C Q act x w c done failed (dies_midway ∷ fs) = c

-- One program after another.
pub bind_rule :
    {W A B : Type 0}
    → (C : W → Type 0) → (P : A → W → Type 0) → (Q : B → W → Type 0) → (f : A → Faulty W B)
    → (r : Run W A) → Ends C P r
    → ((a : A) → (w : W) → P a w → Always C Q (f a) w)
    → Ends C Q (and_then r f)
bind_rule C P Q f (returned a w fs) e next = next a w e fs
bind_rule C P Q f (died w) e next = e

pub Ends-after :
    {W A : Type 0}
    → {C : W → Type 0} → (Q : A → W → Type 0) → (r : Run W A) → ((a : A) → (w : W) → Q a w → C w)
    → Ends C Q r
    → C (after r)
Ends-after Q (returned a w fs) weaken e = weaken a w e
Ends-after Q (died w) weaken e = e

-- An operation by itself.
pub bare_rule :
    {W : Type 0}
    → (C : W → Type 0) → (Q : Bool → W → Type 0) → (act cut : W → W) → (w : W) → C w
    → C (cut w)
    → Q true (act w)
    → Q false w
    → Q false (cut w)
    → Always C Q (attempt act cut) w
unfolding attempt
bare_rule C Q act cut w c c' done failed half [] = done
bare_rule C Q act cut w c c' done failed half (succeeds ∷ fs) = done
bare_rule C Q act cut w c c' done failed half (fails ∷ fs) = failed
bare_rule C Q act cut w c c' done failed half (fails_midway ∷ fs) = half
bare_rule C Q act cut w c c' done failed half (dies ∷ fs) = c
bare_rule C Q act cut w c c' done failed half (dies_midway ∷ fs) = c'

-- A guarantee says less.
pub Ends-weaken :
    {W A : Type 0}
    → (C : W → Type 0) → (P Q : A → W → Type 0) → ((a : A) → (w : W) → P a w → Q a w)
    → (r : Run W A) → Ends C P r
    → Ends C Q r
Ends-weaken C P Q weaken (returned a w fs) e = weaken a w e
Ends-weaken C P Q weaken (died w) e = e
