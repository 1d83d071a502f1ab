-- ===== src/Base/Faults.antt =====
-- Operations on a disk that may fail or be cut short by a power loss. A schedule of faults has one
-- entry for each operation, in order; past its end every operation succeeds.
pub mod Triple
pub mod Clean
use mathlib.Core.Bool.{Bool, true, false}
use mathlib.Core.List.{List, [], ◌∷◌}

pub data Fault : Type 0 where
  succeeds fails fails_midway : Fault
  dies dies_midway : Fault

-- A run over a world `W`: it returns, with the faults that are left, or the power is lost.
pub data Run (W A : Type 0) : Type 0 where
  returned : A → W → List Fault → Run W A
  died : W → Run W A

abbrev pub Faulty : Type 0 → Type 0 → Type 0
Faulty W A = W → List Fault → Run W A

abbrev pub pure : {W A : Type 0} → A → Faulty W A
pure a w fs = returned a w fs

abbrev pub and_then : {W A B : Type 0} → Run W A → (A → Faulty W B) → Run W B
and_then (returned a w fs) f = f a w fs
and_then (died w) f = died w

infixl 5 ◌>>=◌ ◌>>◌
abbrev pub ◌>>=◌ : {W A B : Type 0} → Faulty W A → (A → Faulty W B) → Faulty W B
◌>>=◌ m f w fs = and_then (m w fs) f

abbrev pub ◌>>◌ : {W A B : Type 0} → Faulty W A → Faulty W B → Faulty W B
m >> k = m >>= λ _. k

-- One operation, by what it does to the world when it is done and when it is cut short. The
-- answer says whether it succeeded.
unfoldable pub attempt : {W : Type 0} → (W → W) → (W → W) → Faulty W Bool
attempt act cut w [] = returned true (act w) []
attempt act cut w (succeeds ∷ fs) = returned true (act w) fs
attempt act cut w (fails ∷ fs) = returned false w fs
attempt act cut w (fails_midway ∷ fs) = returned false (cut w) fs
attempt act cut w (dies ∷ fs) = died w
attempt act cut w (dies_midway ∷ fs) = died (cut w)

abbrev pub look : {W A : Type 0} → (W → A) → Faulty W A
look f w fs = returned (f w) w fs

-- An operation that happens as a whole or not at all.
abbrev pub atomic : {W : Type 0} → (W → W) → Faulty W Bool
atomic act = attempt act (λ w. w)

-- Where a run leaves the world.
abbrev pub after : {W A : Type 0} → Run W A → W
after (returned _ w _) = w
after (died w) = w
