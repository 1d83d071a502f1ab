-- ===== src/Storage/Text.antt =====
-- Texts as lists of code points, in the order of Go's strings, which is that of their UTF-8 bytes.
use kobra_game.Base.{ℕ, ◌≡◌, refl, [], ◌∷◌, List, Bool, true, false, ltb, ◌==◌, arith, ◌&&◌, ◌||◌}

abbrev pub Text : Type 0
Text = List ℕ

unfoldable pub same_text : Text → Text → Bool
same_text [] [] = true
same_text [] (d ∷ t) = false
same_text (c ∷ s) [] = false
same_text (c ∷ s) (d ∷ t) = (c == d) && same_text s t

-- `s < t`
unfoldable pub before : Text → Text → Bool
before s [] = false
before [] (d ∷ t) = true
before (c ∷ s) (d ∷ t) = ltb c d || ((c == d) && before s t)

pub before_self : (s : Text) → before s s ≡ false
unfolding before
before_self [] = refl
before_self (c ∷ s) = ground (arith, before_self s)

pub before_asym : (s t : Text) → before s t ≡ true → before t s ≡ false
unfolding before
before_asym [] [] h = refl
before_asym [] (d ∷ t) h = refl
before_asym (c ∷ s) [] h = ground (arith, h)
before_asym (c ∷ s) (d ∷ t) h = ground (arith, before_asym s t)

pub before_trans : (s t u : Text) → before s t ≡ true → before t u ≡ true → before s u ≡ true
unfolding before
before_trans s t [] h k = ground (arith, k)
before_trans s [] (e ∷ u) h k = ground (arith, h)
before_trans [] (d ∷ t) (e ∷ u) h k = refl
before_trans (c ∷ s) (d ∷ t) (e ∷ u) h k = ground (arith, before_trans s t u)

-- Two texts of which neither is before the other are one.
pub before_total : (s t : Text) → before s t ≡ false → before t s ≡ false → s ≡ t
unfolding before
before_total [] [] h k = refl
before_total [] (d ∷ t) h k = ground (arith, h)
before_total (c ∷ s) [] h k = ground (arith, k)
before_total (c ∷ s) (d ∷ t) h k = ground (arith, before_total s t)
