-- ===== src/Tests/OnStatic.antt =====
-- Range headers.
use kobra_game.Base.{◌≡◌, refl, [], ◌∷◌, some}
use kobra_game.Base.Int.{pos}
use kobra_game.Static.Range.{Bytes, serve_range, parse_int}
use kobra_game.Static.Bounds.{Honest, serve_range-Honest}

-- bytes=2-9
abbrev header : Bytes
header = 98 ∷ 121 ∷ 116 ∷ 101 ∷ 115 ∷ 61 ∷ 50 ∷ 45 ∷ 57 ∷ []

five : parse_int (53 ∷ []) ≡ some (pos 5)
unfolding parse_int
five = refl

serve_range-Honest_example : Honest (pos 6) (pos 3) (serve_range header (pos 6) (pos 3))
serve_range-Honest_example = serve_range-Honest header 5 (pos 3)
