-- ===== src/Update/Progress/Percent.antt =====
-- The percentage of launcher/internal/update/progress.go.
use kobra_game.Base.{ℕ, ◌*◌, ◌/◌, ◌≤◌, ◌≡◌, refl, arith, ap, sym, Bool, true, false, if◌then◌else◌}
use mathlib.Core.Path.{subst}
use kobra_game.Base.Int.{ℤ, pos, wrap64, ◌≤ℤ◌, ltb_ℤ, leb_ℤ, pos_part}
use kobra_game.Update.Progress.{percent_of, hundredfold_over, divided}

wrap_pos : (n : ℕ) → n ≤ 9223372036854775807 → wrap64 (pos n) ≡ pos n
unfolding wrap64
wrap_pos n h = ground arith

hundredfold_pos :
    (written total : ℤ)
    → pos_part written ≤ 92233720368547758
    → hundredfold_over written total ≡ pos (pos_part written * 100 / pos_part total)
unfolding hundredfold_over
hundredfold_pos written total h =
    ap (λ z. divided z (pos_part total)) (wrap_pos (pos_part written * 100) (omega arith))

abbrev pub Percentage : ℤ → Type 0
Percentage z = (pos 0 ≤ℤ z) × (z ≤ℤ pos 100)

capped : (p : ℤ) → (q : ℕ) → p ≡ pos q → Percentage (if ltb_ℤ (pos 100) p then pos 100 else p)
capped p q e =
    subst (λ z. Percentage (if ltb_ℤ (pos 100) z then pos 100 else z)) (sym e) (capped_pos q)
  where
    capped_pos : (q : ℕ) → Percentage (if ltb_ℤ (pos 100) (pos q) then pos 100 else pos q)
    capped_pos q = ground arith

inside :
    (written total : ℤ)
    → total ≤ℤ pos 92233720368547758
    → leb_ℤ total written ≡ false
    → pos_part written ≤ 92233720368547758
inside written total small e = ground arith

within :
    (written total : ℤ)
    → total ≤ℤ pos 92233720368547758
    → (b c d : Bool) → leb_ℤ total written ≡ d
    → Percentage (
        if b
        then pos 0
        else if c
        then pos 0
        else if d
        then pos 100
        else if ltb_ℤ (pos 100) (hundredfold_over written total)
        then pos 100
        else hundredfold_over written total)
within written total small true c d e = (omega arith, omega arith)
within written total small false true d e = (omega arith, omega arith)
within written total small false false true e = (omega arith, omega arith)
within written total small false false false e =
    capped (hundredfold_over written total) (pos_part written * 100 / pos_part total)
      (hundredfold_pos written total (inside written total small e))

-- The percentage of any tick, empty and negative ones and those past the end included, is at least
-- 0 and at most 100, where the whole is at most about 2^63 / 100 bytes.
pub percent_of-Percentage :
    (written total : ℤ) → total ≤ℤ pos 92233720368547758 → Percentage (percent_of written total)
unfolding percent_of
percent_of-Percentage written total small =
    within written total small (leb_ℤ total (pos 0)) (leb_ℤ written (pos 0)) (leb_ℤ total written)
      refl

-- Past that the product wraps, and a download that is under way has a negative percentage.
pub percent_of_wrapped :
    ltb_ℤ (percent_of (pos 100000000000000000) (pos 200000000000000000)) (pos 0) ≡ true
unfolding percent_of hundredfold_over wrap64
percent_of_wrapped = refl
