-- ===== src/Update/Pending/Space.antt =====
-- The disk preflight's sum of launcher/internal/update/runtime.go, where it fits in an int64.
use kobra_game.Base.{ℕ, ◌+◌, ◌/◌, ◌≤◌, ◌≡◌, refl, arith, true, ltb, if◌then◌else◌}
use kobra_game.Base.Int.{pos, ltb_ℤ, wrap64, ◌+ℤ◌}
use kobra_game.Update.Pending.{required_bytes, at_least_zero, headroom}

-- The larger of two numbers.
abbrev pub larger : ℕ → ℕ → ℕ
larger a b = if ltb a b then b else a

wrap_pos : (n : ℕ) → n ≤ 9223372036854775807 → wrap64 (pos n) ≡ pos n
unfolding wrap64
wrap_pos n h = ground arith

add_pos : (a b : ℕ) → pos a +ℤ pos b ≡ pos (a + b)
unfolding ◌+ℤ◌
add_pos a b = ground arith

headroom_pos : (t : ℕ) → headroom (pos t) ≡ pos (larger 67108864 (t / 20))
unfolding headroom
headroom_pos t = ground arith

zero_floor : (n : ℕ) → at_least_zero (pos n) ≡ pos n
unfolding at_least_zero
zero_floor n = ground arith

-- Where the sizes are not negative and the sum fits, it is the archive, twice the tree and the
-- larger of 64 MiB and a twentieth of the tree.
pub required_bytes_exact :
    (archive total : ℕ)
    → archive + total + total + larger 67108864 (total / 20) ≤ 9223372036854775807
    → required_bytes (pos archive) (pos total)
      ≡ pos (archive + total + total + larger 67108864 (total / 20))
unfolding required_bytes
required_bytes_exact archive total h = rw (zero_floor archive) (
    rw (zero_floor total) (
      rw (headroom_pos total) (
        rw (add_pos archive total) (
          rw (wrap_pos (archive + total) (ground (arith, h))) (
            rw (add_pos (archive + total) total) (
              rw (wrap_pos (archive + total + total) (ground (arith, h))) (
                rw (add_pos (archive + total + total) (larger 67108864 (total / 20)))
                  (wrap_pos _ h))))))))

-- Past that the preflight lets a release pass that no disk can hold: a tree of 2^62 bytes asks for
-- a negative number of them.
pub required_bytes_wrapped : ltb_ℤ (required_bytes (pos 0) (pos 4611686018427387904)) (pos 0) ≡ true
unfolding required_bytes at_least_zero headroom wrap64 ◌+ℤ◌
required_bytes_wrapped = refl
