-- ===== src/Static/Bounds.antt =====
-- The bounds of the ranges that launcher/internal/static serves.
use kobra_game.Base.{
  ◌⊎◌, ℕ, ◌≡◌, refl, [], ◌∷◌, Bool, true, false, Option, none, some, arith, if◌then◌else◌, ◌&&◌,
  ◌||◌, suc,
}
use kobra_game.Base.Int.{
  ℤ, pos, negsuc, ◌+ℤ◌, ◌-ℤ◌, ltb_ℤ, leb_ℤ, ◌≤ℤ◌, ◌<ℤ◌, +ℤ_parts, -ℤ_parts, eq_of_parts,
}
use kobra_game.Static.Range.{
  Bytes, RangeSpec, range, no_range, multi, unsatisfiable, suffix_range, bounded_range, open_range,
  split_range, spec_range, dashed_range, prefixed_range, parse_range, serve_spec, serve_range,
  Served, not_satisfiable, partial_content, parse_int, has_byte, cut_at, trim_space, after_prefix,
  range_prefix,
}

-- The range lies in a file of this size.
abbrev pub Within : ℤ → RangeSpec → Type 0
Within size (range start end_) = (pos 0 ≤ℤ start) × (start ≤ℤ end_) × (end_ <ℤ size)
Within size _ = Unit

if-Within :
    (size : ℤ)
    → (b : Bool) → (r r' : RangeSpec) → (b ≡ true → Within size r)
    → (b ≡ false → Within size r')
    → Within size (if b then r else r')
if-Within size true r r' h h' = h refl
if-Within size false r r' h h' = h' refl

suffix_range-Within : (n : Option ℤ) → (m : ℕ) → Within (pos (suc m)) (suffix_range n (pos (suc m)))
unfolding suffix_range ◌-ℤ◌
suffix_range-Within none m = tt
suffix_range-Within (some n) m =
    if-Within (pos (suc m)) (leb_ℤ n (pos 0)) _ _ (λ e. tt)
      (λ e. (ground arith, ground arith, ground arith))

bounded_range-Within :
    (start : ℤ)
    → (e : Option ℤ) → (m : ℕ) → pos 0 ≤ℤ start
    → start <ℤ pos (suc m)
    → Within (pos (suc m)) (bounded_range start e (pos (suc m)))
unfolding bounded_range ◌-ℤ◌
bounded_range-Within start none m lo hi = tt
bounded_range-Within start (some e) m lo hi =
    if-Within (pos (suc m)) (ltb_ℤ e start) _ _ (λ h. tt) (λ h. (lo, ground arith, ground arith))

open_range-Within :
    (start : Option ℤ)
    → (e : Bytes) → (m : ℕ) → Within (pos (suc m)) (open_range start e (pos (suc m)))
unfolding open_range ◌-ℤ◌
open_range-Within none e m = tt
open_range-Within (some start) [] m =
    if-Within (pos (suc m)) (ltb_ℤ start (pos 0) || leb_ℤ (pos (suc m)) start) _ _ (λ h. tt)
      (λ h. (ground arith, ground arith, ground arith))
open_range-Within (some start) (c ∷ e) m =
    if-Within (pos (suc m)) (ltb_ℤ start (pos 0) || leb_ℤ (pos (suc m)) start) _ _ (λ h. tt)
      (λ h. bounded_range-Within start (parse_int (c ∷ e)) m (ground arith) (ground arith))

split_range-Within : (a b : Bytes) → (m : ℕ) → Within (pos (suc m)) (split_range a b (pos (suc m)))
unfolding split_range
split_range-Within [] [] m = tt
split_range-Within [] (c ∷ b) m = suffix_range-Within (parse_int (c ∷ b)) m
split_range-Within (c ∷ a) b m = open_range-Within (parse_int (c ∷ a)) b m

dashed_range-Within :
    (o : Option (Bytes × Bytes)) → (m : ℕ) → Within (pos (suc m)) (dashed_range o (pos (suc m)))
dashed_range-Within none m = tt
dashed_range-Within (some (a, b)) m = split_range-Within (trim_space a) (trim_space b) m

prefixed_range-Within :
    (o : Option Bytes) → (m : ℕ) → Within (pos (suc m)) (prefixed_range o (pos (suc m)))
unfolding spec_range
prefixed_range-Within none m = tt
prefixed_range-Within (some s) m =
    if-Within (pos (suc m)) (has_byte 44 (trim_space s)) _ _ (λ h. tt)
      (λ h. dashed_range-Within (cut_at 45 (trim_space s)) m)

-- Whatever the Range header of a request for a file that is not empty, a range that `parseRange`
-- accepts lies in the file: 0 ≤ start ≤ end < size.
pub parse_range-Within :
    (header : Bytes) → (m : ℕ) → Within (pos (suc m)) (parse_range header (pos (suc m)))
unfolding parse_range
parse_range-Within header m = prefixed_range-Within (after_prefix range_prefix header) m

-- The answer is 416 with the file's size, or it has at least one byte, no more than the limit in
-- force, from the first byte announced to the last one announced, all of them in the file.
abbrev pub Honest : ℤ → ℤ → Served → Type 0
Honest size limit (not_satisfiable n) = n ≡ size
Honest size limit (partial_content start end_ length) =
    (pos 0 ≤ℤ start)
    × (pos 1 ≤ℤ length)
    × (start +ℤ length ≡ end_ +ℤ pos 1)
    × (start +ℤ length ≤ℤ size)
    × ((limit ≤ℤ pos 0) ⊎ (length ≤ℤ limit))

-- The bytes from the first to the last.
span_ends : (start end_ : ℤ) → start +ℤ (end_ -ℤ start +ℤ pos 1) ≡ end_ +ℤ pos 1
span_ends start end_ = eq_of_parts _ _ (
    ground (
      arith,
      +ℤ_parts (end_ -ℤ start) (pos 1),
      -ℤ_parts end_ start,
      +ℤ_parts start (end_ -ℤ start +ℤ pos 1),
      +ℤ_parts end_ (pos 1),
    ))

serve_spec-Honest :
    (r : RangeSpec) → (size limit : ℤ) → Within size r → Honest size limit (serve_spec r size limit)
unfolding serve_spec
serve_spec-Honest no_range size limit h = refl
serve_spec-Honest multi size limit h = refl
serve_spec-Honest unsatisfiable size limit h = refl
serve_spec-Honest (range start end_) size limit h =
    honest_if (ltb_ℤ (pos 0) limit && ltb_ℤ limit (end_ -ℤ start +ℤ pos 1)) (λ e. (
      h.0,
      ground (arith, h, +ℤ_parts (end_ -ℤ start) (pos 1), -ℤ_parts end_ start),
      span_ends start end_,
      ground (
        arith,
        h,
        +ℤ_parts (end_ -ℤ start) (pos 1),
        -ℤ_parts end_ start,
        +ℤ_parts start (end_ -ℤ start +ℤ pos 1),
      ),
      ground (arith, e),
    ))
  where
    honest_if :
        (b : Bool)
        → (b ≡ false → Honest size limit (partial_content start end_ (end_ -ℤ start +ℤ pos 1)))
        → Honest size limit (
            if b then not_satisfiable size else partial_content start end_ (end_ -ℤ start +ℤ pos 1))
    honest_if true k = refl
    honest_if false k = k refl

-- A Range request for a file that is not empty is answered by 416 with the file's size, or by 206
-- whose first byte is 0 or more, whose length is 1 or more and reaches from that byte to the last one
-- announced, which is in the file, and no more than `max_range_bytes` where that is positive.
pub serve_range-Honest :
    (header : Bytes)
    → (m : ℕ) → (limit : ℤ) → Honest (pos (suc m)) limit (serve_range header (pos (suc m)) limit)
unfolding serve_range
serve_range-Honest header m limit =
    serve_spec-Honest (parse_range header (pos (suc m))) (pos (suc m)) limit
      (parse_range-Within header m)

-- For an empty file, a suffix range `-N` with N above 0 is answered by 206 with the bytes 0 to -1
-- and a length of 0.
pub empty_file_suffix :
    (c : ℕ)
    → (end_str : Bytes) → (n : ℕ) → (limit : ℤ) → parse_int (c ∷ end_str) ≡ some (pos (suc n))
    → serve_spec (split_range [] (c ∷ end_str) (pos 0)) (pos 0) limit
      ≡ partial_content (pos 0) (negsuc 0) (pos 0)
unfolding split_range suffix_range serve_spec ◌-ℤ◌ ◌+ℤ◌
empty_file_suffix c end_str n limit h = rw h (ground arith)
