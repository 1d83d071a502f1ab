-- ===== src/Static/Range.antt =====
-- `parseRange` of launcher/internal/static/static.go and the answer to a Range header in serve.go.
-- A header is the list of its bytes; `strings.TrimSpace` is that of ASCII texts.
use kobra_game.Base.{
  ℕ, zero, suc, ◌+◌, ◌-◌, ◌*◌, [], ◌∷◌, List, Bool, false, Option, none, some, leb, ◌==◌, ◌&&◌,
  ◌||◌, if◌then◌else◌,
}
use kobra_game.Base.Int.{ℤ, pos, negsuc, ◌+ℤ◌, ◌-ℤ◌, ltb_ℤ, leb_ℤ}

abbrev pub Bytes : Type 0
Bytes = List ℕ

abbrev pub range_prefix : Bytes
range_prefix = 98 ∷ 121 ∷ 116 ∷ 101 ∷ 115 ∷ 61 ∷ []

-- `strings.TrimPrefix`, where the prefix is there.
unfoldable pub after_prefix : Bytes → Bytes → Option Bytes
after_prefix [] s = some s
after_prefix (p ∷ ps) [] = none
after_prefix (p ∷ ps) (c ∷ s) = let rest = after_prefix ps s in if p == c then rest else none

abbrev pub is_space : ℕ → Bool
is_space c = (c == 32) || (leb 9 c && leb c 13)

unfoldable pub trim_left : Bytes → Bytes
trim_left [] = []
trim_left (c ∷ s) = let rest = trim_left s in if is_space c then rest else c ∷ s

abbrev pub cons_unless_space : ℕ → Bytes → Bytes
cons_unless_space c [] = if is_space c then [] else c ∷ []
cons_unless_space c (d ∷ s) = c ∷ d ∷ s

unfoldable pub trim_right : Bytes → Bytes
trim_right [] = []
trim_right (c ∷ s) = cons_unless_space c (trim_right s)

unfoldable pub trim_space : Bytes → Bytes
unfolding trim_left trim_right
trim_space s = trim_right (trim_left s)

-- `strings.Contains` of one byte.
unfoldable pub has_byte : ℕ → Bytes → Bool
has_byte b [] = false
has_byte b (c ∷ s) = (c == b) || has_byte b s

abbrev pub keep_before : ℕ → Option (Bytes × Bytes) → Option (Bytes × Bytes)
keep_before c none = none
keep_before c (some (before, rest)) = some (c ∷ before, rest)

-- What stands before and after the first such byte.
unfoldable pub cut_at : ℕ → Bytes → Option (Bytes × Bytes)
cut_at b [] = none
cut_at b (c ∷ s) = let later = keep_before c (cut_at b s) in if c == b then some ([], s) else later

abbrev pub max_int64 : ℕ
max_int64 = 9_223_372_036_854_775_807

-- The digits' value after `acc`.
unfoldable pub digits : ℕ → Bytes → Option ℕ
digits acc [] = some acc
digits acc (c ∷ s) =
    let rest = digits (10 * acc + (c - 48)) s in if leb 48 c && leb c 57 then rest else none

abbrev pub positive : Option ℕ → Option ℤ
positive none = none
positive (some n) = if leb n max_int64 then some (pos n) else none

abbrev pub negative : Option ℕ → Option ℤ
negative none = none
negative (some zero) = some (pos 0)
negative (some (suc n)) = if leb n max_int64 then some (negsuc n) else none

abbrev pub some_digits : Bytes → Option ℕ
some_digits [] = none
some_digits (c ∷ s) = digits 0 (c ∷ s)

-- `strconv.ParseInt(s, 10, 64)`; `none` is its error.
unfoldable pub parse_int : Bytes → Option ℤ
unfolding digits
parse_int [] = none
parse_int (c ∷ s) =
    if c == 45
    then negative (some_digits s)
    else if c == 43
    then positive (some_digits s)
    else positive (some_digits (c ∷ s))

-- The four answers of `parseRange`: no bytes range (all flags false), several ranges, one that
-- cannot be satisfied, and a range.
pub data RangeSpec : Type 0 where
  no_range multi unsatisfiable : RangeSpec
  range : (start end_ : ℤ) → RangeSpec

-- bytes=-N
unfoldable pub suffix_range : Option ℤ → ℤ → RangeSpec
suffix_range none size = unsatisfiable
suffix_range (some n) size =
    let m = if ltb_ℤ size n then size else n in
    if leb_ℤ n (pos 0) then unsatisfiable else range (size -ℤ m) (size -ℤ pos 1)

unfoldable pub bounded_range : ℤ → Option ℤ → ℤ → RangeSpec
bounded_range start none size = unsatisfiable
bounded_range start (some e) size =
    let last = size -ℤ pos 1 in
    if ltb_ℤ e start then unsatisfiable else range start (if ltb_ℤ e last then e else last)

unfoldable pub open_range : Option ℤ → Bytes → ℤ → RangeSpec
unfolding bounded_range
open_range none end_str size = unsatisfiable
open_range (some start) [] size =
    if ltb_ℤ start (pos 0) || leb_ℤ size start then unsatisfiable else range start (size -ℤ pos 1)
open_range (some start) (c ∷ end_str) size =
    if ltb_ℤ start (pos 0) || leb_ℤ size start
    then unsatisfiable
    else bounded_range start (parse_int (c ∷ end_str)) size

-- The two texts around the dash.
unfoldable pub split_range : Bytes → Bytes → ℤ → RangeSpec
unfolding suffix_range open_range
split_range [] [] size = unsatisfiable
split_range [] (c ∷ end_str) size = suffix_range (parse_int (c ∷ end_str)) size
split_range (c ∷ start_str) end_str size = open_range (parse_int (c ∷ start_str)) end_str size

abbrev pub dashed_range : Option (Bytes × Bytes) → ℤ → RangeSpec
dashed_range none size = unsatisfiable
dashed_range (some (before, rest)) size = split_range (trim_space before) (trim_space rest) size

unfoldable pub spec_range : Bytes → ℤ → RangeSpec
unfolding split_range
spec_range spec size = if has_byte 44 spec then multi else dashed_range (cut_at 45 spec) size

abbrev pub prefixed_range : Option Bytes → ℤ → RangeSpec
prefixed_range none size = no_range
prefixed_range (some spec) size = spec_range (trim_space spec) size

unfoldable pub parse_range : Bytes → ℤ → RangeSpec
unfolding spec_range
parse_range header size = prefixed_range (after_prefix range_prefix header) size

-- What is sent for a Range header: 416, or 206 with Content-Range and Content-Length.
pub data Served : Type 0 where
  not_satisfiable : ℤ → Served
  partial_content : (start end_ length : ℤ) → Served

unfoldable pub serve_spec : RangeSpec → ℤ → ℤ → Served
serve_spec no_range size limit = not_satisfiable size
serve_spec multi size limit = not_satisfiable size
serve_spec unsatisfiable size limit = not_satisfiable size
serve_spec (range start end_) size limit =
    let length = end_ -ℤ start +ℤ pos 1 in
    if ltb_ℤ (pos 0) limit && ltb_ℤ limit length
    then not_satisfiable size
    else partial_content start end_ length

unfoldable pub serve_range : Bytes → ℤ → ℤ → Served
unfolding serve_spec parse_range
serve_range header size limit = serve_spec (parse_range header size) size limit
