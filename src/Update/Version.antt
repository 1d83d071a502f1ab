-- ===== src/Update/Version.antt =====
-- Versions and releases of launcher/internal/update/manifest.go: `parseVersion`, `compareVersions`,
-- `ReleaseNewer` and the floor of `MeetsLauncherMin`. A text is its code points.
pub mod Order
use kobra_game.Base.{
  ℕ, ◌+◌, ◌*◌, ◌-◌, [], ◌∷◌, List, Bool, true, false, not, Option, none, some, ◌==◌, ◌&&◌, ◌||◌,
  leb, ltb, length, if◌then◌else◌,
}
use kobra_game.Storage.Text.{Text, same_text}

-- `unicode.IsSpace`
abbrev pub is_white : ℕ → Bool
is_white c =
    (leb 9 c && leb c 13)
    || (c == 32)
    || (c == 133)
    || (c == 160)
    || (c == 5760)
    || (leb 8192 c && leb c 8202)
    || (c == 8232)
    || (c == 8233)
    || (c == 8239)
    || (c == 8287)
    || (c == 12288)

abbrev pub trim_white_left : Text → Text
trim_white_left [] = []
trim_white_left (c ∷ s) = let rest = trim_white_left s in if is_white c then rest else c ∷ s

abbrev pub trim_space_onto : ℕ → Text → Text
trim_space_onto c [] = if is_white c then [] else c ∷ []
trim_space_onto c (b ∷ s) = c ∷ b ∷ s

abbrev pub trim_white_right : Text → Text
trim_white_right [] = []
trim_white_right (c ∷ s) = trim_space_onto c (trim_white_right s)

-- `TrimPrefix(s, "v")`
abbrev pub trim_v : Text → Text
trim_v [] = []
trim_v (c ∷ s) = if c == 118 then s else c ∷ s

abbrev pub push_char : ℕ → List Text → List Text
push_char c [] = (c ∷ []) ∷ []
push_char c (w ∷ ws) = (c ∷ w) ∷ ws

-- `Split(s, ".")`
unfoldable pub split_dots : Text → List Text
split_dots [] = [] ∷ []
split_dots (c ∷ s) = let rest = split_dots s in if c == 46 then [] ∷ rest else push_char c rest

abbrev pub is_digit : ℕ → Bool
is_digit c = leb 48 c && leb c 57

unfoldable pub digits_onto : ℕ → Text → Option ℕ
digits_onto n [] = some n
digits_onto n (c ∷ s) =
    let rest = digits_onto (10 * n + (c - 48)) s in if is_digit c then rest else none

abbrev pub version_digits : Text → Option ℕ
version_digits [] = none
version_digits (c ∷ s) = digits_onto 0 (c ∷ s)

-- Up to the largest int64.
abbrev pub within_int64 : Option ℕ → Option ℕ
within_int64 none = none
within_int64 (some n) = if leb n 9223372036854775807 then some n else none

-- -0 is no negative number.
abbrev pub zero_only : Option ℕ → Option ℕ
zero_only none = none
zero_only (some n) = if n == 0 then some 0 else none

-- `Atoi` where it gives a number that is not negative.
abbrev pub atoi : Text → Option ℕ
atoi [] = none
atoi (c ∷ s) =
    if c == 43
    then within_int64 (version_digits s)
    else if c == 45
    then zero_only (version_digits s)
    else within_int64 (version_digits (c ∷ s))

abbrev pub cons_number : Option ℕ → Option (List ℕ) → Option (List ℕ)
cons_number (some n) (some ns) = some (n ∷ ns)
cons_number (some n) none = none
cons_number none ns = none

unfoldable pub parse_parts : List Text → Option (List ℕ)
unfolding digits_onto
parse_parts [] = some []
parse_parts (w ∷ ws) = cons_number (atoi w) (parse_parts ws)

abbrev pub parse_trimmed : Text → Option (List ℕ)
parse_trimmed s = if same_text s [] then none else parse_parts (split_dots s)

unfoldable pub parse_version : Text → Option (List ℕ)
unfolding parse_parts split_dots same_text
parse_version s = parse_trimmed (trim_v (trim_white_right (trim_white_left s)))

pub data Comparison : Type 0 where
  less equal greater : Comparison

abbrev pub compare_step : ℕ → ℕ → Comparison → Comparison
compare_step a b rest = if a == b then rest else if ltb a b then less else greater

-- A missing component is 0.
unfoldable pub compare_parts : List ℕ → List ℕ → Comparison
compare_parts [] [] = equal
compare_parts (a ∷ as_) [] = compare_step a 0 (compare_parts as_ [])
compare_parts [] (b ∷ bs) = compare_step 0 b (compare_parts [] bs)
compare_parts (a ∷ as_) (b ∷ bs) = compare_step a b (compare_parts as_ bs)

abbrev pub compare_parsed : Option (List ℕ) → Option (List ℕ) → Comparison
compare_parsed none none = equal
compare_parsed none (some bs) = less
compare_parsed (some as_) none = greater
compare_parsed (some as_) (some bs) = compare_parts as_ bs

-- `compareVersions`
abbrev pub compare_versions : Text → Text → Comparison
compare_versions a b = compare_parsed (parse_version a) (parse_version b)

abbrev pub all_digits : Text → Bool
all_digits [] = true
all_digits (c ∷ s) = is_digit c && all_digits s

abbrev pub valid_parts : List Text → Bool
valid_parts (y ∷ m ∷ n ∷ []) =
    (length y == 4)
    && (length m == 2)
    && all_digits y
    && all_digits m
    && not (same_text n [])
    && all_digits n
valid_parts _ = false

-- `validRelease`
unfoldable pub valid_release : Text → Bool
unfolding split_dots same_text
valid_release s = valid_parts (split_dots s)

abbrev pub is_greater : Comparison → Bool
is_greater greater = true
is_greater _ = false

-- `ReleaseNewer`
unfoldable pub release_newer : Text → Text → Bool
release_newer a b =
    if not (valid_release a)
    then false
    else if not (valid_release b)
    then true
    else is_greater (compare_versions a b)

pub data Floor : Type 0 where
  met unreadable too_old : Floor

abbrev pub at_least_floor : Comparison → Floor
at_least_floor less = too_old
at_least_floor _ = met

abbrev pub floor_parsed : Text → Text → Option (List ℕ) → Floor
floor_parsed launcher min none = unreadable
floor_parsed launcher min (some ns) = at_least_floor (compare_versions launcher min)

-- `launcherMinRefusal`; no manifest is `none`.
unfoldable pub launcher_min_refusal : Option Text → Text → Floor
unfolding same_text
launcher_min_refusal none launcher = met
launcher_min_refusal (some min) launcher =
    if same_text (trim_white_right (trim_white_left min)) []
    then met
    else floor_parsed launcher min (parse_version min)
