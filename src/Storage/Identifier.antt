-- ===== src/Storage/Identifier.antt =====
-- `ValidateIdentifier` of launcher/internal/storage/storage.go and `ReservedName` of
-- launcher/internal/paths/paths.go, on the characters of the name.
pub mod Names
use kobra_game.Base.{
  ℕ, ◌-◌, [], ◌∷◌, List, Bool, true, false, not, length, leb, ◌==◌, ◌&&◌, ◌||◌, if◌then◌else◌,
}
use kobra_game.Storage.Text.{Text, same_text}

abbrev pub all_of : (ℕ → Bool) → Text → Bool
all_of p [] = true
all_of p (c ∷ s) = p c && all_of p s

abbrev pub any_of : (ℕ → Bool) → Text → Bool
any_of p [] = false
any_of p (c ∷ s) = p c || any_of p s

-- [a-z0-9]
abbrev pub is_lower_alnum : ℕ → Bool
is_lower_alnum c = (leb 97 c && leb c 122) || (leb 48 c && leb c 57)

-- [a-z0-9._-]
abbrev pub is_name_char : ℕ → Bool
is_name_char c = is_lower_alnum c || (c == 46) || (c == 95) || (c == 45)

-- `identifierRe`
abbrev pub matches_re : Text → Bool
matches_re [] = false
matches_re (c ∷ s) = is_lower_alnum c && all_of is_name_char s && leb (length s) 63

abbrev pub is_separator : ℕ → Bool
is_separator c = (c == 47) || (c == 92)

abbrev pub is_dot_or_space : ℕ → Bool
is_dot_or_space c = (c == 46) || (c == 32)

abbrev pub last_is : ℕ → Text → Bool
last_is d [] = false
last_is d (c ∷ []) = c == d
last_is d (c ∷ b ∷ s) = last_is d (b ∷ s)

-- What stands before the first dot.
abbrev pub stem : Text → Text
stem [] = []
stem (c ∷ s) = let rest = stem s in if c == 46 then [] else c ∷ rest

abbrev pub trim_onto : ℕ → Text → Text
trim_onto c [] = if c == 32 then [] else c ∷ []
trim_onto c (b ∷ s) = c ∷ b ∷ s

-- `TrimRight(s, " ")`
abbrev pub trim_spaces : Text → Text
trim_spaces [] = []
trim_spaces (c ∷ s) = trim_onto c (trim_spaces s)

-- `ToUpper`: no other character has an upper case among the letters compared below.
abbrev pub upper : ℕ → ℕ
upper c = if leb 97 c && leb c 122 then c - 32 else c

abbrev pub upper_all : Text → Text
upper_all [] = []
upper_all (c ∷ s) = upper c ∷ upper_all s

abbrev pub port_name : Text → Bool
port_name (a ∷ b ∷ c ∷ d ∷ []) =
    (same_text (a ∷ b ∷ c ∷ []) (67 ∷ 79 ∷ 77 ∷ [])
      || same_text (a ∷ b ∷ c ∷ []) (76 ∷ 80 ∷ 84 ∷ []))
    && leb 49 d
    && leb d 57
port_name _ = false

-- CON, NUL, AUX, PRN, COM1 to COM9 and LPT1 to LPT9.
abbrev pub device_base : Text → Bool
device_base b =
    same_text b (67 ∷ 79 ∷ 78 ∷ [])
    || same_text b (78 ∷ 85 ∷ 76 ∷ [])
    || same_text b (65 ∷ 85 ∷ 88 ∷ [])
    || same_text b (80 ∷ 82 ∷ 78 ∷ [])
    || port_name b

unfoldable pub reserved_name : Text → Bool
reserved_name [] = false
reserved_name (c ∷ s) =
    all_of is_dot_or_space (c ∷ s) || device_base (upper_all (trim_spaces (stem (c ∷ s))))

unfoldable pub validate_identifier : Text → Bool
unfolding reserved_name
validate_identifier s =
    if not (matches_re s)
    then false
    else if any_of is_separator s || same_text s (46 ∷ []) || same_text s (46 ∷ 46 ∷ [])
    then false
    else if reserved_name s
    then false
    else not (last_is 46 s || last_is 32 s)
