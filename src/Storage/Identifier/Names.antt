-- ===== src/Storage/Identifier/Names.antt =====
-- What the names that `ValidateIdentifier` of launcher/internal/storage/storage.go admits are not.
use kobra_game.Base.{
  ℕ, ◌+◌, ◌≤◌, [], ◌∷◌, ◌++◌, Option, none, some, true, false, ◌≡◌, refl, length, arith,
}
use kobra_game.Storage.Text.{Text, same_text}
use kobra_game.Storage.Identifier

-- The device names of Windows.
pub data Device : Type 0 where
  con nul aux prn : Device
  com_port lpt_port : (port : ℕ) → Device

abbrev pub device_name : Device → Text
device_name con = 99 ∷ 111 ∷ 110 ∷ []
device_name nul = 110 ∷ 117 ∷ 108 ∷ []
device_name aux = 97 ∷ 117 ∷ 120 ∷ []
device_name prn = 112 ∷ 114 ∷ 110 ∷ []
device_name (com_port n) = 99 ∷ 111 ∷ 109 ∷ (48 + n) ∷ []
device_name (lpt_port n) = 108 ∷ 112 ∷ 116 ∷ (48 + n) ∷ []

abbrev pub IsDevice : Device → Type 0
IsDevice (com_port n) = (1 ≤ n) × (n ≤ 9)
IsDevice (lpt_port n) = (1 ≤ n) × (n ≤ 9)
IsDevice _ = Unit

-- The name, or the name with a dot and anything.
abbrev pub with_extension : Text → Option Text → Text
with_extension s none = s
with_extension s (some e) = s ++ (46 ∷ e)

reserved-refused :
    (s : Text) → Identifier.reserved_name s ≡ true → Identifier.validate_identifier s ≡ false
unfolding Identifier.validate_identifier
reserved-refused s r = ground (arith, r)

device-reserved :
    (d : Device)
    → (e : Option Text) → IsDevice d
    → Identifier.reserved_name (with_extension (device_name d) e) ≡ true
unfolding Identifier.reserved_name same_text
device-reserved con none k = refl
device-reserved con (some e) k = refl
device-reserved nul none k = refl
device-reserved nul (some e) k = refl
device-reserved aux none k = refl
device-reserved aux (some e) k = refl
device-reserved prn none k = refl
device-reserved prn (some e) k = refl
device-reserved (com_port n) none k = ground (arith, k)
device-reserved (com_port n) (some e) k = ground (arith, k)
device-reserved (lpt_port n) none k = ground (arith, k)
device-reserved (lpt_port n) (some e) k = ground (arith, k)

-- No name of a Windows device is a valid identifier, whatever its extension.
pub devices_refused :
    (d : Device)
    → (e : Option Text) → IsDevice d
    → Identifier.validate_identifier (with_extension (device_name d) e) ≡ false
devices_refused d e k = reserved-refused (with_extension (device_name d) e) (device-reserved d e k)

-- A valid identifier has 1 to 64 characters, each one of [a-z0-9._-], begins with a letter or a
-- digit, and has neither a separator nor a dot at its end.
pub identifier_safe :
    (s : Text)
    → Identifier.validate_identifier s ≡ true
    → (1 ≤ length s)
      × (length s ≤ 64)
      × (Identifier.all_of Identifier.is_name_char s ≡ true)
      × (Identifier.any_of Identifier.is_separator s ≡ false)
      × (Identifier.last_is 46 s ≡ false)
      × (c : ℕ) × (r : Text) × (s ≡ c ∷ r)
      × (Identifier.is_lower_alnum c ≡ true)
unfolding Identifier.validate_identifier
identifier_safe [] v = ground (arith, v)
identifier_safe (c ∷ s) v = (
  omega arith,
  ground (arith, v),
  ground (arith, v),
  ground (arith, v),
  ground (arith, v),
  c,
  s,
  refl,
  ground (arith, v),
)
