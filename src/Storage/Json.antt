-- ===== src/Storage/Json.antt =====
-- `canonicaliseJSON` of launcher/internal/storage/storage.go, from the value that the decoder gives.
-- A number is its literal, as `UseNumber` keeps it; a `map[string]any` is its fields in the order
-- of `range`, which Go leaves open.
pub mod Order
use kobra_game.Base.{
  ℕ, ◌/◌, ◌%◌, ◌+◌, [], ◌∷◌, ◌++◌, List, Bool, true, false, ltb, ◌==◌, ◌||◌, if◌then◌else◌,
}
use kobra_game.Storage.Text.{Text, before}

mutual
  pub data Json : Type 0 where
    null : Json
    boolean : Bool → Json
    number : Text → Json
    text : Text → Json
    array : Items → Json
    object : Fields → Json

  pub data Items : Type 0 where
    nil : Items
    item : Json → Items → Items

  pub data Fields : Type 0 where
    end_ : Fields
    field : Text → Json → Fields → Fields

abbrev pub hex_digit : ℕ → ℕ
hex_digit n = if ltb n 10 then 48 + n else 87 + n

-- \u and four digits.
unfoldable pub unicode_escape : ℕ → Text
unicode_escape c =
    92
    ∷ 117
    ∷ hex_digit (c / 4096 % 16)
    ∷ hex_digit (c / 256 % 16)
    ∷ hex_digit (c / 16 % 16)
    ∷ hex_digit (c % 16)
    ∷ []

-- What `json.Marshal` writes for one character of a string.
unfoldable pub escape : ℕ → Text
unfolding unicode_escape
escape c =
    if (c == 34) || (c == 92)
    then 92 ∷ c ∷ []
    else if c == 8
    then 92 ∷ 98 ∷ []
    else if c == 12
    then 92 ∷ 102 ∷ []
    else if c == 10
    then 92 ∷ 110 ∷ []
    else if c == 13
    then 92 ∷ 114 ∷ []
    else if c == 9
    then 92 ∷ 116 ∷ []
    else if ltb c 32 || (c == 60) || (c == 62) || (c == 38) || (c == 8232) || (c == 8233)
    then unicode_escape c
    else c ∷ []

unfoldable pub escape_all : Text → Text
unfolding escape
escape_all [] = []
escape_all (c ∷ s) = escape c ++ escape_all s

unfoldable pub marshal_text : Text → Text
unfolding escape_all
marshal_text s = (34 ∷ escape_all s) ++ (34 ∷ [])

abbrev pub Encoded : Type 0
Encoded = Text × Text

-- `sort.Strings` on the keys, each with the text of its value.
unfoldable pub place : Encoded → List Encoded → List Encoded
place e [] = e ∷ []
place e (f ∷ fs) = let rest = place e fs in if before f.0 e.0 then f ∷ rest else e ∷ f ∷ fs

unfoldable pub sort_keys : List Encoded → List Encoded
unfolding place
sort_keys [] = []
sort_keys (e ∷ es) = place e (sort_keys es)

abbrev pub one_field : Encoded → Text
one_field (k, v) = marshal_text k ++ (58 ∷ v)

unfoldable pub more_fields : List Encoded → Text
more_fields [] = []
more_fields (e ∷ es) = 44 ∷ (one_field e ++ more_fields es)

unfoldable pub join_fields : List Encoded → Text
unfolding more_fields
join_fields [] = []
join_fields (e ∷ es) = one_field e ++ more_fields es

unfoldable mutual
  pub encode_canonical : Json → Text
  encode_canonical null = 110 ∷ 117 ∷ 108 ∷ 108 ∷ []
  encode_canonical (boolean true) = 116 ∷ 114 ∷ 117 ∷ 101 ∷ []
  encode_canonical (boolean false) = 102 ∷ 97 ∷ 108 ∷ 115 ∷ 101 ∷ []
  encode_canonical (number n) = n
  encode_canonical (text s) = marshal_text s
  encode_canonical (array xs) = (91 ∷ encode_items xs) ++ (93 ∷ [])
  encode_canonical (object fs) = (123 ∷ join_fields (sort_keys (encode_fields fs))) ++ (125 ∷ [])

  pub encode_items : Items → Text
  encode_items nil = []
  encode_items (item x xs) = encode_canonical x ++ encode_more xs

  pub encode_more : Items → Text
  encode_more nil = []
  encode_more (item x xs) = 44 ∷ (encode_canonical x ++ encode_more xs)

  pub encode_fields : Fields → List Encoded
  encode_fields end_ = []
  encode_fields (field k v fs) = (k, encode_canonical v) ∷ encode_fields fs
