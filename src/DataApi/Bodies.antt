-- ===== src/DataApi/Bodies.antt =====
-- What the handlers of launcher/internal/dataapi make of a request: `decodeJSON`, `routePath` and
-- `validateIdentifierField` of pipeline.go, `saveError` and `allowedConfigKey` of handlers.go.
use Prim.Native.Char.{code}
use Prim.Native.String.{[] as nothing, ◌∷◌ as char}
use mathlib.Core.Option.{map as map_option}
use kobra_game.Base.{
  ℕ, zero, suc, ◌==◌, ltb, length, String, Dict, [], ◌∷◌, Bool, true, false, not, any, str_eq,
  Option, none, some, ◌&&◌, ◌||◌, if◌then◌else◌,
}
use kobra_game.Base.Int.{ℤ, pos, ◌+ℤ◌, wrap64, pos_part, leb_ℤ}
use kobra_game.KobraErr.Types.{Value, scalar, str, int, Err, nil, plain, KobraError}
use kobra_game.KobraErr.Build.{
  malformed_body_error, too_large_error, bad_identifier_error, conflict_error,
}
use kobra_game.Storage.Text.{Text}
use kobra_game.Storage.Identifier.{validate_identifier}
use kobra_game.DataApi.Service.{Outcome, done, failed, Fault, conflicting, other, Decoder, as_error}

abbrev pub take : ℕ → Text → Text
take zero s = []
take (suc n) [] = []
take (suc n) (c ∷ s) = c ∷ take n s

-- The limit of `decodeJSON`, and the bytes that its LimitReader lets through.
abbrev pub body_limit : ℤ → ℤ
body_limit max = if leb_ℤ max (pos 0) then pos 67_108_864 else max

abbrev pub read_limited : ℤ → Text → Text
read_limited max raw = take (pos_part (wrap64 (max +ℤ pos 1))) raw

abbrev pub decoded : {A : Type 0} → Option (A × Bool) → Outcome A
decoded none = failed (as_error (malformed_body_error (plain "json")))
decoded (some (v, true)) = failed (as_error (malformed_body_error (plain "trailing content")))
decoded (some (v, false)) = done v

abbrev pub decode_bounded : {A : Type 0} → (Text → Bool) → Decoder A → ℤ → Text → Outcome A
decode_bounded is_blank decode max raw =
    if ltb (pos_part max) (length raw)
    then failed (as_error (too_large_error max))
    else if is_blank raw
    then failed (as_error (malformed_body_error (plain "empty body")))
    else decoded (decode raw)

abbrev pub decode_json : {A : Type 0} → (Text → Bool) → Decoder A → ℤ → Option Text → Outcome A
decode_json is_blank decode max none = failed (as_error (malformed_body_error (plain "read")))
decode_json is_blank decode max (some raw) =
    let limit = body_limit max in decode_bounded is_blank decode limit (read_limited limit raw)

abbrev pub is_empty : String → Bool
is_empty s = str_eq s ""

-- `TrimPrefix`
abbrev pub after_prefix : String → String → Option String
after_prefix nothing s = some s
after_prefix (char c p) nothing = none
after_prefix (char c p) (char d s) =
    let rest = after_prefix p s in if code c == code d then rest else none

abbrev pub trim_prefix : String → String → String
trim_prefix p s = elim (after_prefix p s) [ some rest ↦ rest | none ↦ s ]

-- `strings.Trim(s, "/")`
abbrev pub trim_left : String → String
trim_left nothing = ""
trim_left (char c s) = let rest = trim_left s in if code c == 47 then rest else char c s

abbrev pub trim_right : String → String
trim_right nothing = ""
trim_right (char c s) =
    let rest = trim_right s in if code c == 47 && is_empty rest then "" else char c rest

abbrev pub has_slash : String → Bool
has_slash nothing = false
has_slash (char c s) = code c == 47 || has_slash s

unfoldable pub route_path : (prefix path : String) → Option String
route_path prefix path =
    let rest = trim_right (trim_left (trim_prefix prefix path)) in
    if is_empty rest || has_slash rest then none else some rest

-- The storage's error has the code bad_identifier, so its detail becomes the field.
abbrev pub validate_identifier_field : (String → Text) → String → String → Option Err
validate_identifier_field bytes name value =
    if validate_identifier (bytes value)
    then none
    else some (as_error (bad_identifier_error name nil))

-- `AsKobra`, and what the other errors of a write are.
abbrev pub conflict_wire : String → ℤ → String → Dict Value
conflict_wire slot current modified =
    ("current_revision", scalar (int current))
    ∷ ("slot", scalar (str slot))
    ∷ (if is_empty modified then [] else ("modified", scalar (str modified)) ∷ [])

abbrev pub conflict_as_kobra : String → ℤ → String → KobraError
conflict_as_kobra slot current modified =
    let e = conflict_error "This slot was changed by another tab since you loaded it." [] in
    record e { fields = record e.fields { wire = conflict_wire slot current modified } }

abbrev pub save_error : Fault → Err
save_error (conflicting slot current modified) = as_error (conflict_as_kobra slot current modified)
save_error (other e) = e

unfoldable pub allowed_config_keys : String → Bool
allowed_config_keys k =
    any (λ m. str_eq m k)
      ("audio" ∷ "video" ∷ "controls" ∷ "gameplay" ∷ "accessibility" ∷ "locale" ∷ "language"
        ∷ "display" ∷ "input" ∷ "network" ∷ "misc" ∷ [])

-- What stands before the first dot, if there is one.
abbrev pub before_dot : String → Option String
before_dot nothing = none
before_dot (char c s) =
    let rest = before_dot s in if code c == 46 then some "" else map_option (λ p. char c p) rest

abbrev pub allowed_group : Option String → Bool
allowed_group none = false
allowed_group (some p) = not (is_empty p) && allowed_config_keys p

unfoldable pub allowed_config_key : String → Bool
unfolding allowed_config_keys
allowed_config_key k = allowed_config_keys k || allowed_group (before_dot k)

unfoldable pub all_allowed : Dict Text → Bool
unfolding allowed_config_key
all_allowed [] = true
all_allowed ((k, v) ∷ m) = allowed_config_key k && all_allowed m
