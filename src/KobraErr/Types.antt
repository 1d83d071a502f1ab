-- ===== src/KobraErr/Types.antt =====
-- The types of launcher/internal/kobraerr/kobraerr.go, and `From`.
use kobra_game.Base.{ℕ, String, Dict, Option, none, some}
use kobra_game.Base.Int.{ℤ}

-- The API error enum.
pub data Code : Type 0 where
  bad_identifier malformed_body no_session bad_origin bad_csrf not_found : Code
  conflict too_large bad_content_type rate_limited io_error read_only : Code

unfoldable pub code_string : Code → String
code_string bad_identifier = "bad_identifier"
code_string malformed_body = "malformed_body"
code_string no_session = "no_session"
code_string bad_origin = "bad_origin"
code_string bad_csrf = "bad_csrf"
code_string not_found = "not_found"
code_string conflict = "conflict"
code_string too_large = "too_large"
code_string bad_content_type = "bad_content_type"
code_string rate_limited = "rate_limited"
code_string io_error = "io_error"
code_string read_only = "read_only"

-- A value of `map[string]any`: a text, a number, or one that `json.Marshal` refuses.
pub data Scalar : Type 0 where
  str : String → Scalar
  int : ℤ → Scalar
  unsupported : Scalar

-- A top-level value of the body.
pub data Value : Type 0 where
  scalar : Scalar → Value
  object : Dict Scalar → Value

-- The part of a `KobraError` that a client can see.
pub record Fields : Type 0 where
  pub code : Code
  pub http : ℕ
  pub msg : String
  pub detail : Dict Scalar
  pub retry_after : ℤ  -- int, seconds
  pub wire : Dict Value

-- A Go `error`: nil, one with a text, one that wraps another with `%w`, one of `errors.Join`, and
-- a `*KobraError` with its `Cause`.
pub data Err : Type 0 where
  nil : Err
  plain : String → Err
  wrap : String → Err → Err
  join : Err → Err → Err
  kobra : Fields → Err → Err

pub record KobraError : Type 0 where
  pub fields : Fields
  pub open fields use *
  pub cause : Err

-- `errors.As(err, &ke)`: the first `*KobraError` in the tree, outside in and left to right.
unfoldable pub as_kobra : Err → Option KobraError
as_kobra nil = none
as_kobra (plain s) = none
as_kobra (wrap s e) = as_kobra e
as_kobra (join a b) = let right = as_kobra b in elim (as_kobra a) [ some k ↦ some k | none ↦ right ]
as_kobra (kobra f c) = some (record { fields = f; cause = c })
