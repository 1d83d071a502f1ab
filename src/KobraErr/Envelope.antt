-- ===== src/KobraErr/Envelope.antt =====
-- `From`, `Envelope` and `WriteEnvelope` of launcher/internal/kobraerr/kobraerr.go.
use kobra_game.Base.{
  ℕ, String, Dict, [], ◌∷◌, insert, Bool, true, false, ◌&&◌, ◌||◌, Option, none, some, str_eq, ◌==◌,
  if◌then◌else◌,
}
use kobra_game.Base.Int.{ℤ, pos, ltb_ℤ}
use kobra_game.KobraErr.Types.{
  io_error, code_string, Scalar, str, int, unsupported, Value, scalar, object, Err, nil, KobraError,
  as_kobra,
}
use kobra_game.KobraErr.Build.{io_failure}

-- Whether `json.Marshal` encodes the value.
abbrev pub encodes : Scalar → Bool
encodes unsupported = false
encodes _ = true

abbrev pub encodes_all : Dict Scalar → Bool
encodes_all [] = true
encodes_all ((k, v) ∷ m) = encodes v && encodes_all m

abbrev pub encodes_value : Value → Bool
encodes_value (scalar v) = encodes v
encodes_value (object m) = encodes_all m

abbrev pub encodes_body : Dict Value → Bool
encodes_body [] = true
encodes_body ((k, v) ∷ m) = encodes_value v && encodes_body m

-- The keys that a caller's `Wire` never overwrites.
unfoldable pub is_reserved : String → Bool
is_reserved k =
    str_eq k "error" || str_eq k "message" || str_eq k "detail" || str_eq k "retry_after_seconds"

-- `for k, v := range e.Wire { ... out[k] = v }`
unfoldable pub add_wire : Dict Value → Dict Value → Dict Value
unfolding is_reserved
add_wire [] out = out
add_wire ((k, v) ∷ m) out = add_wire m (if is_reserved k then out else insert k v out)

unfoldable pub add_detail : Dict Scalar → Dict Value → Dict Value
add_detail [] out = out
add_detail (d ∷ ds) out = insert "detail" (object (d ∷ ds)) out

unfoldable pub add_retry : ℤ → Dict Value → Dict Value
add_retry n out = if ltb_ℤ (pos 0) n then insert "retry_after_seconds" (scalar (int n)) out else out

unfoldable pub base_document : KobraError → Dict Value
base_document e =
    insert "message" (scalar (str e.msg)) (insert "error" (scalar (str (code_string e.code))) [])

-- The map that `Envelope` marshals.
unfoldable pub document : KobraError → Dict Value
unfolding add_wire
document e = add_retry e.retry_after (add_wire e.wire (add_detail e.detail (base_document e)))

abbrev pub fallback_document : Dict Value
fallback_document =
    ("error", scalar (str (code_string io_error)))
    ∷ ("message", scalar (str "The launcher could not describe the problem."))
    ∷ []

unfoldable pub envelope : KobraError → Dict Value
unfolding document
envelope e = if encodes_body (document e) then document e else fallback_document

-- An error with no `*KobraError` in it becomes a generic io_error with that cause.
unfoldable pub or_generic : Option KobraError → Err → KobraError
unfolding io_failure
or_generic (some k) e = k
or_generic none e = io_failure "The launcher could not complete the request." [] e

-- `From` returns nil for a nil error.
unfoldable pub from : Err → Option KobraError
unfolding as_kobra or_generic
from nil = none
from e = some (or_generic (as_kobra e) e)

-- What `WriteEnvelope` sends: the status, the Retry-After header if any, and the body.
pub record Response : Type 0 where
  pub status : ℕ
  pub retry_after_header : Option ℤ
  pub body : Dict Value

unfoldable pub respond : KobraError → Response
unfolding envelope
respond ke =
    let sent : KobraError = record ke {
      fields = record ke.fields { http = if ke.http == 0 then 500 else ke.http };
    } in
    record {
      status = sent.http;
      retry_after_header = if ltb_ℤ (pos 0) sent.retry_after then some sent.retry_after else none;
      body = envelope sent;
    }

unfoldable pub write_envelope : Err → Response
unfolding from respond io_failure
write_envelope err = elim (from err) [
  | some ke ↦ respond ke
  | none ↦ respond (io_failure "The launcher could not complete the request." [] nil)
]
