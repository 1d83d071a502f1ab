-- ===== src/KobraErr/Laws.antt =====
-- What a client reads in the body and the headers of an error response.
use mathlib.Core.Option
use kobra_game.Base.{
  String, Dict, Distinct, [], ◌∷◌, lookup, insert, lookup-insert, ◌≡◌, refl, true, Option, none,
  some, arith, str_eq, eq_iff, Bool-cases, ◌==◌, inl, inr, if◌then◌else◌,
}
use kobra_game.Base.Int.{ℤ, pos, ltb_ℤ}
use kobra_game.KobraErr.Types.{
  code_string, Fields, Scalar, str, int, Value, scalar, object, Err, nil, plain, wrap, join, kobra,
  KobraError, as_kobra,
}
use kobra_game.KobraErr.Build.{io_failure}
use kobra_game.KobraErr.Envelope.{
  encodes_body, is_reserved, or_generic, add_wire, add_detail, add_retry, base_document, document,
  envelope, from, respond, write_envelope, Response,
}

abbrev or_else {ℓ} : {A : Type ℓ} → Option A → Option A → Option A
or_else (some a) o = some a
or_else none o = o

lookup-add_wire :
    (k : String) (m out : Dict Value)
    → Distinct m
    → lookup k (add_wire m out)
      ≡ (if is_reserved k then lookup k out else or_else (lookup k m) (lookup k out))
unfolding add_wire lookup
lookup-add_wire k [] out h = ground arith
lookup-add_wire k ((j, v) ∷ m) out h = elim (Bool-cases (is_reserved j)) [
  | inl r ↦ rw r (ground (arith, lookup-add_wire k m out h.1, eq_iff j k))
  | inr r ↦ rw r (
      ground (arith, lookup-add_wire k m (insert j v out) h.1, lookup-insert j k v out, eq_iff j k))
]

unfoldable pub detail_field : Dict Scalar → Option Value
detail_field [] = none
detail_field (d ∷ ds) = some (object (d ∷ ds))

-- The field that the wire contract puts under a key.
abbrev pub field_of : KobraError → String → Option Value
field_of e k =
    if str_eq k "error"
    then some (scalar (str (code_string e.code)))
    else if str_eq k "message"
    then some (scalar (str e.msg))
    else if str_eq k "detail"
    then detail_field e.detail
    else if str_eq k "retry_after_seconds"
    then (if ltb_ℤ (pos 0) e.retry_after then some (scalar (int e.retry_after)) else none)
    else lookup k e.wire

lookup-base_document :
    (e : KobraError) (k : String)
    → lookup k (base_document e) ≡ (
        if str_eq k "error"
        then some (scalar (str (code_string e.code)))
        else if str_eq k "message"
        then some (scalar (str e.msg))
        else none)
unfolding base_document lookup insert
lookup-base_document e k =
    ground (arith, eq_iff k "error", eq_iff k "message", eq_iff "error" k, eq_iff "message" k)

lookup-add_detail :
    (d : Dict Scalar) (k : String) (out : Dict Value)
    → lookup k (add_detail d out)
      ≡ (if str_eq k "detail" then or_else (detail_field d) (lookup k out) else lookup k out)
unfolding add_detail detail_field
lookup-add_detail [] k out = ground arith
lookup-add_detail (c ∷ ds) k out =
    ground
      (arith, lookup-insert "detail" k (object (c ∷ ds)) out, eq_iff "detail" k, eq_iff k "detail")

lookup-add_retry :
    (n : ℤ) (k : String) (out : Dict Value)
    → lookup k (add_retry n out) ≡ (
        if str_eq k "retry_after_seconds"
        then (if ltb_ℤ (pos 0) n then some (scalar (int n)) else lookup k out)
        else lookup k out)
unfolding add_retry
lookup-add_retry n k out = ground (
  arith,
  lookup-insert "retry_after_seconds" k (scalar (int n)) out,
  eq_iff "retry_after_seconds" k,
  eq_iff k "retry_after_seconds",
)

lookup-document :
    (e : KobraError) (k : String) → Distinct e.wire → lookup k (document e) ≡ field_of e k
unfolding document is_reserved
lookup-document e k h = ground (
  arith,
  lookup-add_retry e.retry_after k (add_wire e.wire (add_detail e.detail (base_document e))),
  lookup-add_wire k e.wire (add_detail e.detail (base_document e)) h,
  lookup-add_detail e.detail k (base_document e),
  lookup-base_document e k,
  eq_iff k "error",
  eq_iff k "message",
  eq_iff k "detail",
  eq_iff k "retry_after_seconds",
  eq_iff "error" "message",
  eq_iff "error" "detail",
  eq_iff "error" "retry_after_seconds",
  eq_iff "message" "detail",
  eq_iff "message" "retry_after_seconds",
  eq_iff "detail" "retry_after_seconds",
)

-- Every key of an envelope's document has the value of the field that owns it: `error`, `message`,
-- `detail` and `retry_after_seconds` those of the error, whatever `Wire` says, and every other key
-- its entry in `Wire`. The error's `Wire` has no key twice, and its values can be marshalled.
pub lookup-envelope :
    (e : KobraError) (k : String)
    → Distinct e.wire
    → encodes_body (document e) ≡ true
    → lookup k (envelope e) ≡ field_of e k
unfolding envelope
lookup-envelope e k h enc = rw enc (lookup-document e k h)

-- The client-visible fields that `From` finds in an error.
abbrev pub visible : Err → Option Fields
visible e = Option.map (λ (k : KobraError). k.fields) (as_kobra e)

abbrev answer : Option Fields → Response
answer none = respond (io_failure "The launcher could not complete the request." [] nil)
answer (some f) = respond (record { fields = f; cause = nil })

respond-or_generic :
    (o : Option KobraError) (e : Err)
    → respond (or_generic o e) ≡ answer (Option.map (λ (k : KobraError). k.fields) o)
unfolding respond document base_document or_generic
respond-or_generic none e = refl
respond-or_generic (some k) e = refl

write_envelope-answer : (e : Err) → write_envelope e ≡ answer (visible e)
unfolding write_envelope from
write_envelope-answer nil = refl
write_envelope-answer (plain s) = respond-or_generic (as_kobra (plain s)) (plain s)
write_envelope-answer (wrap s e) = respond-or_generic (as_kobra (wrap s e)) (wrap s e)
write_envelope-answer (join a b) = respond-or_generic (as_kobra (join a b)) (join a b)
write_envelope-answer (kobra f c) = respond-or_generic (as_kobra (kobra f c)) (kobra f c)

-- Two errors in which `errors.As` finds the same client-visible fields, or none in both, are
-- answered by the same response: status, Retry-After header and body. No cause, wrapping text or
-- text of an unrecognised error reaches a client.
pub write_envelope_hides : (a b : Err) → visible a ≡ visible b → write_envelope a ≡ write_envelope b
write_envelope_hides a b h = rw (write_envelope-answer a, write_envelope-answer b, h)

-- The error as `WriteEnvelope` leaves it.
abbrev respond_as : KobraError → KobraError
respond_as ke = record ke {
  fields = record ke.fields { http = if ke.http == 0 then 500 else ke.http };
}

-- The Retry-After header of a response and the `retry_after_seconds` of its body say the same: both
-- are there, with one number, or neither is. The error's `Wire` has no key twice, and its values
-- can be marshalled.
pub respond_retry_after :
    (e : KobraError)
    → Distinct e.wire
    → encodes_body (document e) ≡ true
    → lookup "retry_after_seconds" (respond e).body
      ≡ Option.map (λ n. scalar (int n)) (respond e).retry_after_header
unfolding respond document base_document
respond_retry_after e h enc =
    rw (lookup-envelope (respond_as e) "retry_after_seconds" h enc) (ground arith)
