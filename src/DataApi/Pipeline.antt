-- ===== src/DataApi/Pipeline.antt =====
-- `validate` of launcher/internal/dataapi/pipeline.go. A request is what the code reads of it: the
-- media type as mime.ParseMediaType gives it, the text after "Bearer ", trimmed, and the cookies,
-- `none` where there is none.
use Prim.Native.String.{◌++◌ as append}
use kobra_game.Base.{
  ℕ, String, List, Bool, true, false, not, Option, none, some, any, str_eq, ◌&&◌, ◌||◌,
  if◌then◌else◌,
}
use kobra_game.Base.Int.{ℤ, pos, ltb_ℤ}
use kobra_game.KobraErr.Types.{KobraError, nil}
use kobra_game.KobraErr.Build.{
  bad_origin_error, method_not_allowed_error, bad_content_type_error, length_required_error,
  too_large_error, no_session_error,
}
use kobra_game.Session.Types.{Time, Store}
use kobra_game.Session.Operations.{Result, ok, err, get, check_csrf}

pub record Request : Type 0 where
  pub host : String
  pub origin : String  -- "" where there is no Origin
  pub method : String
  pub content_type : String
  pub media_type : Option String
  pub content_length : ℤ
  pub session_cookie : Option String
  pub bearer : Option String
  pub csrf_cookie : Option String
  pub csrf_header : String

-- The launcher's authority and limit, and what the handler asks for.
pub record Gate : Type 0 where
  pub authority : String
  pub max_request_bytes : ℤ
  pub methods : String
  pub method_list : List String  -- the fields of `methods`
  pub body : Bool

pub data AuthMethod : Type 0 where
  auth_cookie auth_bearer : AuthMethod

-- 421 without a body, an error envelope, or the session.
pub data Verdict : Type 0 where
  misdirected : Verdict
  rejected : KobraError → Verdict
  passed : ℕ → Verdict

unfoldable pub check_host : Gate → Request → Bool
check_host g r = str_eq r.host g.authority

unfoldable pub check_origin : Gate → Request → Bool
check_origin g r = str_eq r.origin "" || str_eq r.origin (append "http://" g.authority)

unfoldable pub method_allowed : String → List String → Bool
method_allowed method allowed = any (λ m. str_eq m method) allowed

unfoldable pub is_write_method : String → Bool
is_write_method m = str_eq m "POST" || str_eq m "PUT" || str_eq m "PATCH" || str_eq m "DELETE"

unfoldable pub content_type_ok : Option String → Bool
content_type_ok none = false
content_type_ok (some mt) = str_eq mt "application/json"

abbrev pub Found : Type 0
Found = Option (ℕ × AuthMethod) × Store

abbrev pub by_bearer : Option ℕ × Store → Found
by_bearer (none, s) = (none, s)
by_bearer (some a, s) = (some (a, auth_bearer), s)

abbrev pub try_bearer : Option String → Time → Store → Found
try_bearer none t s = (none, s)
try_bearer (some id) t s = by_bearer (get id t s)

abbrev pub by_cookie : Option String → Time → Option ℕ × Store → Found
by_cookie bearer t (none, s) = try_bearer bearer t s
by_cookie bearer t (some a, s) = (some (a, auth_cookie), s)

abbrev pub try_cookie : Option String → Option String → Time → Time → Store → Found
try_cookie none bearer t t' s = try_bearer bearer t' s
try_cookie (some c) bearer t t' s = by_cookie bearer t' (get c t s)

-- `checkSession`; the times are those of its two calls of `Get`.
unfoldable pub check_session : Request → Time → Time → Store → Found
check_session r t t' s = try_cookie r.session_cookie r.bearer t t' s

abbrev pub or_empty : Option String → String
or_empty none = ""
or_empty (some v) = v

unfoldable pub check_request_csrf : Request → ℕ → Store → Result (Unit {0}) × Store
check_request_csrf r a s = check_csrf (or_empty r.csrf_cookie) r.csrf_header (some a) r.origin s

abbrev pub after_csrf : ℕ → Result (Unit {0}) × Store → Verdict × Store
after_csrf a (ok u, s) = (passed a, s)
after_csrf a (err e, s) = (rejected e, s)

abbrev pub guarded : Bool → Request → ℕ → Store → Verdict × Store
guarded true r a s = after_csrf a (check_request_csrf r a s)
guarded false r a s = (passed a, s)

abbrev pub needs_csrf : AuthMethod → Request → Bool
needs_csrf auth_cookie r = is_write_method r.method
needs_csrf auth_bearer r = false

abbrev pub after_session : Request → Found → Verdict × Store
after_session r (none, s) = (rejected (no_session_error nil), s)
after_session r (some (a, auth), s) = guarded (needs_csrf auth r) r a s

-- The checks before the session, in their order.
unfoldable pub preflight : Gate → Request → Option Verdict
unfolding check_host check_origin method_allowed content_type_ok
preflight g r =
    if not (check_host g r)
    then some misdirected
    else if not (check_origin g r)
    then some (rejected (bad_origin_error r.origin nil))
    else if not (method_allowed r.method g.method_list)
    then some (rejected (method_not_allowed_error g.methods))
    else if g.body && not (content_type_ok r.media_type)
    then some (rejected (bad_content_type_error r.content_type))
    else if g.body && ltb_ℤ r.content_length (pos 0)
    then some (rejected length_required_error)
    else if g.body && ltb_ℤ g.max_request_bytes r.content_length
    then some (rejected (too_large_error g.max_request_bytes))
    else none

abbrev pub after_preflight : Option Verdict → Request → Time → Time → Store → Verdict × Store
after_preflight (some v) r t t' s = (v, s)
after_preflight none r t t' s = after_session r (check_session r t t' s)

unfoldable pub validate_request : Gate → Request → Time → Time → Store → Verdict × Store
unfolding preflight check_session
validate_request g r t t' s = after_preflight (preflight g r) r t t' s
