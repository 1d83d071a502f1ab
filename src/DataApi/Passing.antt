-- ===== src/DataApi/Passing.antt =====
-- What a request has shown when `validate` of launcher/internal/dataapi/pipeline.go passes it.
use Prim.Native.String.{◌++◌ as append}
use kobra_game.Base.{
  Bool-cases, inl, inr, ℕ, ◌≡◌, ◌≢◌, ◌⊎◌, refl, ◌∙◌, ap, sym, lookup, String, Bool, true, false,
  Option, none, some, arith, eq_iff,
}
use kobra_game.Base.Int.{pos, ◌≤ℤ◌}
use kobra_game.Session.Types.{Time, Store}
use kobra_game.Session.Operations.{Result, ok, err, get}
use kobra_game.Session.Reaping.{get_exact, survivor}
use kobra_game.Session.Writer.{check_csrf_exact}
use kobra_game.DataApi.Pipeline.{
  Request, Gate, auth_cookie, auth_bearer, Verdict, passed, Found, check_session,
  check_request_csrf, after_csrf, guarded, after_session, preflight, after_preflight,
  validate_request, method_allowed, content_type_ok, is_write_method, or_empty, try_bearer,
  try_cookie, by_cookie, by_bearer,
}

-- Host, Origin, method and, for a request with a body, media type and length are as they must be.
pub record Admitted (g : Gate) (r : Request) : Type 0 where
  pub right_host : r.host ≡ g.authority
  pub right_origin : (r.origin ≡ "") ⊎ (r.origin ≡ append "http://" g.authority)
  pub right_method : method_allowed r.method g.method_list ≡ true
  pub right_type : (g.body ≡ false) ⊎ (r.media_type ≡ some "application/json")
  pub right_length :
      (g.body ≡ false) ⊎ ((pos 0 ≤ℤ r.content_length) × (r.content_length ≤ℤ g.max_request_bytes))

content_type_json : (o : Option String) → content_type_ok o ≡ true → o ≡ some "application/json"
unfolding content_type_ok
content_type_json none h = ground arith
content_type_json (some mt) h = ground (arith, eq_iff mt "application/json")

preflight-Admitted : (g : Gate) → (r : Request) → preflight g r ≡ none → Admitted g r
unfolding preflight
preflight-Admitted g r h = record {
  right_host = ground (arith, h, eq_iff r.host g.authority);
  right_origin =
      ground (arith, h, eq_iff r.origin "", eq_iff r.origin (append "http://" g.authority));
  right_method = ground (arith, h);
  right_type = elim (Bool-cases g.body) [
    | inl b ↦ inr (content_type_json r.media_type (ground (arith, h, b)))
    | inr b ↦ inl b
  ];
  right_length = ground (arith, h);
}

-- The double-submit tokens agree with the session's.
abbrev pub CsrfShown : Request → ℕ → Store → Type 0
CsrfShown r a s =
    (or_empty r.csrf_cookie ≢ "")
    × (r.csrf_header ≡ or_empty r.csrf_cookie)
    × ((s.heap a).csrf ≡ or_empty r.csrf_cookie)

-- The session is that of the cookie, with the CSRF tokens for a write, or that of the bearer id.
abbrev pub SessionShown : Request → ℕ → Found → Type 0
SessionShown r a (none, s) = ⊥
SessionShown r a (some (b, auth_cookie), s) =
    (b ≡ a) × ((is_write_method r.method ≡ false) ⊎ CsrfShown r b s)
SessionShown r a (some (b, auth_bearer), s) = b ≡ a

after_csrf-passed :
    (a b : ℕ)
    → (p : Result (Unit {0}) × Store) → (after_csrf b p).0 ≡ passed a
    → (b ≡ a) × (p.0 ≡ ok tt)
after_csrf-passed a b (ok u, s) h = (ground (arith, h), refl)
after_csrf-passed a b (err x, s) h = ground (arith, h)

guarded-passed :
    (w : Bool)
    → (r : Request) → (a b : ℕ) → (s : Store) → (guarded w r b s).0 ≡ passed a
    → (b ≡ a) × (w ≡ true → (check_request_csrf r b s).0 ≡ ok tt)
guarded-passed true r a b s h =
    let (same, accepted) = after_csrf-passed a b (check_request_csrf r b s) h in
    (same, λ e. accepted)
guarded-passed false r a b s h = (ground (arith, h), λ e. ground (arith, e))

csrf-Shown :
    (r : Request) → (b : ℕ) → (s : Store) → (check_request_csrf r b s).0 ≡ ok tt → CsrfShown r b s
unfolding check_request_csrf
csrf-Shown r b s h =
    let (c, same, ne, eq, cs) =
      (check_csrf_exact (or_empty r.csrf_cookie) r.csrf_header (some b) r.origin s).0 h in
    let same' : b ≡ c = ground (arith, same) in rw same' (ne, eq, cs)

after_session-Shown :
    (r : Request) → (a : ℕ) → (f : Found) → (after_session r f).0 ≡ passed a → SessionShown r a f
after_session-Shown r a (none, s) h = ground (arith, h)
after_session-Shown r a (some (b, auth_cookie), s) h =
    let (same, write) = guarded-passed (is_write_method r.method) r a b s h in
    (
      same,
      elim (Bool-cases (is_write_method r.method)) [
        | inl w ↦ inr (csrf-Shown r b s (write w))
        | inr w ↦ inl w
      ],
    )
after_session-Shown r a (some (b, auth_bearer), s) h = (guarded-passed false r a b s h).0

preflight-not_passed : (g : Gate) → (r : Request) → (a : ℕ) → preflight g r ≢ some (passed a)
unfolding preflight
preflight-not_passed g r a e = ground (arith, e)

after_preflight-Passed :
    (g : Gate)
    → (r : Request) → (a : ℕ) → (o : Option Verdict) → (t t' : Time) → (s : Store)
    → preflight g r ≡ o
    → (after_preflight o r t t' s).0 ≡ passed a
    → Admitted g r × SessionShown r a (check_session r t t' s)
after_preflight-Passed g r a none t t' s e h =
    (preflight-Admitted g r e, after_session-Shown r a (check_session r t t' s) h)
after_preflight-Passed g r a (some v) t t' s e h =
    absurd (preflight-not_passed g r a (e ∙ ap some h))

-- A request that `validate` passes names the launcher as its host, has no Origin or the launcher's,
-- an allowed method, and with a body the media type application/json and a length from 0 to the
-- limit. Its session is the one that `checkSession` finds. Where that is by the cookie and the
-- method writes, the CSRF cookie is not empty, and the CSRF header and the session's token equal it.
pub validate_passes :
    (g : Gate)
    → (r : Request) → (t t' : Time) → (s : Store) → (a : ℕ)
    → (validate_request g r t t' s).0 ≡ passed a
    → Admitted g r × SessionShown r a (check_session r t t' s)
unfolding validate_request
validate_passes g r t t' s a h = after_preflight-Passed g r a (preflight g r) t t' s refl h

by_bearer-no_cookie : (p : Option ℕ × Store) → (a : ℕ) → (by_bearer p).0 ≢ some (a, auth_cookie)
by_bearer-no_cookie (none, s) a h = ground (arith, h)
by_bearer-no_cookie (some b, s) a h = ground (arith, h)

try_bearer-no_cookie :
    (o : Option String)
    → (t : Time) → (s : Store) → (a : ℕ) → (try_bearer o t s).0 ≢ some (a, auth_cookie)
try_bearer-no_cookie none t s a h = ground (arith, h)
try_bearer-no_cookie (some id) t s a h = by_bearer-no_cookie (get id t s) a h

by_cookie-found :
    (bearer : Option String)
    → (t : Time) → (p : Option ℕ × Store) → (a : ℕ)
    → (by_cookie bearer t p).0 ≡ some (a, auth_cookie)
    → p.0 ≡ some a
by_cookie-found bearer t (none, s) a h = absurd (try_bearer-no_cookie bearer t s a h)
by_cookie-found bearer t (some b, s) a h = ground (arith, h)

try_cookie-live :
    (o bearer : Option String)
    → (t t' : Time) → (s : Store) → (a : ℕ) → (try_cookie o bearer t t' s).0 ≡ some (a, auth_cookie)
    → (c : String) × (o ≡ some c) × (survivor s t (lookup c s.sessions) ≡ some a)
try_cookie-live none bearer t t' s a h = absurd (try_bearer-no_cookie bearer t' s a h)
try_cookie-live (some c) bearer t t' s a h =
    (c, refl, sym (get_exact c t s c).0 ∙ by_cookie-found bearer t' (get c t s) a h)

-- A session that `checkSession` finds by the cookie is the cookie's entry in the table, and it has
-- neither reached its TTL nor its inactivity timeout.
pub check_session_live :
    (r : Request)
    → (t t' : Time) → (s : Store) → (a : ℕ) → (check_session r t t' s).0 ≡ some (a, auth_cookie)
    → (c : String) × (r.session_cookie ≡ some c) × (survivor s t (lookup c s.sessions) ≡ some a)
unfolding check_session
check_session_live r t t' s a h = try_cookie-live r.session_cookie r.bearer t t' s a h
