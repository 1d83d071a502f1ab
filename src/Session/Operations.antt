-- ===== src/Session/Operations.antt =====
-- The exported methods of the store of launcher/internal/session/session.go. Each takes the time
-- that its one call of `s.now()` returns, and what its calls of `randomSecret` return (`none` when
-- crypto/rand fails). A pointer to a session is an `Option` of an address, `none` for nil.
use kobra_game.Base.{
  ℕ, suc, String, Dict, [], ◌∷◌, Bool, true, false, Option, none, some, not, lookup, insert, delete,
  length, str_eq, ◌&&◌, if◌then◌else◌,
}
use kobra_game.Base.Int.{pos, leb_ℤ}
use kobra_game.KobraErr.Types.{plain, KobraError}
use kobra_game.KobraErr.Build.{
  no_session_error, rate_limited_error, io_failure, bad_csrf_error, writer_held_error,
}
use kobra_game.Session.Types.{
  Time, Duration, Reason, expired, unknown, used, capacity, Session, BootstrapToken,
  bootstrap_issued, established, session_expired, csrf_reject, Store, update, sub_time, emit,
}
use kobra_game.Session.Table.{
  short_id, dead_reason, delete_session, evict_dead, log_evictions, reject_bootstrap,
}

pub data Result {ℓ} (A : Type ℓ) : Type ℓ where
  ok : A → Result A
  err : KobraError → Result A

-- `NewBootstrapToken`
unfoldable pub new_bootstrap_token : Time → Option String → Store → Option String × Store
unfolding emit
new_bootstrap_token now none s = (none, s)
new_bootstrap_token now (some token) s =
    let issued : BootstrapToken = record { created = now; used = false } in
    (some token, emit bootstrap_issued (record s { tokens = insert token issued s.tokens }))

abbrev pub bootstrap_rejected_error : KobraError
bootstrap_rejected_error = no_session_error (plain "bootstrap token is not usable")

abbrev create_failed : KobraError
create_failed = io_failure "The launcher could not create a session." [] (plain "crypto/rand")

-- The end of `Exchange`, from its first `randomSecret` on.
unfoldable pub establish :
    String
    → String
    → Time
    → BootstrapToken
    → Option String
    → Option String
    → Store
    → Result ℕ × Store
establish token origin now b none csrf s = (err create_failed, s)
establish token origin now b (some id) none s = (err create_failed, s)
establish token origin now b (some id) (some csrf) s =
    let sess : Session = record {
      id = id;
      csrf = csrf;
      created = now;
      last_active = now;
      writer = false;
      window_start = now;
      writes = pos 0;
      bytes = pos 0;
    } in
    (
      ok s.next,
      record s {
        heap = update s.heap s.next sess;
        next = suc s.next;
        tokens = insert token (record b { used = true }) s.tokens;
        sessions = insert id s.next s.sessions;
      },
    )

-- The event of a new session; a refusal has none.
unfoldable pub log_established : Result ℕ → String → Store → Store
unfolding emit
log_established (ok a) origin s = emit (established (short_id (s.heap a).id) origin) s
log_established (err e) origin s = s

-- `Exchange` for a token that is in the table.
unfoldable pub exchange_token :
    String
    → String
    → Time
    → BootstrapToken
    → Option String
    → Option String
    → Store
    → Result ℕ × Store
unfolding evict_dead log_evictions reject_bootstrap establish log_established
exchange_token token origin now b id csrf s =
    if b.used
    then (err bootstrap_rejected_error, reject_bootstrap origin used s)
    else if leb_ℤ s.bootstrap_ttl (sub_time now b.created)
    then (
      err bootstrap_rejected_error,
      reject_bootstrap origin expired (record s { tokens = delete token s.tokens }),
    )
    else let (s1, evicted) = evict_dead now s in
      if leb_ℤ s1.max_sessions (pos (length s1.sessions))
      then (
        err (rate_limited_error "sessions" (pos 1)),
        reject_bootstrap origin capacity (log_evictions evicted s1),
      )
      else let (r, s2) = establish token origin now b id csrf s1 in
        (r, log_established r origin (log_evictions evicted s2))

unfoldable pub exchange_found :
    String
    → String
    → Time
    → Option String
    → Option String
    → Option BootstrapToken
    → Store
    → Result ℕ × Store
unfolding exchange_token
exchange_found token origin now id csrf none s =
    (err bootstrap_rejected_error, reject_bootstrap origin unknown s)
exchange_found token origin now id csrf (some b) s = exchange_token token origin now b id csrf s

unfoldable pub exchange :
    String → String → Time → Option String → Option String → Store → Result ℕ × Store
unfolding exchange_found
exchange token origin now id csrf s =
    exchange_found token origin now id csrf (lookup token s.tokens) s

-- `Get`, once the cookie's session is found.
unfoldable pub get_found : String → Time → ℕ → Option Reason → Store → Option ℕ × Store
unfolding delete_session emit
get_found cookie now a (some reason) s =
    (none, emit (session_expired (short_id (s.heap a).id) reason) (delete_session cookie s))
get_found cookie now a none s =
    (some a, record s { heap = update s.heap a (record (s.heap a) { last_active = now }) })

unfoldable pub get_looked_up : String → Time → Option ℕ → Store → Option ℕ × Store
unfolding get_found dead_reason
get_looked_up cookie now none s = (none, s)
get_looked_up cookie now (some a) s = get_found cookie now a (dead_reason s now (s.heap a)) s

unfoldable pub get : String → Time → Store → Option ℕ × Store
unfolding get_looked_up
get cookie now s = get_looked_up cookie now (lookup cookie s.sessions) s

-- The loop of `Reap` over the tokens, on the entries that are left to visit.
unfoldable pub reap_tokens :
    Duration → Time → Dict BootstrapToken → Dict BootstrapToken → Dict BootstrapToken
reap_tokens ttl now [] tokens = tokens
reap_tokens ttl now ((token, b) ∷ entries) tokens =
    reap_tokens ttl now entries
      (if leb_ℤ ttl (sub_time now b.created) then delete token tokens else tokens)

unfoldable pub reap : Time → Store → Store
unfolding evict_dead log_evictions reap_tokens
reap now s =
    let (s1, evicted) = evict_dead now s in
    log_evictions evicted
      (record s1 { tokens = reap_tokens s1.bootstrap_ttl now s1.tokens s1.tokens })

abbrev is_live : Option Reason → Bool
is_live none = true
is_live (some _) = false

-- `Len`
unfoldable pub live_count : Time → Dict ℕ → Store → ℕ
live_count now [] s = 0
live_count now ((id, a) ∷ entries) s =
    if is_live (dead_reason s now (s.heap a))
    then suc (live_count now entries s)
    else live_count now entries s

unfoldable pub clear : Store → Store
clear s = record s { sessions = []; tokens = []; writer_id = "" }

-- `CheckCSRF`
unfoldable pub csrf_ok : String → String → Option ℕ → Store → Bool
csrf_ok cookie header none s = false
csrf_ok cookie header (some a) s =
    not (str_eq cookie "")
    && not (str_eq header "")
    && str_eq cookie header
    && str_eq cookie (s.heap a).csrf

unfoldable pub check_csrf : String → String → Option ℕ → String → Store → Result (Unit {0}) × Store
unfolding csrf_ok emit
check_csrf cookie header sess origin s =
    if csrf_ok cookie header sess s
    then (ok tt, s)
    else (err (bad_csrf_error (plain "csrf token check failed")), emit (csrf_reject origin) s)

unfoldable pub claim_writer : Option ℕ → Store → Result (Unit {0}) × Store
claim_writer none s = (err (no_session_error (plain "no session")), s)
claim_writer (some a) s =
    let sess = s.heap a in
    let granted = update s.heap a (record sess { writer = true }) in
    if str_eq s.writer_id ""
    then (ok tt, record s { writer_id = sess.id; heap = granted })
    else if str_eq s.writer_id sess.id
    then (ok tt, record s { heap = granted })
    else (err (writer_held_error s.writer_id), s)

unfoldable pub writer : Store → String × Bool
writer s = if str_eq s.writer_id "" then ("", false) else (s.writer_id, true)

abbrev pub lower_writer : Option ℕ → Store → Store
lower_writer none s = s
lower_writer (some a) s = record s { heap = update s.heap a (record (s.heap a) { writer = false }) }

unfoldable pub release_writer : String → Store → Store
release_writer id s =
    if str_eq id ""
    then s
    else if not (str_eq s.writer_id id)
    then s
    else lower_writer (lookup id s.sessions) (record s { writer_id = "" })
