-- ===== src/Session/Tokens/Frame.antt =====
-- What the calls of launcher/internal/session/session.go do to the table of bootstrap tokens.
use kobra_game.Base.{
  ℕ, String, Dict, [], ◌∷◌, List, ◌≡◌, refl, ◌∙◌, ap, Bool, true, false, Option, none, some, lookup,
  insert, delete, length, str_eq, if◌then◌else◌, arith, Bool-cases, inl, inr, Option-cases,
  lookup-delete, ◌&&◌, ◌||◌,
}
use kobra_game.Base.Int.{ℤ, pos, leb_ℤ}
use kobra_game.KobraErr.Types.{KobraError}
use kobra_game.Session.Types.{
  Duration, default_writes_per_minute, default_bytes_per_minute, Time, Reason, used, expired,
  unknown, capacity, Session, BootstrapToken, Store, Event, emit, sub_time, csrf_reject,
}
use kobra_game.Session.Table.{Eviction, evict_dead, log_evictions, reject_bootstrap, dead_reason}
use kobra_game.Session.Table.Evict.{evict_dead-SameRest, delete_session-SameRest}
use kobra_game.Session.Table.Log.{emit-log, log_evictions-log, reject_bootstrap-log}
use kobra_game.Session.Operations.{
  Result, ok, err, establish, log_established, exchange_token, exchange_found, exchange, get_found,
  get_looked_up, get, reap_tokens, reap, check_csrf, claim_writer, release_writer, lower_writer,
}
use kobra_game.Session.Quota.{
  at_least_zero, limit_or, allow_at, charge, roll_window, charge, roll_window, allow,
}

abbrev tokens_of : Store → Dict BootstrapToken
tokens_of s = s.tokens

pub tokens-emit : (e : Event) (s : Store) → (emit e s).tokens ≡ s.tokens
tokens-emit e s = ap tokens_of (emit-log e s)

pub tokens-log_evictions : (es : List Eviction) (s : Store) → (log_evictions es s).tokens ≡ s.tokens
tokens-log_evictions es s = ap tokens_of (log_evictions-log es s)

pub tokens-reject_bootstrap :
    (o : String) (r : Reason) (s : Store) → (reject_bootstrap o r s).tokens ≡ s.tokens
tokens-reject_bootstrap o r s = ap tokens_of (reject_bootstrap-log o r s)

pub tokens-log_established :
    (r : Result ℕ) (o : String) (s : Store) → (log_established r o s).tokens ≡ s.tokens
unfolding log_established
tokens-log_established (ok a) o s = tokens-emit _ s
tokens-log_established (err e) o s = refl

pub tokens-get : (cookie : String) (now : Time) (s : Store) → (get cookie now s).1.tokens ≡ s.tokens
unfolding get
tokens-get cookie now s = looked_up (lookup cookie s.sessions)
  where
    found : (a : ℕ) (r : Option Reason) → (get_found cookie now a r s).1.tokens ≡ s.tokens
    found a none = refl
    found a (some r) = tokens-emit _ _ ∙ (delete_session-SameRest cookie s).tokens

    looked_up : (o : Option ℕ) → (get_looked_up cookie now o s).1.tokens ≡ s.tokens
    looked_up none = refl
    looked_up (some a) = found a (dead_reason s now (s.heap a))

pub tokens-check_csrf :
    (cookie header : String) (p : Option ℕ) (origin : String) (s : Store)
    → (check_csrf cookie header p origin s).1.tokens ≡ s.tokens
unfolding check_csrf
tokens-check_csrf cookie header p origin s = ground (arith, tokens-emit (csrf_reject origin) s)

pub tokens-claim_writer : (p : Option ℕ) (s : Store) → (claim_writer p s).1.tokens ≡ s.tokens
unfolding claim_writer
tokens-claim_writer none s = refl
tokens-claim_writer (some a) s = ground arith

pub tokens-release_writer : (id : String) (s : Store) → (release_writer id s).tokens ≡ s.tokens
unfolding release_writer
tokens-release_writer id s = ground (arith, lowered (lookup id s.sessions))
  where
    lowered : (o : Option ℕ) → (lower_writer o (record s { writer_id = "" })).tokens ≡ s.tokens
    lowered none = refl
    lowered (some a) = refl

tokens-charge :
    (now : Time) (a : ℕ) (x : Session) (n w b : ℤ) (s : Store)
    → (charge now a x n w b s).1.tokens ≡ s.tokens
unfolding charge
tokens-charge now a x n w b s = ground arith

pub tokens-allow :
    (now : Time) (p : Option ℕ) (n w b : ℤ) (s : Store) → (allow now p n w b s).1.tokens ≡ s.tokens
unfolding allow allow_at
tokens-allow now none n w b s = refl
tokens-allow now (some a) n w b s =
    tokens-charge now a (roll_window now (s.heap a)) (at_least_zero n)
      (limit_or w default_writes_per_minute) (limit_or b default_bytes_per_minute) s

-- An exchange leaves the tokens, drops the one that it names, or marks it used; it marks it used
-- whenever it answers with a session.
pub data Exchanged (token : String) (s : Store) (r : Result ℕ × Store) : Type 0 where
  refused : (e : KobraError) → r.0 ≡ err e → r.1.tokens ≡ s.tokens → Exchanged token s r
  dropped :
      (e : KobraError) → r.0 ≡ err e → r.1.tokens ≡ delete token s.tokens → Exchanged token s r
  consumed :
      (a : ℕ) (b : BootstrapToken)
      → b.used ≡ true
      → r.0 ≡ ok a
      → r.1.tokens ≡ insert token b s.tokens
      → Exchanged token s r

establish-Exchanged :
    (token origin : String) (now : Time) (b : BootstrapToken) (id csrf : Option String)
    (s s1 : Store) (es : List Eviction)
    → s1.tokens ≡ s.tokens
    → let r = establish token origin now b id csrf s1 in
      Exchanged token s (r.0, log_established r.0 origin (log_evictions es r.1))
unfolding establish
establish-Exchanged token origin now b none csrf s s1 es h =
    refused _ refl (tokens-log_established _ origin _ ∙ tokens-log_evictions es _ ∙ h)
establish-Exchanged token origin now b (some id) none s s1 es h =
    refused _ refl (tokens-log_established _ origin _ ∙ tokens-log_evictions es _ ∙ h)
establish-Exchanged token origin now b (some id) (some csrf) s s1 es h =
    consumed s1.next (record b { used = true }) refl refl
      (tokens-log_established _ origin _
        ∙ tokens-log_evictions es _
        ∙ ap (insert token (record b { used = true })) h)

exchange_token-Exchanged :
    (token origin : String) (now : Time) (b : BootstrapToken) (id csrf : Option String) (s : Store)
    → Exchanged token s (exchange_token token origin now b id csrf s)
unfolding exchange_token
exchange_token-Exchanged token origin now b id csrf s =
    let (s1, es) = evict_dead now s in
    let same = (evict_dead-SameRest now s).tokens in
    elim (Bool-cases b.used) [
      | inl e ↦ rw e (refused _ refl (tokens-reject_bootstrap origin used s))
      | inr e ↦ rw e (elim (Bool-cases (leb_ℤ s.bootstrap_ttl (sub_time now b.created))) [
        | inl e' ↦ rw e' (dropped _ refl (tokens-reject_bootstrap origin expired _))
        | inr e' ↦ rw e' (elim (Bool-cases (leb_ℤ s1.max_sessions (pos (length s1.sessions)))) [
          | inl full ↦ rw full (
              refused _ refl
                (tokens-reject_bootstrap origin capacity _ ∙ tokens-log_evictions es s1 ∙ same))
          | inr room ↦ rw room (establish-Exchanged token origin now b id csrf s s1 es same)
        ])
      ])
    ]

pub exchange-Exchanged :
    (token origin : String) (now : Time) (id csrf : Option String) (s : Store)
    → Exchanged token s (exchange token origin now id csrf s)
unfolding exchange exchange_found
exchange-Exchanged token origin now id csrf s = elim (Option-cases (lookup token s.tokens)) [
  | inl e ↦
      rw (e, exchange, exchange_found) (refused _ refl (tokens-reject_bootstrap origin unknown s))
  | inr (b, e) ↦
      rw (e, exchange, exchange_found) (exchange_token-Exchanged token origin now b id csrf s)
]

-- An entry of the token is past its TTL.
unfoldable pub old_in : Duration → Time → String → Dict BootstrapToken → Bool
old_in ttl now t [] = false
old_in ttl now t ((k, b) ∷ es) =
    (str_eq k t && leb_ℤ ttl (sub_time now b.created)) || old_in ttl now t es

lookup-reap_tokens :
    (ttl : Duration) (now : Time) (es ts : Dict BootstrapToken) (t : String)
    → lookup t (reap_tokens ttl now es ts) ≡ (if old_in ttl now t es then none else lookup t ts)
unfolding reap_tokens old_in
lookup-reap_tokens ttl now [] ts t = refl
lookup-reap_tokens ttl now ((k, b) ∷ es) ts t = ground (
  arith,
  lookup-reap_tokens ttl now es ts t,
  lookup-reap_tokens ttl now es (delete k ts) t,
  lookup-delete k t ts,
)

-- The reaper drops the tokens that are past their TTL and changes none.
pub reap-lookup_tokens :
    (now : Time) (s : Store) (t : String)
    → lookup t (reap now s).tokens
      ≡ (if old_in s.bootstrap_ttl now t s.tokens then none else lookup t s.tokens)
unfolding reap
reap-lookup_tokens now s t =
    let (s1, es) = evict_dead now s in
    let same = evict_dead-SameRest now s in
    rw tokens-log_evictions (
      rw (same.tokens, same.bootstrap_ttl)
        (lookup-reap_tokens s.bootstrap_ttl now s.tokens s.tokens t))
