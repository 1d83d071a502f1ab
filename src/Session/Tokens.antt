-- ===== src/Session/Tokens.antt =====
-- Bootstrap tokens of launcher/internal/session/session.go: single use, and one answer for every
-- token that cannot be used.
pub mod Frame
pub mod Once
use kobra_game.Base.{
  ℕ, String, Dict, [], ◌∷◌, List, ◌≡◌, ◌≢◌, refl, ◌∙◌, ap, sym, Bool, true, false, Option, none,
  some, lookup, insert, delete, length, str_eq, if◌then◌else◌, arith, Bool-cases, inl, inr, ◌⊎◌,
  Option-cases, lookup-insert, lookup-delete, eq_iff,
}
use kobra_game.Base.Int.{ℤ, pos, leb_ℤ, ltb_ℤ}
use kobra_game.Session.Types.{
  Time, Reason, used, expired, unknown, capacity, Session, BootstrapToken, Store, Event, emit,
  sub_time,
}
use kobra_game.Session.Table.{evict_dead, log_evictions, reject_bootstrap}
use kobra_game.Session.Table.Evict.{evict_dead-SameRest}
use kobra_game.Session.Table.Log.{emit-log, log_evictions-log, reject_bootstrap-log}
use kobra_game.Session.Operations.{
  Result, ok, err, new_bootstrap_token, bootstrap_rejected_error, establish, log_established,
  exchange_token, exchange_found, exchange, get_found, get_looked_up, get, reap_tokens, reap, clear,
  check_csrf, claim_writer, release_writer, lower_writer,
}
use kobra_game.Session.Quota.{allow_at, allow}
use kobra_game.Session.Runs.{
  Call, issues, exchanges, gets, reaps, clears, checks, claims, releases, allows, step, run,
}

-- The token is there, has not been used, and is younger than the TTL.
abbrev pub usable_token : Store → Time → Option BootstrapToken → Bool
usable_token s now none = false
usable_token s now (some b) =
    if b.used then false else if leb_ℤ s.bootstrap_ttl (sub_time now b.created) then false else true

abbrev pub usable : Store → Time → String → Bool
usable s now token = usable_token s now (lookup token s.tokens)

sessions-reject_bootstrap :
    (o : String) (r : Reason) (s : Store)
    → ((reject_bootstrap o r s).sessions ≡ s.sessions)
      × ((reject_bootstrap o r s).heap ≡ s.heap)
      × ((reject_bootstrap o r s).writer_id ≡ s.writer_id)
      × ((reject_bootstrap o r s).tokens ≡ s.tokens)
sessions-reject_bootstrap o r s =
    let e = reject_bootstrap-log o r s in
    (
      ap (λ (t : Store). t.sessions) e,
      ap (λ (t : Store). t.heap) e,
      ap (λ (t : Store). t.writer_id) e,
      ap (λ (t : Store). t.tokens) e,
    )

unusable_found :
    (token origin : String) (now : Time) (id csrf : Option String) (o : Option BootstrapToken)
    (s : Store)
    → usable_token s now o ≡ false
    → let r = exchange_found token origin now id csrf o s in
      (r.0 ≡ err bootstrap_rejected_error)
      × (r.1.sessions ≡ s.sessions)
      × (r.1.heap ≡ s.heap)
      × (r.1.writer_id ≡ s.writer_id)
unfolding exchange_found exchange_token
unusable_found token origin now id csrf none s h =
    ground (arith, sessions-reject_bootstrap origin unknown s)
unusable_found token origin now id csrf (some b) s h = ground (
  arith,
  sessions-reject_bootstrap origin used s,
  sessions-reject_bootstrap origin expired (record s { tokens = delete token s.tokens }),
)

-- An exchange of a token that is unknown, already used or past its TTL answers with one and the
-- same error, whichever of the three it is, and leaves the sessions and the writer role alone.
pub exchange_unusable :
    (token origin : String) (now : Time) (id csrf : Option String) (s : Store)
    → usable s now token ≡ false
    → let r = exchange token origin now id csrf s in
      (r.0 ≡ err bootstrap_rejected_error)
      × (r.1.sessions ≡ s.sessions)
      × (r.1.heap ≡ s.heap)
      × (r.1.writer_id ≡ s.writer_id)
unfolding exchange
exchange_unusable token origin now id csrf s h =
    unusable_found token origin now id csrf (lookup token s.tokens) s h

-- No session can be had for the token: it is absent or used.
abbrev pub spent : Option BootstrapToken → Bool
spent none = true
spent (some b) = b.used

abbrev pub IsSpent : String → Store → Type 0
IsSpent token s = spent (lookup token s.tokens) ≡ true

pub spent-unusable :
    (token : String) (now : Time) (s : Store) → IsSpent token s → usable s now token ≡ false
spent-unusable token now s h = ground arith
