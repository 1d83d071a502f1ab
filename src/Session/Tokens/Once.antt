-- ===== src/Session/Tokens/Once.antt =====
-- A bootstrap token of launcher/internal/session/session.go makes at most one session.
use kobra_game.Base.{
  ℕ, String, [], ◌∷◌, List, ◌≡◌, ◌≢◌, refl, Option, none, some, Bool-cases, str_eq, inl, inr, ap,
  lookup, arith, lookup-insert, lookup-delete, eq_iff,
}
use kobra_game.Session.Types.{Time, Store}
use kobra_game.Session.Tokens.{IsSpent, spent-unusable, exchange_unusable}
use kobra_game.Session.Tokens.Frame.{
  tokens-emit, tokens-get, tokens-check_csrf, tokens-claim_writer, tokens-release_writer,
  tokens-allow, Exchanged, refused, dropped, consumed, exchange-Exchanged, reap-lookup_tokens,
}
use kobra_game.Session.Operations.{
  Result, ok, err, new_bootstrap_token, exchange, bootstrap_rejected_error, clear,
}
use kobra_game.Session.Runs.{
  Call, issues, exchanges, gets, reaps, clears, checks, claims, releases, allows, step, run,
}

-- crypto/rand does not return the token again.
abbrev pub NotIssued : String → Call → Type 0
NotIssued t (issues now token) = token ≢ some t
NotIssued t _ = Unit

abbrev pub NeverIssued : String → List Call → Type 0
NeverIssued t [] = Unit
NeverIssued t (c ∷ cs) = NotIssued t c × NeverIssued t cs

module _ (t : String) where
  Exchanged-IsSpent :
      {token : String} {s : Store} {r : Result ℕ × Store}
      → Exchanged token s r
      → IsSpent t s
      → IsSpent t r.1
  Exchanged-IsSpent (refused e p q) h = rw q h
  Exchanged-IsSpent {token} {s} (dropped e p q) h =
      rw (q, lookup-delete token t s.tokens) (ground arith)
  Exchanged-IsSpent {token} {s} (consumed a b u p q) h =
      rw (q, lookup-insert token t b s.tokens) (ground arith)

  step-IsSpent : (c : Call) (s : Store) → NotIssued t c → IsSpent t s → IsSpent t (step c s)
  unfolding step
  step-IsSpent (issues now none) s n h = unfold new_bootstrap_token in h
  step-IsSpent (issues now (some u)) s n h =
      unfold new_bootstrap_token in
      rw (tokens-emit, lookup-insert)
        (elim (Bool-cases (str_eq u t)) [
          | inl e ↦ absurd (n (ap some ((eq_iff u t).0 e)))
          | inr e ↦ rw e h
        ])
  step-IsSpent (exchanges token origin now id csrf) s n h =
      Exchanged-IsSpent (exchange-Exchanged token origin now id csrf s) h
  step-IsSpent (gets cookie now) s n h = rw tokens-get h
  step-IsSpent (reaps now) s n h = rw (reap-lookup_tokens now s t) (ground arith)
  step-IsSpent clears s n h = unfold clear lookup in refl
  step-IsSpent (checks cookie header p origin) s n h = rw tokens-check_csrf h
  step-IsSpent (claims p) s n h = rw tokens-claim_writer h
  step-IsSpent (releases id) s n h = rw tokens-release_writer h
  step-IsSpent (allows now p n' w b) s n h = rw tokens-allow h

  run-IsSpent : (cs : List Call) (s : Store) → NeverIssued t cs → IsSpent t s → IsSpent t (run cs s)
  unfolding run
  run-IsSpent [] s n h = h
  run-IsSpent (c ∷ cs) s n h = run-IsSpent cs (step c s) n.1 (step-IsSpent c s n.0 h)

consumed-IsSpent :
    {token : String} {s : Store} {r : Result ℕ × Store} (a : ℕ)
    → Exchanged token s r
    → r.0 ≡ ok a
    → IsSpent token r.1
consumed-IsSpent a (refused e p q) h = cc
consumed-IsSpent a (dropped e p q) h = cc
consumed-IsSpent {token} {s} a (consumed a' b u p q) h =
    rw (q, lookup-insert token token b s.tokens) (ground (arith, eq_iff token token))

-- After an exchange that made a session, whatever calls follow (among which none issues the same
-- token once more), another exchange of the token, at any time and from any origin, is refused
-- with the error of a rejected token.
pub token_single_use :
    (token origin origin' : String) (now now' : Time) (id csrf id' csrf' : Option String)
    (s : Store) (a : ℕ) (cs : List Call)
    → (exchange token origin now id csrf s).0 ≡ ok a
    → NeverIssued token cs
    → (exchange token origin' now' id' csrf' (run cs (exchange token origin now id csrf s).1)).0
      ≡ err bootstrap_rejected_error
token_single_use token origin origin' now now' id csrf id' csrf' s a cs made fresh =
    let s1 = (exchange token origin now id csrf s).1 in
    let h =
      run-IsSpent token cs s1 fresh
        (consumed-IsSpent a (exchange-Exchanged token origin now id csrf s) made) in
    (exchange_unusable token origin' now' id' csrf' (run cs s1)
      (spent-unusable token now' (run cs s1) h)).0
