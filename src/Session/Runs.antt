-- ===== src/Session/Runs.antt =====
-- Sequences of calls of the store of launcher/internal/session/session.go, in the order in which
-- they take its mutex.
use kobra_game.Base.{ℕ, String, [], ◌∷◌, List, Option}
use kobra_game.Base.Int.{ℤ}
use kobra_game.Session.Types.{Time, Store}
use kobra_game.Session.Operations.{
  new_bootstrap_token, exchange, get, reap, clear, check_csrf, claim_writer, release_writer,
}
use kobra_game.Session.Quota.{allow}

pub data Call : Type 0 where
  issues : Time → Option String → Call
  exchanges : (token origin : String) → Time → (id csrf : Option String) → Call
  gets : String → Time → Call
  reaps : Time → Call
  clears : Call
  checks : (cookie header : String) → Option ℕ → String → Call
  claims : Option ℕ → Call
  releases : String → Call
  allows : Time → Option ℕ → (n writes_limit bytes_limit : ℤ) → Call

-- The store after one call, whatever it answers.
unfoldable pub step : Call → Store → Store
step (issues now token) s = (new_bootstrap_token now token s).1
step (exchanges token origin now id csrf) s = (exchange token origin now id csrf s).1
step (gets cookie now) s = (get cookie now s).1
step (reaps now) s = reap now s
step clears s = clear s
step (checks cookie header sess origin) s = (check_csrf cookie header sess origin s).1
step (claims sess) s = (claim_writer sess s).1
step (releases id) s = release_writer id s
step (allows now sess n w b) s = (allow now sess n w b s).1

unfoldable pub run : List Call → Store → Store
unfolding step
run [] s = s
run (c ∷ cs) s = run cs (step c s)
