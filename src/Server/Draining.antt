-- ===== src/Server/Draining.antt =====
-- The counters of launcher/internal/server/server.go over every schedule of requests, panics and
-- shutdowns.
use kobra_game.Base.{ℕ, ◌+◌, ◌≤◌, ◌≡◌, ◌≢◌, ◌⊎◌, String, Bool, false, Option, none, some}
use kobra_game.Base.Int.{ℤ, pos}
use kobra_game.Server.{Server, max_concurrent_requests}

-- Every request that `trackInFlight` has counted and not let go is one of those at a later stage; the
-- semaphore holds one for each request in a handler, and no more than it has room for; a panic has
-- asked for a shutdown.
pub record Tally (in_flight : ℤ) (slots : ℕ) (panicked : Bool) (shutdown : Option String)
    (tracked handling leaving crashing : ℕ) : Type 0 where
  pub in_flight_is : in_flight ≡ pos (tracked + handling + leaving + crashing)
  pub slots_are : slots ≡ handling
  pub bounded : handling ≤ max_concurrent_requests
  pub asked : (panicked ≡ false) ⊎ (shutdown ≢ none)

abbrev pub Counted : Server → Type 0
Counted s =
    Tally s.in_flight s.slots s.panicked s.shutdown s.tracked s.handling s.leaving s.crashing

-- What a move leaves, where it can happen.
abbrev AllCounted : Option Server → Type 0
AllCounted none = Unit
AllCounted (some t) = Counted t
