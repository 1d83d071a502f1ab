-- ===== src/Session/Quota/Limits.antt =====
-- What the quota of launcher/internal/session/session.go guarantees.
use kobra_game.Base.{◌⊎◌, ℕ, ◌≡◌, some, arith}
use kobra_game.Base.Int.{ℤ, pos, ◌≤ℤ◌, ◌+ℤ◌, wrap64}
use kobra_game.KobraErr.Types.{KobraError}
use kobra_game.KobraErr.Build.{rate_limited_error}
use kobra_game.Session.Types.{
  Time, Session, Store, default_writes_per_minute, default_bytes_per_minute,
}
use kobra_game.Session.Operations.{ok, err}
use kobra_game.Session.Quota.{
  roll_window, retry_after, charge, limit_or, at_least_zero, allow_at, allow,
}

module _ (now : Time) (a : ℕ) (x : Session) (n w b : ℤ) (s : Store) where
  charge-accepts :
      (charge now a x n w b s).0 ≡ ok tt
      → let y = (charge now a x n w b s).1.heap a in
        (y.writes ≡ wrap64 (x.writes +ℤ pos 1))
        × (y.bytes ≡ wrap64 (x.bytes +ℤ n))
        × (y.window_start ≡ x.window_start)
        × ((w ≤ℤ pos 0) ⊎ (y.writes ≤ℤ w))
        × ((b ≤ℤ pos 0) ⊎ (y.bytes ≤ℤ b))
  unfolding charge
  charge-accepts h = ground arith

  charge-refuses :
      (e : KobraError)
      → (charge now a x n w b s).0 ≡ err e
      → (e.retry_after ≡ retry_after now x) × ((charge now a x n w b s).1.heap a ≡ x)
  unfolding charge rate_limited_error
  charge-refuses e h = ground arith

-- A write that is allowed adds one to the writes and its size to the bytes of the rolled window,
-- and neither count is then above a limit that is in force.
pub allow_accepts :
    (now : Time) (a : ℕ) (n w b : ℤ) (s : Store)
    → (allow now (some a) n w b s).0 ≡ ok tt
    → let x = roll_window now (s.heap a) in
      let y = (allow now (some a) n w b s).1.heap a in
      let writes_limit = limit_or w default_writes_per_minute in
      let bytes_limit = limit_or b default_bytes_per_minute in
      (y.writes ≡ wrap64 (x.writes +ℤ pos 1))
      × (y.bytes ≡ wrap64 (x.bytes +ℤ at_least_zero n))
      × (y.window_start ≡ x.window_start)
      × ((writes_limit ≤ℤ pos 0) ⊎ (y.writes ≤ℤ writes_limit))
      × ((bytes_limit ≤ℤ pos 0) ⊎ (y.bytes ≤ℤ bytes_limit))
unfolding allow
allow_accepts now a n w b s h =
    unfold allow_at in
    charge-accepts now a (roll_window now (s.heap a)) (at_least_zero n)
      (limit_or w default_writes_per_minute) (limit_or b default_bytes_per_minute) s h

retry_after_bounds :
    (now : Time) (x : Session) → (pos 1 ≤ℤ retry_after now x) × (retry_after now x ≤ℤ pos 60)
unfolding retry_after
retry_after_bounds now x = ground arith

-- A refused write is not counted: the session is left with its rolled window, and the error tells
-- the client to wait between 1 and 60 seconds.
pub allow_refuses :
    (now : Time) (a : ℕ) (n w b : ℤ) (s : Store) (e : KobraError)
    → (allow now (some a) n w b s).0 ≡ err e
    → ((allow now (some a) n w b s).1.heap a ≡ roll_window now (s.heap a))
      × (pos 1 ≤ℤ e.retry_after)
      × (e.retry_after ≤ℤ pos 60)
unfolding allow allow_at
allow_refuses now a n w b s e h =
    let x = roll_window now (s.heap a) in
    let (r, same) =
      charge-refuses now a x (at_least_zero n) (limit_or w default_writes_per_minute)
        (limit_or b default_bytes_per_minute) s e h in
    (same, rw r (retry_after_bounds now x).0, rw r (retry_after_bounds now x).1)
