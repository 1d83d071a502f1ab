-- ===== src/Session/Quota.antt =====
-- `Allow` of launcher/internal/session/session.go: the rolling one-minute quota of a session.
pub mod Limits
use Prim.Native.Nat.{◌-◌, ◌/◌}
use kobra_game.Base.{ℕ, ◌+◌, Option, none, some, ltb, ◌&&◌, ◌||◌, if◌then◌else◌}
use kobra_game.Base.Int.{ℤ, pos, leb_ℤ, ltb_ℤ, ◌+ℤ◌, wrap64, pos_part}
use kobra_game.KobraErr.Types.{plain}
use kobra_game.KobraErr.Build.{no_session_error, rate_limited_error}
use kobra_game.Session.Types.{
  Time, Session, quota_exceeded, Store, update, sub_time, emit, is_zero, default_writes_per_minute,
  default_bytes_per_minute, second, quota_window,
}
use kobra_game.Session.Table.{short_id}
use kobra_game.Session.Operations.{Result, ok, err}

-- The window rolls over at its first use and after a minute.
unfoldable pub roll_window : Time → Session → Session
roll_window now sess =
    if is_zero sess.window_start || leb_ℤ (pos quota_window) (sub_time now sess.window_start)
    then record sess { window_start = now; writes = pos 0; bytes = pos 0 }
    else sess

-- The seconds until the window rolls over, rounded up and at least 1. An elapsed time below zero
-- counts as zero, and after `roll_window` it is below a minute, so the difference is exact.
unfoldable pub retry_after : Time → Session → ℤ
retry_after now sess =
    let elapsed = pos_part (sub_time now sess.window_start) in
    let seconds = (quota_window - elapsed + second - 1) / second in
    if ltb seconds 1 then pos 1 else pos seconds

abbrev pub set_session : ℕ → Session → Store → Store
set_session a sess s = record s { heap = update s.heap a sess }

abbrev pub limit_or : ℤ → ℤ → ℤ
limit_or limit d = if is_zero limit then d else limit

-- The two tests of `Allow` and the count, on a session whose window has been rolled.
unfoldable pub charge : Time → ℕ → Session → ℤ → ℤ → ℤ → Store → Result (Unit {0}) × Store
unfolding retry_after emit
charge now a sess n writes_limit bytes_limit s =
    let rolled = set_session a sess s in
    if ltb_ℤ (pos 0) writes_limit && ltb_ℤ writes_limit (wrap64 (sess.writes +ℤ pos 1))
    then (
      err (rate_limited_error "writes" (retry_after now sess)),
      emit (quota_exceeded (short_id sess.id) "writes") rolled,
    )
    else if ltb_ℤ (pos 0) bytes_limit && ltb_ℤ bytes_limit (wrap64 (sess.bytes +ℤ n))
    then (
      err (rate_limited_error "bytes" (retry_after now sess)),
      emit (quota_exceeded (short_id sess.id) "bytes") rolled,
    )
    else (
      ok tt,
      set_session a
          (record sess { writes = wrap64 (sess.writes +ℤ pos 1); bytes = wrap64 (sess.bytes +ℤ n) })
          s,
    )

-- `Allow` for a session that is there, its limits and its count of bytes made definite.
unfoldable pub allow_at : Time → ℕ → ℤ → ℤ → ℤ → Store → Result (Unit {0}) × Store
unfolding roll_window charge
allow_at now a n writes_limit bytes_limit s =
    charge now a (roll_window now (s.heap a)) n writes_limit bytes_limit s

abbrev pub at_least_zero : ℤ → ℤ
at_least_zero n = if ltb_ℤ n (pos 0) then pos 0 else n

unfoldable pub allow : Time → Option ℕ → ℤ → ℤ → ℤ → Store → Result (Unit {0}) × Store
unfolding allow_at
allow now none n writes_limit bytes_limit s = (err (no_session_error (plain "no session")), s)
allow now (some a) n writes_limit bytes_limit s =
    allow_at now a (at_least_zero n) (limit_or writes_limit default_writes_per_minute)
      (limit_or bytes_limit default_bytes_per_minute) s
