-- ===== src/Server/Watch.antt =====
-- The heartbeats of launcher/internal/server/server.go and the goroutine that watches them, where
-- both hooks are set. Times are nanoseconds.
use kobra_game.Base.{
  ℕ, ◌+◌, String, Bool, true, false, not, Option, none, List, [], ◌∷◌, ◌&&◌, ◌||◌, if◌then◌else◌,
}
use kobra_game.Base.Int.{ℤ, pos, ltb_ℤ, leb_ℤ, ◌+ℤ◌, ◌-ℤ◌, saturate64}
use kobra_game.Server.{shut_down}

pub record Watcher : Type 0 where
  pub last_seen : ℤ  -- 0 while no page has connected
  pub first_heartbeat : Bool
  pub starts_noted : ℕ  -- calls of `OnFirstHeartbeat`
  pub watchdog_done : Bool  -- `watchdogOnce`
  pub watchdog_calls : ℕ  -- calls of `OnWatchdogTimeout`
  pub shutdown : Option String
  pub returned : Bool  -- the goroutine is over

abbrev pub watchdog_timeout : ℤ
watchdog_timeout = pos 20000000000

abbrev pub is_zero : ℤ → Bool
is_zero z = leb_ℤ z (pos 0) && leb_ℤ (pos 0) z

-- `Heartbeat` at a time.
unfoldable pub heartbeat : ℤ → Watcher → Watcher
heartbeat now w = record w {
  last_seen = now;
  first_heartbeat = true;
  starts_noted = if w.first_heartbeat then w.starts_noted else w.starts_noted + 1;
}

-- `Goodbye`, from the idle timeout.
unfoldable pub goodbye : ℤ → ℤ → Watcher → Watcher
goodbye idle now w = record w { last_seen = now -ℤ (idle +ℤ idle) }

-- `checkWatchdog` for a loop that started at the first time.
unfoldable pub check_watchdog : ℤ → ℤ → Watcher → Watcher
check_watchdog started now w =
    if not (is_zero w.last_seen) || leb_ℤ (saturate64 (now -ℤ started)) watchdog_timeout
    then w
    else if w.watchdog_done
    then w
    else record w { watchdog_done = true; watchdog_calls = w.watchdog_calls + 1 }

abbrev pub stop_idle : Watcher → Watcher
stop_idle w = record w { shutdown = shut_down "idle" w.shutdown; returned = true }

-- A tick of `watchLoop`, with the server draining or not; `Reap` is in the session store.
unfoldable pub tick : ℤ → ℤ → ℤ → Bool → Watcher → Watcher
unfolding check_watchdog
tick idle started now drains w =
    if w.returned
    then w
    else if drains
    then record w { returned = true }
    else if is_zero w.last_seen
    then check_watchdog started now w
    else if ltb_ℤ idle (saturate64 (now -ℤ w.last_seen))
    then stop_idle w
    else w

pub data Beat : Type 0 where
  beats : ℤ → Beat
  leaves : ℤ → Beat
  ticks : ℤ → Bool → Beat

abbrev pub watch_step : ℤ → ℤ → Beat → Watcher → Watcher
watch_step idle started (beats now) w = heartbeat now w
watch_step idle started (leaves now) w = goodbye idle now w
watch_step idle started (ticks now drains) w = tick idle started now drains w

unfoldable pub watch : ℤ → ℤ → List Beat → Watcher → Watcher
watch idle started [] w = w
watch idle started (b ∷ bs) w = watch idle started bs (watch_step idle started b w)

abbrev pub fresh_watcher : Watcher
fresh_watcher = record {
  last_seen = pos 0;
  first_heartbeat = false;
  starts_noted = 0;
  watchdog_done = false;
  watchdog_calls = 0;
  shutdown = none;
  returned = false;
}
