-- ===== src/Tests/OnServer.antt =====
-- Requests, shutdowns and heartbeats.
use kobra_game.Base.{◌≡◌, refl, true, false, List, [], ◌∷◌, arith, if◌then◌else◌}
use kobra_game.Base.Int.{pos, ◌+ℤ◌, ◌-ℤ◌}
use kobra_game.Storage.Text.{Text, same_text}
use kobra_game.Update.Archive.{split, clean_path, unstack}
use kobra_game.Server.{
  Incoming, Address, gates, Server, Event, arrives, tracks, admits, panics, recovers, asks,
  drain_begins, drain_ends, step, run, idle_server, normalise_path, dotted, or_root,
}
use kobra_game.Server.Closing.{Drained, run-Drained}
use kobra_game.Server.Paths.{nonempty, normalise_path_exact}
use kobra_game.Server.Watch.{Beat, beats, leaves, ticks, watch, fresh_watcher}
use kobra_game.Server.Watching.{has_beat, is_due, all_nonzero, watch_exact}

abbrev here : Address
here = record { own_host = 49 ∷ []; own_origin = 50 ∷ [] }

-- /a/
abbrev asked_path : Text
asked_path = 47 ∷ 97 ∷ 47 ∷ []

abbrev asking : Incoming
asking = record { host = 49 ∷ []; origin = []; path = asked_path }

-- A request that is past `drainGate` and not counted yet when the drain looks: the drain does not
-- wait for it, and its handler runs under a context that is cancelled.
abbrev overtaken : List Event
overtaken = arrives asking ∷ asks "api" ∷ drain_begins ∷ drain_ends false ∷ tracks ∷ admits ∷ []

late_handler :
    ((run here overtaken idle_server).cancelled ≡ true)
    × ((run here overtaken idle_server).handling ≡ 1)
unfolding run step gates normalise_path same_text split clean_path unstack ◌+ℤ◌
late_handler = (refl, refl)

abbrev draining_server : Server
draining_server = record idle_server { drains = true; in_flight = pos 1; handling = 1; slots = 1 }

run-Drained_example : Drained 1 (run here (arrives asking ∷ panics ∷ recovers ∷ []) draining_server)
run-Drained_example =
    run-Drained 1 here (arrives asking ∷ panics ∷ recovers ∷ []) draining_server
      (record { begun = refl; few = omega arith })

normalise_path_exact_example :
    (dotted (split (or_root asked_path)) ≡ false)
    × ((97 ∷ []) ∷ [] ≡ nonempty (split (or_root asked_path)))
unfolding normalise_path same_text split clean_path unstack
normalise_path_exact_example = normalise_path_exact asked_path ((97 ∷ []) ∷ []) refl

abbrev visit : List Beat
visit =
    ticks (pos 5) false
    ∷ ticks (pos 20000000002) false
    ∷ ticks (pos 20000000003) false
    ∷ beats (pos 20000000004)
    ∷ beats (pos 20000000005)
    ∷ leaves (pos 20000000006)
    ∷ ticks (pos 20000000007) false
    ∷ []

watch_exact_example :
    ((watch (pos 100) (pos 1) visit fresh_watcher).starts_noted ≡ (if has_beat visit then 1 else 0))
    × ((watch (pos 100) (pos 1) visit fresh_watcher).watchdog_calls
        ≡ (if is_due (pos 1) visit then 1 else 0))
unfolding all_nonzero ◌-ℤ◌ ◌+ℤ◌
watch_exact_example = watch_exact (pos 100) (pos 1) visit refl
