-- ===== src/Server/Watching.antt =====
-- How often the watcher of launcher/internal/server/server.go calls its hooks, and when it stops the
-- launcher.
use kobra_game.Base.{
  ℕ, ◌+◌, ◌≡◌, refl, ap, Bool, true, false, not, List, [], ◌∷◌, ◌||◌, ◌&&◌, arith, if◌then◌else◌,
  ◌∙◌,
}
use kobra_game.Base.Int.{
  ℤ, pos, ◌≤ℤ◌, ◌<ℤ◌, ltb_ℤ, leb_ℤ, ◌+ℤ◌, ◌-ℤ◌, saturate64, +ℤ_parts, -ℤ_parts, max_int64,
}
use kobra_game.Server.Watch.{
  Watcher, watchdog_timeout, is_zero, heartbeat, goodbye, check_watchdog, stop_idle, tick, Beat,
  beats, leaves, ticks, watch_step, watch, fresh_watcher,
}

-- A page has connected.
pub has_beat : List Beat → Bool
has_beat [] = false
has_beat (beats now ∷ bs) = true
has_beat (leaves now ∷ bs) = has_beat bs
has_beat (ticks now drains ∷ bs) = has_beat bs

-- A tick comes more than the timeout after the start of the loop, and before any page's sign and any
-- tick of a draining server.
pub is_due : ℤ → List Beat → Bool
is_due started [] = false
is_due started (beats now ∷ bs) = false
is_due started (leaves now ∷ bs) = false
is_due started (ticks now true ∷ bs) = false
is_due started (ticks now false ∷ bs) =
    ltb_ℤ watchdog_timeout (saturate64 (now -ℤ started)) || is_due started bs

-- No sign of a page is stored as the time 0, which stands for none.
unfoldable pub all_nonzero : ℤ → List Beat → Bool
all_nonzero idle [] = true
all_nonzero idle (beats now ∷ bs) = not (is_zero now) && all_nonzero idle bs
all_nonzero idle (leaves now ∷ bs) = not (is_zero (now -ℤ (idle +ℤ idle))) && all_nonzero idle bs
all_nonzero idle (ticks now drains ∷ bs) = all_nonzero idle bs

-- The first heartbeat and what it noted, of two watchers.
abbrev SameStarts : Watcher → Watcher → Type 0
SameStarts w v = (v.first_heartbeat ≡ w.first_heartbeat) × (v.starts_noted ≡ w.starts_noted)

if-SameStarts :
    (w x y : Watcher)
    → (b : Bool) → SameStarts w x
    → SameStarts w y
    → SameStarts w (if b then x else y)
if-SameStarts w x y true p q = p
if-SameStarts w x y false p q = q

check_watchdog-SameStarts :
    (started now : ℤ) → (w : Watcher) → SameStarts w (check_watchdog started now w)
unfolding check_watchdog
check_watchdog-SameStarts started now w =
    if-SameStarts w w _
      (not (is_zero w.last_seen) || leb_ℤ (saturate64 (now -ℤ started)) watchdog_timeout)
      (refl, refl) (if-SameStarts w w _ w.watchdog_done (refl, refl) (refl, refl))

tick-SameStarts :
    (idle started now : ℤ)
    → (drains : Bool) → (w : Watcher) → SameStarts w (tick idle started now drains w)
unfolding tick
tick-SameStarts idle started now drains w =
    if-SameStarts w w _ w.returned (refl, refl)
      (if-SameStarts w (record w { returned = true }) _ drains (refl, refl)
        (if-SameStarts w (check_watchdog started now w) _ (is_zero w.last_seen)
          (check_watchdog-SameStarts started now w)
          (if-SameStarts w (stop_idle w) w (ltb_ℤ idle (saturate64 (now -ℤ w.last_seen)))
            (refl, refl) (refl, refl))))

-- What the hook of the first heartbeat has been called at the end.
abbrev noted : Bool → Bool → ℕ → ℕ
noted first later n = if first then n else if later then n + 1 else n

noted_after :
    (first later : Bool)
    → (n : ℕ) → noted true later (if first then n else n + 1) ≡ noted first true n
noted_after true later n = refl
noted_after false later n = refl

watch-starts :
    (idle started : ℤ)
    → (bs : List Beat) → (w : Watcher)
    → (watch idle started bs w).starts_noted ≡ noted w.first_heartbeat (has_beat bs) w.starts_noted
unfolding watch has_beat heartbeat goodbye
watch-starts idle started [] w = ground arith
watch-starts idle started (beats now ∷ bs) w =
    watch-starts idle started bs (heartbeat now w)
    ∙ noted_after w.first_heartbeat (has_beat bs) w.starts_noted
watch-starts idle started (leaves now ∷ bs) w = watch-starts idle started bs (goodbye idle now w)
watch-starts idle started (ticks now drains ∷ bs) w =
    let kept = tick-SameStarts idle started now drains w in
    watch-starts idle started bs (tick idle started now drains w) ∙ rw (kept.0, kept.1) refl

-- The watchdog reports no more.
abbrev is_quiet : Watcher → Bool
is_quiet w = w.returned || not (is_zero w.last_seen) || w.watchdog_done

abbrev Quiet : Watcher → Watcher → Type 0
Quiet w v = (is_quiet v ≡ true) × (v.watchdog_calls ≡ w.watchdog_calls)

if-Quiet :
    (w x y : Watcher)
    → (b : Bool) → (b ≡ true → Quiet w x)
    → (b ≡ false → Quiet w y)
    → Quiet w (if b then x else y)
if-Quiet w x y true p q = p refl
if-Quiet w x y false p q = q refl

quiet_done :
    (w : Watcher)
    → is_quiet w ≡ true
    → w.returned ≡ false
    → is_zero w.last_seen ≡ true
    → w.watchdog_done ≡ true
quiet_done w q r z = ground (arith, q, r, z)

check_watchdog-Quiet :
    (started now : ℤ)
    → (w : Watcher) → is_quiet w ≡ true
    → w.watchdog_done ≡ true
    → Quiet w (check_watchdog started now w)
unfolding check_watchdog
check_watchdog-Quiet started now w q o =
    if-Quiet w w _
      (not (is_zero w.last_seen) || leb_ℤ (saturate64 (now -ℤ started)) watchdog_timeout)
      (λ e. (q, refl))
      (λ e. if-Quiet w w _ w.watchdog_done (λ d. (q, refl)) (λ d. absurd (ground (arith, o, d))))

tick-Quiet :
    (idle started now : ℤ)
    → (drains : Bool) → (w : Watcher) → is_quiet w ≡ true
    → Quiet w (tick idle started now drains w)
unfolding tick
tick-Quiet idle started now drains w q =
    if-Quiet w w _ w.returned (λ e. (q, refl))
      (λ r.
        if-Quiet w (record w { returned = true }) _ drains (λ e. (refl, refl))
          (λ d.
            if-Quiet w (check_watchdog started now w) _ (is_zero w.last_seen)
              (λ z. check_watchdog-Quiet started now w q (quiet_done w q r z))
              (λ z.
                if-Quiet w (stop_idle w) w (ltb_ℤ idle (saturate64 (now -ℤ w.last_seen)))
                  (λ e. (refl, refl)) (λ e. (q, refl)))))

step-Quiet :
    (idle started : ℤ)
    → (b : Beat) → (bs : List Beat) → (w : Watcher) → all_nonzero idle (b ∷ bs) ≡ true
    → is_quiet w ≡ true
    → Quiet w (watch_step idle started b w) × (all_nonzero idle bs ≡ true)
unfolding all_nonzero heartbeat goodbye
step-Quiet idle started (beats now) bs w h q = ((ground (arith, h), refl), ground (arith, h))
step-Quiet idle started (leaves now) bs w h q = ((ground (arith, h), refl), ground (arith, h))
step-Quiet idle started (ticks now drains) bs w h q = (tick-Quiet idle started now drains w q, h)

watch-quiet :
    (idle started : ℤ)
    → (bs : List Beat) → (w : Watcher) → all_nonzero idle bs ≡ true
    → is_quiet w ≡ true
    → (watch idle started bs w).watchdog_calls ≡ w.watchdog_calls
unfolding watch
watch-quiet idle started [] w h q = refl
watch-quiet idle started (b ∷ bs) w h q =
    let next = step-Quiet idle started b bs w h q in
    watch-quiet idle started bs (watch_step idle started b w) next.1 next.0.0 ∙ next.0.1

-- A tick before any sign of a page.
waiting_tick :
    (idle started now : ℤ)
    → (w : Watcher) → is_quiet w ≡ false
    → tick idle started now false w ≡ (
        if ltb_ℤ watchdog_timeout (saturate64 (now -ℤ started))
        then record w { watchdog_done = true; watchdog_calls = w.watchdog_calls + 1 }
        else w)
unfolding tick check_watchdog
waiting_tick idle started now w q = ground (arith, q)

draining_tick :
    (idle started now : ℤ)
    → (w : Watcher) → is_quiet w ≡ false
    → tick idle started now true w ≡ record w { returned = true }
unfolding tick
draining_tick idle started now w q = ground (arith, q)

fired_quiet :
    (w : Watcher)
    → (n : ℕ) → is_quiet (record w { watchdog_done = true; watchdog_calls = n }) ≡ true
fired_quiet w n = ground arith

late_or_not :
    (idle started : ℤ)
    → (bs : List Beat) → (w : Watcher) → all_nonzero idle bs ≡ true
    → (watch idle started bs w).watchdog_calls
      ≡ (if is_due started bs then w.watchdog_calls + 1 else w.watchdog_calls)
    → (late : Bool)
    → (watch idle started bs (
        if late
        then record w { watchdog_done = true; watchdog_calls = w.watchdog_calls + 1 }
        else w)).watchdog_calls
      ≡ (if late || is_due started bs then w.watchdog_calls + 1 else w.watchdog_calls)
late_or_not idle started bs w h later true =
    watch-quiet idle started bs
      (record w { watchdog_done = true; watchdog_calls = w.watchdog_calls + 1 }) h
      (fired_quiet w (w.watchdog_calls + 1))
late_or_not idle started bs w h later false = later

watch-due :
    (idle started : ℤ)
    → (bs : List Beat) → (w : Watcher) → all_nonzero idle bs ≡ true
    → is_quiet w ≡ false
    → (watch idle started bs w).watchdog_calls
      ≡ (if is_due started bs then w.watchdog_calls + 1 else w.watchdog_calls)
unfolding watch is_due all_nonzero heartbeat goodbye tick
watch-due idle started [] w h q = refl
watch-due idle started (beats now ∷ bs) w h q =
    watch-quiet idle started bs (heartbeat now w) (ground (arith, h)) (ground (arith, h))
watch-due idle started (leaves now ∷ bs) w h q =
    watch-quiet idle started bs (goodbye idle now w) (ground (arith, h)) (ground (arith, h))
watch-due idle started (ticks now true ∷ bs) w h q =
    ap (λ v. (watch idle started bs v).watchdog_calls) (draining_tick idle started now w q)
    ∙ watch-quiet idle started bs (record w { returned = true }) h refl
watch-due idle started (ticks now false ∷ bs) w h q =
    ap (λ v. (watch idle started bs v).watchdog_calls) (waiting_tick idle started now w q)
    ∙ late_or_not idle started bs w h (watch-due idle started bs w h q)
        (ltb_ℤ watchdog_timeout (saturate64 (now -ℤ started)))

-- However heartbeats, goodbyes and ticks follow one another from the start of the server, a
-- successful start is noted once if there was a heartbeat and not at all otherwise, and the watchdog
-- reports once if a tick came more than 20 seconds after the loop started and before any heartbeat,
-- goodbye and tick of a draining server, and not at all otherwise; no page's last sign being stored
-- as the time 0.
pub watch_exact :
    (idle started : ℤ)
    → (bs : List Beat) → all_nonzero idle bs ≡ true
    → ((watch idle started bs fresh_watcher).starts_noted ≡ (if has_beat bs then 1 else 0))
      × ((watch idle started bs fresh_watcher).watchdog_calls
          ≡ (if is_due started bs then 1 else 0))
watch_exact idle started bs h =
    (watch-starts idle started bs fresh_watcher, watch-due idle started bs fresh_watcher h refl)

long_gone :
    (idle left now : ℤ)
    → pos 0 <ℤ idle
    → idle <ℤ max_int64
    → left ≤ℤ now
    → ltb_ℤ idle (saturate64 (now -ℤ (left -ℤ (idle +ℤ idle)))) ≡ true
unfolding saturate64
long_gone idle left now positive small later =
    ground (
      arith,
      +ℤ_parts idle idle,
      -ℤ_parts left (idle +ℤ idle),
      -ℤ_parts now (left -ℤ (idle +ℤ idle)),
    )

ticking :
    (running seen late : Bool)
    → (w watched stopped : Watcher) → running ≡ false
    → seen ≡ false
    → late ≡ true
    → (if running then w else if seen then watched else if late then stopped else w) ≡ stopped
ticking running seen late w watched stopped r z l = rw r (rw z (rw l refl))

-- After a goodbye the next tick asks for a shutdown, whenever it comes: the loop running, the server
-- not draining, the idle timeout positive, no page's last sign at the time 0, and the times within
-- an int64.
pub goodbye_stops :
    (idle started left now : ℤ)
    → (w : Watcher) → pos 0 <ℤ idle
    → idle <ℤ max_int64
    → left ≤ℤ now
    → is_zero (left -ℤ (idle +ℤ idle)) ≡ false
    → w.returned ≡ false
    → tick idle started now false (goodbye idle left w) ≡ stop_idle (goodbye idle left w)
unfolding tick goodbye
goodbye_stops idle started left now w positive small later seen running =
    ticking w.returned _ _ _ _ _ running seen (long_gone idle left now positive small later)
