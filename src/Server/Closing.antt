-- ===== src/Server/Closing.antt =====
-- The drain of launcher/internal/server/server.go: what happens to requests once it has begun.
use kobra_game.Base.{
  ℕ, zero, suc, ◌+◌, ◌≤◌, ◌≡◌, refl, String, Bool, true, false, Option, none, some, List, [], ◌∷◌,
  arith, ltb, if◌then◌else◌, ◌&&◌, ◌||◌,
}
use mathlib.Core.Path.{subst, sym}
use kobra_game.Base.Int.{leb_ℤ, pos}
use kobra_game.Server.{
  Address, Incoming, draining, gates, Server, Event, arrives, tracks, admits, busies, finishes,
  panics, leaves, recovers, asks, drain_begins, drain_closes, drain_ends, max_concurrent_requests,
  arrived, track_one, admit_one, refuse_one, finish_one, panic_one, leave_one, recover_one,
  begin_drain, step, or_stay, run,
}

-- The requests past the gates.
abbrev pub on_the_way : Server → ℕ
on_the_way s = s.gated + s.tracked + s.handling + s.leaving + s.crashing

-- The drain has begun, and there are at most `k` of them.
pub record Drained (k : ℕ) (s : Server) : Type 0 where
  pub begun : s.drains ≡ true
  pub few : on_the_way s ≤ k

refused_gate : (a : Address) → (r : Incoming) → (b : Bool) → b ≡ true → gates a b r ≡ draining
unfolding gates
refused_gate a r true e = refl
refused_gate a r false e = ground arith

module _ (k : ℕ) where
  abbrev AllDrained : Option Server → Type 0
  AllDrained none = Unit
  AllDrained (some t) = Drained k t

  arrive-Drained :
      (a : Address)
      → (r : Incoming) → (s : Server) → Drained k s
      → Drained k (arrived (gates a s.drains r) s)
  arrive-Drained a r s d =
      subst (λ g. Drained k (arrived g s)) (sym (refused_gate a r s.drains d.begun)) d

  track-Drained : (n : ℕ) → (s : Server) → s.gated ≡ n → Drained k s → AllDrained (track_one n s)
  track-Drained zero s e d = tt
  track-Drained (suc n) s e d = let f = d.few in record { begun = d.begun; few = omega arith }

  admit_if :
      (n : ℕ)
      → (s : Server) → s.tracked ≡ suc n
      → Drained k s
      → (b : Bool)
      → AllDrained (
          if b
          then some (record s { tracked = n; handling = s.handling + 1; slots = s.slots + 1 })
          else none)
  admit_if n s e d false = tt
  admit_if n s e d true = let f = d.few in record { begun = d.begun; few = omega arith }

  admit-Drained : (n : ℕ) → (s : Server) → s.tracked ≡ n → Drained k s → AllDrained (admit_one n s)
  admit-Drained zero s e d = tt
  admit-Drained (suc n) s e d = admit_if n s e d (ltb s.slots max_concurrent_requests)

  refuse_if :
      (n : ℕ)
      → (s : Server) → s.tracked ≡ suc n
      → Drained k s
      → (b : Bool)
      → AllDrained (if b then none else some (record s { tracked = n; leaving = s.leaving + 1 }))
  refuse_if n s e d true = tt
  refuse_if n s e d false = let f = d.few in record { begun = d.begun; few = omega arith }

  refuse-Drained :
      (n : ℕ) → (s : Server) → s.tracked ≡ n → Drained k s → AllDrained (refuse_one n s)
  refuse-Drained zero s e d = tt
  refuse-Drained (suc n) s e d = refuse_if n s e d (ltb s.slots max_concurrent_requests)

  finish-Drained :
      (n held : ℕ) → (s : Server) → s.handling ≡ n → Drained k s → AllDrained (finish_one n held s)
  finish-Drained zero held s e d = tt
  finish-Drained (suc n) zero s e d = tt
  finish-Drained (suc n) (suc held) s e d =
      let f = d.few in record { begun = d.begun; few = omega arith }

  panic-Drained :
      (n held : ℕ) → (s : Server) → s.handling ≡ n → Drained k s → AllDrained (panic_one n held s)
  panic-Drained zero held s e d = tt
  panic-Drained (suc n) zero s e d = tt
  panic-Drained (suc n) (suc held) s e d =
      let f = d.few in record { begun = d.begun; few = omega arith }

  leave-Drained : (n : ℕ) → (s : Server) → s.leaving ≡ n → Drained k s → AllDrained (leave_one n s)
  leave-Drained zero s e d = tt
  leave-Drained (suc n) s e d = let f = d.few in record { begun = d.begun; few = omega arith }

  recover-Drained :
      (n : ℕ) → (s : Server) → s.crashing ≡ n → Drained k s → AllDrained (recover_one n s)
  recover-Drained zero s e d = tt
  recover-Drained (suc n) s e d = let f = d.few in record { begun = d.begun; few = omega arith }

  begin-Drained : (o : Option String) → (s : Server) → Drained k s → AllDrained (begin_drain o s)
  begin-Drained none s d = tt
  begin-Drained (some reason) s d = record { begun = refl; few = d.few }

  end_if :
      (s : Server)
      → Drained k s
      → (b : Bool) → AllDrained (if b then some (record s { cancelled = true }) else none)
  end_if s d false = tt
  end_if s d true = record { begun = d.begun; few = d.few }

  close_if :
      (s : Server)
      → Drained k s
      → (b : Bool) → AllDrained (if b then some (record s { closed = true }) else none)
  close_if s d false = tt
  close_if s d true = record { begun = d.begun; few = d.few }

  step-Drained : (a : Address) → (e : Event) → (s : Server) → Drained k s → AllDrained (step a e s)
  unfolding step
  step-Drained a (arrives r) s d = arrive-Drained a r s d
  step-Drained a tracks s d = track-Drained s.gated s refl d
  step-Drained a admits s d = admit-Drained s.tracked s refl d
  step-Drained a busies s d = refuse-Drained s.tracked s refl d
  step-Drained a finishes s d = finish-Drained s.handling s.slots s refl d
  step-Drained a panics s d = panic-Drained s.handling s.slots s refl d
  step-Drained a leaves s d = leave-Drained s.leaving s refl d
  step-Drained a recovers s d = recover-Drained s.crashing s refl d
  step-Drained a (asks reason) s d = record { begun = d.begun; few = d.few }
  step-Drained a drain_begins s d = begin-Drained s.shutdown s d
  step-Drained a (drain_ends late) s d =
      end_if s d (s.drains && (leb_ℤ s.in_flight (pos 0) || late))
  step-Drained a drain_closes s d = close_if s d s.cancelled

  stay-Drained :
      (s : Server) → (o : Option Server) → Drained k s → AllDrained o → Drained k (or_stay s o)
  stay-Drained s none d e = d
  stay-Drained s (some t) d e = e

  -- Once the drain has begun it stays begun, and under every schedule no more requests are past the
  -- gates than there were: a new one is refused, and with none on its way no handler runs again.
  pub run-Drained :
      (a : Address) → (es : List Event) → (s : Server) → Drained k s → Drained k (run a es s)
  unfolding run
  run-Drained a [] s d = d
  run-Drained a (e ∷ es) s d =
      run-Drained a es (or_stay s (step a e s))
        (stay-Drained s (step a e s) d (step-Drained a e s d))
