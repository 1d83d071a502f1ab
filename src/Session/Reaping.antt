-- ===== src/Session/Reaping.antt =====
-- Liveness in launcher/internal/session/session.go: `Get` and `Reap`.
use mathlib.Core.Option
use kobra_game.Base.{
  ℕ, String, ◌≡◌, refl, ◌∙◌, sym, ap, Bool, false, Option, none, some, lookup, arith, if◌then◌else◌,
  str_eq, eq_iff, ◌&&◌, lookup-delete,
}
use kobra_game.Session.Types.{Time, Reason, Session, Store}
use kobra_game.Session.Table.{dead_reason, delete_session}
use kobra_game.Session.Table.Evict.{
  dead_at, is_dead, evict_dead-SameRest, lookup-evict_dead, writer-evict_dead, dead_in-lookup,
}
use kobra_game.Session.Table.Log.{emit-log, log_evictions-log}
use kobra_game.Session.Operations.{get, get_found, get_looked_up, reap}
use kobra_game.Session.Invariant.{Inv}

-- The entry of a key that survives the reaper.
abbrev pub survivor : Store → Time → Option ℕ → Option ℕ
survivor s now none = none
survivor s now (some a) = if dead_at s now a then none else some a

dead_entry-survivor :
    (s : Store) (now : Time) (o : Option ℕ)
    → (if (elim o as (λ _. Bool) [ none ↦ false | some a ↦ dead_at s now a ]) then none else o)
      ≡ survivor s now o
dead_entry-survivor s now none = refl
dead_entry-survivor s now (some a) = refl

-- After a reaping at `now` of a well-formed store, for every key: a session that has reached its
-- TTL or its inactivity timeout has no entry, every other session has the entry that it had, and
-- the writer role is freed exactly if the writer's session was dead; no session is changed.
pub reap_exact :
    (now : Time) (s : Store) (k : String)
    → Inv s
    → (lookup k (reap now s).sessions ≡ survivor s now (lookup k s.sessions))
      × ((reap now s).writer_id ≡ (
          if (elim (lookup s.writer_id s.sessions) as (λ _. Bool) [
            | none ↦ false
            | some a ↦ dead_at s now a
          ])
          then ""
          else s.writer_id))
      × ((reap now s).heap ≡ s.heap)
unfolding reap
reap_exact now s k i =
    let d = i.table.distinct in
    (
      rw log_evictions-log (
          lookup-evict_dead now s k
          ∙ (rw (dead_in-lookup now s k s.sessions d)
              (dead_entry-survivor s now (lookup k s.sessions)))),
      rw log_evictions-log
          (rw (writer-evict_dead, dead_in-lookup now s s.writer_id s.sessions d) refl),
      rw log_evictions-log (evict_dead-SameRest now s).heap,
    )

get_found-exact :
    (cookie : String) (now : Time) (a : ℕ) (r : Option Reason) (s : Store) (k : String)
    → ((get_found cookie now a r s).0 ≡ (if is_dead r then none else some a))
      × (lookup k (get_found cookie now a r s).1.sessions
          ≡ (if is_dead r && str_eq cookie k then none else lookup k s.sessions))
      × (is_dead r ≡ false → ((get_found cookie now a r s).1.heap a).last_active ≡ now)
unfolding get_found delete_session
get_found-exact cookie now a none s k = (refl, refl, λ _. ground arith)
get_found-exact cookie now a (some r) s k =
    (refl, rw emit-log (lookup-delete cookie k s.sessions), λ e. cc)

looked_up-exact :
    (cookie : String) (now : Time) (o : Option ℕ) (s : Store) (k : String)
    → lookup cookie s.sessions ≡ o
    → ((get_looked_up cookie now o s).0 ≡ survivor s now o)
      × (lookup k (get_looked_up cookie now o s).1.sessions
          ≡ (if str_eq cookie k then survivor s now o else lookup k s.sessions))
      × ((a : ℕ)
          → survivor s now o ≡ some a
          → ((get_looked_up cookie now o s).1.heap a).last_active ≡ now)
unfolding get_looked_up dead_at
looked_up-exact cookie now none s k h = (refl, ground (arith, eq_iff cookie k), λ a e. cc)
looked_up-exact cookie now (some a) s k h =
    let f = get_found-exact cookie now a (dead_reason s now (s.heap a)) s k in
    (ground (arith, f), ground (arith, f, eq_iff cookie k), λ b e. ground (arith, f))

-- A statement on the value there may be, as an equation.
touched_all :
    (h : ℕ → Session) (now : Time) (o o' : Option ℕ)
    → o ≡ o'
    → ((a : ℕ) → o' ≡ some a → (h a).last_active ≡ now)
    → Option.map (λ a. (h a).last_active) o ≡ Option.map (λ a. now) o
touched_all h now none o' e f = refl
touched_all h now (some a) o' e f = ap some (f a (sym e))

-- `Get` answers with the session of the cookie exactly if there is one and it is live at `now`,
-- and then its last activity is `now`; a dead session is gone from the table afterwards, and no
-- other key's entry changes.
pub get_exact :
    (cookie : String) (now : Time) (s : Store) (k : String)
    → let r = get cookie now s in
      (r.0 ≡ survivor s now (lookup cookie s.sessions))
      × (lookup k r.1.sessions ≡ (
          if str_eq cookie k
          then survivor s now (lookup cookie s.sessions)
          else lookup k s.sessions))
      × (Option.map (λ a. (r.1.heap a).last_active) r.0 ≡ Option.map (λ a. now) r.0)
unfolding get
get_exact cookie now s k =
    let (found, entry, touched) = looked_up-exact cookie now (lookup cookie s.sessions) s k refl in
    (found, entry, touched_all (get cookie now s).1.heap now _ _ found touched)
