-- ===== src/Session/Invariant/Keeps.antt =====
-- Every call of the store of launcher/internal/session/session.go keeps the session table
-- well-formed.
use kobra_game.Base.{
  ℕ, String, [], ◌∷◌, List, ◌≡◌, refl, ◌&&◌, false, Option, none, some, lookup, delete, length,
  str_eq, arith, Bool-cases, inl, inr,
}
use kobra_game.Base.Int.{ℤ, pos, leb_ℤ, ltb_ℤ, ◌+ℤ◌, wrap64}
use kobra_game.Session.Types.{
  csrf_reject, default_writes_per_minute, default_bytes_per_minute, Time, Reason, used, expired,
  unknown, capacity, Session, BootstrapToken, Store, Event, Options, update, emit, new_store,
  sub_time,
}
use kobra_game.Session.Table.{delete_session, evict_dead, log_evictions, reject_bootstrap}
use kobra_game.Session.Table.Evict.{
  evict_dead-SameRest, lookup-evict_dead, length-evict_dead, evict_dead-Distinct,
}
use kobra_game.Session.Table.Log.{emit-log, log_evictions-log, reject_bootstrap-log}
use kobra_game.Session.Operations.{
  exchange_found, get_looked_up, Result, ok, err, lower_writer, new_bootstrap_token, establish,
  log_established, exchange_token, exchange, get_found, get, reap, clear, check_csrf, claim_writer,
  release_writer,
}
use kobra_game.Session.Quota.{at_least_zero, limit_or, roll_window, charge, allow_at, allow}
use kobra_game.Session.Invariant.{
  Inv, IsTable-shrink, IsTable-delete, IsTable-update, IsTable-insert, new_store-Inv,
}
use kobra_game.Session.Runs.{
  Call, issues, exchanges, gets, reaps, clears, checks, claims, releases, allows, step, run,
}

-- A call with an answer leaves a well-formed table.
record Keeps {A : Type 0} (r : A × Store) : Type 0 where
  at : Inv r.1

keeps : {A : Type 0} (a : A) (s : Store) → Inv s → Keeps (a, s)
keeps a s i = record { at = i }

emit-Inv : (e : Event) (s : Store) → Inv s → Inv (emit e s)
emit-Inv e s i = rw emit-log (record { table = i.table })

log_evictions-Inv : (es : List (String × Reason)) (s : Store) → Inv s → Inv (log_evictions es s)
log_evictions-Inv es s i = rw log_evictions-log (record { table = i.table })

reject_bootstrap-Inv : (o : String) (r : Reason) (s : Store) → Inv s → Inv (reject_bootstrap o r s)
reject_bootstrap-Inv o r s i = rw reject_bootstrap-log (record { table = i.table })

evict_dead-Inv : (now : Time) (s : Store) → Inv s → Inv (evict_dead now s).0
evict_dead-Inv now s i =
    let same = evict_dead-SameRest now s in
    let t = (evict_dead now s).0 in
    record {
      table =
          rw (same.heap, same.next, same.max_sessions)
            (IsTable-shrink i.table t.sessions (evict_dead-Distinct now s i.table.distinct)
              (length-evict_dead now s) (λ k a e. ground (arith, lookup-evict_dead now s k)));
    }

delete_session-Inv : (id : String) (s : Store) → Inv s → Inv (delete_session id s)
unfolding delete_session
delete_session-Inv id s i = record { table = IsTable-delete i.table id }

-- A write to a session that keeps its id, under any writer.
write-Inv :
    (a : ℕ) (x : Session) (w : String) (s : Store)
    → x.id ≡ (s.heap a).id
    → Inv s
    → Inv (record s { heap = update s.heap a x; writer_id = w })
write-Inv a x w s same i = record { table = IsTable-update i.table a x same }

establish-Inv :
    (token origin : String) (now : Time) (b : BootstrapToken) (id csrf : Option String) (s : Store)
    → leb_ℤ s.max_sessions (pos (length s.sessions)) ≡ false
    → Inv s
    → Inv (establish token origin now b id csrf s).1
unfolding establish
establish-Inv token origin now b none csrf s room i = i
establish-Inv token origin now b (some id) none s room i = i
establish-Inv token origin now b (some id) (some csrf) s room i = record {
  table = IsTable-insert i.table id _ refl room;
}

log_established-Inv : (r : Result ℕ) (o : String) (s : Store) → Inv s → Inv (log_established r o s)
unfolding log_established
log_established-Inv (ok a) o s i = emit-Inv _ s i
log_established-Inv (err e) o s i = i

exchange_token-Inv :
    (token origin : String) (now : Time) (b : BootstrapToken) (id csrf : Option String) (s : Store)
    → Inv s
    → Keeps (exchange_token token origin now b id csrf s)
unfolding exchange_token
exchange_token-Inv token origin now b id csrf s i =
    let (s1, evicted) = evict_dead now s in
    let i1 = evict_dead-Inv now s i in
    let (r, s2) = establish token origin now b id csrf s1 in
    let dropped = record s { tokens = delete token s.tokens } in
    elim (Bool-cases b.used) [
      | inl e ↦ rw e (keeps _ _ (reject_bootstrap-Inv origin used s i))
      | inr e ↦ rw e (elim (Bool-cases (leb_ℤ s.bootstrap_ttl (sub_time now b.created))) [
        | inl e' ↦
            rw e'
              (keeps _ _ (reject_bootstrap-Inv origin expired dropped (record { table = i.table })))
        | inr e' ↦ rw e' (elim (Bool-cases (leb_ℤ s1.max_sessions (pos (length s1.sessions)))) [
          | inl full ↦
              rw full (
                keeps _ _
                  (reject_bootstrap-Inv origin capacity _ (log_evictions-Inv evicted s1 i1)))
          | inr room ↦ rw room (
              keeps _ _ (
                log_established-Inv r origin _ (
                  log_evictions-Inv evicted s2
                    (establish-Inv token origin now b id csrf s1 room i1))))
        ])
      ])
    ]

exchange_found-Inv :
    (token origin : String) (now : Time) (id csrf : Option String) (o : Option BootstrapToken)
    (s : Store)
    → Inv s
    → Inv (exchange_found token origin now id csrf o s).1
unfolding exchange_found
exchange_found-Inv token origin now id csrf none s i = reject_bootstrap-Inv origin unknown s i
exchange_found-Inv token origin now id csrf (some b) s i =
    (exchange_token-Inv token origin now b id csrf s i).at

get_found-Inv :
    (cookie : String) (now : Time) (a : ℕ) (r : Option Reason) (s : Store)
    → Inv s
    → Inv (get_found cookie now a r s).1
unfolding get_found
get_found-Inv cookie now a none s i = write-Inv a _ s.writer_id s refl i
get_found-Inv cookie now a (some r) s i = emit-Inv _ _ (delete_session-Inv cookie s i)

get_looked_up-Inv :
    (cookie : String) (now : Time) (o : Option ℕ) (s : Store)
    → Inv s
    → Inv (get_looked_up cookie now o s).1
unfolding get_looked_up
get_looked_up-Inv cookie now none s i = i
get_looked_up-Inv cookie now (some a) s i = get_found-Inv cookie now a _ s i

reap-Inv : (now : Time) (s : Store) → Inv s → Inv (reap now s)
unfolding reap
reap-Inv now s i =
    let (s1, evicted) = evict_dead now s in
    log_evictions-Inv evicted _ (record { table = (evict_dead-Inv now s i).table })

claim_writer-Inv : (p : Option ℕ) (s : Store) → Inv s → Keeps (claim_writer p s)
unfolding claim_writer
claim_writer-Inv none s i = keeps _ _ i
claim_writer-Inv (some a) s i = elim (Bool-cases (str_eq s.writer_id "")) [
  | inl e ↦ rw e (keeps _ _ (write-Inv a _ (s.heap a).id s refl i))
  | inr e ↦ rw e (elim (Bool-cases (str_eq s.writer_id (s.heap a).id)) [
    | inl e' ↦ rw e' (keeps _ _ (write-Inv a _ s.writer_id s refl i))
    | inr e' ↦ rw e' (keeps _ _ i)
  ])
]

lower_writer-Inv : (o : Option ℕ) (s : Store) → Inv s → Inv (lower_writer o s)
lower_writer-Inv none s i = i
lower_writer-Inv (some a) s i = write-Inv a _ s.writer_id s refl i

release_writer-Inv : (id : String) (s : Store) → Inv s → Inv (release_writer id s)
unfolding release_writer
release_writer-Inv id s i = ground (
  arith,
  lower_writer-Inv (lookup id s.sessions) (record s { writer_id = "" })
      (record { table = i.table }),
)

id-roll_window : (now : Time) (x : Session) → (roll_window now x).id ≡ x.id
unfolding roll_window
id-roll_window now x = ground arith

charge-Inv :
    (now : Time) (a : ℕ) (x : Session) (n w b : ℤ) (s : Store)
    → x.id ≡ (s.heap a).id
    → Inv s
    → Keeps (charge now a x n w b s)
unfolding charge
charge-Inv now a x n w b s same i =
    let rolled = write-Inv a x s.writer_id s same i in
    elim (Bool-cases (ltb_ℤ (pos 0) w && ltb_ℤ w (wrap64 (x.writes +ℤ pos 1)))) [
      | inl e ↦ rw e (keeps _ _ (emit-Inv _ _ rolled))
      | inr e ↦ rw e (elim (Bool-cases (ltb_ℤ (pos 0) b && ltb_ℤ b (wrap64 (x.bytes +ℤ n)))) [
        | inl e' ↦ rw e' (keeps _ _ (emit-Inv _ _ rolled))
        | inr e' ↦ rw e' (keeps _ _ (write-Inv a _ s.writer_id s same i))
      ])
    ]

allow_at-Inv : (now : Time) (a : ℕ) (n w b : ℤ) (s : Store) → Inv s → Keeps (allow_at now a n w b s)
unfolding allow_at
allow_at-Inv now a n w b s i =
    charge-Inv now a (roll_window now (s.heap a)) n w b s (id-roll_window now (s.heap a)) i

allow-Inv :
    (now : Time) (p : Option ℕ) (n w b : ℤ) (s : Store) → Inv s → Inv (allow now p n w b s).1
unfolding allow
allow-Inv now none n w b s i = i
allow-Inv now (some a) n w b s i =
    (allow_at-Inv now a (at_least_zero n) (limit_or w default_writes_per_minute)
      (limit_or b default_bytes_per_minute) s i).at

clear-Inv : (s : Store) → Inv s → Inv (clear s)
unfolding clear lookup
clear-Inv s i = record {
  table = record {
    distinct = tt;
    bounded = omega (arith, i.table.bounded);
    allocated = λ k a e. cc;
    coherent = λ k a e. cc;
  };
}

check_csrf-Inv :
    (cookie header : String) (p : Option ℕ) (origin : String) (s : Store)
    → Inv s
    → Inv (check_csrf cookie header p origin s).1
unfolding check_csrf
check_csrf-Inv cookie header p origin s i = ground (arith, emit-Inv (csrf_reject origin) s i)

pub step-Inv : (c : Call) (s : Store) → Inv s → Inv (step c s)
unfolding step
step-Inv (issues now none) s i = unfold new_bootstrap_token in i
step-Inv (issues now (some t)) s i =
    unfold new_bootstrap_token in emit-Inv _ _ (record { table = i.table })
step-Inv (exchanges token origin now id csrf) s i =
    unfold exchange in exchange_found-Inv token origin now id csrf (lookup token s.tokens) s i
step-Inv (gets cookie now) s i =
    unfold get in get_looked_up-Inv cookie now (lookup cookie s.sessions) s i
step-Inv (reaps now) s i = reap-Inv now s i
step-Inv clears s i = clear-Inv s i
step-Inv (checks cookie header p origin) s i = check_csrf-Inv cookie header p origin s i
step-Inv (claims p) s i = (claim_writer-Inv p s i).at
step-Inv (releases id) s i = release_writer-Inv id s i
step-Inv (allows now p n w b) s i = allow-Inv now p n w b s i

run-Inv : (cs : List Call) (s : Store) → Inv s → Inv (run cs s)
unfolding run
run-Inv [] s i = i
run-Inv (c ∷ cs) s i = run-Inv cs (step c s) (step-Inv c s i)

-- After any calls on a new store, in any order and with any arguments, stale pointers included:
-- every key of the session table has one entry, there are at most `max_sessions` entries, and
-- each entry points to an allocated session whose id is its key.
pub sessions_well_formed : (o : Options) (cs : List Call) → Inv (run cs (new_store o))
sessions_well_formed o cs = run-Inv cs (new_store o) (new_store-Inv o)
