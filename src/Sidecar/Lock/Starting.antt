-- ===== src/Sidecar/Lock/Starting.antt =====
-- Two launchers, one lock: before and after the first has recorded its port
-- (launcher/internal/sidecar/lock.go; the launcher acquires the lock with port 0).
use kobra_game.Base.{
  ℕ, suc, String, Bool, true, false, not, none, some, ◌≡◌, refl, ap, ◌∙◌, List, [], ◌==◌, eq_iff,
  arith, Bool-cases, inl, inr, if◌then◌else◌,
}
use kobra_game.Base.Int.{pos, leb_ℤ}
use kobra_game.Base.Faults.{Fault, returned, attempt}
use kobra_game.Sidecar.Lock
use kobra_game.Sidecar.Lock.Holding.{Owns, granted}

-- The machine sees the process that the document names: it runs, the file is from after the boot,
-- and it answers on its port as itself.
pub record Serves (m : Lock.Machine) (i : Lock.LockInfo) : Type 0 where
  pub has_pid : leb_ℤ i.pid (pos 0) ≡ false
  pub since_boot : Lock.predates m.boot_time m.lock_mtime ≡ false
  pub runs : m.pid_exists i.pid ≡ true
  pub has_port : (i.port == 0) ≡ false
  pub answers :
      m.fetch_health i.port
      ≡ some (record { app = "kobra-launcher"; game_id = i.game_id; instance_id = i.instance_id })

-- The process that runs under the recorded number has another start time than the recorded one.
abbrev pub seen_reused : Lock.Machine → Lock.LockInfo → Bool
seen_reused m i = Lock.reused (m.process_start i.pid) (m.parse_time i.start_time)

-- All but the start time speaks for the process.
Serves-live :
    (m : Lock.Machine)
    → (i : Lock.LockInfo) → Serves m i
    → (Lock.check_liveness m i).0 ≡ not (seen_reused m i)
unfolding Lock.check_liveness
Serves-live m i s = elim (Bool-cases (seen_reused m i)) [
  | inl e ↦ rw (s.has_pid, s.since_boot, s.runs, e) refl
  | inr e ↦
      rw (s.has_pid, s.since_boot, s.runs, e, s.has_port, s.answers)
        (ground (
          arith,
          eq_iff "kobra-launcher" "kobra-launcher",
          eq_iff i.game_id i.game_id,
          eq_iff i.instance_id i.instance_id,
        ))
]

-- Without a port the owner does not count as live.
no_port-stale :
    (m : Lock.Machine) → (i : Lock.LockInfo) → i.port ≡ 0 → (Lock.check_liveness m i).0 ≡ false
unfolding Lock.check_liveness
no_port-stale m i p = ground (arith, p)

acquire-live :
    (m : Lock.Machine)
    → (i old : Lock.LockInfo) → (file : ℕ) → (d : Lock.Dir)
    → d.entry ≡ some (record { inode = file; content = Lock.document old })
    → (Lock.check_liveness m old).0 ≡ true
    → Lock.acquire_lock m i d [] ≡ returned (Lock.held old false) d []
unfolding attempt
acquire-live m i old file d p live = rw (p, live) refl

-- What a process that reclaims the file has.
abbrev pub retaken : Lock.LockInfo → Lock.Dir → Lock.Lock
retaken i d = record { inode = d.next; info = i; reclaim = true; released = false }

abbrev pub retaken_dir : Lock.LockInfo → Lock.Dir → Lock.Dir
retaken_dir i d = record {
  entry = some (record { inode = d.next; content = Lock.document i });
  next = suc d.next;
}

acquire-stale :
    (m : Lock.Machine)
    → (i old : Lock.LockInfo) → (file : ℕ) → (d : Lock.Dir)
    → d.entry ≡ some (record { inode = file; content = Lock.document old })
    → (Lock.check_liveness m old).0 ≡ false
    → Lock.acquire_lock m i d [] ≡ returned (Lock.acquired (retaken i d)) (retaken_dir i d) []
unfolding attempt
acquire-stale m i old file d p stale = rw (p, stale) refl

-- The lock is completed in its own file.
set_port-Owns :
    (port : ℕ)
    → (inst : String) → (l : Lock.Lock) → (d : Lock.Dir) → Owns l d
    → l.released ≡ false
    → (Lock.set_port port inst l d).1.entry
      ≡ some (record { inode = l.inode; content = Lock.document (Lock.completed port inst l.info) })
set_port-Owns port inst l d (o, n) r = rw (r, o) (ground arith)

-- What the next launcher finds after `SetPort`.
set_port-entry :
    (m0 : Lock.Machine)
    → (i0 : Lock.LockInfo) → (port : ℕ) → (inst : String) → (l : Lock.Lock) → (d d1 : Lock.Dir)
    → (fs gs : List Fault) → Lock.acquire_lock m0 i0 d fs ≡ returned (Lock.acquired l) d1 gs
    → (Lock.set_port port inst l d1).1.entry
      ≡ some (record { inode = l.inode; content = Lock.document (Lock.completed port inst i0) })
set_port-entry m0 i0 port inst l d d1 fs gs p =
    let (o, e, r) = granted m0 i0 l d d1 fs gs p in
    set_port-Owns port inst l d1 o r
    ∙ ap
        (λ x.
          some (record { inode = l.inode; content = Lock.document (Lock.completed port inst x) }))
        e

-- Whether a launcher that serves keeps its lock is decided by its start time alone. It was given the
-- lock, whatever failed on the way; no other launcher acted before it recorded its port and its
-- instance; and it runs, its file is from after the boot, and it answers on its port as itself. The
-- next launcher, whose own operations on the disk succeed, is given the lock in a new file where the
-- process's start time and the recorded one are both known and more than two seconds apart, and is
-- refused with the first one's identity, changing nothing, in every other case.
pub serving_lock_decided :
    (m0 m : Lock.Machine)
    → (i0 i : Lock.LockInfo) → (port : ℕ) → (inst : String) → (l : Lock.Lock) → (d d1 : Lock.Dir)
    → (fs gs : List Fault) → Lock.acquire_lock m0 i0 d fs ≡ returned (Lock.acquired l) d1 gs
    → Serves m (Lock.completed port inst i0)
    → let known = Lock.set_port port inst l d1 in
      Lock.acquire_lock m i known.1 [] ≡ (
        if Lock.reused (m.process_start i0.pid) (m.parse_time i0.start_time)
        then returned (Lock.acquired (retaken i known.1)) (retaken_dir i known.1) []
        else returned (Lock.held (Lock.completed port inst i0) false) known.1 [])
serving_lock_decided m0 m i0 i port inst l d d1 fs gs p s =
    let now = Lock.completed port inst i0 in
    let here = (Lock.set_port port inst l d1).1 in
    let found = set_port-entry m0 i0 port inst l d d1 fs gs p in
    let live = Serves-live m now s in
    elim (Bool-cases (seen_reused m now)) [
      | inl e ↦ acquire-stale m i now l.inode here found (live ∙ ap not e) ∙ rw e refl
      | inr e ↦ acquire-live m i now l.inode here found (live ∙ ap not e) ∙ rw e refl
    ]

-- A launcher that was given the lock and has not recorded its port yet does not keep it: any other
-- launcher whose operations on the disk succeed is given it too, whatever its machine says of the
-- first. Then the first one's port reaches no file that has the name, and its release removes the
-- file of the second.
pub starting_lock_taken :
    (m0 m : Lock.Machine)
    → (i0 i : Lock.LockInfo) → (port : ℕ) → (inst : String) → (l : Lock.Lock) → (d d1 : Lock.Dir)
    → (fs gs : List Fault) → i0.port ≡ 0
    → Lock.acquire_lock m0 i0 d fs ≡ returned (Lock.acquired l) d1 gs
    → (k : Lock.Lock) × (d2 : Lock.Dir) × (Lock.acquire_lock m i d1 []
        ≡ returned (Lock.acquired k) d2 [])
      × Owns k d2
      × ((Lock.set_port port inst l d2).1.entry ≡ d2.entry)
      × ((Lock.release l d2).1.entry ≡ none)
starting_lock_taken m0 m i0 i port inst l d d1 fs gs p a =
    let (o, e, r) = granted m0 i0 l d d1 fs gs a in
    (
      retaken i d1,
      retaken_dir i d1,
      acquire-stale m i i0 l.inode d1
          (o.0 ∙ ap (λ x. some (record { inode = l.inode; content = Lock.document x })) e)
          (no_port-stale m i0 p),
      (refl, refl),
      rw (r, o.1) (ground arith),
      rw r refl,
    )
