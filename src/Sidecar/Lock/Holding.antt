-- ===== src/Sidecar/Lock/Holding.antt =====
-- Who holds the lock of launcher/internal/sidecar/lock.go.
use mathlib.Core.Path.{subst}
use kobra_game.Base.{suc, Bool, true, false, Option, none, some, ◌≡◌, refl, List}
use kobra_game.Base.Faults.{Fault, returned, pure}
use kobra_game.Base.Faults.Triple.{Ends, Always, attempt_rule, atomic_rule}
use kobra_game.Sidecar.Lock

-- The lock's own file has the name, with what the lock records, and is the latest one.
abbrev pub Owns : Lock.Lock → Lock.Dir → Type 0
Owns l d =
    (d.entry ≡ some (record { inode = l.inode; content = Lock.document l.info }))
    × (d.next ≡ suc l.inode)

-- What a success says.
abbrev pub Granted : Lock.LockInfo → Lock.Acquired → Lock.Dir → Type 0
Granted i (Lock.acquired l) d = Owns l d × (l.info ≡ i) × (l.released ≡ false)
Granted i (Lock.held j race) d = Unit
Granted i Lock.starting_race d = Unit
Granted i Lock.io_error d = Unit

abbrev pub Anywhere : Lock.Dir → Type 0
Anywhere d = Unit

module _ (i : Lock.LockInfo) where
  clean_up-Granted : (d : Lock.Dir) → Always Anywhere (Granted i) Lock.clean_up d
  clean_up-Granted d =
      atomic_rule Anywhere (Granted i) _ (λ _. pure Lock.io_error) d tt (λ _. tt) (λ _. tt)

  create-Granted :
      (b : Bool)
      → (e : Option Lock.Entry) → (d : Lock.Dir) → d.entry ≡ e
      → Always Anywhere (Granted i) (Lock.create_exclusive i b e) d
  create-Granted b (some e) d p = λ _. raced (Lock.read_content e.content).0
    where
      raced : (o : Option Lock.LockInfo) → Granted i (Lock.lost_race o) d
      raced none = tt
      raced (some j) = tt
  create-Granted b none d p =
      atomic_rule Anywhere (Granted i) _ (Lock.lock_created i b d.next) d tt
        (attempt_rule Anywhere (Granted i) _ _ (Lock.lock_written i b d.next) (Lock.create_file d)
          tt tt
          (atomic_rule Anywhere (Granted i) _ (Lock.lock_synced i b d.next)
            (Lock.write_file (Lock.document i) (Lock.create_file d)) tt
            (λ _. ((refl, refl), refl, refl)) (clean_up-Granted _))
          (clean_up-Granted _) (clean_up-Granted _))
        (λ _. tt)

  reclaim-Granted :
      (m : Lock.Machine) → (d : Lock.Dir) → Always Anywhere (Granted i) (Lock.reclaim_stale m i) d
  reclaim-Granted m d =
      atomic_rule Anywhere (Granted i) _ (Lock.removed_stale m i) d tt
        (create-Granted true none (Lock.unlink d) refl) (λ _. tt)

  unless_live-Granted :
      (m : Lock.Machine)
      → (old : Lock.LockInfo) → (b : Bool) → (d : Lock.Dir)
      → Always Anywhere (Granted i) (Lock.unless_live m i old b) d
  unless_live-Granted m old true d = λ _. tt
  unless_live-Granted m old false d = reclaim-Granted m d

  found-Granted :
      (m : Lock.Machine)
      → (e : Option Lock.Entry) → (d : Lock.Dir) → d.entry ≡ e
      → Always Anywhere (Granted i) (Lock.on_found m i (Lock.read_lock e)) d
  found-Granted m none d p = create-Granted false d.entry d refl
  found-Granted m (some e) d p = found e.content
    where
      found :
          (c : Lock.Content)
          → Always Anywhere (Granted i) (Lock.on_found m i (Lock.read_content c)) d
      found Lock.undecodable = reclaim-Granted m d
      found (Lock.document old) = unless_live-Granted m old (Lock.check_liveness m old).0 d

  -- However the operations on the disk go, a process that is given the lock owns its file, which
  -- records exactly the process's identity.
  pub acquire_lock-Granted :
      (m : Lock.Machine) → (d : Lock.Dir) → Always Anywhere (Granted i) (Lock.acquire_lock m i) d
  acquire_lock-Granted m d =
      atomic_rule Anywhere (Granted i) _ (Lock.dir_made m i) d tt
        (atomic_rule Anywhere (Granted i) _ (Lock.on_read m i) d tt (found-Granted m d.entry d refl)
          (create-Granted false d.entry d refl))
        (λ _. tt)

pub granted :
    (m : Lock.Machine)
    → (i : Lock.LockInfo) → (l : Lock.Lock) → (d after_ : Lock.Dir) → (fs gs : List Fault)
    → Lock.acquire_lock m i d fs ≡ returned (Lock.acquired l) after_ gs
    → Granted i (Lock.acquired l) after_
granted m i l d after_ fs gs p = subst (Ends Anywhere (Granted i)) p (acquire_lock-Granted i m d fs)
