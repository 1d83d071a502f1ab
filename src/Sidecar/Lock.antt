-- ===== src/Sidecar/Lock.antt =====
-- The instance lock of launcher/internal/sidecar/lock.go: the file, whether its owner is live, and
-- acquiring, completing and releasing it. An operation on the disk can fail, or the power be lost.
pub mod Holding
pub mod Starting
use kobra_game.Base.{
  ℕ, zero, suc, ◌+◌, String, Bool, true, false, not, Option, none, some, ◌==◌, str_eq, ◌&&◌, ◌||◌,
  if◌then◌else◌,
}
use kobra_game.Base.Int.{ℤ, pos, negsuc, leb_ℤ, ltb_ℤ, ◌-ℤ◌}
use kobra_game.Base.Faults.{Faulty, pure, ◌>>=◌, ◌>>◌, attempt, atomic}

pub record LockInfo : Type 0 where
  pub schema : String
  pub pid : ℤ
  pub start_time : String
  pub launcher_version : String
  pub game_id : String
  pub port : ℕ
  pub instance_id : String

-- The content of the file: a document, or bytes that do not decode, as those of a new file.
pub data Content : Type 0 where
  document : LockInfo → Content
  undecodable : Content

pub record Entry : Type 0 where
  pub inode : ℕ
  pub content : Content

-- instance.lock, and the number of the next file.
pub record Dir : Type 0 where
  pub entry : Option Entry
  pub next : ℕ

-- A `Lock` in a process's hands; its open file is `inode`.
pub record Lock : Type 0 where
  pub inode : ℕ
  pub info : LockInfo
  pub reclaim : Bool
  pub released : Bool

pub data LockState : Type 0 where
  lock_absent lock_stale : LockState

-- `ReadLock`; `none` is a file that cannot be read.
abbrev pub read_content : Content → Option LockInfo × LockState
read_content (document i) = (some i, lock_stale)
read_content undecodable = (none, lock_stale)

abbrev pub read_lock : Option Entry → Option LockInfo × LockState
read_lock none = (none, lock_absent)
read_lock (some e) = read_content e.content

pub record HealthResponse : Type 0 where
  pub app : String
  pub game_id : String
  pub instance_id : String

-- What the operating system and the loopback answer, times in nanoseconds.
pub record Machine : Type 0 where
  pub boot_time : Option ℤ
  pub lock_mtime : Option ℤ
  pub pid_exists : ℤ → Bool
  pub process_start : ℤ → Option ℤ
  pub parse_time : String → Option ℤ
  pub fetch_health : ℕ → Option HealthResponse

abbrev pub predates : Option ℤ → Option ℤ → Bool
predates (some boot) (some mtime) = ltb_ℤ mtime boot
predates _ _ = false

-- More than two seconds apart.
abbrev pub reused : Option ℤ → Option ℤ → Bool
reused (some st) (some recorded) =
    ltb_ℤ (pos 2000000000) (st -ℤ recorded) || ltb_ℤ (st -ℤ recorded) (negsuc 1999999999)
reused _ _ = false

abbrev pub healthy : LockInfo → Option HealthResponse → Bool × String
healthy info none = (false, "health_unreachable")
healthy info (some h) =
    if not (str_eq h.app "kobra-launcher") || not (str_eq h.game_id info.game_id)
    then (false, "health_mismatch")
    else if not (str_eq info.instance_id "") && not (str_eq h.instance_id info.instance_id)
    then (false, "health_instance_mismatch")
    else (true, "")

-- `CheckLiveness`
unfoldable pub check_liveness : Machine → LockInfo → Bool × String
check_liveness m info =
    if leb_ℤ info.pid (pos 0)
    then (false, "invalid_pid")
    else if predates m.boot_time m.lock_mtime
    then (false, "predates_boot")
    else if not (m.pid_exists info.pid)
    then (false, "pid_missing")
    else if reused (m.process_start info.pid) (m.parse_time info.start_time)
    then (false, "pid_reused")
    else if info.port == 0
    then (false, "no_port")
    else healthy info (m.fetch_health info.port)

pub data Acquired : Type 0 where
  acquired : Lock → Acquired
  held : LockInfo → (race : Bool) → Acquired
  starting_race io_error : Acquired

abbrev pub unlink : Dir → Dir
unlink d = record d { entry = none }

abbrev pub create_file : Dir → Dir
create_file d = record {
  entry = some (record { inode = d.next; content = undecodable });
  next = suc d.next;
}

abbrev pub fill : Content → Option Entry → Option Entry
fill c none = none
fill c (some e) = some (record e { content = c })

abbrev pub write_file : Content → Dir → Dir
write_file c d = record d { entry = fill c d.entry }

abbrev pub lost_race : Option LockInfo → Acquired
lost_race none = starting_race
lost_race (some i) = held i true

-- Removing the file after a failed write.
abbrev pub clean_up : Faulty Dir Acquired
clean_up = atomic unlink >>= λ _. pure io_error

module _ (info : LockInfo) (reclaimed : Bool) (file : ℕ) where
  abbrev pub lock_synced : Bool → Faulty Dir Acquired
  lock_synced false = clean_up
  lock_synced true =
      pure (acquired (record { inode = file; info = info; reclaim = reclaimed; released = false }))

  abbrev pub lock_written : Bool → Faulty Dir Acquired
  lock_written false = clean_up
  lock_written true = atomic (λ d. d) >>= lock_synced

  abbrev pub lock_created : Bool → Faulty Dir Acquired
  lock_created false = pure io_error
  lock_created true = attempt (write_file (document info)) (write_file undecodable) >>= lock_written

module _ (info : LockInfo) (reclaimed : Bool) where
  -- The file is there, or it is created.
  abbrev pub create_exclusive : Option Entry → Faulty Dir Acquired
  create_exclusive (some e) = pure (lost_race (read_content e.content).0)
  create_exclusive none = λ d. (atomic create_file >>= lock_created info reclaimed d.next) d

  -- `createLock`; `info` is what it records.
  abbrev pub create_lock : Faulty Dir Acquired
  create_lock = λ d. create_exclusive d.entry d

module _ (m : Machine) (info : LockInfo) where
  abbrev pub removed_stale : Bool → Faulty Dir Acquired
  removed_stale false = pure io_error
  removed_stale true = create_lock info true

  abbrev pub reclaim_stale : Faulty Dir Acquired
  reclaim_stale = atomic unlink >>= removed_stale

  abbrev pub unless_live : LockInfo → Bool → Faulty Dir Acquired
  unless_live old true = pure (held old false)
  unless_live old false = reclaim_stale

  abbrev pub on_found : Option LockInfo × LockState → Faulty Dir Acquired
  on_found (_, lock_absent) = create_lock info false
  on_found (none, lock_stale) = reclaim_stale
  on_found (some old, lock_stale) = unless_live old (check_liveness m old).0

  -- A file that cannot be read counts as none.
  abbrev pub on_read : Bool → Faulty Dir Acquired
  on_read false = create_lock info false
  on_read true = λ d. on_found (read_lock d.entry) d

  abbrev pub dir_made : Bool → Faulty Dir Acquired
  dir_made false = pure io_error
  dir_made true = atomic (λ d. d) >>= on_read

  -- `AcquireLock`
  abbrev pub acquire_lock : Faulty Dir Acquired
  acquire_lock = atomic (λ d. d) >>= dir_made

-- `SetPort`, where the writes succeed: what the file of the lock then holds, if it still has its
-- name, and the lock.
abbrev pub completed : ℕ → String → LockInfo → LockInfo
completed port inst i = record i {
  port = port;
  instance_id = if str_eq inst "" then i.instance_id else inst;
}

abbrev pub fill_own : ℕ → Content → Option Entry → Option Entry
fill_own file c none = none
fill_own file c (some e) = if e.inode == file then some (record e { content = c }) else some e

abbrev pub set_port : ℕ → String → Lock → Dir → Option Lock × Dir
set_port port inst l d = if l.released then (none, d) else (
  some (record l { info = completed port inst l.info }),
  record d { entry = fill_own l.inode (document (completed port inst l.info)) d.entry },
)

-- `Release`, where the file can be removed.
abbrev pub release : Lock → Dir → Lock × Dir
release l d = if l.released then (l, d) else (record l { released = true }, unlink d)
