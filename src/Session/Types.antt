-- ===== src/Session/Types.antt =====
-- The state of launcher/internal/session/session.go. A `*Session` is an address: the table maps
-- cookie values to addresses, and `heap` holds the sessions, so that a caller's pointer outlives
-- its entry in the table. A `time.Time` is its nanoseconds since year 1, whose zero is `IsZero`; a
-- `time.Duration` is its nanoseconds.
use kobra_game.Base.{ℕ, String, Dict, [], ◌∷◌, ◌++◌, List, Bool, false, ◌==◌, if◌then◌else◌}
use kobra_game.Base.Int.{ℤ, pos, ◌-ℤ◌, leb_ℤ, saturate64}

abbrev pub Time : Type 0
Time = ℤ

abbrev pub Duration : Type 0
Duration = ℤ

-- `t.Sub(u)`
unfoldable pub sub_time : Time → Time → Duration
sub_time t u = saturate64 (t -ℤ u)

abbrev pub is_zero : ℤ → Bool
is_zero (pos n) = n == 0
is_zero _ = false

abbrev pub default_bootstrap_ttl : Duration
default_bootstrap_ttl = pos 120_000_000_000

abbrev pub default_session_ttl : Duration
default_session_ttl = pos 28_800_000_000_000

abbrev pub default_inactivity : Duration
default_inactivity = pos 1_800_000_000_000

abbrev pub default_max_sessions : ℤ
default_max_sessions = pos 16

abbrev pub default_writes_per_minute : ℤ
default_writes_per_minute = pos 100

abbrev pub default_bytes_per_minute : ℤ
default_bytes_per_minute = pos 67_108_864

abbrev pub second : ℕ
second = 1_000_000_000

abbrev pub quota_window : ℕ
quota_window = 60_000_000_000

pub data Reason : Type 0 where
  expired inactive unknown used capacity : Reason

pub record Session : Type 0 where
  pub id : String
  pub csrf : String
  pub created : Time
  pub last_active : Time
  pub writer : Bool
  pub window_start : Time
  pub writes : ℤ  -- int
  pub bytes : ℤ  -- int64

-- `*bootstrapToken`: reachable through its map entry only.
pub record BootstrapToken : Type 0 where
  pub created : Time
  pub used : Bool

-- What the logger is handed.
pub data Event : Type 0 where
  bootstrap_issued : Event
  established : (sid origin : String) → Event
  bootstrap_rejected : (origin : String) → Reason → Event
  session_expired : (sid : String) → Reason → Event
  csrf_reject : (origin : String) → Event
  quota_exceeded : (sid kind : String) → Event

pub record Options : Type 0 where
  pub bootstrap_ttl : Duration
  pub session_ttl : Duration
  pub inactivity : Duration
  pub max_sessions : ℤ
  pub logger : Bool  -- whether `Logger` is not nil

pub record Store : Type 0 where
  pub sessions : Dict ℕ
  pub tokens : Dict BootstrapToken
  pub heap : ℕ → Session
  pub next : ℕ  -- the next free address
  pub writer_id : String
  pub bootstrap_ttl : Duration
  pub session_ttl : Duration
  pub inactivity : Duration
  pub max_sessions : ℤ
  pub logger : Bool
  pub log : List Event

-- A write through a pointer.
abbrev pub update : (ℕ → Session) → ℕ → Session → ℕ → Session
update h a v b = if a == b then v else h b

abbrev nothing : Session
nothing = record {
  id = "";
  csrf = "";
  created = pos 0;
  last_active = pos 0;
  writer = false;
  window_start = pos 0;
  writes = pos 0;
  bytes = pos 0;
}

abbrev or_default : ℤ → ℤ → ℤ
or_default z d = if is_zero z then d else z

unfoldable pub new_store : Options → Store
new_store o = record {
  sessions = [];
  tokens = [];
  heap = λ a. nothing;
  next = 0;
  writer_id = "";
  bootstrap_ttl = or_default o.bootstrap_ttl default_bootstrap_ttl;
  session_ttl = or_default o.session_ttl default_session_ttl;
  inactivity = or_default o.inactivity default_inactivity;
  max_sessions = if leb_ℤ o.max_sessions (pos 0) then default_max_sessions else o.max_sessions;
  logger = o.logger;
  log = [];
}

-- `s.info` and `s.warn`
unfoldable pub emit : Event → Store → Store
emit e s = if s.logger then record s { log = s.log ++ e ∷ [] } else s
