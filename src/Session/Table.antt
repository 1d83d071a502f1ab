-- ===== src/Session/Table.antt =====
-- Liveness, eviction and events of launcher/internal/session/session.go.
pub mod Evict
pub mod Log
use Prim.Native.String.{len, slice}
use kobra_game.Base.{
  ℕ, String, Dict, [], ◌∷◌, ◌++◌, List, Option, none, some, leb, delete, str_eq, if◌then◌else◌,
}
use kobra_game.Base.Int.{leb_ℤ}
use kobra_game.KobraErr.Types.{KobraError}
use kobra_game.Session.Types.{
  Time, Reason, expired, inactive, Session, bootstrap_rejected, session_expired, Store, sub_time,
  emit,
}

pub data Result {ℓ} (A : Type ℓ) : Type ℓ where
  ok : A → Result A
  err : KobraError → Result A

unfoldable pub short_id : String → String
short_id id = if leb (len id) 4 then id else slice id 0 4

-- `none` is the empty reason: the session is live.
unfoldable pub dead_reason : Store → Time → Session → Option Reason
dead_reason s now sess =
    if leb_ℤ s.session_ttl (sub_time now sess.created)
    then some expired
    else if leb_ℤ s.inactivity (sub_time now sess.last_active)
    then some inactive
    else none

unfoldable pub delete_session : String → Store → Store
delete_session id s = record s {
  sessions = delete id s.sessions;
  writer_id = if str_eq s.writer_id id then "" else s.writer_id;
}

abbrev pub Eviction : Type 0
Eviction = String × Reason

unfoldable pub evict_one :
    Option Reason → String → Session → Store → List Eviction → Store × List Eviction
unfolding delete_session
evict_one none id sess s out = (s, out)
evict_one (some reason) id sess s out =
    (delete_session id s, out ++ (short_id sess.id, reason) ∷ [])

-- The loop over the table, on the entries that are left to visit.
unfoldable pub evict_loop : Time → Dict ℕ → Store → List Eviction → Store × List Eviction
unfolding evict_one
evict_loop now [] s out = (s, out)
evict_loop now ((id, a) ∷ entries) s out =
    let (s', out') = evict_one (dead_reason s now (s.heap a)) id (s.heap a) s out in
    evict_loop now entries s' out'

unfoldable pub evict_dead : Time → Store → Store × List Eviction
unfolding evict_loop
evict_dead now s = evict_loop now s.sessions s []

unfoldable pub log_evictions : List Eviction → Store → Store
unfolding emit
log_evictions [] s = s
log_evictions ((sid, reason) ∷ es) s = log_evictions es (emit (session_expired sid reason) s)

unfoldable pub reject_bootstrap : String → Reason → Store → Store
unfolding emit
reject_bootstrap origin reason s = emit (bootstrap_rejected origin reason) s
