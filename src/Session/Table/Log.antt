-- ===== src/Session/Table/Log.antt =====
-- The events of launcher/internal/session/session.go write the log and nothing else.
use kobra_game.Base.{◌∷◌, [], List, String, ◌≡◌, refl, ◌∙◌, ap, arith}
use kobra_game.Session.Types.{Reason, Event, session_expired, bootstrap_rejected, Store, emit}
use kobra_game.Session.Table.{Eviction, log_evictions, reject_bootstrap}

-- A store in which the log alone may differ.
abbrev pub with_log : Store → List Event → Store
with_log s l = record s { log = l }

pub emit-log : (e : Event) (s : Store) → emit e s ≡ with_log s (emit e s).log
unfolding emit
emit-log e s = ground arith

pub log_evictions-log :
    (es : List Eviction) (s : Store) → log_evictions es s ≡ with_log s (log_evictions es s).log
unfolding log_evictions
log_evictions-log [] s = refl
log_evictions-log ((sid, reason) ∷ es) s =
    let t = emit (session_expired sid reason) s in
    log_evictions-log es t
    ∙ ap (λ (u : Store). with_log u (log_evictions es t).log)
        (emit-log (session_expired sid reason) s)

pub reject_bootstrap-log :
    (origin : String) (r : Reason) (s : Store)
    → reject_bootstrap origin r s ≡ with_log s (reject_bootstrap origin r s).log
unfolding reject_bootstrap
reject_bootstrap-log origin r s = emit-log (bootstrap_rejected origin r) s
