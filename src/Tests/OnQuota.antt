-- ===== src/Tests/OnQuota.antt =====
-- Two writes under a limit of one.
use kobra_game.Base.{true, ◌≡◌, refl, some, false}
use kobra_game.Base.Int.{pos, ◌+ℤ◌, wrap64, saturate64, ◌-ℤ◌}
use kobra_game.KobraErr.Build.{rate_limited_error}
use kobra_game.Session.Types.{Session, Store, new_store, sub_time, emit}
use kobra_game.Session.Operations.{ok, err}
use kobra_game.Session.Quota.{allow}

abbrev fresh : Store
fresh = new_store (record {
  bootstrap_ttl = pos 0;
  session_ttl = pos 0;
  inactivity = pos 0;
  max_sessions = pos 2;
  logger = true;
})

abbrev once : Store
once = (allow (pos 5) (some 0) (pos 7) (pos 1) (pos 100) fresh).1

first_ok : (allow (pos 5) (some 0) (pos 7) (pos 1) (pos 100) fresh).0 ≡ ok tt
unfolding allow new_store wrap64 ◌+ℤ◌ sub_time saturate64 ◌-ℤ◌
first_ok = refl

second_refused :
    (allow (pos 6) (some 0) (pos 7) (pos 1) (pos 100) once).0
    ≡ err (rate_limited_error "writes" (pos 60))
unfolding allow new_store wrap64 ◌+ℤ◌ sub_time saturate64 ◌-ℤ◌ emit rate_limited_error
second_refused = refl

abbrev begun : Session
begun = record {
  id = "id1";
  csrf = "c1";
  created = pos 1;
  last_active = pos 1;
  writer = false;
  window_start = pos 5;
  writes = pos 3;
  bytes = pos 9;
}
