-- ===== src/Tests/OnDataApi.antt =====
-- A write with a session cookie.
use kobra_game.Base.{◌≡◌, refl, [], ◌∷◌, true, none, some, lookup, insert}
use kobra_game.Base.Int.{pos, saturate64, ◌-ℤ◌}
use kobra_game.Session.Types.{Store, new_store, sub_time}
use kobra_game.Session.Operations.{exchange, new_bootstrap_token, get, check_csrf}
use kobra_game.Session.Runs.{issues, exchanges, run}
use kobra_game.DataApi.Pipeline.{
  Request, Gate, auth_cookie, passed, validate_request, check_session, check_request_csrf,
  is_write_method,
}
use kobra_game.DataApi.Passing.{Admitted, SessionShown, validate_passes}

abbrev pub opened : Store
opened = run (issues (pos 1) (some "t") ∷ exchanges "t" "o" (pos 2) (some "id1") (some "c1") ∷ []) (
    new_store (record {
      bootstrap_ttl = pos 0;
      session_ttl = pos 0;
      inactivity = pos 0;
      max_sessions = pos 2;
      logger = true;
    }))

abbrev gate : Gate
gate = record {
  authority = "127.0.0.1:5000";
  max_request_bytes = pos 100;
  methods = "PUT";
  method_list = "PUT" ∷ [];
  body = true;
}

abbrev pub save : Request
save = record {
  host = "127.0.0.1:5000";
  origin = "";
  method = "PUT";
  content_type = "application/json";
  media_type = some "application/json";
  content_length = pos 7;
  session_cookie = some "id1";
  bearer = none;
  csrf_cookie = some "c1";
  csrf_header = "c1";
}

found : (check_session save (pos 3) (pos 4) opened).0 ≡ some (0, auth_cookie)
unfolding run new_store exchange new_bootstrap_token lookup insert sub_time saturate64 ◌-ℤ◌
    check_session get
found = refl

accepted : (validate_request gate save (pos 3) (pos 4) opened).0 ≡ passed 0
unfolding run new_store exchange new_bootstrap_token lookup insert sub_time saturate64 ◌-ℤ◌
    check_session get validate_request check_request_csrf is_write_method check_csrf
accepted = refl

validate_passes_example :
    Admitted gate save × SessionShown save 0 (check_session save (pos 3) (pos 4) opened)
validate_passes_example = validate_passes gate save (pos 3) (pos 4) opened 0 accepted
