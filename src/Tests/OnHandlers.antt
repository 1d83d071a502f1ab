-- ===== src/Tests/OnHandlers.antt =====
-- A launcher that logs the operations it is asked for, and a page that saves and updates.
use Prim.Native.Char.{code}
use Prim.Native.String.{[] as no_text, ◌∷◌ as char}
use kobra_game.Base.{◌≡◌, refl, ◌⊎◌, String, List, [], ◌∷◌, true, false, none, some, lookup, insert}
use kobra_game.Base.Int.{pos, saturate64, wrap64, ◌-ℤ◌, ◌+ℤ◌}
use kobra_game.KobraErr.Build.{rate_limited_error}
use kobra_game.Storage.Text.{Text, same_text}
use kobra_game.Storage.Identifier.{validate_identifier, reserved_name}
use kobra_game.Session.Types.{new_store, sub_time}
use kobra_game.Session.Operations.{exchange, new_bootstrap_token, get, check_csrf}
use kobra_game.Session.Runs.{run}
use kobra_game.Session.Quota.{allow, allow_at, charge, roll_window}
use kobra_game.DataApi.Pipeline.{
  validate_request, check_session, check_request_csrf, is_write_method, passed,
}
use kobra_game.DataApi.Service.{
  SaveWriteRequest, done, saved, Op, state, list_saves, read_config, mods, update_check,
  update_progress, read_save, delete_save, delete_mod, write_save, merge_config, mod_action,
  record_update_intent, cancel_update_intent, heartbeat, goodbye, shutdown, Answer, Setup, Call,
  State, new_service, set_bind,
}
use kobra_game.DataApi.Bodies.{allowed_config_key, route_path}
use kobra_game.DataApi.Replies.{Route, to_save_write, to_update_apply, deny}
use kobra_game.DataApi.Handlers.{serve}
use kobra_game.DataApi.Access.{Untouched, Authorised, verdict, serve-Authorised}
use kobra_game.DataApi.Permits.{Permitted, serve-Permitted}
use kobra_game.DataApi.Once.{serve_all, update_once}
use kobra_game.Tests.OnDataApi.{opened, save}

abbrev pub reply : (o : Op) → Answer String o
reply state = done ""
reply list_saves = done ""
reply mods = ("", none)
reply update_check = done ""
reply update_progress = done ""
reply read_config = done []
reply (read_save slot) = done []
reply (delete_save slot) = done tt
reply (delete_mod id) = done tt
reply (write_save r id) =
    saved (record { slot = r.slot; revision = pos 1; modified = ""; bytes = pos 2 })
reply (merge_config r) = saved (record { revision = pos 1; modified = "" })
reply (mod_action r) = done tt
reply record_update_intent =
    done (record { recorded = false; target_release = ""; archive_size = pos 0; detail = "" })
reply cancel_update_intent = done false
reply heartbeat = tt
reply goodbye = tt
reply (shutdown reason) = tt

abbrev slot_request : SaveWriteRequest
slot_request = record {
  slot = "a";
  if_revision = none;
  claim = false;
  compression = "";
  payload = 123 ∷ 125 ∷ [];
  meta = none;
}

abbrev pub codes : String → Text
codes no_text = []
codes (char c s) = code c ∷ codes s

abbrev setup : Setup (List Op) String
setup = set_bind "127.0.0.1" "5000" (record {
  call = λ o w. (reply o, o ∷ w);
  probe = λ w. "";
  health = λ w. "";
  diagnostics = λ w. "";
  authority = "";
  max_request_bytes = pos 100;
  quota_writes = pos 10;
  quota_bytes = pos 100;
  bytes = codes;
  is_blank = λ b. false;
  decode_token = λ b. none;
  decode_save = λ b. some (slot_request, false);
  decode_config = λ b. none;
  decode_mod = λ b. none;
})

abbrev pub page : Call
page = record {
  request = record save { method = "POST" };
  path = "/api/save";
  body = some (123 ∷ 125 ∷ []);
  t_cookie = pos 3;
  t_bearer = pos 3;
  now = pos 4;
  id = none;
  csrf = none;
}

abbrev start : State (List Op)
start = new_service opened []

logged : (serve setup page to_save_write start).1.world ≡ write_save slot_request "id1" ∷ []
unfolding run new_store exchange new_bootstrap_token lookup insert sub_time saturate64 ◌-ℤ◌ serve
    validate_request check_session get check_request_csrf is_write_method check_csrf wrap64 ◌+ℤ◌
    validate_identifier reserved_name same_text allow allow_at charge roll_window
logged = refl

serve-Authorised_example :
    Untouched start (serve setup page to_save_write start)
    ⊎ Authorised setup page to_save_write start
serve-Authorised_example = serve-Authorised setup page to_save_write start

abbrev AllPermitted : List Op → Type 0
AllPermitted [] = Unit {0}
AllPermitted (o ∷ w) = Permitted setup page o × AllPermitted w

Permitted-log :
    (o : Op) → Permitted setup page o → (w : List Op) → AllPermitted w → AllPermitted (o ∷ w)
Permitted-log o p w h = (p, h)

serve-Permitted_example : AllPermitted (serve setup page to_save_write start).1.world
serve-Permitted_example =
    serve-Permitted setup page AllPermitted Permitted-log to_save_write start tt

deleted_slot : route_path "/api/save/" "/api/save/a.b/" ≡ some "a.b"
unfolding route_path
deleted_slot = refl

no_slot : route_path "/api/save/" "/api/save/a/b" ≡ none
unfolding route_path
no_slot = refl

dotted_key : allowed_config_key "audio.volume" ≡ true
unfolding allowed_config_key
dotted_key = refl

abbrev between : List (Route × Call)
between = (to_save_write, page) ∷ []

first_passes : (verdict setup page to_update_apply start).0 ≡ passed 0
unfolding run new_store exchange new_bootstrap_token lookup insert sub_time saturate64 ◌-ℤ◌
    validate_request check_session get check_request_csrf is_write_method check_csrf
first_passes = refl

abbrev later : State (List Op)
later = serve_all setup between (serve setup page to_update_apply start).1

second_passes : (verdict setup page to_update_apply later).0 ≡ passed 0
unfolding run new_store exchange new_bootstrap_token lookup insert sub_time saturate64 ◌-ℤ◌ serve
    validate_request check_session get check_request_csrf is_write_method check_csrf wrap64 ◌+ℤ◌
    validate_identifier reserved_name same_text allow allow_at charge roll_window serve_all
second_passes = refl

one_id :
    ((verdict setup page to_update_apply later).1.heap 0).id
    ≡ ((verdict setup page to_update_apply start).1.heap 0).id
unfolding run new_store exchange new_bootstrap_token lookup insert sub_time saturate64 ◌-ℤ◌ serve
    validate_request check_session get check_request_csrf is_write_method check_csrf wrap64 ◌+ℤ◌
    validate_identifier reserved_name same_text allow allow_at charge roll_window serve_all
one_id = refl

update_once_example :
    serve setup page to_update_apply later
    ≡ deny
        (rate_limited_error "update" (pos 3600))
        (record later { store = (verdict setup page to_update_apply later).1 })
update_once_example =
    update_once setup page page between start 0 0 first_passes second_passes one_id
