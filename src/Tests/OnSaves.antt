-- ===== src/Tests/OnSaves.antt =====
-- A page that saves and deletes, and a power loss while it saves again.
use kobra_game.Base.{
  ◌≡◌, refl, String, List, [], ◌∷◌, Bool, true, false, Option, none, some, lookup, insert,
}
use kobra_game.Base.Int.{pos, saturate64, wrap64, ◌-ℤ◌, ◌+ℤ◌}
use kobra_game.Base.Faults.{attempt}
use kobra_game.KobraErr.Types.{nil}
use kobra_game.Storage.Json.{Json}
use kobra_game.Storage.Text.{same_text}
use kobra_game.Storage.Types.{Engine, or_no_files}
use kobra_game.Storage.Identifier.{validate_identifier, reserved_name}
use kobra_game.Storage.Slots
use kobra_game.Storage.Slots.Durable.{read_as}
use kobra_game.Storage.Engine.Sound.{AllSound}
use kobra_game.Session.Types.{new_store, sub_time}
use kobra_game.Session.Operations.{exchange, new_bootstrap_token, get, check_csrf}
use kobra_game.Session.Runs.{run}
use kobra_game.Session.Quota.{allow, allow_at, charge, roll_window}
use kobra_game.DataApi.Pipeline.{
  validate_request, check_session, check_request_csrf, is_write_method,
}
use kobra_game.DataApi.Service.{SaveWriteRequest, Setup, Call, State}
use kobra_game.DataApi.Bodies.{route_path}
use kobra_game.DataApi.Replies.{Route, to_save_write, to_save_delete}
use kobra_game.DataApi.Handlers.{serve}
use kobra_game.DataApi.Once.{serve_all}
use kobra_game.DataApi.Saves.{Attempt, Machine, up, down, files, Wire, over, saves_stay_readable}
use kobra_game.Tests.OnDataApi.{opened, save}
use kobra_game.Tests.OnHandlers.{reply, codes, page}
use kobra_game.Tests.OnStorage.{digest, config, version, one_device, lost, inside}

abbrev wire : Wire String
wire = record {
  parse = λ t. some (Json.number t);
  print = λ v. [];
  size = λ r. pos 2;
  explain = λ e. nil;
  elsewhere = reply;
}

abbrev seven : SaveWriteRequest
seven = record {
  slot = "one";
  if_revision = none;
  claim = false;
  compression = "";
  payload = 55 ∷ [];
  meta = none;
}

abbrev launcher : Setup Machine String
launcher = record {
  call = λ o m. (reply o, m);
  probe = λ w. "";
  health = λ w. "";
  diagnostics = λ w. "";
  authority = "127.0.0.1:5000";
  max_request_bytes = pos 100;
  quota_writes = pos 10;
  quota_bytes = pos 100;
  bytes = codes;
  is_blank = λ b. false;
  decode_token = λ b. none;
  decode_save = λ b. some (seven, false);
  decode_config = λ b. none;
  decode_mod = λ b. none;
}

abbrev clear_page : Call
clear_page = record page { path = "/api/save/one"; request = record save { method = "DELETE" } }

abbrev requests : List (Route × Call)
requests = (to_save_write, page) ∷ (to_save_delete, clear_page) ∷ (to_save_write, page) ∷ []

abbrev empty_engine : Engine
empty_engine = record { slots = []; writer = ""; writable = true; probe_reason = "" }

abbrev fine : Attempt
fine = record { now = "noon"; live = true; faults = [] }

abbrev begin_state : State Machine
begin_state = record {
  store = opened;
  update_used = [];
  world = up empty_engine (fine ∷ fine ∷ record fine { faults = lost } ∷ []);
}

abbrev is_down : Machine → Bool
is_down (up e steps) = false
is_down (down slots) = true

nothing_saved : AllSound digest (files begin_state.world)
unfolding lookup
nothing_saved name = (tt, tt)

cut_off :
    is_down (serve_all (over wire codes inside digest config launcher) requests begin_state).world
    ≡ true
unfolding run new_store exchange new_bootstrap_token lookup insert sub_time saturate64 ◌-ℤ◌ serve
    validate_request check_session get check_request_csrf is_write_method check_csrf wrap64 ◌+ℤ◌
    validate_identifier reserved_name same_text allow allow_at charge roll_window serve_all
    route_path attempt Slots.prune_revisions Slots.has_rev Slots.drop_rev
cut_off = refl

saves_stay_readable_example :
    (o : Option Json) × (Slots.read_slot digest (
        or_no_files (
          lookup "one" (
            files
              (serve_all
                (over wire codes inside digest config launcher)
                requests
                begin_state).world)))
      ≡ read_as digest o)
saves_stay_readable_example =
    saves_stay_readable wire codes inside digest config version one_device launcher requests
      begin_state nothing_saved "one"
