-- ===== src/DataApi/Replies.antt =====
-- What the handlers of launcher/internal/dataapi/handlers.go write, and how one goes on after a
-- check.
use kobra_game.Base.{ℕ, String, Bool, true, false, not, Option, none, some, if◌then◌else◌}
use kobra_game.Base.Int.{ℤ, pos}
use kobra_game.KobraErr.Types.{Err, KobraError}
use kobra_game.KobraErr.Build.{not_found_error}
use kobra_game.Storage.Text.{Text}
use kobra_game.Session.Types.{Store}
use kobra_game.Session.Operations.{Result, ok, err}
use kobra_game.DataApi.Pipeline.{Verdict, misdirected, rejected, passed}
use kobra_game.DataApi.Service.{
  SaveWriteResponse, RevisionResult, UpdateIntent, Outcome, done, failed, Saved, saved, refused,
  State, as_error,
}
use kobra_game.DataApi.Bodies.{is_empty, validate_identifier_field, save_error}

-- The JSON bodies.
pub data Body (V : Type 0) : Type 0 where
  view : V → Body V
  stopping : Body V
  written : SaveWriteResponse → Body V
  revised : RevisionResult → Body V
  deleted : String → Body V
  applying : (pending : Bool) → (target : String) → (size : ℤ) → (detail : String) → Body V
  cancelling : Bool → (detail : String) → Body V

-- What goes out: 421 without a body, an error envelope, a status with JSON, 204, the bytes of a
-- file, those as an attachment, and a new session with its two cookies.
pub data Reply (V : Type 0) : Type 0 where
  turned_away : Reply V
  problem : Err → Reply V
  json : ℕ → Body V → Reply V
  no_content : Reply V
  raw : Text → Reply V
  attachment : (filename : String) → Text → Reply V
  session_opened : (id csrf : String) → Reply V

pub data Route : Type 0 where
  to_probe to_health to_session to_heartbeat to_goodbye to_shutdown to_diagnostics : Route
  to_state to_saves_list to_save_read to_config_read to_mods_read to_export : Route
  to_save_write to_save_delete to_config_write to_mod_action to_mod_delete : Route
  to_update_check to_update_apply to_update_cancel to_update_progress : Route

-- A handler, or the rest of one.
abbrev pub Handler : Type 0 → Type 0 → Type 0
Handler W V = State W → Reply V × State W

module _ {V : Type 0} where
  abbrev pub answer : (Text → Reply V) → Outcome Text → Reply V
  answer show (done b) = show b
  answer show (failed e) = problem e

  abbrev pub answer_view : Outcome V → Reply V
  answer_view (done v) = json 200 (view v)
  answer_view (failed e) = problem e

  abbrev pub answer_unit : Body V → Outcome (Unit {0}) → Reply V
  answer_unit b (done u) = json 200 b
  answer_unit b (failed e) = problem e

  abbrev pub answer_saved : {A : Type 0} → (A → Body V) → Saved A → Reply V
  answer_saved show (saved r) = json 200 (show r)
  answer_saved show (refused e) = problem (save_error e)

  abbrev pub answer_mods : V × Option Err → Reply V
  answer_mods (v, none) = json 200 (view v)
  answer_mods (v, some e) = problem e

  -- After an action, the mods, whose error is ignored.
  abbrev pub answer_action : V × Option Err → Reply V
  answer_action (v, e) = json 200 (view v)

  abbrev pub answer_intent : Outcome UpdateIntent → Reply V
  answer_intent (failed e) = problem e
  answer_intent (done i) =
      if not i.recorded
      then json 200
          (applying false "" (pos 0) (if is_empty i.detail then "already current" else i.detail))
      else json 202 (applying true i.target_release i.archive_size i.detail)

  abbrev pub answer_cancel : Outcome Bool → Reply V
  answer_cancel (failed e) = problem e
  answer_cancel (done true) = json 200 (cancelling true "The update was cancelled.")
  answer_cancel (done false) = json 200 (cancelling false "There was no update to cancel.")

module _ {W V : Type 0} where
  abbrev pub deny : KobraError → Handler W V
  deny e s = (problem (as_error e), s)

  -- A field that is refused, or the rest of the handler.
  abbrev pub valid_or : Option Err → Handler W V → Handler W V
  valid_or (some e) k s = (problem e, s)
  valid_or none k s = k s

  -- `routePath` and the check of its identifier.
  abbrev pub on_path :
      (bytes : String → Text)
      → (field what : String) → Option String
      → (String → Handler W V)
      → State W
      → Reply V × State W
  on_path bytes field what none k s = deny (not_found_error what) s
  on_path bytes field what (some v) k s = valid_or (validate_identifier_field bytes field v) (k v) s

  abbrev pub on_body : {A : Type 0} → Outcome A → (A → Handler W V) → Handler W V
  on_body (failed e) k s = (problem e, s)
  on_body (done r) k s = k r s

  abbrev pub on_allowed : Result (Unit {0}) × Store → Handler W V → Handler W V
  on_allowed (err e, st) k s = deny e (record s { store = st })
  on_allowed (ok u, st) k s = k (record s { store = st })

  abbrev pub on_verdict : Verdict × Store → (ℕ → Handler W V) → Handler W V
  on_verdict (misdirected, st) k s = (turned_away, record s { store = st })
  on_verdict (rejected e, st) k s = deny e (record s { store = st })
  on_verdict (passed a, st) k s = k a (record s { store = st })

  abbrev pub on_exchange : Result ℕ × Store → Handler W V
  on_exchange (err e, st) s = deny e (record s { store = st })
  on_exchange (ok a, st) s =
      (session_opened (st.heap a).id (st.heap a).csrf, record s { store = st })
