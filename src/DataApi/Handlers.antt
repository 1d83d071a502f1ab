-- ===== src/DataApi/Handlers.antt =====
-- The handlers of launcher/internal/dataapi/handlers.go. The logger is left out: none of its lines
-- comes back.
use kobra_game.Base.{
  ℕ, ltb, length, String, [], ◌∷◌, Bool, true, false, not, some, any, str_eq, ◌||◌, ◌==◌,
  if◌then◌else◌,
}
use kobra_game.Base.Int.{ℤ, pos}
use kobra_game.KobraErr.Types.{nil}
use kobra_game.KobraErr.Build.{
  method_not_allowed_error, bad_content_type_error, no_session_error, malformed_field_error,
  rate_limited_error,
}
use kobra_game.Session.Operations.{exchange}
use kobra_game.Session.Quota.{allow}
use kobra_game.DataApi.Pipeline.{Gate, content_type_ok, validate_request}
use kobra_game.DataApi.Service.{
  SaveWriteRequest, ConfigWriteRequest, ModRequest, Outcome, done, failed, Op, state, list_saves,
  read_config, mods, update_check, update_progress, read_save, delete_save, delete_mod, write_save,
  merge_config, mod_action, record_update_intent, cancel_update_intent, heartbeat, goodbye,
  shutdown, Answer, Decoder, Setup, Call,
}
use kobra_game.DataApi.Bodies.{decode_json, route_path, validate_identifier_field, all_allowed}
use kobra_game.DataApi.Replies.{
  view, stopping, written, revised, deleted, Reply, problem, json, no_content, raw, attachment,
  Route, to_probe, to_health, to_session, to_heartbeat, to_goodbye, to_shutdown, to_diagnostics,
  to_state, to_saves_list, to_save_read, to_config_read, to_mods_read, to_export, to_save_write,
  to_save_delete, to_config_write, to_mod_action, to_mod_delete, to_update_check, to_update_apply,
  to_update_cancel, to_update_progress, Handler, answer, answer_view, answer_unit, answer_saved,
  answer_mods, answer_action, answer_intent, answer_cancel, deny, valid_or, on_path, on_body,
  on_allowed, on_verdict, on_exchange,
}

module _ {W V : Type 0} where
  module _ (x : Setup W V) (c : Call) where
    abbrev pub gate : String → Bool → Gate
    gate method body = record {
      authority = x.authority;
      max_request_bytes = x.max_request_bytes;
      methods = method;
      method_list = method ∷ [];
      body = body;
    }

    abbrev pub validated : String → Bool → (ℕ → Handler W V) → Handler W V
    validated method body k s =
        on_verdict (validate_request (gate method body) c.request c.t_cookie c.t_bearer s.store) k s

    -- A method of the interfaces, and what the handler makes of its answer.
    abbrev pub calling : (o : Op) → (Answer V o → Reply V) → Handler W V
    calling o show s = let (a, w) = x.call o s.world in (show a, record s { world = w })

    abbrev pub charged : ℕ → ℤ → Handler W V → Handler W V
    charged a n k s = on_allowed (allow c.now (some a) n x.quota_writes x.quota_bytes s.store) k s

    abbrev pub decoding : {A : Type 0} → Decoder A → Outcome A
    decoding d = decode_json x.is_blank d x.max_request_bytes c.body

    abbrev pub reading : (W → V) → Handler W V
    reading f s = (json 200 (view (f s.world)), s)

    abbrev pub get_only : (W → V) → Handler W V
    get_only f =
        if not (str_eq c.request.method "GET")
        then deny (method_not_allowed_error "GET")
        else reading f

    abbrev pub open_session : String → Handler W V
    open_session token =
        if ltb (length (x.bytes token)) 32 || ltb 256 (length (x.bytes token))
        then deny (no_session_error nil)
        else (λ s. on_exchange (exchange token c.request.origin c.now c.id c.csrf s.store) s)

    unfoldable pub handle_session : Handler W V
    unfolding exchange
    handle_session =
        if not (str_eq c.request.method "POST")
        then deny (method_not_allowed_error "POST")
        else if not (content_type_ok c.request.media_type)
        then deny (bad_content_type_error c.request.content_type)
        else on_body (decode_json x.is_blank x.decode_token (pos 4096) c.body) open_session

    abbrev pub write_charged : ℕ → SaveWriteRequest → Handler W V
    write_charged a r s = calling (write_save r (s.store.heap a).id) (answer_saved written) s

    abbrev pub write_payload : ℕ → SaveWriteRequest → Handler W V
    write_payload a r =
        if length r.payload == 0
        then deny (malformed_field_error "payload" "The save body had no payload." nil)
        else charged a (pos (length r.payload)) (write_charged a r)

    abbrev pub write_decoded : ℕ → SaveWriteRequest → Handler W V
    write_decoded a r =
        valid_or (validate_identifier_field x.bytes "slot" r.slot) (write_payload a r)

    abbrev pub merge_charged : ConfigWriteRequest → Handler W V
    merge_charged r = calling (merge_config r) (answer_saved revised)

    abbrev pub merge_decoded : ℕ → ConfigWriteRequest → Handler W V
    merge_decoded a r =
        if length r.merge == 0
        then deny (malformed_field_error "merge" "The config write contained no keys." nil)
        else if not (all_allowed r.merge)
        then deny (malformed_field_error "merge" "That settings key is not recognised." nil)
        else charged a (pos 1024) (merge_charged r)

    -- `ModAction`, then `Mods`.
    abbrev pub mod_done : Outcome (Unit {0}) → Handler W V
    mod_done (failed e) s = (problem e, s)
    mod_done (done u) s = calling mods answer_action s

    abbrev pub act_on_mod : ModRequest → Handler W V
    act_on_mod r s =
        let (a, w) = x.call (mod_action r) s.world in mod_done a (record s { world = w })

    abbrev pub known_action : String → Bool
    known_action a = any (λ m. str_eq m a) ("install" ∷ "enable" ∷ "disable" ∷ [])

    abbrev pub mod_valid : ℕ → ModRequest → Handler W V
    mod_valid a r =
        if not (known_action r.action)
        then deny (malformed_field_error "action" "That mod action is not supported." nil)
        else charged a (pos (length r.archive_bytes)) (act_on_mod r)

    abbrev pub mod_decoded : ℕ → ModRequest → Handler W V
    mod_decoded a r = valid_or (validate_identifier_field x.bytes "id" r.id) (mod_valid a r)

    -- The session's one update, taken whatever comes of it.
    abbrev pub apply_unless : Bool → String → Handler W V
    apply_unless true id s = deny (rate_limited_error "update" (pos 3600)) s
    apply_unless false id s =
        calling record_update_intent answer_intent (record s { update_used = id ∷ s.update_used })

    abbrev pub apply_update : String → Handler W V
    apply_update id s = apply_unless (any (λ k. str_eq k id) s.update_used) id s

    abbrev pub at_slot : (prefix : String) → (String → Handler W V) → Handler W V
    at_slot prefix k = on_path x.bytes "slot" "save slot" (route_path prefix c.path) k

    abbrev pub handle_probe : Handler W V
    handle_probe = get_only x.probe

    abbrev pub handle_health : Handler W V
    handle_health = get_only x.health

    abbrev pub handle_heartbeat : Handler W V
    handle_heartbeat = validated "POST" false (λ a. calling heartbeat (λ u. no_content))

    abbrev pub handle_goodbye : Handler W V
    handle_goodbye = validated "POST" false (λ a. calling goodbye (λ u. no_content))

    abbrev pub handle_shutdown : Handler W V
    handle_shutdown =
        validated "POST" false (λ a. calling (shutdown "api") (λ u. json 202 stopping))

    abbrev pub handle_diagnostics : Handler W V
    handle_diagnostics = validated "GET" false (λ a. reading x.diagnostics)

    abbrev pub handle_state : Handler W V
    handle_state = validated "GET" false (λ a. calling state answer_view)

    abbrev pub handle_saves_list : Handler W V
    handle_saves_list = validated "GET" false (λ a. calling list_saves answer_view)

    abbrev pub handle_save_read : Handler W V
    handle_save_read =
        validated "GET" false
          (λ a. at_slot "/api/data/saves/" (λ slot. calling (read_save slot) (answer raw)))

    abbrev pub handle_export : Handler W V
    handle_export =
        validated "GET" false (λ a.
          at_slot "/api/export/" (λ slot. calling (read_save slot) (answer (attachment slot))))

    abbrev pub handle_config_read : Handler W V
    handle_config_read = validated "GET" false (λ a. calling read_config (answer raw))

    abbrev pub handle_mods_read : Handler W V
    handle_mods_read = validated "GET" false (λ a. calling mods answer_mods)

    abbrev pub handle_save_write : Handler W V
    handle_save_write =
        validated "POST" true (λ a. on_body (decoding x.decode_save) (write_decoded a))

    abbrev pub handle_save_delete : Handler W V
    handle_save_delete = validated "DELETE" false (λ a.
        at_slot "/api/save/" (λ slot. calling (delete_save slot) (answer_unit (deleted slot))))

    abbrev pub handle_config_write : Handler W V
    handle_config_write =
        validated "POST" true (λ a. on_body (decoding x.decode_config) (merge_decoded a))

    abbrev pub handle_mod_action : Handler W V
    handle_mod_action = validated "POST" true (λ a. on_body (decoding x.decode_mod) (mod_decoded a))

    abbrev pub handle_mod_delete : Handler W V
    handle_mod_delete = validated "DELETE" false (λ a.
        on_path x.bytes "id" "mod" (route_path "/api/mod/" c.path)
          (λ id. calling (delete_mod id) (answer_unit (deleted id))))

    abbrev pub handle_update_check : Handler W V
    handle_update_check = validated "GET" false (λ a. calling update_check answer_view)

    abbrev pub handle_update_apply : Handler W V
    handle_update_apply = validated "POST" true (λ a s. apply_update (s.store.heap a).id s)

    abbrev pub handle_update_cancel : Handler W V
    handle_update_cancel = validated "POST" true (λ a. calling cancel_update_intent answer_cancel)

    abbrev pub handle_update_progress : Handler W V
    handle_update_progress = validated "GET" false (λ a. calling update_progress answer_view)

    -- The routes of `Register`.
    unfoldable pub serve : Route → Handler W V
    unfolding validate_request allow route_path all_allowed handle_session
    serve to_probe = handle_probe
    serve to_health = handle_health
    serve to_session = handle_session
    serve to_heartbeat = handle_heartbeat
    serve to_goodbye = handle_goodbye
    serve to_shutdown = handle_shutdown
    serve to_diagnostics = handle_diagnostics
    serve to_state = handle_state
    serve to_saves_list = handle_saves_list
    serve to_save_read = handle_save_read
    serve to_export = handle_export
    serve to_config_read = handle_config_read
    serve to_mods_read = handle_mods_read
    serve to_save_write = handle_save_write
    serve to_save_delete = handle_save_delete
    serve to_config_write = handle_config_write
    serve to_mod_action = handle_mod_action
    serve to_mod_delete = handle_mod_delete
    serve to_update_check = handle_update_check
    serve to_update_apply = handle_update_apply
    serve to_update_cancel = handle_update_cancel
    serve to_update_progress = handle_update_progress
