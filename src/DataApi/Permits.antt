-- ===== src/DataApi/Permits.antt =====
-- With what arguments the handlers of launcher/internal/dataapi/handlers.go call the launcher.
use kobra_game.Base.{List, ◌∷◌, ℕ, length, String, Bool, true, false, Option, some, any, str_eq}
use kobra_game.Base.Int.{ℤ, pos}
use kobra_game.Session.Quota.{allow}
use kobra_game.DataApi.Pipeline.{validate_request}
use kobra_game.DataApi.Service.{
  Outcome, done, failed, Op, state, list_saves, read_config, mods, update_check, update_progress,
  read_save, delete_save, delete_mod, write_save, merge_config, mod_action, record_update_intent,
  cancel_update_intent, heartbeat, goodbye, shutdown, Answer, Setup, Call, State,
}
use kobra_game.DataApi.Bodies.{route_path}
use kobra_game.DataApi.Replies.{
  deleted, stopping, written, revised, answer_saved, Reply, json, no_content, raw, attachment,
  Route, to_probe, to_health, to_session, to_heartbeat, to_goodbye, to_shutdown, to_diagnostics,
  to_state, to_saves_list, to_save_read, to_config_read, to_mods_read, to_export, to_save_write,
  to_save_delete, to_config_write, to_mod_action, to_mod_delete, to_update_check, to_update_apply,
  to_update_cancel, to_update_progress, Handler, answer, answer_view, answer_mods, answer_cancel,
  answer_unit, on_path, on_body,
}
use kobra_game.DataApi.Handlers.{
  gate, validated, calling, charged, decoding, write_charged, merge_charged, write_decoded,
  merge_decoded, mod_done, act_on_mod, mod_decoded, apply_unless, apply_update, reading, serve,
}
use kobra_game.DataApi.Branches.{on_path-then, on_body-then, on_allowed-then, on_verdict-then}
use kobra_game.DataApi.Steps.{
  field_valid, IsName, Writes, Merges, Acts, get_only-then, handle_session-then, write_decoded-then,
  merge_decoded-then, mod_decoded-then,
}

module _ {W V : Type 0} (x : Setup W V) (c : Call) where
  -- What the arguments of an operation must satisfy.
  abbrev pub Permitted : Op → Type 0
  Permitted (read_save slot) = IsName x c slot
  Permitted (delete_save slot) = IsName x c slot
  Permitted (delete_mod id) = IsName x c id
  Permitted (write_save r id) = Writes x c r
  Permitted (merge_config r) = Merges x c r
  Permitted (mod_action r) = Acts x c r
  Permitted _ = Unit {0}

  -- `Good` is of the world and the record of the session updates, which only grows.
  module _ (Good : W → List String → Type 0)
      (keeps : (o : Op)
        → Permitted o
        → (w : W) → (used : List String) → Good w used
        → Good (x.call o w).1 used)
      (takes : (id : String)
        → (w : W) → (used : List String) → Good w used
        → Good w (id ∷ used)) where
    abbrev Kept : Reply V × State W → Type 0
    Kept (r, t) = Good t.world t.update_used

    calling-Kept :
        (o : Op)
        → (show : Answer V o → Reply V) → (s : State W) → Permitted o
        → Good s.world s.update_used
        → Kept (calling x c o show s)
    calling-Kept o show s p h = keeps o p s.world s.update_used h

    charged-Kept :
        (a : ℕ)
        → (n : ℤ) → (k : Handler W V) → (s : State W) → Good s.world s.update_used
        → ((t : State W) → Good t.world t.update_used → Kept (k t))
        → Kept (charged x c a n k s)
    charged-Kept a n k s h f =
        on_allowed-then Kept s (λ r st. h)
          (allow c.now (some a) n x.quota_writes x.quota_bytes s.store) k (λ e. f _ h)

    validated-Kept :
        (method : String)
        → (body : Bool) → (k : ℕ → Handler W V) → (s : State W) → Good s.world s.update_used
        → ((a : ℕ) → (t : State W) → Good t.world t.update_used → Kept (k a t))
        → Kept (validated x c method body k s)
    validated-Kept method body k s h f =
        on_verdict-then Kept s (λ r st. h)
          (validate_request (gate x c method body) c.request c.t_cookie c.t_bearer s.store) k
          (λ a e. f a _ h)

    -- A route whose path names what it is about.
    path-Kept :
        (method field what : String)
        → (o : Option String) → (k : String → Handler W V) → (s : State W)
        → Good s.world s.update_used
        → ((v : String) → (t : State W) → IsName x c v → Good t.world t.update_used → Kept (k v t))
        → Kept (validated x c method false (λ a. on_path x.bytes field what o k) s)
    path-Kept method field what o k s h f =
        validated-Kept method false (λ a. on_path x.bytes field what o k) s h
          (λ a t g.
            on_path-then Kept t (λ r. g) x.bytes field what o k
              (λ v e. f v t (field_valid x.bytes field v e) g))

    body-Kept :
        {A : Type 0} (o : Outcome A)
        → (k : ℕ → A → Handler W V) → (s : State W) → Good s.world s.update_used
        → ((a : ℕ) → (r : A) → (t : State W) → Good t.world t.update_used → Kept (k a r t))
        → Kept (validated x c "POST" true (λ a. on_body o (k a)) s)
    body-Kept o k s h f =
        validated-Kept "POST" true (λ a. on_body o (k a)) s h
          (λ a t g. on_body-then Kept t (λ r. g) o (k a) (λ r d. f a r t g))

    mod_done-Kept :
        (o : Outcome (Unit {0}))
        → (s : State W) → Good s.world s.update_used
        → Kept (mod_done x c o s)
    mod_done-Kept (done u) s h = keeps mods tt s.world s.update_used h
    mod_done-Kept (failed e) s h = h

    apply-Kept :
        (used : Bool)
        → (id : String) → (s : State W) → Good s.world s.update_used
        → Kept (apply_unless x c used id s)
    apply-Kept true id s h = h
    apply-Kept false id s h =
        keeps record_update_intent tt s.world (id ∷ s.update_used)
          (takes id s.world s.update_used h)

    plain-Kept :
        (method : String)
        → (body : Bool) → (o : Op) → (show : Answer V o → Reply V) → (s : State W) → Permitted o
        → Good s.world s.update_used
        → Kept (validated x c method body (λ a. calling x c o show) s)
    plain-Kept method body o show s p h =
        validated-Kept method body (λ a. calling x c o show) s h
          (λ a t g. calling-Kept o show t p g)

    pub serve-Kept : (r : Route) → (s : State W) → Good s.world s.update_used → Kept (serve x c r s)
    unfolding serve
    serve-Kept to_probe s h = get_only-then x c Kept s x.probe (λ r. h)
    serve-Kept to_health s h = get_only-then x c Kept s x.health (λ r. h)
    serve-Kept to_session s h = handle_session-then x c Kept s (λ r st. h)
    serve-Kept to_diagnostics s h =
        validated-Kept "GET" false (λ a. reading x c x.diagnostics) s h (λ a t g. g)
    serve-Kept to_save_read s h =
        path-Kept "GET" "slot" "save slot" (route_path "/api/data/saves/" c.path) _ s h
          (λ v t p g. calling-Kept (read_save v) (answer raw) t p g)
    serve-Kept to_export s h =
        path-Kept "GET" "slot" "save slot" (route_path "/api/export/" c.path) _ s h
          (λ v t p g. calling-Kept (read_save v) (answer (attachment v)) t p g)
    serve-Kept to_save_delete s h =
        path-Kept "DELETE" "slot" "save slot" (route_path "/api/save/" c.path) _ s h
          (λ v t p g. calling-Kept (delete_save v) (answer_unit (deleted v)) t p g)
    serve-Kept to_mod_delete s h =
        path-Kept "DELETE" "id" "mod" (route_path "/api/mod/" c.path) _ s h
          (λ v t p g. calling-Kept (delete_mod v) (answer_unit (deleted v)) t p g)
    serve-Kept to_save_write s h =
        body-Kept (decoding x c x.decode_save) (write_decoded x c) s h (λ a r t g.
          write_decoded-then x c Kept t (λ q. g) a r
            (λ p. charged-Kept a (pos (length r.payload)) (write_charged x c a r) t g (λ u f.
              calling-Kept (write_save r (u.store.heap a).id) (answer_saved written) u p f)))
    serve-Kept to_config_write s h =
        body-Kept (decoding x c x.decode_config) (merge_decoded x c) s h (λ a r t g.
          merge_decoded-then x c Kept t (λ q. g) a r
            (λ p.
              charged-Kept a (pos 1024) (merge_charged x c r) t g
                (λ u f. calling-Kept (merge_config r) (answer_saved revised) u p f)))
    serve-Kept to_mod_action s h =
        body-Kept (decoding x c x.decode_mod) (mod_decoded x c) s h (λ a r t g.
          mod_decoded-then x c Kept t (λ q. g) a r
            (λ p. charged-Kept a (pos (length r.archive_bytes)) (act_on_mod x c r) t g (λ u f.
              mod_done-Kept (x.call (mod_action r) u.world).0 _
                (keeps (mod_action r) p u.world u.update_used f))))
    serve-Kept to_update_apply s h =
        validated-Kept "POST" true (λ a s. apply_update x c (s.store.heap a).id s) s h
          (λ a t g. apply-Kept (any (λ k. str_eq k (t.store.heap a).id) t.update_used) _ t g)
    serve-Kept to_heartbeat s h = plain-Kept "POST" false heartbeat (λ u. no_content) s tt h
    serve-Kept to_goodbye s h = plain-Kept "POST" false goodbye (λ u. no_content) s tt h
    serve-Kept to_shutdown s h =
        plain-Kept "POST" false (shutdown "api") (λ u. json 202 stopping) s tt h
    serve-Kept to_state s h = plain-Kept "GET" false state answer_view s tt h
    serve-Kept to_saves_list s h = plain-Kept "GET" false list_saves answer_view s tt h
    serve-Kept to_config_read s h = plain-Kept "GET" false read_config (answer raw) s tt h
    serve-Kept to_mods_read s h = plain-Kept "GET" false mods answer_mods s tt h
    serve-Kept to_update_check s h = plain-Kept "GET" false update_check answer_view s tt h
    serve-Kept to_update_cancel s h =
        plain-Kept "POST" true cancel_update_intent answer_cancel s tt h
    serve-Kept to_update_progress s h = plain-Kept "GET" false update_progress answer_view s tt h

  -- Whatever the operations of the launcher keep when a slot or a mod is called by a valid name, a
  -- save has a payload, a merge has keys, all of them allowed ones, and a mod action is install,
  -- enable or disable, every route keeps for every request.
  pub serve-Permitted :
      (Good : W → Type 0)
      → ((o : Op) → Permitted o → (w : W) → Good w → Good (x.call o w).1)
      → (r : Route) → (s : State W) → Good s.world
      → Good (serve x c r s).1.world
  serve-Permitted Good keeps r s h =
      serve-Kept (λ w u. Good w) (λ o p w u g. keeps o p w g) (λ id w u g. g) r s h
