-- ===== src/DataApi/Access.antt =====
-- What has to be shown before a handler of launcher/internal/dataapi/handlers.go changes anything.
use kobra_game.Base.{ℕ, length, ◌≡◌, refl, ◌⊎◌, inl, inr, String, Bool, true, false, some}
use kobra_game.Base.Int.{ℤ, pos}
use kobra_game.Session.Types.{Store}
use kobra_game.Session.Operations.{ok}
use kobra_game.Session.Quota.{allow}
use kobra_game.DataApi.Pipeline.{Verdict, passed, check_session, validate_request}
use kobra_game.DataApi.Passing.{Admitted, SessionShown, validate_passes}
use kobra_game.DataApi.Service.{SaveWriteRequest, ModRequest, Outcome, done, Setup, Call, State}
use kobra_game.DataApi.Replies.{
  Reply, Route, to_probe, to_health, to_session, to_heartbeat, to_goodbye, to_shutdown,
  to_diagnostics, to_state, to_saves_list, to_save_read, to_config_read, to_mods_read, to_export,
  to_save_write, to_save_delete, to_config_write, to_mod_action, to_mod_delete, to_update_check,
  to_update_apply, to_update_cancel, to_update_progress, Handler, on_body,
}
use kobra_game.DataApi.Branches.{on_body-then, on_allowed-then, on_verdict-then}
use kobra_game.DataApi.Steps.{
  get_only-then, handle_session-then, write_decoded-then, merge_decoded-then, mod_decoded-then,
}
use kobra_game.DataApi.Handlers.{
  gate, validated, charged, decoding, write_decoded, merge_decoded, mod_decoded, serve,
}

-- The one method of a route, whether it carries a body, and whether it counts against the quota.
abbrev pub method_of : Route → String
method_of to_heartbeat = "POST"
method_of to_goodbye = "POST"
method_of to_shutdown = "POST"
method_of to_session = "POST"
method_of to_save_write = "POST"
method_of to_config_write = "POST"
method_of to_mod_action = "POST"
method_of to_update_apply = "POST"
method_of to_update_cancel = "POST"
method_of to_save_delete = "DELETE"
method_of to_mod_delete = "DELETE"
method_of _ = "GET"

abbrev pub is_charged : Route → Bool
is_charged to_save_write = true
is_charged to_config_write = true
is_charged to_mod_action = true
is_charged _ = false

abbrev pub has_body : Route → Bool
has_body to_update_apply = true
has_body to_update_cancel = true
has_body r = is_charged r

abbrev pub Untouched : {W V : Type 0} → State W → Reply V × State W → Type 0
Untouched s (r, t) = (t.world ≡ s.world) × (t.update_used ≡ s.update_used)

abbrev Guarded : {W V : Type 0} → Type 0 → State W → Reply V × State W → Type 0
Guarded P s p = Untouched s p ⊎ P

Guarded-weaken :
    {W V P Q : Type 0} (s : State W) (p : Reply V × State W)
    → (P → Q)
    → Guarded P s p
    → Guarded Q s p
Guarded-weaken s p f (inl h) = inl h
Guarded-weaken s p f (inr h) = inr (f h)

module _ {W V : Type 0} (x : Setup W V) (c : Call) where
  -- What a route counts against the quota.
  abbrev pub Cost : Route → ℤ → Type 0
  Cost to_save_write n =
      (q : SaveWriteRequest) × (decoding x c x.decode_save ≡ done q) × (n ≡ pos (length q.payload))
  Cost to_config_write n = n ≡ pos 1024
  Cost to_mod_action n =
      (q : ModRequest) × (decoding x c x.decode_mod ≡ done q) × (n ≡ pos (length q.archive_bytes))
  Cost _ n = ⊥

  -- The session's quota lets that through, after the checks.
  abbrev pub Paid : Route → ℕ → Store → Type 0
  Paid r a st =
      (n : ℤ) × Cost r n × ((allow c.now (some a) n x.quota_writes x.quota_bytes st).0 ≡ ok tt)

  abbrev pub verdict : Route → State W → Verdict × Store
  verdict r s =
      validate_request (gate x c (method_of r) (has_body r)) c.request c.t_cookie c.t_bearer s.store

  -- The request passes the checks of its route with a session, whose quota allows it where the
  -- route counts.
  pub record Authorised (r : Route) (s : State W) : Type 0 where
    pub session : ℕ
    pub admitted : Admitted (gate x c (method_of r) (has_body r)) c.request
    pub shown :
        SessionShown c.request session (check_session c.request c.t_cookie c.t_bearer s.store)
    pub paid : (is_charged r ≡ false) ⊎ Paid r session (verdict r s).1

  authorise :
      (r : Route)
      → (s : State W) → (a : ℕ) → (verdict r s).0 ≡ passed a
      → (is_charged r ≡ false) ⊎ Paid r a (verdict r s).1
      → Authorised r s
  authorise r s a h p =
      let (admitted, shown) =
        validate_passes (gate x c (method_of r) (has_body r)) c.request c.t_cookie c.t_bearer
          s.store a h in
      record { session = a; admitted = admitted; shown = shown; paid = p }

  validated-Authorised :
      (r : Route)
      → (k : ℕ → Handler W V) → (s : State W) → is_charged r ≡ false
      → Guarded (Authorised r s) s (validated x c (method_of r) (has_body r) k s)
  validated-Authorised r k s e =
      on_verdict-then (Guarded (Authorised r s) s) s (λ q st. inl (refl, refl)) (verdict r s) k
        (λ a h. inr (authorise r s a h (inl e)))

  charged-Paid :
      (r : Route)
      → (a : ℕ) → (n : ℤ) → (k : Handler W V) → (s : State W) → Cost r n
      → Guarded (Paid r a s.store) s (charged x c a n k s)
  charged-Paid r a n k s cost =
      on_allowed-then (Guarded (Paid r a s.store) s) s (λ q st. inl (refl, refl))
        (allow c.now (some a) n x.quota_writes x.quota_bytes s.store) k (λ e. inr (n, cost, e))

  body-Authorised :
      {A : Type 0} (r : Route)
      → (o : Outcome A) → (k : ℕ → A → Handler W V) → (s : State W)
      → ((a : ℕ) → (b : A) → (t : State W) → o ≡ done b → Guarded (Paid r a t.store) t (k a b t))
      → Guarded
          (Authorised r s)
          s
          (validated x c (method_of r) (has_body r) (λ a. on_body o (k a)) s)
  body-Authorised r o k s h =
      let t : State W = record s { store = (verdict r s).1 } in
      on_verdict-then (Guarded (Authorised r s) s) s (λ q st. inl (refl, refl)) (verdict r s)
        (λ a. on_body o (k a))
        (λ a e.
          Guarded-weaken t (on_body o (k a) t) (λ p. authorise r s a e (inr p))
            (on_body-then (Guarded (Paid r a t.store) t) t (λ q. inl (refl, refl)) o (k a)
              (λ b d. h a b t d)))

  -- A request that changes the world or the record of the session updates, whatever its route, has
  -- passed the checks: it names the launcher as its host, has no Origin or the launcher's, the one
  -- method of the route, with a body the media type and a length up to the limit, and a session,
  -- with the CSRF tokens for a write by cookie. A save has been let through by `Allow` for
  -- the bytes of its payload, a mod action for those of its archive, and a config write for 1024.
  pub serve-Authorised : (r : Route) → (s : State W) → Untouched s (serve x c r s) ⊎ Authorised r s
  unfolding serve
  serve-Authorised to_probe s =
      get_only-then x c (Guarded (Authorised to_probe s) s) s x.probe (λ q. inl (refl, refl))
  serve-Authorised to_health s =
      get_only-then x c (Guarded (Authorised to_health s) s) s x.health (λ q. inl (refl, refl))
  serve-Authorised to_session s =
      handle_session-then x c (Guarded (Authorised to_session s) s) s (λ q st. inl (refl, refl))
  serve-Authorised to_save_write s =
      body-Authorised to_save_write (decoding x c x.decode_save) (write_decoded x c) s (λ a r t d.
        write_decoded-then x c (Guarded (Paid to_save_write a t.store) t) t (λ q. inl (refl, refl))
          a r (λ w. charged-Paid to_save_write a _ _ t (r, d, refl)))
  serve-Authorised to_config_write s =
      body-Authorised to_config_write (decoding x c x.decode_config) (merge_decoded x c) s
        (λ a r t d.
          merge_decoded-then x c (Guarded (Paid to_config_write a t.store) t) t
            (λ q. inl (refl, refl)) a r (λ w. charged-Paid to_config_write a _ _ t refl))
  serve-Authorised to_mod_action s =
      body-Authorised to_mod_action (decoding x c x.decode_mod) (mod_decoded x c) s (λ a r t d.
        mod_decoded-then x c (Guarded (Paid to_mod_action a t.store) t) t (λ q. inl (refl, refl)) a
          r (λ w. charged-Paid to_mod_action a _ _ t (r, d, refl)))
  serve-Authorised to_heartbeat s = validated-Authorised to_heartbeat _ s refl
  serve-Authorised to_goodbye s = validated-Authorised to_goodbye _ s refl
  serve-Authorised to_shutdown s = validated-Authorised to_shutdown _ s refl
  serve-Authorised to_diagnostics s = validated-Authorised to_diagnostics _ s refl
  serve-Authorised to_state s = validated-Authorised to_state _ s refl
  serve-Authorised to_saves_list s = validated-Authorised to_saves_list _ s refl
  serve-Authorised to_save_read s = validated-Authorised to_save_read _ s refl
  serve-Authorised to_config_read s = validated-Authorised to_config_read _ s refl
  serve-Authorised to_mods_read s = validated-Authorised to_mods_read _ s refl
  serve-Authorised to_export s = validated-Authorised to_export _ s refl
  serve-Authorised to_save_delete s = validated-Authorised to_save_delete _ s refl
  serve-Authorised to_mod_delete s = validated-Authorised to_mod_delete _ s refl
  serve-Authorised to_update_check s = validated-Authorised to_update_check _ s refl
  serve-Authorised to_update_apply s = validated-Authorised to_update_apply _ s refl
  serve-Authorised to_update_cancel s = validated-Authorised to_update_cancel _ s refl
  serve-Authorised to_update_progress s = validated-Authorised to_update_progress _ s refl
