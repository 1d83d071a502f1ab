-- ===== src/DataApi/Steps.antt =====
-- The branches of the parts of launcher/internal/dataapi/handlers.go that refuse in their own words.
use kobra_game.Base.{ℕ, ltb, length, ◌≡◌, String, true, false, not, none, arith, str_eq, ◌==◌, ◌||◌}
use kobra_game.Base.Int.{pos}
use kobra_game.Storage.Text.{Text}
use kobra_game.Storage.Identifier.{validate_identifier}
use kobra_game.Session.Types.{Store}
use kobra_game.Session.Operations.{exchange}
use kobra_game.DataApi.Pipeline.{content_type_ok}
use kobra_game.DataApi.Service.{
  SaveWriteRequest, ConfigWriteRequest, ModRequest, Setup, Call, State,
}
use kobra_game.DataApi.Bodies.{decode_json, validate_identifier_field, all_allowed}
use kobra_game.DataApi.Replies.{Reply}
use kobra_game.DataApi.Handlers.{
  get_only, handle_session, charged, write_charged, write_decoded, merge_decoded, act_on_mod,
  known_action, mod_decoded, merge_charged,
}
use kobra_game.DataApi.Branches.{if-then, valid_or-then, on_body-then, on_exchange-then}

pub field_valid :
    (bytes : String → Text)
    → (field v : String) → validate_identifier_field bytes field v ≡ none
    → validate_identifier (bytes v) ≡ true
field_valid bytes field v h = ground (arith, h)

module _ {W V : Type 0} (x : Setup W V) (c : Call) where
  abbrev pub IsName : String → Type 0
  IsName v = validate_identifier (x.bytes v) ≡ true

  abbrev pub Writes : SaveWriteRequest → Type 0
  Writes r = IsName r.slot × ((length r.payload == 0) ≡ false)

  abbrev pub Merges : ConfigWriteRequest → Type 0
  Merges r = ((length r.merge == 0) ≡ false) × (all_allowed r.merge ≡ true)

  abbrev pub Acts : ModRequest → Type 0
  Acts r = IsName r.id × (known_action x c r.action ≡ true)

  module _ (Q : Reply V × State W → Type 0) (s : State W) where
    pub get_only-then : (f : W → V) → ((r : Reply V) → Q (r, s)) → Q (get_only x c f s)
    get_only-then f stays =
        if-then Q (not (str_eq c.request.method "GET")) _ _ s (λ e. stays _) (λ e. stays _)

    pub handle_session-then :
        ((r : Reply V) → (st : Store) → Q (r, record s { store = st })) → Q (handle_session x c s)
    unfolding handle_session
    handle_session-then stays =
        let here : (r : Reply V) → Q (r, s) = λ r. stays r s.store in
        if-then Q (not (str_eq c.request.method "POST")) _ _ s (λ e. here _)
          (λ e.
            if-then Q (not (content_type_ok c.request.media_type)) _ _ s (λ e. here _)
              (λ e.
                on_body-then Q s here (decode_json x.is_blank x.decode_token (pos 4096) c.body) _
                  (λ token d.
                    if-then Q (ltb (length (x.bytes token)) 32 || ltb 256 (length (x.bytes token)))
                      _ _ s (λ e. here _)
                      (λ e.
                        on_exchange-then Q s stays
                          (exchange token c.request.origin c.now c.id c.csrf s.store)))))

    module _ (stays : (r : Reply V) → Q (r, s)) where
      pub write_decoded-then :
          (a : ℕ)
          → (r : SaveWriteRequest)
          → (Writes r → Q (charged x c a (pos (length r.payload)) (write_charged x c a r) s))
          → Q (write_decoded x c a r s)
      write_decoded-then a r h =
          valid_or-then Q s stays (validate_identifier_field x.bytes "slot" r.slot) _ (λ v.
            if-then Q (length r.payload == 0) _ _ s (λ e. stays _)
              (λ e. h (field_valid x.bytes "slot" r.slot v, e)))

      pub merge_decoded-then :
          (a : ℕ)
          → (r : ConfigWriteRequest)
          → (Merges r → Q (charged x c a (pos 1024) (merge_charged x c r) s))
          → Q (merge_decoded x c a r s)
      merge_decoded-then a r h =
          if-then Q (length r.merge == 0) _ _ s (λ e. stays _)
            (λ e.
              if-then Q (not (all_allowed r.merge)) _ _ s (λ e'. stays _)
                (λ e'. h (e, ground (arith, e'))))

      pub mod_decoded-then :
          (a : ℕ)
          → (r : ModRequest)
          → (Acts r → Q (charged x c a (pos (length r.archive_bytes)) (act_on_mod x c r) s))
          → Q (mod_decoded x c a r s)
      mod_decoded-then a r h =
          valid_or-then Q s stays (validate_identifier_field x.bytes "id" r.id) _ (λ v.
            if-then Q (not (known_action x c r.action)) _ _ s (λ e. stays _)
              (λ e. h (field_valid x.bytes "id" r.id v, ground (arith, e))))
