-- ===== src/Tests/OnErrors.antt =====
-- Error envelopes.
use kobra_game.Base.{◌≡◌, refl, true, insert, Distinct}
use kobra_game.Base.Int.{pos}
use kobra_game.KobraErr.Types.{as_kobra, KobraError, nil, plain, wrap, join, kobra}
use kobra_game.KobraErr.Build.{rate_limited_error}
use kobra_game.KobraErr.Envelope.{
  add_retry, add_detail, base_document, document, encodes_body, write_envelope,
}
use kobra_game.KobraErr.Laws.{write_envelope_hides, visible}

abbrev limited : KobraError
limited = rate_limited_error "writes" (pos 12)

encoded : encodes_body (document limited) ≡ true
unfolding document rate_limited_error add_retry insert add_detail base_document
encoded = refl

distinct : Distinct limited.wire
unfolding rate_limited_error
distinct = tt

same_fields :
    visible (wrap "a" (kobra limited.fields (plain "/secret")))
    ≡ visible (join (plain "b") (kobra limited.fields nil))
unfolding as_kobra
same_fields = refl

write_envelope_hides_example :
    write_envelope (wrap "a" (kobra limited.fields (plain "/secret")))
    ≡ write_envelope (join (plain "b") (kobra limited.fields nil))
write_envelope_hides_example =
    write_envelope_hides (wrap "a" (kobra limited.fields (plain "/secret")))
      (join (plain "b") (kobra limited.fields nil)) same_fields
