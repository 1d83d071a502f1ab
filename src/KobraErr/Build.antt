-- ===== src/KobraErr/Build.antt =====
-- The constructors of launcher/internal/kobraerr/kobraerr.go.
use kobra_game.Base.{ℕ, String, Dict, [], ◌∷◌}
use kobra_game.Base.Int.{ℤ, pos}
use kobra_game.KobraErr.Types.{
  Code, bad_identifier, malformed_body, no_session, bad_origin, bad_csrf, not_found, conflict,
  too_large, bad_content_type, rate_limited, io_error, read_only, Scalar, str, int, Err, nil, plain,
  KobraError,
}

-- The literal `&KobraError{Code, HTTP, Msg, Detail, Cause}`; the fields left out are zero.
abbrev build : Code → ℕ → String → Dict Scalar → Err → KobraError
build c h m d e = record {
  fields = record { code = c; http = h; msg = m; detail = d; retry_after = pos 0; wire = [] };
  cause = e;
}

unfoldable pub bad_identifier_error : String → Err → KobraError
bad_identifier_error field cause =
    build bad_identifier 400
      "That name is not allowed. Use lowercase letters, digits, dots, dashes and underscores, starting with a letter or digit."
      (("field", str field) ∷ []) cause

unfoldable pub malformed_body_error : Err → KobraError
malformed_body_error cause =
    build malformed_body 400 "The request body was not valid JSON for this endpoint." [] cause

unfoldable pub malformed_field_error : String → String → Err → KobraError
malformed_field_error field msg cause =
    build malformed_body 400 msg (("field", str field) ∷ []) cause

unfoldable pub no_session_error : Err → KobraError
no_session_error cause =
    build no_session 401 "This page has no active session. Reload the game from the launcher." []
      cause

unfoldable pub bad_origin_error : String → Err → KobraError
bad_origin_error origin cause =
    build bad_origin 403 "The request came from a different origin." [] cause

unfoldable pub bad_csrf_error : Err → KobraError
bad_csrf_error cause = build bad_csrf 403 "The request was missing a valid CSRF token." [] cause

unfoldable pub not_found_error : String → KobraError
not_found_error what = build not_found 404 "That item does not exist." [] (plain what)

unfoldable pub conflict_error : String → Dict Scalar → KobraError
conflict_error msg detail = build conflict 409 msg detail nil

unfoldable pub writer_held_error : String → KobraError
unfolding conflict_error
writer_held_error current_writer =
    conflict_error "Another tab is currently saving." (("current_writer", str current_writer) ∷ [])

unfoldable pub too_large_error : ℤ → KobraError
too_large_error limit =
    build too_large 413 "That request was larger than the launcher accepts."
      (("max_request_bytes", int limit) ∷ []) nil

unfoldable pub length_required_error : KobraError
length_required_error = build too_large 411 "The request must declare its Content-Length." [] nil

unfoldable pub bad_content_type_error : String → KobraError
bad_content_type_error got =
    build bad_content_type 415 "That content type is not accepted here."
      (("expected", str "application/json") ∷ []) (plain got)

unfoldable pub method_not_allowed_error : String → KobraError
method_not_allowed_error allow =
    build bad_identifier 405 "That method is not allowed for this endpoint."
      (("allow", str allow) ∷ []) nil

unfoldable pub rate_limited_error : String → ℤ → KobraError
rate_limited_error kind retry_after = record {
  fields = record {
    code = rate_limited;
    http = 429;
    msg = "Too many requests in a short time. The launcher is throttling this tab.";
    detail = ("kind", str kind) ∷ [];
    retry_after = retry_after;
    wire = [];
  };
  cause = nil;
}

unfoldable pub io_failure : String → Dict Scalar → Err → KobraError
io_failure msg detail cause = build io_error 500 msg detail cause

unfoldable pub insufficient_space_error : KobraError
unfolding io_failure
insufficient_space_error =
    io_failure "The disk is full. Free some space and try again."
      (("reason", str "insufficient_space") ∷ []) nil

unfoldable pub out_of_root_error : String → KobraError
unfolding io_failure
out_of_root_error id =
    io_failure "The launcher refused to read or write that location."
      (("reason", str "out_of_root") ∷ []) (plain id)

unfoldable pub read_only_error : String → KobraError
read_only_error reason =
    build read_only 503 "The game cannot save because its data folder is read-only."
      (("reason", str reason) ∷ []) nil

unfoldable pub draining_error : KobraError
draining_error = build read_only 503 "The launcher is shutting down." [] nil
