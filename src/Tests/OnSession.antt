-- ===== src/Tests/OnSession.antt =====
-- A store in which one token was issued and exchanged.
use kobra_game.Base.{
  String, ◌≡◌, ◌≢◌, refl, Bool, true, false, none, some, [], ◌∷◌, List, lookup, if◌then◌else◌,
  arith, eq_iff, insert,
}
use kobra_game.Base.Int.{pos, saturate64, ◌-ℤ◌}
use kobra_game.KobraErr.Build.{writer_held_error}
use kobra_game.Session.Types.{Options, Store, new_store, sub_time}
use kobra_game.Session.Table.Evict.{dead_at}
use kobra_game.Session.Operations.{
  ok, err, exchange, new_bootstrap_token, bootstrap_rejected_error, reap, clear, claim_writer,
}
use kobra_game.Session.Runs.{Call, issues, exchanges, gets, reaps, clears, run}
use kobra_game.Session.Invariant.{Inv}
use kobra_game.Session.Invariant.Keeps.{sessions_well_formed}
use kobra_game.Session.Tokens.{usable}
use kobra_game.Session.Tokens.Once.{token_single_use}
use kobra_game.Session.Reaping.{reap_exact, survivor}
use kobra_game.Session.Writer.{stale_claim_blocks}

abbrev options : Options
options = record {
  bootstrap_ttl = pos 0;
  session_ttl = pos 0;
  inactivity = pos 0;
  max_sessions = pos 2;
  logger = true;
}

abbrev issued : Store
issued = run (issues (pos 1) (some "t") ∷ []) (new_store options)

abbrev opening : List Call
opening = issues (pos 1) (some "t") ∷ exchanges "t" "o" (pos 2) (some "id1") (some "c1") ∷ []

abbrev opened : Store
opened = run opening (new_store options)

-- The session is opened and cleared away.
abbrev leaving : List Call
leaving =
    issues (pos 1) (some "t") ∷ exchanges "t" "o" (pos 2) (some "id1") (some "c1") ∷ clears ∷ []

abbrev left : Store
left = run leaving (new_store options)

made : (exchange "t" "o" (pos 2) (some "id1") (some "c1") issued).0 ≡ ok 0
unfolding run new_store exchange new_bootstrap_token lookup clear insert sub_time saturate64 ◌-ℤ◌
made = refl

unknown_token : usable (new_store options) (pos 2) "t" ≡ false
unfolding new_store lookup
unknown_token = refl

gone : lookup (left.heap 0).id left.sessions ≡ none
unfolding run new_store exchange new_bootstrap_token lookup clear insert sub_time saturate64 ◌-ℤ◌
gone = refl

free : left.writer_id ≡ ""
unfolding run new_store exchange new_bootstrap_token lookup clear insert sub_time saturate64 ◌-ℤ◌
free = refl

left_id : (left.heap 0).id ≡ "id1"
unfolding run new_store exchange new_bootstrap_token lookup clear insert sub_time saturate64 ◌-ℤ◌
left_id = refl

other_id : (left.heap 1).id ≡ ""
unfolding run new_store exchange new_bootstrap_token lookup clear insert sub_time saturate64 ◌-ℤ◌
other_id = refl

named : (left.heap 0).id ≢ ""
named = rw left_id (ground (arith, eq_iff "id1" ""))

others : (left.heap 1).id ≢ (left.heap 0).id
others = rw (left_id, other_id) (ground (arith, eq_iff "" "id1"))

sessions_well_formed_example : Inv (run opening (new_store options))
sessions_well_formed_example = sessions_well_formed options opening

token_single_use_example :
    (exchange "t" "p" (pos 9) (some "id2") (some "c2") (
      run
        (gets "id1" (pos 7) ∷ reaps (pos 8) ∷ [])
        (exchange "t" "o" (pos 2) (some "id1") (some "c1") issued).1)).0
    ≡ err bootstrap_rejected_error
token_single_use_example =
    token_single_use "t" "o" "p" (pos 2) (pos 9) (some "id1") (some "c1") (some "id2") (some "c2")
      issued 0 (gets "id1" (pos 7) ∷ reaps (pos 8) ∷ []) made (tt, (tt, tt))

reap_exact_example :
    let late = pos 1_800_000_000_002 in
    (lookup "id1" (reap late opened).sessions ≡ survivor opened late (lookup "id1" opened.sessions))
    × ((reap late opened).writer_id ≡ (
        if (elim (lookup opened.writer_id opened.sessions) as (λ _. Bool) [
          | none ↦ false
          | some a ↦ dead_at opened late a
        ])
        then ""
        else opened.writer_id))
    × ((reap late opened).heap ≡ opened.heap)
reap_exact_example =
    reap_exact (pos 1_800_000_000_002) opened "id1" (sessions_well_formed options opening)

abbrev c1 : String
c1 = "c1"

stale_claim_blocks_example :
    let t = reap (pos 10) (claim_writer (some 0) left).1 in
    (claim_writer (some 1) t).0 ≡ err (writer_held_error (left.heap 0).id)
stale_claim_blocks_example =
    stale_claim_blocks 0 1 (pos 10) left (sessions_well_formed options leaving) gone free named
      others
