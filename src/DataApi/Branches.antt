-- ===== src/DataApi/Branches.antt =====
-- A property of what a handler leaves, from its branches: the steps of DataApi/Replies.antt.
use kobra_game.Base.{ℕ, ◌≡◌, refl, String, Bool, true, false, Option, none, some, if◌then◌else◌}
use kobra_game.KobraErr.Types.{Err}
use kobra_game.Storage.Text.{Text}
use kobra_game.Session.Types.{Store}
use kobra_game.Session.Operations.{Result, ok, err}
use kobra_game.DataApi.Pipeline.{Verdict, misdirected, rejected, passed}
use kobra_game.DataApi.Service.{Outcome, done, failed, State}
use kobra_game.DataApi.Bodies.{validate_identifier_field}
use kobra_game.DataApi.Replies.{
  Reply, Handler, valid_or, on_path, on_body, on_allowed, on_verdict, on_exchange,
}

module _ {W V : Type 0} (Q : Reply V × State W → Type 0) where
  pub if-then :
      (b : Bool)
      → (j k : Handler W V) → (s : State W) → (b ≡ true → Q (j s))
      → (b ≡ false → Q (k s))
      → Q ((if b then j else k) s)
  if-then true j k s h g = h refl
  if-then false j k s h g = g refl

  -- The steps below refuse with an answer of their own, in the state they are in.
  module _ (s : State W) (stays : (r : Reply V) → Q (r, s)) where
    pub valid_or-then :
        (o : Option Err) → (k : Handler W V) → (o ≡ none → Q (k s)) → Q (valid_or o k s)
    valid_or-then none k h = h refl
    valid_or-then (some e) k h = stays _

    pub on_path-then :
        (bytes : String → Text)
        → (field what : String) → (o : Option String) → (k : String → Handler W V)
        → ((v : String) → validate_identifier_field bytes field v ≡ none → Q (k v s))
        → Q (on_path bytes field what o k s)
    on_path-then bytes field what none k h = stays _
    on_path-then bytes field what (some v) k h =
        valid_or-then (validate_identifier_field bytes field v) (k v) (h v)

    pub on_body-then :
        {A : Type 0} (o : Outcome A)
        → (k : A → Handler W V) → ((r : A) → o ≡ done r → Q (k r s))
        → Q (on_body o k s)
    on_body-then (failed e) k h = stays _
    on_body-then (done r) k h = h r refl

  -- These change the session store first.
  module _ (s : State W)
      (stays : (r : Reply V) → (st : Store) → Q (r, record s { store = st })) where
    pub on_allowed-then :
        (p : Result (Unit {0}) × Store)
        → (k : Handler W V) → (p.0 ≡ ok tt → Q (k (record s { store = p.1 })))
        → Q (on_allowed p k s)
    on_allowed-then (err e, st) k h = stays _ st
    on_allowed-then (ok u, st) k h = h refl

    pub on_verdict-then :
        (v : Verdict × Store)
        → (k : ℕ → Handler W V) → ((a : ℕ) → v.0 ≡ passed a → Q (k a (record s { store = v.1 })))
        → Q (on_verdict v k s)
    on_verdict-then (misdirected, st) k h = stays _ st
    on_verdict-then (rejected e, st) k h = stays _ st
    on_verdict-then (passed a, st) k h = h a refl

    pub on_exchange-then : (p : Result ℕ × Store) → Q (on_exchange p s)
    on_exchange-then (err e, st) = stays _ st
    on_exchange-then (ok a, st) = stays _ st
