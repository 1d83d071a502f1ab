-- ===== src/Update/Reports/Unchanged.antt =====
-- What `assertDataUnchanged` of launcher/internal/update/apply.go accepts.
use kobra_game.Base.{
  suc, ◌≡◌, refl, ap, String, Bool, true, Option, none, some, [], ◌∷◌, ◌&&◌, ◌==◌, eq_iff, arith,
  length, Dict, lookup, delete, Distinct, lookup-delete, delete-Distinct,
}
use kobra_game.Base.Int.{ℤ, eq_of_parts}
use kobra_game.Update.Reports.{all_known, same_time, data_unchanged}

module _ {V : Type 0} where
  delete_absent : (k : String) → (m : Dict V) → lookup k m ≡ none → delete k m ≡ m
  unfolding lookup delete
  delete_absent k [] h = refl
  delete_absent k ((j, w) ∷ m) h = ground (arith, delete_absent k m)

  length-delete_present :
      (k : String)
      → (v : V) → (m : Dict V) → Distinct m
      → lookup k m ≡ some v
      → length m ≡ suc (length (delete k m))
  unfolding lookup delete
  length-delete_present k v [] d h = ground arith
  length-delete_present k v ((j, w) ∷ m) d h =
      ground (arith, d, eq_iff j k, length-delete_present k v m, delete_absent k m)

same_time→eq : (t : ℤ) → (o : Option ℤ) → same_time t o ≡ true → o ≡ some t
same_time→eq t none h = ground arith
same_time→eq t (some was) h = ap some (ground (arith, eq_of_parts was t))

known_delete :
    (k : String)
    → (before rest : Dict ℤ) → lookup k rest ≡ none
    → all_known before rest ≡ true
    → all_known (delete k before) rest ≡ true
unfolding lookup all_known
known_delete k before [] h a = refl
known_delete k before ((j, u) ∷ rest) h a =
    ground (arith, eq_iff j k, eq_iff k j, lookup-delete k j before, known_delete k before rest)

and_parts : (b c : Bool) → (b && c) ≡ true → (b ≡ true) × (c ≡ true)
and_parts b c h = ground arith

same_entries :
    (before after : Dict ℤ)
    → Distinct before
    → Distinct after
    → length after ≡ length before
    → all_known before after ≡ true
    → (name : String) → lookup name after ≡ lookup name before
unfolding lookup all_known
same_entries [] [] d d' len known name = refl
same_entries (b ∷ before) [] d d' len known name = ground arith
same_entries before ((k, t) ∷ after) d d' len known name =
    let parts = and_parts (same_time t (lookup k before)) (all_known before after) known in
    let here = same_time→eq t (lookup k before) parts.0 in
    let shorter = length-delete_present k t before d here in
    let rest =
      same_entries (delete k before) after (delete-Distinct k before d) d'.1 (omega arith)
        (known_delete k before after d'.0 parts.1) name in
    ground (arith, eq_iff k name, lookup-delete k name before, rest, here)

-- Where `assertDataUnchanged` accepts what it finds in data/, every name has the same entry, at the
-- same time, that it had before the extraction, or has none as it had none before: each walk naming
-- an entry once.
pub data_unchanged_sound :
    (before after : Dict ℤ)
    → Distinct before
    → Distinct after
    → data_unchanged before (some after) ≡ true
    → (name : String) → lookup name after ≡ lookup name before
unfolding data_unchanged
data_unchanged_sound before after d d' h =
    let parts = and_parts (length after == length before) (all_known before after) h in
    same_entries before after d d' (ground arith) parts.1
