-- ===== src/Update/ConfigMerge/Kept.antt =====
-- What the merge of settings documents (launcher/internal/update/configmerge.go) keeps.
use kobra_game.Base.{
  ◌≡◌, refl, ◌∙◌, ap, [], ◌∷◌, List, Bool, true, false, Option, none, some, inl, inr, arith,
  Bool-cases, if◌then◌else◌,
}
use kobra_game.Storage.Text.{Text, same_text}
use kobra_game.Storage.Json.{Json, null, boolean, number, text, array, object, Fields, end_, field}
use kobra_game.Update.ConfigMerge

abbrev pub or_else : Option Json → Option Json → Option Json
or_else none y = y
or_else (some x) y = some x

-- The value of a key in the merged document, from its values in the release and locally.
abbrev pub merged_value : Text → Option Json → Option Json → Option Json
merged_value k none l = l
merged_value k (some rv) l =
    some (if ConfigMerge.release_owned k then rv else ConfigMerge.merge_value rv l)

find-join :
    (k : Text)
    → (fs gs : Fields)
    → ConfigMerge.find k (ConfigMerge.join fs gs)
      ≡ or_else (ConfigMerge.find k fs) (ConfigMerge.find k gs)
unfolding ConfigMerge.find ConfigMerge.join
find-join k end_ gs = refl
find-join k (field l v fs) gs = ground (arith, find-join k fs gs)

pub same_text-eq : (s t : Text) → same_text s t ≡ true → s ≡ t
unfolding same_text
same_text-eq [] [] h = refl
same_text-eq [] (d ∷ t) h = ground (arith, h)
same_text-eq (c ∷ s) [] h = ground (arith, h)
same_text-eq (c ∷ s) (d ∷ t) h = ground (arith, h, same_text-eq s t)

abbrev pub owned_or : Fields → Text → Option Json → Option Json
owned_or local k none = none
owned_or local k (some rv) = some (
    if ConfigMerge.release_owned k
    then rv
    else ConfigMerge.merge_value rv (ConfigMerge.find k local))

find-merge_declared :
    (k : Text)
    → (fs local : Fields)
    → ConfigMerge.find k (ConfigMerge.merge_declared fs local)
      ≡ owned_or local k (ConfigMerge.find k fs)
unfolding ConfigMerge.find ConfigMerge.merge_declared
find-merge_declared k end_ local = refl
find-merge_declared k (field l rv fs) local = elim (Bool-cases (same_text l k)) [
  | inl e ↦ rw (same_text-eq l k e) (rw (rw (same_text-eq l k e) at e) refl)
  | inr e ↦ rw e (find-merge_declared k fs local)
]

find-only_local :
    (k : Text)
    → (local release : Fields)
    → ConfigMerge.find k (ConfigMerge.only_local local release) ≡ (
        if ConfigMerge.declares (ConfigMerge.find k release)
        then none
        else ConfigMerge.find k local)
unfolding ConfigMerge.find ConfigMerge.only_local
find-only_local k end_ release = ground arith
find-only_local k (field l v fs) release = elim (Bool-cases (same_text l k)) [
  | inl e ↦ ground (
    arith,
    e,
    find-only_local k fs release,
    ap (λ x. ConfigMerge.declares (ConfigMerge.find x release)) (same_text-eq l k e),
  )
  | inr e ↦ ground (arith, e, find-only_local k fs release)
]

-- Every key of the merged document has the release's value where the release declares it and owns it
-- or only it has it, the merge of both values where it does not own it, and the local value where
-- the release does not declare it.
pub find-merge_config_docs :
    (k : Text)
    → (local release : Fields)
    → ConfigMerge.find k (ConfigMerge.merge_config_docs local release)
      ≡ merged_value k (ConfigMerge.find k release) (ConfigMerge.find k local)
unfolding ConfigMerge.merge_config_docs
find-merge_config_docs k local release =
    find-join k (ConfigMerge.merge_declared release local) (ConfigMerge.only_local local release)
    ∙ (rw (find-merge_declared k release local, find-only_local k local release)
        (by_release (ConfigMerge.find k release)))
  where
    by_release :
        (r : Option Json)
        → or_else
            (owned_or local k r)
            (if ConfigMerge.declares r then none else ConfigMerge.find k local)
          ≡ merged_value k r (ConfigMerge.find k local)
    by_release none = refl
    by_release (some rv) = refl

-- The value at a path of keys.
unfoldable pub value_at : List Text → Option Json → Option Json
unfolding ConfigMerge.find
value_at [] o = o
value_at (k ∷ ks) (some (object fs)) = value_at ks (ConfigMerge.find k fs)
value_at (k ∷ ks) _ = none

abbrev pub NotOwned : List Text → Type 0
NotOwned [] = Unit
NotOwned (k ∷ ks) = (ConfigMerge.release_owned k ≡ false) × NotOwned ks

none-at : (ks : List Text) → value_at ks none ≡ none
unfolding value_at
none-at [] = refl
none-at (k ∷ ks) = refl

abbrev pub object_there : Option Json → Bool
object_there none = false
object_there (some v) = ConfigMerge.is_object v

leaf_kept :
    (ks : List Text)
    → (r l v : Json) → NotOwned ks
    → ConfigMerge.is_object v ≡ false
    → value_at ks (some l) ≡ some v
    → value_at ks (some (ConfigMerge.merge_value r (some l))) ≡ some v
unfolding value_at ConfigMerge.merge_value ConfigMerge.join ConfigMerge.merge_config_docs
leaf_kept ks null l v n o h = h
leaf_kept ks (boolean b) l v n o h = h
leaf_kept ks (number b) l v n o h = h
leaf_kept ks (text b) l v n o h = h
leaf_kept ks (array b) l v n o h = h
leaf_kept ks (object rm) null v n o h = h
leaf_kept ks (object rm) (boolean b) v n o h = h
leaf_kept ks (object rm) (number b) v n o h = h
leaf_kept ks (object rm) (text b) v n o h = h
leaf_kept ks (object rm) (array b) v n o h = h
leaf_kept [] (object rm) (object lm) v n o h = ground (arith, ap object_there h, o)
leaf_kept (k ∷ ks) (object rm) (object lm) v (n, ns) o h =
    ap (value_at ks) (find-merge_config_docs k lm rm)
    ∙ by_values (ConfigMerge.find k rm) (ConfigMerge.find k lm) h
        (λ rv lv p. leaf_kept ks rv lv v ns o p)
  where
    by_values :
        (r l : Option Json)
        → value_at ks l ≡ some v
        → ((rv lv : Json)
            → value_at ks (some lv) ≡ some v
            → value_at ks (some (ConfigMerge.merge_value rv (some lv))) ≡ some v)
        → value_at ks (merged_value k r l) ≡ some v
    by_values none l p rest = p
    by_values (some rv) none p rest = ground (arith, p, none-at ks)
    by_values (some rv) (some lv) p rest = rw n (rest rv lv p)

-- No update loses a local setting: a value that is no object and stands in the local document at a
-- path of keys, none of which the release owns, stands there in the merged document as well.
pub local_value_kept :
    (ks : List Text)
    → (local release : Fields) → (v : Json) → NotOwned ks
    → ConfigMerge.is_object v ≡ false
    → value_at ks (some (object local)) ≡ some v
    → value_at ks (some (object (ConfigMerge.merge_config_docs local release))) ≡ some v
unfolding ConfigMerge.merge_value ConfigMerge.merge_config_docs ConfigMerge.join
local_value_kept ks local release v n o h = leaf_kept ks (object release) (object local) v n o h
