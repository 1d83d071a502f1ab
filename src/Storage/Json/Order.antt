-- ===== src/Storage/Json/Order.antt =====
-- The canonical encoding of launcher/internal/storage/storage.go and the order of `range`.
use kobra_game.Base.{◌≡◌, ◌≢◌, refl, ◌∙◌, ap, List, [], ◌∷◌, ◌++◌, not, arith}
use kobra_game.Storage.Text.{Text, before, before_asym, before_trans, before_total}
use kobra_game.Storage.Json

other_way : (s t : Text) → s ≢ t → before s t ≡ not (before t s)
other_way s t d = ground (arith, before_asym s t, before_total s t)

place_comm :
    (e f : Json.Encoded)
    → e.0 ≢ f.0
    → (xs : List Json.Encoded) → Json.place e (Json.place f xs) ≡ Json.place f (Json.place e xs)
unfolding Json.place
place_comm e f d [] = ground (arith, other_way e.0 f.0 d)
place_comm e f d (x ∷ xs) = ground (
  arith,
  place_comm e f d xs,
  other_way e.0 f.0 d,
  before_trans x.0 e.0 f.0,
  before_trans x.0 f.0 e.0,
)

-- One value, the fields of its objects in another order, however deep they lie.
mutual
  pub data SameValue : Json.Json → Json.Json → Type 0 where
    equal : (v : Json.Json) → SameValue v v
    in_array : (xs ys : Json.Items) → SameItems xs ys → SameValue (Json.array xs) (Json.array ys)
    in_object :
        (fs gs : Json.Fields) → Reordered fs gs → SameValue (Json.object fs) (Json.object gs)

  pub data SameItems : Json.Items → Json.Items → Type 0 where
    both_nil : SameItems Json.nil Json.nil
    both_item :
        (v w : Json.Json)
        → (xs ys : Json.Items) → SameValue v w
        → SameItems xs ys
        → SameItems (Json.item v xs) (Json.item w ys)

  pub data Reordered : Json.Fields → Json.Fields → Type 0 where
    both_end : Reordered Json.end_ Json.end_
    under :
        (k : Text)
        → (v w : Json.Json) → (fs gs : Json.Fields) → SameValue v w
        → Reordered fs gs
        → Reordered (Json.field k v fs) (Json.field k w gs)
    swapped :
        (k l : Text)
        → (v w : Json.Json) → (fs : Json.Fields) → k ≢ l
        → Reordered (Json.field k v (Json.field l w fs)) (Json.field l w (Json.field k v fs))
    then_ : (fs gs hs : Json.Fields) → Reordered fs gs → Reordered gs hs → Reordered fs hs

mutual
  unfolding Json.encode_canonical Json.sort_keys

  same_text_of :
      (v w : Json.Json) → SameValue v w → Json.encode_canonical v ≡ Json.encode_canonical w
  same_text_of v w (equal u) = refl
  same_text_of v w (in_array xs ys r) = ap (λ t. (91 ∷ t) ++ (93 ∷ [])) (same_items xs ys r)
  same_text_of v w (in_object fs gs r) =
      ap (λ es. (123 ∷ Json.join_fields es) ++ (125 ∷ [])) (same_fields fs gs r)

  same_items : (xs ys : Json.Items) → SameItems xs ys → Json.encode_items xs ≡ Json.encode_items ys
  same_items xs ys both_nil = refl
  same_items xs ys (both_item v w as_ bs e r) =
      rw (same_text_of v w e) (rw (same_more as_ bs r) refl)

  same_more : (xs ys : Json.Items) → SameItems xs ys → Json.encode_more xs ≡ Json.encode_more ys
  same_more xs ys both_nil = refl
  same_more xs ys (both_item v w as_ bs e r) =
      rw (same_text_of v w e) (rw (same_more as_ bs r) refl)

  same_fields :
      (fs gs : Json.Fields)
      → Reordered fs gs
      → Json.sort_keys (Json.encode_fields fs) ≡ Json.sort_keys (Json.encode_fields gs)
  same_fields fs gs both_end = refl
  same_fields fs gs (under k v w as_ bs e r) =
      rw (same_text_of v w e) (rw (same_fields as_ bs r) refl)
  same_fields fs gs (swapped k l v w rest d) =
      place_comm (k, Json.encode_canonical v) (l, Json.encode_canonical w) d
        (Json.sort_keys (Json.encode_fields rest))
  same_fields fs gs (then_ as_ mid bs r q) = same_fields as_ mid r ∙ same_fields mid bs q

-- The canonical encoding of a value does not depend on the order in which Go ranges over the fields
-- of its objects, at whatever depth they are, in fields or in items of arrays; the keys of one object
-- are distinct.
pub encode-SameValue :
    (v w : Json.Json) → SameValue v w → Json.encode_canonical v ≡ Json.encode_canonical w
encode-SameValue v w r = same_text_of v w r
