-- ===== src/Update/ConfigMerge.antt =====
-- `mergeConfigDocs` of launcher/internal/update/configmerge.go: what an update makes of a local
-- settings document and the release's. The key lists for the log are left out.
pub mod Kept
use kobra_game.Base.{[], ◌∷◌, Bool, true, false, not, Option, none, some, ◌||◌, if◌then◌else◌}
use kobra_game.Storage.Text.{Text, same_text}
use kobra_game.Storage.Json.{Json, null, boolean, number, text, array, object, Fields, end_, field}

-- `m[k]`
unfoldable pub find : Text → Fields → Option Json
unfolding same_text
find k end_ = none
find k (field l v fs) = let rest = find k fs in if same_text l k then some v else rest

abbrev pub is_object : Json → Bool
is_object (object _) = true
is_object _ = false

unfoldable pub join : Fields → Fields → Fields
join end_ gs = gs
join (field k v fs) gs = field k v (join fs gs)

-- Whether the release declares the key.
abbrev pub declares : Option Json → Bool
declares none = false
declares (some _) = true

-- The fields that only the local document has.
unfoldable pub only_local : Fields → Fields → Fields
unfolding find
only_local end_ release = end_
only_local (field k v fs) release =
    let rest = only_local fs release in if declares (find k release) then rest else field k v rest

-- `releaseOwnedKeys`: release, game_id, game_name, mime_types, locales and schema.
unfoldable pub release_owned : Text → Bool
unfolding same_text
release_owned k =
    same_text k (114 ∷ 101 ∷ 108 ∷ 101 ∷ 97 ∷ 115 ∷ 101 ∷ [])
    || same_text k (103 ∷ 97 ∷ 109 ∷ 101 ∷ 95 ∷ 105 ∷ 100 ∷ [])
    || same_text k (103 ∷ 97 ∷ 109 ∷ 101 ∷ 95 ∷ 110 ∷ 97 ∷ 109 ∷ 101 ∷ [])
    || same_text k (109 ∷ 105 ∷ 109 ∷ 101 ∷ 95 ∷ 116 ∷ 121 ∷ 112 ∷ 101 ∷ 115 ∷ [])
    || same_text k (108 ∷ 111 ∷ 99 ∷ 97 ∷ 108 ∷ 101 ∷ 115 ∷ [])
    || same_text k (115 ∷ 99 ∷ 104 ∷ 101 ∷ 109 ∷ 97 ∷ [])

unfoldable mutual
  -- The value of a key that the release declares and does not own.
  pub merge_value : Json → Option Json → Json
  merge_value rv none = rv
  merge_value (object rm) (some (object lm)) =
      object (join (merge_declared rm lm) (only_local lm rm))
  merge_value (object rm) (some lv) = lv
  merge_value rv (some lv) = lv

  pub merge_declared : Fields → Fields → Fields
  merge_declared end_ local = end_
  merge_declared (field k rv fs) local =
      field k (if release_owned k then rv else merge_value rv (find k local))
        (merge_declared fs local)

-- `mergeConfigDocs`
unfoldable pub merge_config_docs : Fields → Fields → Fields
unfolding merge_declared join only_local
merge_config_docs local release = join (merge_declared release local) (only_local local release)
