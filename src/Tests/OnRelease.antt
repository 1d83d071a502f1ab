-- ===== src/Tests/OnRelease.antt =====
-- Archive entries, releases and merged settings.
use kobra_game.Base.{◌≡◌, refl, true, false, some, List, [], ◌∷◌}
use kobra_game.Storage.Text.{Text, same_text}
use kobra_game.Storage.Json.{number, object, end_, field, Fields, Json}
use kobra_game.Update.Archive
use kobra_game.Update.Archive.Confined.{Placed, entries_confined}
use kobra_game.Update.Version
use kobra_game.Update.Version.Order.{release_newer_strict}
use kobra_game.Update.ConfigMerge
use kobra_game.Update.ConfigMerge.Kept.{value_at, NotOwned, local_value_kept}

-- a/../b
abbrev up_and_down : Text
up_and_down = 97 ∷ 47 ∷ 46 ∷ 46 ∷ 47 ∷ 98 ∷ []

entries_confined_example : Placed (Archive.check_entry Archive.type_reg up_and_down)
entries_confined_example = entries_confined Archive.type_reg up_and_down

admitted :
    Archive.check_entry Archive.type_reg up_and_down
    ≡ Archive.entry Archive.kind_regular ((98 ∷ []) ∷ [])
unfolding Archive.check_entry Archive.clean_path Archive.split Archive.check_segments
    Archive.is_reserved_component Archive.unstack same_text
admitted = refl

-- 2024.01.<n>
abbrev january : Text → Text
january n = 50 ∷ 48 ∷ 50 ∷ 52 ∷ 46 ∷ 48 ∷ 49 ∷ 46 ∷ n

abbrev tenth : Text
tenth = january (49 ∷ 48 ∷ [])

abbrev ninth : Text
ninth = january (57 ∷ [])

abbrev first : Text
first = january (49 ∷ [])

tenth_newer : Version.release_newer tenth ninth ≡ true
unfolding Version.release_newer Version.valid_release Version.split_dots Version.parse_version
    Version.parse_parts Version.digits_onto Version.compare_parts same_text
tenth_newer = refl

ninth_newer : Version.release_newer ninth first ≡ true
unfolding Version.release_newer Version.valid_release Version.split_dots Version.parse_version
    Version.parse_parts Version.digits_onto Version.compare_parts same_text
ninth_newer = refl

release_newer_strict_example :
    (Version.release_newer tenth first ≡ true) × (Version.release_newer first tenth ≡ false)
release_newer_strict_example = release_newer_strict tenth ninth first tenth_newer ninth_newer

-- {"a": {"b": 1}} and {"a": {"b": 2, "c": 2}}
abbrev one : Json
one = number (49 ∷ [])

abbrev two : Json
two = number (50 ∷ [])

abbrev local_doc : Fields
local_doc = field (97 ∷ []) (object (field (98 ∷ []) one end_)) end_

abbrev release_doc : Fields
release_doc = field (97 ∷ []) (object (field (98 ∷ []) two (field (99 ∷ []) two end_))) end_

abbrev a_b : List Text
a_b = (97 ∷ []) ∷ (98 ∷ []) ∷ []

free : NotOwned a_b
unfolding ConfigMerge.release_owned same_text
free = (refl, (refl, tt))

there : value_at a_b (some (object local_doc)) ≡ some one
unfolding value_at ConfigMerge.find same_text
there = refl

local_value_kept_example :
    value_at a_b (some (object (ConfigMerge.merge_config_docs local_doc release_doc))) ≡ some one
local_value_kept_example = local_value_kept a_b local_doc release_doc one free refl there
