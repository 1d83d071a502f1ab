-- ===== src/Storage/Mods/Enabled.antt =====
-- What is enabled after an action on the mods (launcher/internal/storage/mods.go).
use kobra_game.Base.{
  String, false, not, some, ◌≡◌, refl, [], ◌∷◌, List, str_eq, eq_iff, arith, ◌||◌, ◌&&◌,
}
use kobra_game.Base.Faults.{Fault, succeeds, dies, attempt, after}
use kobra_game.Storage.Text.{Text}
use kobra_game.Storage.Mods

has_id-place_id :
    (bytes : String → Text)
    → (x y : String) → (ys : List String)
    → Mods.has_id x (Mods.place_id bytes y ys) ≡ (str_eq y x || Mods.has_id x ys)
unfolding Mods.has_id Mods.place_id
has_id-place_id bytes x y [] = refl
has_id-place_id bytes x y (z ∷ zs) = ground (arith, has_id-place_id bytes x y zs)

-- Sorting keeps the set.
has_id-sort_ids :
    (bytes : String → Text)
    → (x : String) → (ys : List String) → Mods.has_id x (Mods.sort_ids bytes ys) ≡ Mods.has_id x ys
unfolding Mods.has_id Mods.sort_ids
has_id-sort_ids bytes x [] = refl
has_id-sort_ids bytes x (y ∷ ys) =
    ground (arith, has_id-place_id bytes x y (Mods.sort_ids bytes ys), has_id-sort_ids bytes x ys)

has_id-drop_id :
    (x y : String)
    → (ys : List String)
    → Mods.has_id x (Mods.drop_id y ys) ≡ (not (str_eq y x) && Mods.has_id x ys)
unfolding Mods.has_id Mods.drop_id
has_id-drop_id x y [] = ground arith
has_id-drop_id x y (z ∷ zs) =
    ground (arith, has_id-drop_id x y zs, eq_iff z y, eq_iff z x, eq_iff y x)

-- The power is lost when the old list is the .bak and the new one is not in place.
abbrev pub between_renames : List Fault
between_renames =
    succeeds ∷ succeeds ∷ succeeds ∷ succeeds ∷ succeeds ∷ succeeds ∷ succeeds ∷ succeeds ∷ succeeds
    ∷ succeeds ∷ dies ∷ []

-- After such a loss of power no mod is enabled, though the list that was there is in the .bak.
pub mods_forgotten :
    (bytes : String → Text)
    → (ids : List String) → (f : Mods.StateFile) → (s : Mods.Mods) → s.main ≡ some f
    → (Mods.enabled_mod_ids bytes (after (Mods.write_enabled bytes false ids s between_renames))
        ≡ [])
      × ((after (Mods.write_enabled bytes false ids s between_renames)).bak ≡ some f)
unfolding attempt Mods.sort_ids
mods_forgotten bytes ids f s p = (rw p refl, rw p refl)
