-- ===== src/Server/Paths.antt =====
-- The paths that `normalisePath` of launcher/internal/server/server.go lets through.
use kobra_game.Base.{
  ◌≡◌, refl, ◌∙◌, sym, ap, Bool, true, false, Option, none, some, List, [], ◌∷◌, arith,
  if◌then◌else◌,
}
use kobra_game.Storage.Text.{Text, same_text}
use kobra_game.Update.Archive.{split, clean_path, unstack}
use kobra_game.Server.{normalise_path, dotted, or_root}

-- The components that are not empty.
abbrev pub nonempty : List Text → List Text
nonempty [] = []
nonempty (w ∷ ws) = let rest = nonempty ws in if same_text w [] then rest else w ∷ rest

clean_lem : (ws st : List Text) → dotted ws ≡ false → clean_path st ws ≡ unstack st (nonempty ws)
unfolding clean_path unstack
clean_lem [] st h = refl
clean_lem (w ∷ ws) st h = ground (arith, h, clean_lem ws st, clean_lem ws (w ∷ st))

checked :
    (bad dots : Bool)
    → (kept : List Text) → (cs : List Text)
    → (if bad then none else if dots then none else some kept) ≡ some cs
    → (dots ≡ false) × (kept ≡ cs)
checked true dots kept cs h = absurd (ground arith)
checked false true kept cs h = absurd (ground arith)
checked false false kept cs h = (refl, some_inj kept cs h)
  where
    value : Option (List Text) → List Text
    value none = []
    value (some v) = v

    some_inj : (v u : List Text) → some v ≡ some u → v ≡ u
    some_inj v u e = ap value e

-- A path that is let through has neither "." nor ".." among its components, and goes on with just
-- those of them that are not empty, in their order: the cleaning adds, drops and moves nothing else.
pub normalise_path_exact :
    (path : Text)
    → (cs : List Text) → normalise_path path ≡ some cs
    → (dotted (split (or_root path)) ≡ false) × (cs ≡ nonempty (split (or_root path)))
unfolding normalise_path unstack
normalise_path_exact path cs h =
    let parts = checked _ (dotted (split (or_root path))) _ cs h in
    (parts.0, sym parts.1 ∙ clean_lem (split (or_root path)) [] parts.0)
