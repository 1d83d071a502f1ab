-- ===== src/Update/Download/Redirects.antt =====
-- The chains of redirects that a download follows (launcher/internal/update/download.go).
use kobra_game.Base.{
  ◌+◌, ◌≤◌, ◌≡◌, String, [], ◌∷◌, ◌++◌, List, Bool, true, length, length-append, arith, str_eq,
  ◌&&◌,
}
use kobra_game.Update.Download

-- Each redirect of the second list is followed, after the requests of the first.
unfoldable pub follows : List String → List String → Bool
follows via [] = true
follows via (scheme ∷ rest) =
    Download.check_download_redirect scheme via && follows (via ++ (scheme ∷ [])) rest

abbrev pub AllSecure : List String → Type 0
AllSecure [] = Unit
AllSecure (scheme ∷ rest) = (str_eq scheme "https" ≡ true) × AllSecure rest

-- A chain that starts with https stays on https.
pub chain_secure :
    (first : String)
    → (via rest : List String) → str_eq first "https" ≡ true
    → follows (first ∷ via) rest ≡ true
    → AllSecure rest
unfolding follows Download.check_download_redirect
chain_secure first via [] h k = tt
chain_secure first via (scheme ∷ rest) h k =
    (ground (arith, h, k), chain_secure first (via ++ (scheme ∷ [])) rest h (ground (arith, k)))

-- With the requests before it a chain has at most as many requests as the limit.
pub chain_bounded :
    (via rest : List String)
    → length via ≤ Download.max_redirects
    → follows via rest ≡ true
    → length via + length rest ≤ Download.max_redirects
unfolding follows Download.check_download_redirect
chain_bounded via [] h k = omega (arith, h)
chain_bounded via (scheme ∷ rest) h k = omega (
  arith,
  length-append via (scheme ∷ []),
  chain_bounded (via ++ (scheme ∷ [])) rest
      (rw (length-append via (scheme ∷ [])) (ground (arith, k))) (ground (arith, k)),
)
