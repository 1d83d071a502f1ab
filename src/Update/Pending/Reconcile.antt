-- ===== src/Update/Pending/Reconcile.antt =====
-- What `reconcilePending` of launcher/internal/update/apply.go makes of the archive's URL.
use kobra_game.Base.{
  ◌≡◌, refl, ◌⊎◌, inl, inr, String, Bool, true, false, not, Option, none, some, if◌then◌else◌,
  str_eq,
}
use kobra_game.Update.Pending.{
  UrlLibrary, Manifest, Pending, resolve_archive_url, resolved_or_written,
}

-- The archive's URL is compared with itself: where the marker has one, `resolveArchiveURL` gives
-- the marker's, so that what the manifest now names is never looked at.
pub same_url :
    (net : UrlLibrary)
    → (p : Pending) → (m : Option Manifest) → (b : Bool) → str_eq p.archive_url "" ≡ b
    → (b ≡ true)
      ⊎ (resolve_archive_url net p m ≡ resolved_or_written net p.manifest_url p.archive_url)
unfolding resolve_archive_url
same_url net p m true e = inl refl
same_url net p m false e = inr (rw e refl)

abbrev named : Option String → String
named none = ""
named (some field) = field

-- The chain of tests of `reconcile_fields`.
abbrev pub verdict : (b c d e f : Bool) → Option String
verdict b c d e f =
    if not b
    then some "release"
    else if c
    then some "archive_size"
    else if d
    then some "archive_hash"
    else if e
    then none
    else if f
    then some "archive_url"
    else none
