-- ===== src/Update/Pending.antt =====
-- The pending marker of launcher/internal/update (runtime.go), what a manifest declares of its
-- archive (manifest.go, intent.go), the disk preflight's sum, and `reconcilePending` of apply.go.
pub mod Reconcile
pub mod Space
use kobra_game.Base.{
  String, Bool, true, false, not, Option, none, some, ◌&&◌, ◌||◌, if◌then◌else◌, str_eq, ◌/◌, ◌-◌,
  ◌+◌, suc,
}
use kobra_game.Base.Int.{ℤ, pos, negsuc, ltb_ℤ, ◌+ℤ◌, wrap64}
use kobra_game.Storage.Text.{Text, same_text}
use kobra_game.Update.Version.{valid_release}

-- net/url: `Parse`, a parsed URL standing for itself as a text, and `ResolveReference`.
pub record UrlLibrary : Type 0 where
  pub parse : String → Option String
  pub resolve_reference : String → String → String

pub record Archive : Type 0 where
  pub name : String
  pub url : String
  pub size : ℤ
  pub hash : String

-- The fields that the installation reads.
pub record Manifest : Type 0 where
  pub release : Text
  pub launcher_min : Text
  pub total_size : ℤ
  pub archive_sha256 : String
  pub archive : Option Archive

pub record Pending : Type 0 where
  pub schema : String
  pub from_release : Text
  pub target_release : Text
  pub manifest_url : String
  pub archive_url : String
  pub archive_size : ℤ
  pub archive_hash : String
  pub launcher_version : Text
  pub requested : String
  pub retry_count : ℤ
  pub last_attempt : String
  pub last_reason : String

abbrev pub pending_schema : String
pending_schema = "kobra.update-pending/1"

abbrev pub retry_budget : ℤ
retry_budget = pos 3

-- `valid` of a marker that is not nil.
unfoldable pub valid : Pending → Bool
valid p =
    if not (str_eq p.schema pending_schema)
    then false
    else if not (valid_release p.target_release)
    then false
    else if str_eq p.manifest_url ""
    then false
    else true

abbrev pub archive_size_of : Option Archive → ℤ
archive_size_of none = pos 0
archive_size_of (some a) = a.size

abbrev pub declared_archive_size : Option Manifest → ℤ
declared_archive_size none = pos 0
declared_archive_size (some m) = archive_size_of m.archive

abbrev pub archive_hash_of : Option Archive → String
archive_hash_of none = ""
archive_hash_of (some a) = a.hash

abbrev pub declared_archive_hash : Option Manifest → String
declared_archive_hash none = ""
declared_archive_hash (some m) =
    if not (str_eq m.archive_sha256 "") then m.archive_sha256 else archive_hash_of m.archive

abbrev ref_of : Option Archive → String
ref_of none = ""
ref_of (some a) = if not (str_eq a.url "") then a.url else a.name

abbrev pub archive_ref : Option Manifest → String
archive_ref none = ""
archive_ref (some m) = ref_of m.archive

abbrev pub differ_ℤ : ℤ → ℤ → Bool
differ_ℤ a b = ltb_ℤ a b || ltb_ℤ b a

-- The peak disk requirement, in int64.
unfoldable pub at_least_zero : ℤ → ℤ
at_least_zero z = if ltb_ℤ z (pos 0) then pos 0 else z

abbrev pub min_headroom : ℤ
min_headroom = pos 67108864

abbrev twentieth : ℤ → ℤ
twentieth (pos n) = pos (n / 20)
twentieth (negsuc n) = if ltb_ℤ (negsuc n) (negsuc 18) then negsuc ((suc n) / 20 - 1) else pos 0

unfoldable pub headroom : ℤ → ℤ
headroom total = if ltb_ℤ min_headroom (twentieth total) then twentieth total else min_headroom

unfoldable pub required_bytes : ℤ → ℤ → ℤ
unfolding at_least_zero headroom
required_bytes archive_size total_size =
    let archive = at_least_zero archive_size in
    let total = at_least_zero total_size in
    let base = wrap64 (wrap64 (archive +ℤ total) +ℤ total) in wrap64 (base +ℤ headroom total)

module _ (net : UrlLibrary) where
  abbrev parsed_reference : String → Option String → Option String
  parsed_reference base none = none
  parsed_reference base (some ref) = some (net.resolve_reference base ref)

  abbrev parsed_base : String → Option String → Option String
  parsed_base ref none = none
  parsed_base ref (some base) = parsed_reference base (net.parse ref)

  -- `resolveURL` of http.go; none is its error.
  abbrev pub resolve_url : String → String → Option String
  resolve_url base ref = parsed_base ref (net.parse base)

  abbrev or_else : String → Option String → String
  or_else written none = written
  or_else written (some resolved) = resolved

  -- A reference, resolved where it can be.
  abbrev pub resolved_or_written : String → String → String
  resolved_or_written base ref = or_else ref (resolve_url base ref)

  abbrev of_archive : String → Option Archive → String
  of_archive base none = ""
  of_archive base (some a) = if not (str_eq a.url "") then resolved_or_written base a.url else ""

  abbrev of_manifest : String → Option Manifest → String
  of_manifest base none = ""
  of_manifest base (some m) = of_archive base m.archive

  unfoldable pub resolve_archive_url : Pending → Option Manifest → String
  resolve_archive_url p m =
      if not (str_eq p.archive_url "")
      then resolved_or_written p.manifest_url p.archive_url
      else of_manifest p.manifest_url m

  -- The offending field; none where the marker and the manifest agree.
  unfoldable pub reconcile_fields : Pending → Manifest → Option String
  unfolding resolve_archive_url
  reconcile_fields p m =
      if not (same_text p.target_release m.release)
      then some "release"
      else if ltb_ℤ (pos 0) p.archive_size
          && differ_ℤ (declared_archive_size (some m)) p.archive_size
      then some "archive_size"
      else if not (str_eq p.archive_hash "")
          && not (str_eq (declared_archive_hash (some m)) p.archive_hash)
      then some "archive_hash"
      else if str_eq p.archive_url ""
      then none
      else let want = resolved_or_written p.manifest_url p.archive_url in
        let got = resolve_archive_url p (some m) in
        if not (str_eq got "") && not (str_eq want got) then some "archive_url" else none

  unfoldable pub reconcile_pending : Pending → Option Manifest → Option String
  unfolding reconcile_fields
  reconcile_pending p none = some "manifest"
  reconcile_pending p (some m) = reconcile_fields p m
