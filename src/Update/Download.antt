-- ===== src/Update/Download.antt =====
-- Decisions of launcher/internal/update/download.go and check.go: which address is fetched, which
-- redirect is followed, which partial download is resumed, and what a check answers.
pub mod Redirects
use kobra_game.Base.{
  ℕ, String, [], ◌∷◌, ◌++◌, List, Bool, true, false, not, Option, none, some, length, leb, str_eq,
  ◌&&◌, ◌||◌, if◌then◌else◌,
}
use kobra_game.Base.Int.{ℤ, pos, ltb_ℤ, leb_ℤ}
use kobra_game.Storage.Text.{Text}
use kobra_game.Update.Version.{release_newer, Floor, met, unreadable, too_old, launcher_min_refusal}

abbrev pub max_redirects : ℕ
max_redirects = 3

-- `checkDownloadRedirect`, by the schemes: that of the new request and those before it, the first
-- one first.
abbrev pub downgrades : String → List String → Bool
downgrades scheme [] = false
downgrades scheme (first ∷ via) = str_eq first "https" && not (str_eq scheme "https")

unfoldable pub check_download_redirect : String → List String → Bool
check_download_redirect scheme via =
    not (leb max_redirects (length via)) && not (downgrades scheme via)

-- An address, as `url.Parse` gives it; `loopback` is the answer of `IsLoopback` for its host.
pub record Address : Type 0 where
  pub scheme : String
  pub host : String
  pub hostname : String
  pub loopback : Bool

pub data UrlVerdict : Type 0 where
  fetch bad_url insecure_scheme : UrlVerdict

abbrev pub is_loopback_host : Address → Bool
is_loopback_host a = str_eq a.hostname "localhost" || a.loopback

-- `checkArchiveURL`; `none` does not parse.
abbrev pub check_archive_url : Option Address → Bool → UrlVerdict
check_archive_url none allow_insecure = bad_url
check_archive_url (some a) allow_insecure =
    if str_eq a.host ""
    then bad_url
    else if str_eq a.scheme "https"
    then fetch
    else if str_eq a.scheme "http" && (allow_insecure || is_loopback_host a)
    then fetch
    else insecure_scheme

pub record DownloadMeta : Type 0 where
  pub schema : String
  pub url : String
  pub archive_hash : String
  pub size : ℤ
  pub bytes_written : ℤ

abbrev pub eq_size : ℤ → ℤ → Bool
eq_size a b = leb_ℤ a b && leb_ℤ b a

-- `matches`; `schema` is `MetaSchema`.
abbrev pub matches : String → Option DownloadMeta → String → String → ℤ → Bool
matches schema none url hash size = false
matches schema (some m) url hash size =
    str_eq m.schema schema
    && str_eq m.url url
    && eq_size m.size size
    && (str_eq hash "" || str_eq m.archive_hash hash)
    && ltb_ℤ (pos 0) m.bytes_written
    && ltb_ℤ m.bytes_written size

-- `Check`, from the latest release, and `GuardApply`.
abbrev pub check_available : Text → Text → Bool
check_available latest installed = release_newer latest installed

abbrev pub guard_apply : Option Text → Text → Floor
guard_apply min launcher = launcher_min_refusal min launcher
