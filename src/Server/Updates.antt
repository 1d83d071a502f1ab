-- ===== src/Server/Updates.antt =====
-- The update requests of launcher/internal/server/update.go.
use kobra_game.Base.{String, Bool, false, not, Option, none, some, [], if◌then◌else◌, str_eq}
use kobra_game.Base.Faults.{Faulty, pure, ◌>>=◌, ◌>>◌}
use kobra_game.Storage.Text.{Text, same_text}
use kobra_game.Update.Version.{release_newer}
use kobra_game.Update.World.{World, Answers, installed_release_in}
use kobra_game.Update.Intent.{
  Latest, Request, Recording, record_update_intent, clear_update_intent, request_cancel,
}

-- The policy of the server: the channel, the update server's address and the releases it knows.
pub record Policy : Type 0 where
  pub channel : String
  pub patch_base_url : String
  pub own_release : Text
  pub version : Text

pub record UpdateStatus : Type 0 where
  pub now_installed : Text
  pub newest : Text
  pub available : Bool
  pub notes : String
  pub explanation : String

abbrev declared_or : Text → Text → Text
declared_or own declared = if same_text declared [] then own else declared

-- The installed release: what the folder declares, or the server's own.
abbrev pub current_release : Policy → Answers → World → Text
current_release c a w = declared_or c.own_release (installed_release_in a w)

abbrev status : Text → String → UpdateStatus
status now text = record {
  now_installed = now;
  newest = [];
  available = false;
  notes = "";
  explanation = text;
}

-- `Check` of launcher/internal/update/check.go.
abbrev checked : Text → Latest → UpdateStatus
checked now latest = record {
  now_installed = now;
  newest = latest.release;
  available = release_newer latest.release now;
  notes = latest.notes_url;
  explanation =
      if release_newer latest.release now
      then "A newer release is available."
      else "The installed release is up to date.";
}

abbrev fetched_status : Text → Option Latest → UpdateStatus
fetched_status now none = status now "The update server could not be reached."
fetched_status now (some latest) = checked now latest

-- `UpdateCheck`, from what `FetchLatest` gives.
abbrev pub update_check : Policy → Text → Option Latest → UpdateStatus
update_check c now latest =
    if str_eq c.channel "none"
    then status now "Update checks are disabled for this game."
    else if str_eq c.patch_base_url ""
    then status now "No update server is configured for this game."
    else fetched_status now latest

-- `RecordUpdateIntent`: a reason not to record, or what the update package answers.
pub data Recorded : Type 0 where
  manual_channel no_update_server : Recorded
  answered : Recording → Recorded

abbrev pub request_update : Policy → Request → Answers → Faulty World Recorded
request_update c r a w =
    (if not (str_eq c.channel "patch")
        then pure manual_channel
        else if str_eq c.patch_base_url ""
        then pure no_update_server
        else record_update_intent r (current_release c a w) c.version >>= λ out.
            pure (answered out))
      w

-- `CancelUpdateIntent`; the first argument is what `EnsureUpdateDir` answers, and the answer says
-- whether there was no error.
abbrev pub cancel_update_intent : Bool → Faulty World Bool
cancel_update_intent makes_dir = clear_update_intent >> request_cancel makes_dir
