-- ===== src/Update/Intent.antt =====
-- The recording of an update request: launcher/internal/update/intent.go with `WritePending`,
-- `RequestCancel` and the readers of the records (runtime.go, progress.go).
pub mod Recorded
use kobra_game.Base.{String, Bool, true, false, not, Option, none, some, if◌then◌else◌, ◌&&◌, []}
use kobra_game.Base.Int.{ℤ, pos}
use kobra_game.Base.Faults.{Faulty, pure, look, ◌>>=◌, ◌>>◌}
use kobra_game.Storage.Text.{Text}
use kobra_game.Update.Version.{release_newer}
use kobra_game.Update.Pending.{
  Manifest, Pending, pending_schema, archive_ref, declared_archive_size, declared_archive_hash,
}
use kobra_game.Update.Progress.{Progress, initial_progress, phase_idle, progress_schema}
use kobra_game.Update.World.{World, change, ignore, clear_cancel}

-- latest.json
pub record Latest : Type 0 where
  pub release : Text
  pub manifest_url : String
  pub notes_url : String

pub record IntentResult : Type 0 where
  pub recorded : Bool
  pub target_release : Text
  pub archive_size : ℤ
  pub notes_url : String
  pub detail : String

-- The result, or an error of the check or of the disk.
pub data Recording : Type 0 where
  recording : IntentResult → Recording
  check_failed write_failed : Recording

-- What the calls answer: `EnsureUpdateDir`, `nowRFC3339`, `FetchLatest` and `FetchManifest`.
pub record Request : Type 0 where
  pub makes_dir : Bool
  pub now : String
  pub latest : Option Latest
  pub manifest : Option Manifest

abbrev pub save_pending : Pending → Bool → Faulty World Bool
save_pending p false = pure false
save_pending p true = clear_cancel >> change (λ w. record w { pending = some p })

-- `WritePending`; the answer says whether it returned no error.
abbrev pub write_pending : Bool → String → Pending → Faulty World Bool
write_pending false now p = pure false
write_pending true now p =
    change (λ w. record w { progress = some (initial_progress now p) }) >>= save_pending p

-- `RequestCancel`
abbrev pub request_cancel : Bool → Faulty World Bool
request_cancel false = pure false
request_cancel true = change (λ w. record w { cancel = true })

-- `ReadProgress`: an idle record where there is none.
abbrev pub read_progress : World → Progress
read_progress w = elim w.progress [
  | some p ↦ p
  | none ↦ record {
    schema = progress_schema;
    seq = 0;
    phase = phase_idle;
    from_release = [];
    target_release = [];
    bytes = pos 0;
    total_bytes = pos 0;
    percent = pos 0;
    cancellable = false;
    message = "";
    updated = "";
  }
]

abbrev pub is_present : {A : Type 0} → Option A → Bool
is_present none = false
is_present (some _) = true

-- `ClearUpdateIntent`; the answer says whether it removed a marker.
abbrev pub clear_update_intent : Faulty World Bool
clear_update_intent = look (λ w. is_present w.pending) >>= λ there.
    change (λ w. record w { pending = none }) >>= λ ok. clear_cancel >> pure (there && ok)

-- The marker of a request.
abbrev pub marker_for : Request → Text → Text → Latest → Manifest → Pending
marker_for r installed launcher latest m = record {
  schema = pending_schema;
  from_release = installed;
  target_release = m.release;
  manifest_url = latest.manifest_url;
  archive_url = archive_ref (some m);
  archive_size = declared_archive_size (some m);
  archive_hash = declared_archive_hash (some m);
  launcher_version = launcher;
  requested = r.now;
  retry_count = pos 0;
  last_attempt = "";
  last_reason = "";
}

abbrev pub current : Latest → IntentResult
current latest = record {
  recorded = false;
  target_release = [];
  archive_size = pos 0;
  notes_url = latest.notes_url;
  detail = "already current";
}

abbrev pub recorded_for : Latest → Manifest → IntentResult
recorded_for latest m = record {
  recorded = true;
  target_release = m.release;
  archive_size = declared_archive_size (some m);
  notes_url = latest.notes_url;
  detail = "The update will be applied the next time the launcher starts.";
}

abbrev pub written : Latest → Manifest → Bool → Recording
written latest m false = write_failed
written latest m true = recording (recorded_for latest m)

abbrev pub manifest_fetched :
    Request → Text → Text → Latest → Option Manifest → Faulty World Recording
manifest_fetched r installed launcher latest none = pure check_failed
manifest_fetched r installed launcher latest (some m) =
    if not r.makes_dir
    then pure write_failed
    else write_pending r.makes_dir r.now (marker_for r installed launcher latest m) >>= λ ok.
        pure (written latest m ok)

abbrev pub latest_fetched : Request → Text → Text → Option Latest → Faulty World Recording
latest_fetched r installed launcher none = pure check_failed
latest_fetched r installed launcher (some latest) =
    if not (release_newer latest.release installed)
    then pure (recording (current latest))
    else manifest_fetched r installed launcher latest r.manifest

-- `RecordUpdateIntent`
abbrev pub record_update_intent : Request → Text → Text → Faulty World Recording
record_update_intent r installed launcher = latest_fetched r installed launcher r.latest
