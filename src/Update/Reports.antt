-- ===== src/Update/Reports.antt =====
-- What an installation reports: `ApplyResult` and the ways to fail of
-- launcher/internal/update/apply.go, with the comparison of data/ before and after.
pub mod Unchanged
use kobra_game.Base.{
  String, Bool, true, false, not, Option, none, some, List, [], ◌∷◌, ◌&&◌, ◌==◌, if◌then◌else◌,
  length, lookup,
}
use kobra_game.Base.Int.{ℤ, pos, leb_ℤ, ◌+ℤ◌, wrap64}
use kobra_game.Base.Faults.{Faulty, pure, ◌>>=◌, ◌>>◌, attempt}
use kobra_game.Storage.Text.{Text}
use kobra_game.Update.Pending.{Pending, differ_ℤ, retry_budget}
use kobra_game.Update.Progress.{
  phase_failed, phase_cancelled, Result, ResultOutcome, outcome_failed, outcome_cancelled,
}
use kobra_game.Update.World.{
  World, Violation, touches_data, damaged, DownloadEnd, insecure_scheme, archive_too_large,
  no_archive_size, change, ignore, clear_pending, set_phase, write_result,
}

pub data ApplyOutcome : Type 0 where
  apply_no_pending apply_applied apply_already_current : ApplyOutcome
  apply_skipped apply_cancelled apply_failed : ApplyOutcome

pub record ApplyResult : Type 0 where
  pub outcome : ApplyOutcome
  pub from_release : Text
  pub target_release : Text
  pub installed_release : Text
  pub reason : String
  pub message : String
  pub bytes_written : ℤ
  pub retained_backup : Bool
  pub retryable : Bool

abbrev pub empty_result : ApplyResult
empty_result = record {
  outcome = apply_no_pending;
  from_release = [];
  target_release = [];
  installed_release = [];
  reason = "";
  message = "";
  bytes_written = pos 0;
  retained_backup = false;
  retryable = false;
}

abbrev pub ended : ApplyOutcome → String → String → ApplyResult → ApplyResult
ended outcome reason message res = record res {
  outcome = outcome;
  reason = reason;
  message = message;
}

-- The record that names the target, an outcome, a reason and a message.
abbrev pub result_for : Pending → ResultOutcome → String → String → Result
result_for p outcome reason message = record {
  schema = "";
  outcome = outcome;
  target_release = p.target_release;
  installed_release = [];
  message = message;
  reason = reason;
  bytes_written = pos 0;
  required_bytes = pos 0;
  available_bytes = pos 0;
  retained_backup = false;
  at = "";
}

-- The phase, then the record.
abbrev pub report_failed : String → Pending → String → String → Faulty World Unit
report_failed now p reason message =
    set_phase now phase_failed message
    >> write_result now (result_for p outcome_failed reason message)

abbrev pub report_cancelled : String → Pending → String → Faulty World Unit
report_cancelled now p message =
    set_phase now phase_cancelled message
    >> write_result now (result_for p outcome_cancelled "cancelled" message)

-- The marker is cleared, and the failure is reported: `failTerminal`.
abbrev pub fail_terminal :
    String → Pending → ApplyResult → String → String → Faulty World ApplyResult
fail_terminal now p res reason message =
    clear_pending
    >> report_failed now p reason message
    >> pure (ended apply_failed reason message res)

abbrev pub retried : String → String → Pending → Pending
retried now reason p = record p {
  retry_count = wrap64 (p.retry_count +ℤ pos 1);
  last_attempt = now;
  last_reason = reason;
}

abbrev pub is_exhausted : Pending → Bool
is_exhausted p = leb_ℤ retry_budget p.retry_count

abbrev pub clear_if : Bool → Faulty World Unit
clear_if true = clear_pending
clear_if false = pure tt

abbrev pub retry_result : Bool → String → String → ApplyResult → ApplyResult
retry_result exhausted reason message res = record (ended apply_failed reason message res) {
  retryable = not exhausted;
}

-- The marker with the attempt counted; whether that was the last one is the third argument.
abbrev pub retry_with :
    String → Pending → Bool → ApplyResult → String → String → Faulty World ApplyResult
retry_with now q exhausted res reason message =
    ignore (change (λ w. record w { pending = some q }))
    >> clear_if exhausted
    >> report_failed now q reason message
    >> pure (retry_result exhausted reason message res)

-- `failRetryable`: one more attempt is counted, and the last one clears the marker.
abbrev pub fail_retryable :
    String → Pending → ApplyResult → String → String → Faulty World ApplyResult
fail_retryable now p res reason message =
    retry_with now (retried now reason p) (is_exhausted (retried now reason p)) res reason message

-- `reasonForDownloadPolicy`
abbrev pub reason_for_download_policy : DownloadEnd → String
reason_for_download_policy insecure_scheme = "insecure_scheme"
reason_for_download_policy archive_too_large = "archive_too_large"
reason_for_download_policy no_archive_size = "no_archive_size"
reason_for_download_policy _ = "download_refused"

-- `msgForDataViolation`
abbrev pub msg_for_data_violation : Violation → String
msg_for_data_violation touches_data = "The update was rejected because it would modify your saves."
msg_for_data_violation damaged = "The update file is damaged."

abbrev same_time : ℤ → Option ℤ → Bool
same_time t none = false
same_time t (some was) = not (differ_ℤ was t)

-- Every entry is among the first ones, at the same time.
unfoldable pub all_known : List (String × ℤ) → List (String × ℤ) → Bool
all_known before [] = true
all_known before ((name, t) ∷ after) = same_time t (lookup name before) && all_known before after

-- Whether `assertDataUnchanged` accepts what its walk found, none being an error of the walk.
unfoldable pub data_unchanged : List (String × ℤ) → Option (List (String × ℤ)) → Bool
unfolding all_known
data_unchanged before none = false
data_unchanged before (some after) = (length after == length before) && all_known before after
