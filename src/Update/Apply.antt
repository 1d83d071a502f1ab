-- ===== src/Update/Apply.antt =====
-- `Apply` of launcher/internal/update/apply.go up to the download, and the pass of startup.go.
use kobra_game.Base.{
  String, Bool, true, false, not, Option, none, some, [], ◌||◌, ◌&&◌, if◌then◌else◌, str_eq,
}
use kobra_game.Base.Int.{ℤ, pos, ltb_ℤ, leb_ℤ}
use kobra_game.Base.Faults.{Faulty, pure, look, ◌>>=◌, ◌>>◌}
use kobra_game.Storage.Text.{Text, same_text}
use kobra_game.Update.Version.{release_newer, Floor, met, unreadable, too_old, launcher_min_refusal}
use kobra_game.Update.Pending.{
  Manifest, Pending, valid, retry_budget, declared_archive_size, resolve_archive_url,
  reconcile_pending, required_bytes,
}
use kobra_game.Update.Progress.{
  phase_failed, phase_verify, phase_download, outcome_failed, outcome_skipped,
}
use kobra_game.Update.World.{
  World, Answers, LockAnswer, lock_acquired, lock_held, lock_failed, DownloadEnd, downloaded,
  cancelled, insecure_scheme, archive_too_large, no_archive_size, broken_off, modify, clear_pending,
  clear_cancel, start_progress, set_phase, set_all_bytes, write_result, installed_release_in,
}
use kobra_game.Update.Reports.{
  ApplyResult, empty_result, apply_skipped, apply_failed, apply_cancelled, apply_already_current,
  ended, result_for, report_cancelled, fail_terminal, fail_retryable, reason_for_download_policy,
}
use kobra_game.Update.Install.{install}

abbrev pub cancelled_message : String
cancelled_message = "The update was cancelled."

abbrev pub cannot_download : String
cannot_download = "This update cannot be downloaded."

abbrev pub download_failed : String
download_failed = "The update could not be downloaded. The launcher may be offline."

abbrev pub insufficient_space : String
insufficient_space = "There isn't enough free space to install this update."

-- The first argument is what the calls answer, the second the running launcher's version.
module _ (a : Answers) (launcher_version : Text) where
  module _ (p : Pending) where
    abbrev pub cancel_download : ApplyResult → Faulty World ApplyResult
    cancel_download res =
        report_cancelled a.now p cancelled_message
        >> clear_pending
        >> clear_cancel
        >> pure (ended apply_cancelled "cancelled" cancelled_message res)

    abbrev pub refuse_download : ApplyResult → Faulty World ApplyResult
    refuse_download res =
        fail_terminal a.now p res (reason_for_download_policy a.download) cannot_download

    abbrev pub download_ended : ApplyResult → DownloadEnd → Faulty World ApplyResult
    download_ended res downloaded = install a p res
    download_ended res cancelled = cancel_download res
    download_ended res insecure_scheme = refuse_download res
    download_ended res archive_too_large = refuse_download res
    download_ended res no_archive_size = refuse_download res
    download_ended res broken_off = fail_retryable a.now p res "download_failed" download_failed

    abbrev pub leave_download : World → World
    leave_download w = record w {
      archive = a.leaves_archive;
      meta = a.leaves_meta;
      cancel = w.cancel || a.cancels;
    }

    -- `DownloadArchive`, by its ticks and the files it leaves.
    abbrev pub download_archive : Faulty World DownloadEnd
    download_archive = set_all_bytes a.now a.ticks >> modify leave_download >> pure a.download

    abbrev pub fetch_archive : ApplyResult → Faulty World ApplyResult
    fetch_archive res =
        set_phase a.now phase_download "Downloading the update."
        >> download_archive
        >>= download_ended (record res { bytes_written = a.download_bytes })

    abbrev pub sized : ApplyResult → ℤ → String → Faulty World ApplyResult
    sized res size url =
        if leb_ℤ size (pos 0)
        then fail_terminal a.now p res "no_archive_size" cannot_download
        else if str_eq url ""
        then fail_terminal a.now p res "no_archive_url" cannot_download
        else fetch_archive res

    abbrev pub no_space : ApplyResult → ℤ → ℤ → Faulty World ApplyResult
    no_space res required free =
        set_phase a.now phase_failed insufficient_space
        >> write_result a.now
            (record (result_for p outcome_failed "insufficient_space" insufficient_space) {
              required_bytes = required;
              available_bytes = free;
            })
        >> pure (record (ended apply_failed "insufficient_space" insufficient_space res) {
          retryable = true;
        })

    abbrev pub with_space : ApplyResult → Manifest → ℤ → Option ℤ → Faulty World ApplyResult
    with_space res m required none =
        sized res (declared_archive_size (some m)) (resolve_archive_url a.net p (some m))
    with_space res m required (some free) =
        if ltb_ℤ free required
        then no_space res required free
        else sized res (declared_archive_size (some m)) (resolve_archive_url a.net p (some m))

    abbrev pub guarded : ApplyResult → Manifest → Floor → Faulty World ApplyResult
    guarded res m met =
        with_space res m (required_bytes (declared_archive_size (some m)) m.total_size) a.free_space
    guarded res m unreadable =
        fail_terminal a.now p res "launcher_min" "This update needs a newer launcher."
    guarded res m too_old =
        fail_terminal a.now p res "launcher_min" "This update needs a newer launcher."

    abbrev pub reconciled : ApplyResult → Manifest → Option String → Faulty World ApplyResult
    reconciled res m (some field) =
        fail_terminal a.now p res "manifest_drift"
          "The update changed since you confirmed it. Check for updates again."
    reconciled res m none =
        guarded res m (launcher_min_refusal (some m.launcher_min) launcher_version)

    abbrev pub fetched : ApplyResult → Option Manifest → Faulty World ApplyResult
    fetched res none = fail_retryable a.now p res "manifest_unreachable" download_failed
    fetched res (some m) = reconciled res m (reconcile_pending a.net p (some m))

    abbrev pub begin_apply : ApplyResult → Faulty World ApplyResult
    begin_apply res =
        start_progress a.now p
        >> set_phase a.now phase_verify "Starting the update."
        >> fetched res a.fetched

    abbrev pub already_current : ApplyResult → Faulty World ApplyResult
    already_current res =
        clear_pending
        >> write_result a.now
            (record (result_for p outcome_skipped "already_current"
              "The update was already installed.") { installed_release = res.installed_release })
        >> pure
            (ended apply_already_current "already_current" "The update was already installed." res)

    abbrev pub against_installed : ApplyResult → Text → Faulty World ApplyResult
    against_installed res installed =
        let r = record res { installed_release = installed } in
        if not (same_text installed []) && same_text installed p.target_release
        then already_current r
        else begin_apply r

    abbrev pub exhausted : ApplyResult → Faulty World ApplyResult
    exhausted res =
        clear_pending
        >> write_result a.now (result_for p outcome_failed "retries_exhausted" download_failed)
        >> pure (ended apply_failed "retries_exhausted" download_failed res)

    abbrev pub in_budget : ApplyResult → Faulty World ApplyResult
    in_budget res =
        if leb_ℤ retry_budget p.retry_count
        then exhausted res
        else look (installed_release_in a) >>= against_installed res

    abbrev pub cancelled_before : ApplyResult → Faulty World ApplyResult
    cancelled_before res =
        clear_pending
        >> clear_cancel
        >> start_progress a.now p
        >> report_cancelled a.now p cancelled_message
        >> pure (ended apply_cancelled "cancelled" cancelled_message res)

    abbrev pub unless_flagged : ApplyResult → Bool → Faulty World ApplyResult
    unless_flagged res true = cancelled_before res
    unless_flagged res false = in_budget res

    abbrev pub clear_and_fail : ApplyResult → String → String → Faulty World ApplyResult
    clear_and_fail res reason message =
        clear_pending >> pure (ended apply_failed reason message res)

    abbrev pub apply_marker : ApplyResult → Faulty World ApplyResult
    apply_marker res =
        if not (valid p)
        then clear_and_fail res "invalid_marker"
            "The update file is damaged. Re-download it and try again."
        else if not (same_text p.from_release [])
            && not (release_newer p.target_release p.from_release)
        then clear_and_fail res "not_newer" "The update is not newer than the installed release."
        else look (λ w. w.cancel) >>= unless_flagged res

  abbrev pub marked : Option Pending → Faulty World ApplyResult
  marked none = pure empty_result
  marked (some p) =
      apply_marker p
        (record empty_result { from_release = p.from_release; target_release = p.target_release })

  abbrev pub skipped : String → Faulty World ApplyResult
  skipped reason = pure (ended apply_skipped reason "" empty_result)

  abbrev pub locked : LockAnswer → Faulty World ApplyResult
  locked lock_acquired = look (λ w. w.pending) >>= marked
  locked lock_held = skipped "locked"
  locked lock_failed = skipped "lock_failed"

  -- The folder's and the sidecar's names are blank or not.
  abbrev pub apply : Bool → Bool → Faulty World ApplyResult
  apply folder_blank sidecar_blank =
      if folder_blank || sidecar_blank
      then skipped "no_folder"
      else if not a.makes_dir
      then skipped "sidecar_unwritable"
      else locked a.lock
