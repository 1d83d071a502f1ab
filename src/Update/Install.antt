-- ===== src/Update/Install.antt =====
-- `Apply` of launcher/internal/update/apply.go from the verification of the archive on: staging,
-- extraction, the check of data/, the configuration, the swap and the launcher.
use kobra_game.Base.{String, Bool, true, false, Option, none, some, ◌&&◌, if◌then◌else◌}
use kobra_game.Base.Faults.{Faulty, pure, look, ◌>>=◌, ◌>>◌, attempt}
use kobra_game.Update.Disk.{full, torn, exists, at_staging, put, remove_all}
use kobra_game.Update.Swap.{Setup, Outcome, swap}
use kobra_game.Update.Pending.{Pending}
use kobra_game.Update.Progress.{
  phase_complete, phase_extract, phase_swap, phase_verify, Result, outcome_complete,
}
use kobra_game.Update.World.{
  World, Answers, Violation, damaged, change, ignore, on_folder, clear_pending, clear_cancel,
  drop_archive, drop_meta, set_phase, write_result, installed_release_in,
}
use kobra_game.Update.Reports.{
  ApplyResult, apply_applied, apply_cancelled, ended, result_for, report_cancelled, fail_terminal,
  fail_retryable, msg_for_data_violation, data_unchanged,
}

abbrev pub staging_unavailable : String
staging_unavailable = "The update could not be prepared for installation."

abbrev pub damaged_short : String
damaged_short = "The update file is damaged."

abbrev pub data_message : String
data_message = "The update was rejected because it would modify your saves."

abbrev pub swap_message : String
swap_message = "The update could not be applied. The previous version is still intact."

abbrev pub merge_message : String
merge_message =
    "The update was installed, but the launcher could not be updated. It will be retried on the next start."

-- `RemoveAll` of game.new/ and of launcher.new/.
abbrev pub remove_game_staging : Faulty World Bool
remove_game_staging = on_folder (remove_all at_staging)

abbrev pub remove_launcher_staging : Faulty World Bool
remove_launcher_staging = change (λ w. record w { staged_launcher = false })

abbrev pub discard_staging : Faulty World Unit
discard_staging = ignore remove_game_staging >> ignore remove_launcher_staging

abbrev pub removed_if : Faulty World Bool → Bool → Faulty World Bool
removed_if m false = pure true
removed_if m true = m

abbrev pub has_game_staging : Faulty World Bool
has_game_staging = look (λ w. exists w.folder.staging)

abbrev pub has_launcher_staging : Faulty World Bool
has_launcher_staging = look (λ w. w.staged_launcher)

abbrev pub setup : Answers → Setup
setup a = record {
  folder_blank = false;
  staging_blank = a.staging_blank;
  cross_device = a.cross_device;
}

module _ (a : Answers) (p : Pending) where
  -- The end of an installation.
  abbrev pub applied : ApplyResult → World → ApplyResult
  applied res w = record (ended apply_applied "" "The update was installed." res) {
    installed_release = installed_release_in a w;
    retained_backup = exists w.folder.backup && exists w.folder.game;
  }

  abbrev pub complete_result : ApplyResult → Result
  complete_result res = record (result_for p outcome_complete "applied" res.message) {
    installed_release = res.installed_release;
    bytes_written = res.bytes_written;
    retained_backup = res.retained_backup;
  }

  abbrev pub record_outcome : ApplyResult → Faulty World ApplyResult
  record_outcome res =
      set_phase a.now phase_complete res.message
      >> write_result a.now (complete_result res)
      >> clear_pending
      >> clear_cancel
      >> pure res

  abbrev pub finish_applied : ApplyResult → Faulty World ApplyResult
  finish_applied res = look (applied res) >>= record_outcome

  abbrev pub launcher_merged : ApplyResult → Bool → Faulty World ApplyResult
  launcher_merged res false =
      ignore remove_launcher_staging
      >> fail_retryable a.now p res "launcher_merge_failed" merge_message
  launcher_merged res true = ignore remove_launcher_staging >> finish_applied res

  abbrev pub replaced_launcher : World → World
  replaced_launcher w = record w {
    config_release = if w.staged_launcher then a.launcher_release else w.config_release;
  }

  -- `MergeLauncherInto`, by the one file of it that is read here.
  abbrev pub merge_launcher : Faulty World Bool
  merge_launcher = attempt replaced_launcher replaced_launcher

  abbrev pub swapped : ApplyResult → Outcome → Faulty World ApplyResult
  swapped res (some reason) = fail_terminal a.now p res "swap_failed" swap_message
  swapped res none = merge_launcher >>= launcher_merged res

  abbrev pub swap_in : ApplyResult → Faulty World ApplyResult
  swap_in res =
      set_phase a.now phase_swap "Finishing the update."
      >> on_folder (swap (setup a))
      >>= swapped res

  -- The last point at which a cancellation is honoured.
  abbrev pub unless_cancelled : ApplyResult → Bool → Faulty World ApplyResult
  unless_cancelled res true =
      discard_staging
      >> drop_archive
      >> clear_pending
      >> clear_cancel
      >> report_cancelled a.now p "The update was cancelled."
      >> pure (ended apply_cancelled "cancelled" "The update was cancelled." res)
  unless_cancelled res false = swap_in res

  abbrev pub config_merged : ApplyResult → Bool → Faulty World ApplyResult
  config_merged res false =
      discard_staging
      >> clear_pending
      >> fail_terminal a.now p res "config_merge_failed" damaged_short
  config_merged res true = look (λ w. w.cancel) >>= unless_cancelled res

  -- `assertDataUnchanged`, where the walk before the extraction succeeded.
  abbrev pub data_intact : Bool
  data_intact = elim a.data_before [
    | none ↦ true
    | some before ↦ data_unchanged before a.data_after
  ]

  abbrev pub data_checked : ApplyResult → Bool → Faulty World ApplyResult
  data_checked res false =
      discard_staging >> clear_pending >> fail_terminal a.now p res "data_touched" data_message
  data_checked res true = config_merged res a.merges_config

  abbrev pub extracted : ApplyResult → Option Violation → Faulty World ApplyResult
  extracted res (some v) =
      discard_staging
      >> drop_archive
      >> drop_meta
      >> clear_pending
      >> fail_terminal a.now p res "extract_failed" (msg_for_data_violation v)
  extracted res none = drop_archive >> drop_meta >> data_checked res data_intact

  abbrev pub unpacked : Bool → Option Violation
  unpacked true = none
  unpacked false = some damaged

  -- `Extract` into game.new/ and launcher.new/: it stops at an entry that it refuses, or at an
  -- operation that fails, with some of the files in place.
  abbrev pub extract_entries : Option Violation → Faulty World (Option Violation)
  extract_entries (some v) =
      on_folder
        (attempt (put at_staging (some (torn a.tree))) (put at_staging (some (torn a.tree))))
      >> pure (some v)
  extract_entries none =
      on_folder
        (attempt (put at_staging (some (full a.tree))) (put at_staging (some (torn a.tree))))
      >>= λ ok. pure (unpacked ok)

  abbrev pub extract : Faulty World (Option Violation)
  extract = ignore (change (λ w. record w { staged_launcher = true })) >> extract_entries a.refused

  abbrev pub cleared_launcher : ApplyResult → Bool → Faulty World ApplyResult
  cleared_launcher res false = fail_retryable a.now p res "staging_unwritable" staging_unavailable
  cleared_launcher res true =
      set_phase a.now phase_extract "Installing the update." >> extract >>= extracted res

  abbrev pub cleared_game : ApplyResult → Bool → Faulty World ApplyResult
  cleared_game res false = fail_retryable a.now p res "staging_unwritable" staging_unavailable
  cleared_game res true =
      has_launcher_staging >>= removed_if remove_launcher_staging >>= cleared_launcher res

  abbrev pub staging_rooted : ApplyResult → Bool → Faulty World ApplyResult
  staging_rooted res true = fail_retryable a.now p res "no_staging_root" staging_unavailable
  staging_rooted res false =
      has_game_staging >>= removed_if remove_game_staging >>= cleared_game res

  abbrev pub verified : ApplyResult → Option Violation → Faulty World ApplyResult
  verified res (some v) =
      clear_pending
      >> drop_archive
      >> drop_meta
      >> fail_terminal a.now p res "verify_failed" (msg_for_data_violation v)
  verified res none = staging_rooted res a.staging_blank

  -- From the downloaded archive on.
  abbrev pub install : ApplyResult → Faulty World ApplyResult
  install res = set_phase a.now phase_verify "Checking the update." >> verified res a.verified
