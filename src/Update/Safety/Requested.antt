-- ===== src/Update/Safety/Requested.antt =====
-- The whole of `Apply` of launcher/internal/update/apply.go under every schedule of faults.
use kobra_game.Base.{
  ℕ, ◌≡◌, String, Bool, true, false, not, Option, none, some, [], ◌&&◌, ◌||◌, if◌then◌else◌, str_eq,
}
use kobra_game.Base.Int.{ℤ, pos, leb_ℤ, ltb_ℤ}
use kobra_game.Base.Faults.{Faulty, pure}
use kobra_game.Storage.Text.{Text, same_text}
use kobra_game.Update.Disk.{Folder}
use kobra_game.Update.Version.{release_newer, Floor, met, unreadable, too_old, launcher_min_refusal}
use kobra_game.Update.Pending.{
  Manifest, Pending, valid, retry_budget, declared_archive_size, resolve_archive_url,
  reconcile_pending, required_bytes,
}
use kobra_game.Update.Progress.{phase_download, phase_failed, phase_verify}
use kobra_game.Update.World.{
  World, Answers, LockAnswer, lock_acquired, lock_held, lock_failed, DownloadEnd, downloaded,
  cancelled, insecure_scheme, archive_too_large, no_archive_size, broken_off, start_progress,
  set_phase, installed_release_in,
}
use kobra_game.Update.Reports.{fail_terminal, ApplyResult, empty_result}
use kobra_game.Update.Apply.{
  download_ended, download_archive, fetch_archive, sized, no_space, with_space, guarded, reconciled,
  fetched, begin_apply, already_current, exhausted, in_budget, cancelled_before, unless_flagged,
  clear_and_fail, apply_marker, marked, locked, apply, cancelled_message, cannot_download,
}
use kobra_game.Update.Safety.{Safe}
use kobra_game.Update.Safety.Leads.{
  Leads, Leaves, Leads-bind, Leaves-then, set_phase-Leaves, set_all_bytes-Leaves,
}
use kobra_game.Update.Safety.Quiet.{
  Leads-then, changing, phasing, clearing, clearing_cancel, report_cancelled-Leaves,
  fail_terminal-Leaves, fail_retryable-Leaves,
}
use kobra_game.Update.Safety.Applying.{Ready, Ready→Safe}
use kobra_game.Update.Safety.Installing.{install-Good}

if_Leads :
    {A : Type 0}
    → (C P : Folder → Type 0) → (Q : A → Folder → Type 0) → (m k : Faulty World A) → (b : Bool)
    → Leads C P Q m
    → Leads C P Q k
    → Leads C P Q (if b then m else k)
if_Leads C P Q m k true h g = h
if_Leads C P Q m k false h g = g

module _ (o : ℕ) (a : Answers) (launcher : Text) (blank : a.staging_blank ≡ false)
    (device : a.cross_device ≡ false) where
  abbrev Good : Folder → Type 0
  Good = Safe o a.tree

  abbrev Ending : {A : Type 0} → Faulty World A → Type 0
  Ending m = Leads Good (Ready o) (λ _. Good) m

  tailing : {A : Type 0} → (m : Faulty World A) → Leaves Good Good m → Ending m
  tailing m h w r = h w (Ready→Safe o a.tree _ r)

  module _ (p : Pending) where
    download_ended-Good :
        (res : ApplyResult) → (d : DownloadEnd) → Ending (download_ended a launcher p res d)
    download_ended-Good res downloaded = install-Good o a p blank device res
    download_ended-Good res cancelled = tailing _ (
        Leads-then Good _ _ _
          (Leads-then Good _ _ _
            (Leads-then Good _ _ _ (report_cancelled-Leaves Good a.now p cancelled_message)
              (clearing Good))
            (clearing_cancel Good))
          (λ w s fs. s))
    download_ended-Good res insecure_scheme = tailing _ (fail_terminal-Leaves Good a.now p res _ _)
    download_ended-Good res archive_too_large =
        tailing _ (fail_terminal-Leaves Good a.now p res _ _)
    download_ended-Good res no_archive_size = tailing _ (fail_terminal-Leaves Good a.now p res _ _)
    download_ended-Good res broken_off = tailing _ (fail_retryable-Leaves Good a.now p res _ _)

    download_archive-Ready : Leaves Good (Ready o) (download_archive a launcher p)
    download_archive-Ready =
        Leaves-then Good (Ready o) (Ready→Safe o a.tree) (λ _. Ready o) _ (pure a.download)
          (Leaves-then Good (Ready o) (Ready→Safe o a.tree) (λ _. Ready o) _ _
            (set_all_bytes-Leaves Good (Ready o) (Ready→Safe o a.tree) a.now a.ticks) (λ w r fs. r))
          (λ w r fs. r)

    fetch_archive-Good : (res : ApplyResult) → Ending (fetch_archive a launcher p res)
    fetch_archive-Good res =
        Leads-bind Good (Ready o) (λ _. Ready o) (λ _. Good) _
          (download_ended a launcher p (record res { bytes_written = a.download_bytes }))
          (Leaves-then Good (Ready o) (Ready→Safe o a.tree) (λ _. Ready o) _
            (download_archive a launcher p)
            (set_phase-Leaves Good (Ready o) (Ready→Safe o a.tree) a.now phase_download
              "Downloading the update.")
            download_archive-Ready)
          (download_ended-Good (record res { bytes_written = a.download_bytes }))

    refusing :
        (res : ApplyResult)
        → (reason message : String) → Ending (fail_terminal a.now p res reason message)
    refusing res reason message = tailing _ (fail_terminal-Leaves Good a.now p res reason message)

    sized-Good :
        (res : ApplyResult) → (size : ℤ) → (url : String) → Ending (sized a launcher p res size url)
    sized-Good res size url =
        if_Leads Good (Ready o) (λ _. Good) _ _ (leb_ℤ size (pos 0))
          (refusing res "no_archive_size" cannot_download)
          (if_Leads Good (Ready o) (λ _. Good) _ _ (str_eq url "")
            (refusing res "no_archive_url" cannot_download) (fetch_archive-Good res))

    no_space-Good :
        (res : ApplyResult) → (required free : ℤ) → Ending (no_space a launcher p res required free)
    no_space-Good res required free = tailing _ (
        Leads-then Good _ _ _
          (Leads-then Good _ _ _ (phasing Good a.now phase_failed _) (changing Good _ (λ _ s. s)))
          (λ w s fs. s))

    with_space-Good :
        (res : ApplyResult)
        → (m : Manifest) → (required : ℤ) → (free : Option ℤ)
        → Ending (with_space a launcher p res m required free)
    with_space-Good res m required none =
        sized-Good res (declared_archive_size (some m)) (resolve_archive_url a.net p (some m))
    with_space-Good res m required (some free) =
        if_Leads Good (Ready o) (λ _. Good) _ _ (ltb_ℤ free required)
          (no_space-Good res required free)
          (sized-Good res (declared_archive_size (some m)) (resolve_archive_url a.net p (some m)))

    guarded-Good :
        (res : ApplyResult) → (m : Manifest) → (f : Floor) → Ending (guarded a launcher p res m f)
    guarded-Good res m met =
        with_space-Good res m (required_bytes (declared_archive_size (some m)) m.total_size)
          a.free_space
    guarded-Good res m unreadable = refusing res _ _
    guarded-Good res m too_old = refusing res _ _

    reconciled-Good :
        (res : ApplyResult)
        → (m : Manifest) → (field : Option String) → Ending (reconciled a launcher p res m field)
    reconciled-Good res m none =
        guarded-Good res m (launcher_min_refusal (some m.launcher_min) launcher)
    reconciled-Good res m (some field) = refusing res _ _

    fetched-Good : (res : ApplyResult) → (m : Option Manifest) → Ending (fetched a launcher p res m)
    fetched-Good res none = tailing _ (fail_retryable-Leaves Good a.now p res _ _)
    fetched-Good res (some m) = reconciled-Good res m (reconcile_pending a.net p (some m))

    begin_apply-Good : (res : ApplyResult) → Ending (begin_apply a launcher p res)
    begin_apply-Good res =
        Leaves-then Good (Ready o) (Ready→Safe o a.tree) (λ _. Good) _
          (fetched a launcher p res a.fetched)
          (Leaves-then Good (Ready o) (Ready→Safe o a.tree) (λ _. Ready o) (start_progress a.now p)
            (set_phase a.now phase_verify "Starting the update.") (λ w r fs. r)
            (set_phase-Leaves Good (Ready o) (Ready→Safe o a.tree) a.now phase_verify
              "Starting the update."))
          (fetched-Good res a.fetched)

    already_current-Good : (res : ApplyResult) → Ending (already_current a launcher p res)
    already_current-Good res = tailing _ (
        Leads-then Good _ _ _ (Leads-then Good _ _ _ (clearing Good) (changing Good _ (λ _ s. s)))
          (λ w s fs. s))

    exhausted-Good : (res : ApplyResult) → Ending (exhausted a launcher p res)
    exhausted-Good res = tailing _ (
        Leads-then Good _ _ _ (Leads-then Good _ _ _ (clearing Good) (changing Good _ (λ _ s. s)))
          (λ w s fs. s))

    in_budget-Good : (res : ApplyResult) → Ending (in_budget a launcher p res)
    in_budget-Good res =
        if_Leads Good (Ready o) (λ _. Good) _ _ (leb_ℤ retry_budget p.retry_count)
          (exhausted-Good res)
          (λ w.
            if_Leads Good (Ready o) (λ _. Good) _ _
              (not (same_text (installed_release_in a w) [])
                && same_text (installed_release_in a w) p.target_release)
              (already_current-Good (record res { installed_release = installed_release_in a w }))
              (begin_apply-Good (record res { installed_release = installed_release_in a w })) w)

    cancelled_before-Good : (res : ApplyResult) → Ending (cancelled_before a launcher p res)
    cancelled_before-Good res = tailing _ (
        Leads-then Good _ _ _
          (Leads-then Good _ _ _
            (Leads-then Good _ _ _ (Leads-then Good _ _ _ (clearing Good) (clearing_cancel Good))
              (λ w s fs. s))
            (report_cancelled-Leaves Good a.now p cancelled_message))
          (λ w s fs. s))

    unless_flagged-Good :
        (res : ApplyResult) → (c : Bool) → Ending (unless_flagged a launcher p res c)
    unless_flagged-Good res true = cancelled_before-Good res
    unless_flagged-Good res false = in_budget-Good res

    clear_and_fail-Good :
        (res : ApplyResult)
        → (reason message : String) → Ending (clear_and_fail a launcher p res reason message)
    clear_and_fail-Good res reason message =
        tailing _ (Leads-then Good _ _ _ (clearing Good) (λ w s fs. s))

    apply_marker-Good : (res : ApplyResult) → Ending (apply_marker a launcher p res)
    apply_marker-Good res =
        if_Leads Good (Ready o) (λ _. Good) _ _ (not (valid p)) (clear_and_fail-Good res _ _)
          (if_Leads Good (Ready o) (λ _. Good) _ _
            (not (same_text p.from_release [])
              && not (release_newer p.target_release p.from_release))
            (clear_and_fail-Good res _ _) (λ w. unless_flagged-Good res w.cancel w))

  marked-Good : (p : Option Pending) → Ending (marked a launcher p)
  marked-Good none = λ w r fs. Ready→Safe o a.tree _ r
  marked-Good (some p) =
      apply_marker-Good p
        (record empty_result { from_release = p.from_release; target_release = p.target_release })

  locked-Good : (l : LockAnswer) → Ending (locked a launcher l)
  locked-Good lock_acquired = λ w. marked-Good w.pending w
  locked-Good lock_held = λ w r fs. Ready→Safe o a.tree _ r
  locked-Good lock_failed = λ w r fs. Ready→Safe o a.tree _ r

  pub apply-Good :
      (folder_blank sidecar_blank : Bool) → Ending (apply a launcher folder_blank sidecar_blank)
  apply-Good folder_blank sidecar_blank =
      if_Leads Good (Ready o) (λ _. Good) _ _ (folder_blank || sidecar_blank)
        (λ w r fs. Ready→Safe o a.tree _ r)
        (if_Leads Good (Ready o) (λ _. Good) _ _ (not a.makes_dir)
          (λ w r fs. Ready→Safe o a.tree _ r) (locked-Good a.lock))
