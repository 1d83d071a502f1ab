-- ===== src/Update/Safety/Installing.antt =====
-- `Apply` of launcher/internal/update/apply.go, from the verification of the archive on, under every
-- schedule of faults.
use kobra_game.Base.{ℕ, ◌≡◌, Bool, true, false, Option, none, some}
use kobra_game.Base.Faults.{Faulty, pure, ◌>>=◌, attempt}
use kobra_game.Base.Faults.Triple.{Always, bare_rule}
use kobra_game.Update.Disk.{full, torn, Folder, at_staging, put, exists}
use kobra_game.Update.Pending.{Pending}
use kobra_game.Update.Progress.{phase_extract, phase_verify}
use kobra_game.Update.World.{World, Answers, Violation}
use kobra_game.Update.Reports.{ApplyResult, msg_for_data_violation}
use kobra_game.Update.Install.{
  remove_launcher_staging, remove_game_staging, removed_if, has_launcher_staging, has_game_staging,
  extracted, unpacked, extract_entries, extract, cleared_launcher, cleared_game, staging_rooted,
  verified, install, staging_unavailable,
}
use kobra_game.Update.Safety.{Safe, untouched}
use kobra_game.Update.Safety.Leads.{
  Leads, Leaves, Leads-on_folder, Leads-bind, set_phase-Leaves, Leaves-then, change-Leaves,
  quiet-Leaves,
}
use kobra_game.Update.Safety.Quiet.{
  Leads-then, clearing, dropping_archive, dropping_meta, fail_terminal-Leaves,
  fail_retryable-Leaves,
}
use kobra_game.Update.Safety.Applying.{
  Ready, ready, staged, Ready→Safe, Unpacked, remove_game_staging-Ready,
}
use kobra_game.Update.Safety.Promoting.{extracted-Good}

module _ (o : ℕ) (a : Answers) (p : Pending) where
  abbrev Good : Folder → Type 0
  Good = Safe o a.tree

  module _ (blank : a.staging_blank ≡ false) (device : a.cross_device ≡ false) where
    put-Unpacked :
        (f : Folder)
        → Ready o f
        → Always Good
            (λ ok. Unpacked o a.tree (unpacked a p ok))
            (attempt (put at_staging (some (full a.tree))) (put at_staging (some (torn a.tree))))
            f
    put-Unpacked _ (ready b s) =
        bare_rule _ _ _ _ _ (untouched _ _) (untouched _ _) (staged _) (ready _ _) (ready _ _)

    stop-Ready :
        (f : Folder)
        → Ready o f
        → Always Good
            (λ _. Ready o)
            (attempt (put at_staging (some (torn a.tree))) (put at_staging (some (torn a.tree))))
            f
    stop-Ready _ (ready b s) =
        bare_rule _ _ _ _ _ (untouched _ _) (untouched _ _) (ready _ _) (ready _ _) (ready _ _)

    extract_entries-Unpacked :
        (v : Option Violation) → Leads Good (Ready o) (Unpacked o a.tree) (extract_entries a p v)
    extract_entries-Unpacked (some v) =
        Leads-bind Good (Ready o) (λ _. Ready o) (Unpacked o a.tree) _ (λ _. pure (some v))
          (Leads-on_folder Good (Ready o) (λ _. Ready o) _ stop-Ready) (λ _ w r fs. r)
    extract_entries-Unpacked none =
        Leads-bind Good (Ready o) (λ ok. Unpacked o a.tree (unpacked a p ok)) (Unpacked o a.tree) _
          (λ ok. pure (unpacked a p ok))
          (Leads-on_folder Good (Ready o) (λ ok. Unpacked o a.tree (unpacked a p ok)) _
            put-Unpacked)
          (λ ok w r fs. r)

    extract-Unpacked : Leads Good (Ready o) (Unpacked o a.tree) (extract a p)
    extract-Unpacked =
        Leaves-then Good (Ready o) (Ready→Safe o a.tree) (Unpacked o a.tree) _
          (extract_entries a p a.refused)
          (quiet-Leaves Good (Ready o) (Ready→Safe o a.tree) _ (λ _ r. r))
          (extract_entries-Unpacked a.refused)

    -- A tail that leaves the trees alone, from the installed release.
    tailing :
        {A : Type 0}
        → (m : Faulty World A) → Leaves Good Good m
        → Leads Good (Ready o) (λ _. Good) m
    tailing m h w r = h w (Ready→Safe o a.tree _ r)

    cleared_launcher-Good :
        (res : ApplyResult)
        → (ok : Bool) → Leads Good (Ready o) (λ _. Good) (cleared_launcher a p res ok)
    cleared_launcher-Good res false =
        tailing _ (fail_retryable-Leaves Good a.now p res "staging_unwritable" staging_unavailable)
    cleared_launcher-Good res true =
        Leads-bind Good (Ready o) (Unpacked o a.tree) (λ _. Good) _ (extracted a p res)
          (Leaves-then Good (Ready o) (Ready→Safe o a.tree) (Unpacked o a.tree) _ (extract a p)
            (set_phase-Leaves Good (Ready o) (Ready→Safe o a.tree) a.now phase_extract
              "Installing the update.")
            extract-Unpacked)
          (extracted-Good o a p blank device res)

    removed_if-Ready :
        (m : Faulty World Bool)
        → Leaves Good (Ready o) m
        → (b : Bool) → Leaves Good (Ready o) (removed_if m b)
    removed_if-Ready m h false = λ w r fs. r
    removed_if-Ready m h true = h

    cleared_game-Good :
        (res : ApplyResult)
        → (ok : Bool) → Leads Good (Ready o) (λ _. Good) (cleared_game a p res ok)
    cleared_game-Good res false =
        tailing _ (fail_retryable-Leaves Good a.now p res "staging_unwritable" staging_unavailable)
    cleared_game-Good res true =
        Leads-bind Good (Ready o) (λ _. Ready o) (λ _. Good)
          (has_launcher_staging >>= removed_if remove_launcher_staging) (cleared_launcher a p res)
          (λ w.
            removed_if-Ready remove_launcher_staging
              (change-Leaves Good (Ready o) (Ready→Safe o a.tree) _ (λ _ r. r)) w.staged_launcher w)
          (cleared_launcher-Good res)

    staging_rooted-Good :
        (res : ApplyResult)
        → (none_given : Bool) → Leads Good (Ready o) (λ _. Good) (staging_rooted a p res none_given)
    staging_rooted-Good res true =
        tailing _ (fail_retryable-Leaves Good a.now p res "no_staging_root" staging_unavailable)
    staging_rooted-Good res false =
        Leads-bind Good (Ready o) (λ _. Ready o) (λ _. Good)
          (has_game_staging >>= removed_if remove_game_staging) (cleared_game a p res)
          (λ w.
            removed_if-Ready remove_game_staging (remove_game_staging-Ready o a.tree)
              (exists w.folder.staging) w)
          (cleared_game-Good res)

    verified-Good :
        (res : ApplyResult)
        → (v : Option Violation) → Leads Good (Ready o) (λ _. Good) (verified a p res v)
    verified-Good res none = staging_rooted-Good res a.staging_blank
    verified-Good res (some v) = tailing _ (
        Leads-then Good _ _ _
          (Leads-then Good _ _ _ (Leads-then Good _ _ _ (clearing Good) (dropping_archive Good))
            (dropping_meta Good))
          (fail_terminal-Leaves Good a.now p res "verify_failed" (msg_for_data_violation v)))

    -- From the downloaded archive on.
    pub install-Good : (res : ApplyResult) → Leads Good (Ready o) (λ _. Good) (install a p res)
    install-Good res =
        Leaves-then Good (Ready o) (Ready→Safe o a.tree) (λ _. Good) _ (verified a p res a.verified)
          (set_phase-Leaves Good (Ready o) (Ready→Safe o a.tree) a.now phase_verify
            "Checking the update.")
          (verified-Good res a.verified)
