-- ===== src/Update/Safety/Promoting.antt =====
-- `Apply` of launcher/internal/update/apply.go, from the extracted release on, under every schedule of
-- faults.
use kobra_game.Base.{ℕ, ◌≡◌, String, Bool, true, false, Option, none, some}
use mathlib.Core.Path.{subst}
use kobra_game.Base.Faults.{Faulty, ◌>>◌}
use kobra_game.Base.Faults.Triple.{Always, bare_rule, Ends-weaken}
use kobra_game.Update.Disk.{full, Folder}
use kobra_game.Update.Swap.{Outcome, swap}
use kobra_game.Update.Pending.{Pending}
use kobra_game.Update.Progress.{phase_complete, phase_swap}
use kobra_game.Update.World.{
  World, Answers, Violation, on_folder, ignore, clear_pending, drop_archive, drop_meta,
}
use kobra_game.Update.Reports.{ApplyResult, fail_terminal, msg_for_data_violation}
use kobra_game.Update.Install.{
  setup, discard_staging, remove_launcher_staging, complete_result, record_outcome, applied,
  launcher_merged, merge_launcher, swapped, swap_in, unless_cancelled, config_merged, data_checked,
  data_intact, extracted, damaged_short, data_message, swap_message, merge_message,
}
use kobra_game.Update.Safety.{same_device, folder, Safe}
use kobra_game.Update.Safety.Swapping.{swap-Safe, Answered}
use kobra_game.Update.Safety.Leads.{
  Leads, Leaves, Leads-on_folder, Leads-bind, set_phase-Leaves, Leaves-then, quiet-Leaves,
}
use kobra_game.Update.Safety.Quiet.{
  Leads-from, Leads-then, changing, phasing, writing, clearing, clearing_cancel, dropping_archive,
  dropping_meta, report_cancelled-Leaves, fail_terminal-Leaves, fail_retryable-Leaves,
}
use kobra_game.Update.Safety.Applying.{
  Ready, Staged, staged, Staged→Ready, Staged→Safe, Unpacked, discard_staging-then, same_setup,
}

module _ (o : ℕ) (a : Answers) (p : Pending) where
  abbrev Good : Folder → Type 0
  Good = Safe o a.tree

  record_outcome-Good : (res : ApplyResult) → Leaves Good Good (record_outcome a p res)
  record_outcome-Good res =
      Leads-then Good _ _ _
        (Leads-then Good _ _ _
          (Leads-then Good _ _ _
            (Leads-then Good _ _ _ (phasing Good a.now phase_complete res.message)
              (writing Good a.now (complete_result a p res)))
            (clearing Good))
          (clearing_cancel Good))
        (λ w s fs. s)

  dropping_launcher : Leaves Good Good (ignore remove_launcher_staging)
  dropping_launcher = changing Good _ (λ _ s. s)

  launcher_merged-Good :
      (res : ApplyResult) → (ok : Bool) → Leaves Good Good (launcher_merged a p res ok)
  launcher_merged-Good res false =
      Leads-then Good _ _ _ dropping_launcher
        (fail_retryable-Leaves Good a.now p res "launcher_merge_failed" merge_message)
  launcher_merged-Good res true =
      Leads-then Good _ _ _ dropping_launcher (λ w s. record_outcome-Good (applied a p res w) w s)

  merge_launcher-Good : Leaves Good Good (merge_launcher a p)
  merge_launcher-Good w s = bare_rule _ _ _ _ w s s s s s

  swapped-Good : (res : ApplyResult) → (out : Outcome) → Leaves Good Good (swapped a p res out)
  swapped-Good res (some reason) = fail_terminal-Leaves Good a.now p res "swap_failed" swap_message
  swapped-Good res none =
      Leads-bind Good Good (λ _. Good) (λ _. Good) (merge_launcher a p) (launcher_merged a p res)
        merge_launcher-Good (launcher_merged-Good res)

  module _ (blank : a.staging_blank ≡ false) (device : a.cross_device ≡ false) where
    swap_same-Good : (f : Folder) → Staged o a.tree f → Always Good (λ _. Good) (swap same_device) f
    swap_same-Good _ (staged b) fs =
        Ends-weaken Good (λ r f. Good f × Answered o a.tree r f) (λ _. Good) (λ _ _ s. s.0)
          (swap same_device (folder (some (full o)) b (some (full a.tree)) none) fs)
          (swap-Safe o a.tree b none fs)

    swap-Good : (f : Folder) → Staged o a.tree f → Always Good (λ _. Good) (swap (setup a)) f
    swap-Good =
        subst (λ c. (f : Folder) → Staged o a.tree f → Always Good (λ _. Good) (swap c) f)
          (same_setup a blank device) swap_same-Good

    abbrev Begun : Folder → Type 0
    Begun = Staged o a.tree

    swap_in-Good : (res : ApplyResult) → Leads Good Begun (λ _. Good) (swap_in a p res)
    swap_in-Good res =
        Leads-bind Good Begun (λ _. Good) (λ _. Good) _ (swapped a p res)
          (Leaves-then Good Begun (Staged→Safe o a.tree) (λ _. Good) _ (on_folder (swap (setup a)))
            (set_phase-Leaves Good Begun (Staged→Safe o a.tree) a.now phase_swap
              "Finishing the update.")
            (Leads-on_folder Good Begun (λ _. Good) (swap (setup a)) swap-Good))
          (swapped-Good res)

    -- From a staged release that is dropped.
    dropping :
        {A : Type 0}
        → (m : Faulty World A) → Leads Good (Ready o) (λ _. Good) m
        → Leads Good Begun (λ _. Good) m
    dropping m h w s = h w (Staged→Ready o a.tree _ s)

    cancelled-Good :
        (res : ApplyResult) → Leads Good (Ready o) (λ _. Good) (unless_cancelled a p res true)
    cancelled-Good res =
        Leads-from Good (Ready o) _ _
          (Leads-from Good (Ready o) _ _
            (Leads-from Good (Ready o) _ _
              (Leads-from Good (Ready o) _ _
                (discard_staging-then o a.tree drop_archive (dropping_archive Good))
                (clearing Good))
              (clearing_cancel Good))
            (report_cancelled-Leaves Good a.now p "The update was cancelled."))
          (λ w s fs. s)

    unless_cancelled-Good :
        (res : ApplyResult) → (c : Bool) → Leads Good Begun (λ _. Good) (unless_cancelled a p res c)
    unless_cancelled-Good res true = dropping _ (cancelled-Good res)
    unless_cancelled-Good res false = swap_in-Good res

    rejected-Good :
        (res : ApplyResult)
        → (reason message : String)
        → Leads Good
            (Ready o)
            (λ _. Good)
            (discard_staging >> clear_pending >> fail_terminal a.now p res reason message)
    rejected-Good res reason message =
        Leads-from Good (Ready o) _ _ (discard_staging-then o a.tree clear_pending (clearing Good))
          (fail_terminal-Leaves Good a.now p res reason message)

    config_merged-Good :
        (res : ApplyResult) → (ok : Bool) → Leads Good Begun (λ _. Good) (config_merged a p res ok)
    config_merged-Good res false =
        dropping _ (rejected-Good res "config_merge_failed" damaged_short)
    config_merged-Good res true = λ w s. unless_cancelled-Good res w.cancel w s

    data_checked-Good :
        (res : ApplyResult) → (ok : Bool) → Leads Good Begun (λ _. Good) (data_checked a p res ok)
    data_checked-Good res false = dropping _ (rejected-Good res "data_touched" data_message)
    data_checked-Good res true = config_merged-Good res a.merges_config

    -- From the extracted release on.
    pub extracted-Good :
        (res : ApplyResult)
        → (v : Option Violation)
        → Leads Good (Unpacked o a.tree v) (λ _. Good) (extracted a p res v)
    extracted-Good res (some v) =
        Leads-from Good (Ready o) _ _
          (Leads-from Good (Ready o) _ _
            (Leads-from Good (Ready o) _ _
              (discard_staging-then o a.tree drop_archive (dropping_archive Good))
              (dropping_meta Good))
            (clearing Good))
          (fail_terminal-Leaves Good a.now p res "extract_failed" (msg_for_data_violation v))
    extracted-Good res none =
        Leaves-then Good Begun (Staged→Safe o a.tree) (λ _. Good) (drop_archive >> drop_meta) _
          (Leaves-then Good Begun (Staged→Safe o a.tree) (λ _. Begun) drop_archive drop_meta
            (quiet-Leaves Good Begun (Staged→Safe o a.tree) _ (λ _ s. s))
            (quiet-Leaves Good Begun (Staged→Safe o a.tree) _ (λ _ s. s)))
          (data_checked-Good res (data_intact a p))
