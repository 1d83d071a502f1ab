-- ===== src/Update/Budget/Closing.antt =====
-- Every end of `Apply` of launcher/internal/update/apply.go for the pending marker, where no fault
-- interrupts it.
use kobra_game.Base.{◌≡◌, refl, ◌∙◌, String, Bool, true, false, Option, none, some, []}
use kobra_game.Base.Faults.{Faulty, ◌>>=◌, attempt}
use kobra_game.Base.Faults.Clean.{Clean, Clean-bind, Clean-weaken}
use kobra_game.Update.Disk.{exists}
use kobra_game.Update.Swap.{Outcome, swap}
use kobra_game.Update.Pending.{Pending}
use kobra_game.Update.World.{World, Answers, Violation, on_folder, in_folder}
use kobra_game.Update.Reports.{
  ApplyResult, fail_terminal, fail_retryable, retry_with, retried, is_exhausted,
}
use kobra_game.Update.Budget.{Marker, cleared, counted}
use kobra_game.Update.Budget.Swapped.{swap_keeps_pending}
use kobra_game.Update.Install.{
  setup, replaced_launcher, launcher_merged, swapped, swap_in, unless_cancelled, config_merged,
  data_checked, data_intact, extracted, extract_entries, cleared_launcher, cleared_game,
  staging_rooted, verified, install, removed_if, remove_launcher_staging, remove_game_staging,
  staging_unavailable, swap_message, merge_message,
}

module _ (a : Answers) (p : Pending) where
  -- A step that ends with the marker in one of its three states.
  abbrev pub Closes : Faulty World ApplyResult → Type 0
  Closes m = (w : World) → w.pending ≡ some p → Clean (λ r v. Marker a p r v.pending) (m w [])

  -- A step that leaves the marker.
  abbrev pub Waits : {A : Type 0} → Faulty World A → Type 0
  Waits m = (w : World) → w.pending ≡ some p → Clean (λ _ v. v.pending ≡ some p) (m w [])

  pub Waits-then :
      {A : Type 0}
      → (m : Faulty World A) → (k : A → Faulty World ApplyResult) → Waits m
      → ((x : A) → Closes (k x))
      → Closes (m >>= k)
  Waits-then m k first next w h =
      Clean-bind (λ _ v. v.pending ≡ some p) (λ r v. Marker a p r v.pending) k (m w []) (first w h)
        (λ x v e. next x v e)

  module _ (res : ApplyResult) (fresh : res.retryable ≡ false) where
    pub terminal-Closes :
        (reason message : String) → Closes (fail_terminal a.now p res reason message)
    unfolding attempt
    terminal-Closes reason message w h = cleared fresh

    retry_with-Closes :
        (reason message : String)
        → (b : Bool) → is_exhausted (retried a.now reason p) ≡ b
        → Closes (retry_with a.now (retried a.now reason p) b res reason message)
    unfolding attempt
    retry_with-Closes reason message true e = λ w h. cleared refl
    retry_with-Closes reason message false e = λ w h. counted refl e

    pub retryable-Closes :
        (reason message : String) → Closes (fail_retryable a.now p res reason message)
    retryable-Closes reason message =
        retry_with-Closes reason message (is_exhausted (retried a.now reason p)) refl

    launcher_merged-Closes : (ok : Bool) → Closes (launcher_merged a p res ok)
    unfolding attempt
    launcher_merged-Closes true = λ w h. cleared fresh
    launcher_merged-Closes false = λ w h. retryable-Closes "launcher_merge_failed" merge_message _ h

    swapped-Closes : (out : Outcome) → Closes (swapped a p res out)
    unfolding attempt
    swapped-Closes none = λ w h. launcher_merged-Closes true (replaced_launcher a p w) h
    swapped-Closes (some reason) = terminal-Closes "swap_failed" swap_message

    on_swap-Waits : Waits (on_folder (swap (setup a)))
    unfolding on_folder
    on_swap-Waits w h =
        Clean-weaken (λ _ v. v.pending ≡ w.pending) (λ _ v. v.pending ≡ some p) (λ _ v e. e ∙ h)
          (in_folder (swap (setup a) w.folder []) w) (swap_keeps_pending (setup a) w)

    swap_in-Closes : Closes (swap_in a p res)
    unfolding attempt
    swap_in-Closes w h =
        Waits-then (on_folder (swap (setup a))) (swapped a p res) on_swap-Waits swapped-Closes _ h

    unless_cancelled-Closes : (c : Bool) → Closes (unless_cancelled a p res c)
    unfolding attempt on_folder
    unless_cancelled-Closes true = λ w h. cleared fresh
    unless_cancelled-Closes false = swap_in-Closes

    config_merged-Closes : (ok : Bool) → Closes (config_merged a p res ok)
    unfolding attempt on_folder
    config_merged-Closes true = λ w h. unless_cancelled-Closes w.cancel w h
    config_merged-Closes false = λ w h. cleared fresh

    data_checked-Closes : (ok : Bool) → Closes (data_checked a p res ok)
    unfolding attempt on_folder
    data_checked-Closes true = config_merged-Closes a.merges_config
    data_checked-Closes false = λ w h. cleared fresh

    extracted-Closes : (v : Option Violation) → Closes (extracted a p res v)
    unfolding attempt on_folder
    extracted-Closes none = λ w h. data_checked-Closes (data_intact a p) _ h
    extracted-Closes (some v) = λ w h. cleared fresh

    entries-Waits : (v : Option Violation) → Waits (extract_entries a p v)
    unfolding attempt on_folder
    entries-Waits none = λ w h. h
    entries-Waits (some v) = λ w h. h

    cleared_launcher-Closes : (ok : Bool) → Closes (cleared_launcher a p res ok)
    unfolding attempt
    cleared_launcher-Closes true = λ w h.
        Waits-then (extract_entries a p a.refused) (extracted a p res) (entries-Waits a.refused)
          extracted-Closes _ h
    cleared_launcher-Closes false = retryable-Closes "staging_unwritable" staging_unavailable

    removed-Waits : (b : Bool) → Waits (removed_if remove_launcher_staging b)
    unfolding attempt
    removed-Waits true = λ w h. h
    removed-Waits false = λ w h. h

    removed_game-Waits : (b : Bool) → Waits (removed_if remove_game_staging b)
    unfolding attempt on_folder
    removed_game-Waits true = λ w h. h
    removed_game-Waits false = λ w h. h

    cleared_game-Closes : (ok : Bool) → Closes (cleared_game a p res ok)
    cleared_game-Closes true = λ w h.
        Waits-then (removed_if remove_launcher_staging w.staged_launcher) (cleared_launcher a p res)
          (removed-Waits w.staged_launcher) cleared_launcher-Closes w h
    cleared_game-Closes false = retryable-Closes "staging_unwritable" staging_unavailable

    staging_rooted-Closes : (b : Bool) → Closes (staging_rooted a p res b)
    staging_rooted-Closes true = retryable-Closes "no_staging_root" staging_unavailable
    staging_rooted-Closes false = λ w h.
        Waits-then (removed_if remove_game_staging (exists w.folder.staging)) (cleared_game a p res)
          (removed_game-Waits (exists w.folder.staging)) cleared_game-Closes w h

    verified-Closes : (v : Option Violation) → Closes (verified a p res v)
    unfolding attempt
    verified-Closes none = staging_rooted-Closes a.staging_blank
    verified-Closes (some v) = λ w h. cleared fresh

    pub install-Closes : Closes (install a p res)
    unfolding attempt
    install-Closes w h = verified-Closes a.verified _ h
