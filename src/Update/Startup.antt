-- ===== src/Update/Startup.antt =====
-- The pass of launcher/internal/update/startup.go: an interrupted swap is finished, and then the
-- requested update is installed.
use kobra_game.Base.{Bool, true, false, Option, none, some, [], if◌then◌else◌}
use kobra_game.Base.Faults.{Faulty, pure, look, ◌>>=◌, ◌>>◌}
use kobra_game.Storage.Text.{Text, same_text}
use kobra_game.Update.Pending.{Pending}
use kobra_game.Update.World.{World, Answers, on_folder, clear_started}
use kobra_game.Update.Reports.{ApplyResult, empty_result, apply_skipped, ended}
use kobra_game.Update.Recover.{Recovery, did, failed, rolled_back, recover}
use kobra_game.Update.Install.{setup}
use kobra_game.Update.Apply.{apply}

-- `RecoveryAction` and `RecoveryErr` are one answer, none before `Recover` has run.
pub record StartupResult : Type 0 where
  pub recovered : Option Recovery
  pub applied : ApplyResult

abbrev pub rolled_back_by : Recovery → Bool
rolled_back_by (did rolled_back) = true
rolled_back_by (did _) = false
rolled_back_by (failed _) = false

-- The launcher's version for the apply: the one of its own options, unless they leave it empty.
abbrev pub apply_version : Text → Text → Text
apply_version own outer = if same_text own [] then outer else own

module _ (a : Answers) (launcher_version : Text) (sidecar_empty : Bool) where
  abbrev pub with_result : Recovery → ApplyResult → Faulty World StartupResult
  with_result r res = pure (record { recovered = some r; applied = res })

  abbrev pub if_pending : Option Pending → Faulty World ApplyResult
  if_pending none = pure empty_result
  if_pending (some p) = apply a launcher_version false a.staging_blank

  abbrev pub apply_pending : Bool → Faulty World ApplyResult
  apply_pending true = pure (ended apply_skipped "no_sidecar" "" empty_result)
  apply_pending false = look (λ w. w.pending) >>= if_pending

  abbrev pub clear_stale_count : Bool → Bool → Faulty World Unit
  clear_stale_count true false = clear_started
  clear_stale_count true true = pure tt
  clear_stale_count false _ = pure tt

  abbrev pub recovered : Recovery → Faulty World StartupResult
  recovered r =
      clear_stale_count (rolled_back_by r) sidecar_empty
      >> apply_pending sidecar_empty
      >>= with_result r

  -- `Startup`, for a folder whose name is blank or not.
  abbrev pub startup : Bool → Faulty World StartupResult
  startup true =
      pure (record { recovered = none; applied = ended apply_skipped "no_folder" "" empty_result })
  startup false = on_folder (recover (setup a)) >>= recovered
