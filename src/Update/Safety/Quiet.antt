-- ===== src/Update/Safety/Quiet.antt =====
-- The ways to end of launcher/internal/update/apply.go leave the folder's trees alone.
use kobra_game.Base.{Bool, true, false, String}
use kobra_game.Base.Faults.{Faulty, pure, ◌>>◌}
use kobra_game.Update.Disk.{Folder}
use kobra_game.Update.Pending.{Pending}
use kobra_game.Update.Progress.{
  Phase, phase_failed, phase_cancelled, outcome_failed, outcome_cancelled, Result,
}
use kobra_game.Update.World.{
  World, change, ignore, clear_pending, clear_cancel, drop_archive, drop_meta, set_phase,
  write_result,
}
use kobra_game.Update.Reports.{
  ApplyResult, result_for, report_failed, report_cancelled, fail_terminal, fail_retryable, retried,
  clear_if,
}
use kobra_game.Update.Safety.Leads.{
  Leads, Leaves, Leads-bind, Leaves-then, quiet-Leaves, set_phase-Leaves,
}

module _ (C : Folder → Type 0) where
  pub Leads-then :
      {A B : Type 0}
      → (R : B → Folder → Type 0) → (m : Faulty World A) → (k : Faulty World B) → Leaves C C m
      → Leads C C R k
      → Leads C C R (m >> k)
  Leads-then R m k first next = Leaves-then C C (λ _ s. s) R m k first next

  pub returning : {A : Type 0} → (x : A) → Leaves C C (pure x)
  returning x w s fs = s

  pub changing :
      (f : World → World)
      → ((w : World) → C w.folder → C (f w).folder)
      → Leaves C C (ignore (change f))
  changing f keeps = quiet-Leaves C C (λ _ s. s) f keeps

  pub phasing : (now : String) → (phase : Phase) → (s : String) → Leaves C C (set_phase now phase s)
  phasing now phase s = set_phase-Leaves C C (λ _ s. s) now phase s

  pub writing : (now : String) → (r : Result) → Leaves C C (write_result now r)
  writing now r = changing _ (λ _ s. s)

  pub clearing : Leaves C C clear_pending
  clearing = changing _ (λ _ s. s)

  pub clearing_cancel : Leaves C C clear_cancel
  clearing_cancel = changing _ (λ _ s. s)

  pub dropping_archive : Leaves C C drop_archive
  dropping_archive = changing _ (λ _ s. s)

  pub dropping_meta : Leaves C C drop_meta
  dropping_meta = changing _ (λ _ s. s)

  pub report_failed-Leaves :
      (now : String)
      → (p : Pending) → (reason message : String) → Leaves C C (report_failed now p reason message)
  report_failed-Leaves now p reason message =
      Leads-then (λ _. C) (set_phase now phase_failed message)
        (write_result now (result_for p outcome_failed reason message)) (phasing now _ _)
        (writing now (result_for p outcome_failed reason message))

  pub report_cancelled-Leaves :
      (now : String)
      → (p : Pending) → (message : String) → Leaves C C (report_cancelled now p message)
  report_cancelled-Leaves now p message =
      Leads-then (λ _. C) (set_phase now phase_cancelled message)
        (write_result now (result_for p outcome_cancelled "cancelled" message)) (phasing now _ _)
        (writing now (result_for p outcome_cancelled "cancelled" message))

  pub fail_terminal-Leaves :
      (now : String)
      → (p : Pending) → (res : ApplyResult) → (reason message : String)
      → Leaves C C (fail_terminal now p res reason message)
  fail_terminal-Leaves now p res reason message =
      Leads-then _ _ _ (Leads-then _ _ _ clearing (report_failed-Leaves now p reason message))
        (λ w s fs. s)

  clear_if-Leaves : (b : Bool) → Leaves C C (clear_if b)
  clear_if-Leaves true = clearing
  clear_if-Leaves false = returning tt

  pub fail_retryable-Leaves :
      (now : String)
      → (p : Pending) → (res : ApplyResult) → (reason message : String)
      → Leaves C C (fail_retryable now p res reason message)
  fail_retryable-Leaves now p res reason message =
      Leads-then _ _ _
        (Leads-then _ _ _ (Leads-then _ _ _ (changing _ (λ _ s. s)) (clear_if-Leaves _))
          (report_failed-Leaves now (retried now reason p) reason message))
        (λ w s fs. s)

  -- What follows an operation that ends well.
  pub Leads-from :
      {A B : Type 0}
      → (P : Folder → Type 0) → (m : Faulty World A) → (k : Faulty World B) → Leads C P (λ _. C) m
      → Leaves C C k
      → Leads C P (λ _. C) (m >> k)
  Leads-from P m k first next = Leads-bind C P (λ _. C) (λ _. C) m (λ _. k) first (λ _. next)
