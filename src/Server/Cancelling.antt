-- ===== src/Server/Cancelling.antt =====
-- A cancellation (launcher/internal/server/update.go) and the next start of the launcher
-- (launcher/internal/update/apply.go).
use kobra_game.Base.{
  ◌⊎◌, inl, inr, ◌≡◌, refl, sym, String, Bool, true, false, not, Option, none, some, List, [], ◌&&◌,
  ◌||◌, if◌then◌else◌,
}
use mathlib.Core.Path.{subst}
use kobra_game.Base.Faults.{Fault, Faulty, pure, ◌>>◌, after}
use kobra_game.Base.Faults.Triple.{
  Ends, Always, bind_rule, Ends-after, Ends-weaken, atomic_rule, only_rule,
}
use kobra_game.Storage.Text.{Text, same_text}
use kobra_game.Update.Disk.{Folder}
use kobra_game.Update.Version.{release_newer}
use kobra_game.Update.Pending.{Pending, valid}
use kobra_game.Update.World.{
  clear_cancel, World, Answers, LockAnswer, lock_acquired, lock_held, lock_failed,
}
use kobra_game.Update.Reports.{ApplyResult, empty_result}
use kobra_game.Update.Apply.{
  cancelled_before, unless_flagged, clear_and_fail, apply_marker, marked, locked, apply,
  cancelled_message,
}
use kobra_game.Update.Safety.Leads.{Leaves}
use kobra_game.Update.Safety.Quiet.{Leads-then, clearing, clearing_cancel, report_cancelled-Leaves}
use kobra_game.Update.Intent.{clear_update_intent, request_cancel, is_present}
use kobra_game.Server.Updates.{cancel_update_intent}

module _ (f : Folder) (a : Answers) (launcher : Text) where
  -- The folder is `f`, wherever the run ends.
  abbrev Same : Folder → Type 0
  Same g = g ≡ f

  abbrev Untouched : Faulty World ApplyResult → Type 0
  Untouched m =
      (w : World)
      → w.cancel ≡ true
      → w.folder ≡ f
      → Always (λ v. v.folder ≡ f) (λ _ v. v.folder ≡ f) m w

  flagged :
      (p : Pending) → (res : ApplyResult) → Leaves Same Same (cancelled_before a launcher p res)
  flagged p res =
      Leads-then Same _ _ _
        (Leads-then Same _ _ _
          (Leads-then Same _ _ _ (Leads-then Same _ _ _ (clearing Same) (clearing_cancel Same))
            (λ w s fs. s))
          (report_cancelled-Leaves Same a.now p cancelled_message))
        (λ w s fs. s)

  choosing :
      (m k : Faulty World ApplyResult)
      → (b : Bool) → Untouched m
      → Untouched k
      → Untouched (if b then m else k)
  choosing m k true h g = h
  choosing m k false h g = g

  failing :
      (p : Pending)
      → (res : ApplyResult) → (reason message : String)
      → Untouched (clear_and_fail a launcher p res reason message)
  failing p res reason message w c s =
      Leads-then Same _ _ (pure _) (clearing Same) (λ v t fs. t) w s

  unless_flagged_same :
      (p : Pending)
      → (res : ApplyResult) → Untouched (λ w. unless_flagged a launcher p res w.cancel w)
  unless_flagged_same p res w c s =
      subst
        (λ b.
          Always (λ v. v.folder ≡ f) (λ _ v. v.folder ≡ f) (unless_flagged a launcher p res b) w)
        (sym c) (flagged p res w s)

  marker_same : (p : Pending) → (res : ApplyResult) → Untouched (apply_marker a launcher p res)
  marker_same p res = choosing _ _ (not (valid p)) (failing p res _ _) (
      choosing _ _
        (not (same_text p.from_release []) && not (release_newer p.target_release p.from_release))
        (failing p res _ _) (unless_flagged_same p res))

  marked_same : (o : Option Pending) → Untouched (marked a launcher o)
  marked_same none = λ w c s fs. s
  marked_same (some p) =
      marker_same p
        (record empty_result { from_release = p.from_release; target_release = p.target_release })

  locked_same : (l : LockAnswer) → Untouched (locked a launcher l)
  locked_same lock_acquired = λ w. marked_same w.pending w
  locked_same lock_held = λ w c s fs. s
  locked_same lock_failed = λ w c s fs. s

  apply_same :
      (folder_blank sidecar_blank : Bool) → Untouched (apply a launcher folder_blank sidecar_blank)
  apply_same folder_blank sidecar_blank =
      choosing _ _ (folder_blank || sidecar_blank) (λ w c s fs. s)
        (choosing _ _ (not a.makes_dir) (λ w c s fs. s) (locked_same a.lock))

-- The flag, where a cancellation returns no error.
abbrev Flagged : Folder → Bool → World → Type 0
Flagged f ok w = (w.folder ≡ f) × ((ok ≡ false) ⊎ (w.cancel ≡ true))

clear_update_intent-Same : (f : Folder) → Leaves (λ g. g ≡ f) (λ g. g ≡ f) clear_update_intent
clear_update_intent-Same f w s =
    atomic_rule (λ v. v.folder ≡ f) (λ _ v. v.folder ≡ f) _
      (λ ok. clear_cancel >> pure (is_present w.pending && ok)) w s
      (then_cleared f (is_present w.pending && true) _ s)
      (then_cleared f (is_present w.pending && false) _ s)
  where
    then_cleared :
        (f : Folder) → (x : Bool) → Leaves (λ g. g ≡ f) (λ g. g ≡ f) (clear_cancel >> pure x)
    then_cleared f x =
        Leads-then (λ g. g ≡ f) (λ _ g. g ≡ f) clear_cancel (pure x) (clearing_cancel (λ g. g ≡ f))
          (λ w s fs. s)

request_cancel-Flagged :
    (f : Folder)
    → (dir : Bool) → (w : World) → w.folder ≡ f
    → Always (λ v. v.folder ≡ f) (Flagged f) (request_cancel dir) w
request_cancel-Flagged f false w s = λ fs. (s, inl refl)
request_cancel-Flagged f true w s =
    only_rule (λ v. v.folder ≡ f) (Flagged f) _ w s (s, inr refl) (s, inl refl)

cancel-Flagged :
    (f : Folder)
    → (dir : Bool) → (w : World) → w.folder ≡ f
    → Always (λ v. v.folder ≡ f) (Flagged f) (cancel_update_intent dir) w
cancel-Flagged f dir w s fs =
    bind_rule (λ v. v.folder ≡ f) (λ _ v. v.folder ≡ f) (Flagged f) (λ _. request_cancel dir)
      (clear_update_intent w fs) (clear_update_intent-Same f w s fs)
      (λ _ v t. request_cancel-Flagged f dir v t)

-- An update that was cancelled is not installed: whatever fails while the request to cancel is
-- recorded, it either returns an error, or the next installation leaves the folder's trees as they
-- were before the cancellation, whatever marker it finds, whatever its calls answer and wherever it
-- is cut short.
pub cancelled_stays_out :
    (dir : Bool)
    → (w : World) → (fs : List Fault) → (a : Answers) → (launcher : Text)
    → (folder_blank sidecar_blank : Bool) → (gs : List Fault)
    → Ends
        (λ v. v.folder ≡ w.folder)
        (λ ok v.
          (ok ≡ false)
          ⊎ ((after (apply a launcher folder_blank sidecar_blank v gs)).folder ≡ w.folder))
        (cancel_update_intent dir w fs)
cancelled_stays_out dir w fs a launcher folder_blank sidecar_blank gs =
    Ends-weaken (λ v. v.folder ≡ w.folder) (Flagged w.folder) _ next (cancel_update_intent dir w fs)
      (cancel-Flagged w.folder dir w refl fs)
  where
    next :
        (ok : Bool)
        → (v : World) → Flagged w.folder ok v
        → (ok ≡ false)
          ⊎ ((after (apply a launcher folder_blank sidecar_blank v gs)).folder ≡ w.folder)
    next ok v (s, inl e) = inl e
    next ok v (s, inr c) = inr (
        Ends-after {C = λ u. u.folder ≡ w.folder} (λ _ u. u.folder ≡ w.folder)
          (apply a launcher folder_blank sidecar_blank v gs) (λ _ _ u. u)
          (apply_same w.folder a launcher folder_blank sidecar_blank v c s gs))
