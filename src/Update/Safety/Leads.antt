-- ===== src/Update/Safety/Leads.antt =====
-- Operations of an installation (launcher/internal/update/apply.go) by what they do to the folder's
-- trees: from one arrangement to another, and through safe ones where the power is lost.
use kobra_game.Base.{String, List, [], ◌∷◌, Option, none, some}
use kobra_game.Base.Int.{ℤ}
use kobra_game.Base.Faults.{Run, returned, died, Faulty, pure, ◌>>=◌, ◌>>◌}
use kobra_game.Base.Faults.Triple.{Ends, Always, bind_rule, bare_rule}
use kobra_game.Update.Disk.{Folder, Disk}
use kobra_game.Update.Progress.{Phase, ProgressWriter, bytes_set}
use kobra_game.Update.World.{
  World, change, ignore, in_folder, on_folder, write_progress, set_phase, set_bytes, set_all_bytes,
  ticked,
}

-- From `P` to `Q`; where the power is lost, `C`.
abbrev pub Leads :
    {A : Type 0} → (C P : Folder → Type 0) → (Q : A → Folder → Type 0) → Faulty World A → Type 0
Leads C P Q m = (w : World) → P w.folder → Always (λ v. C v.folder) (λ x v. Q x v.folder) m w

-- An operation that leaves `P` as it is.
abbrev pub Leaves : {A : Type 0} → (C P : Folder → Type 0) → Faulty World A → Type 0
Leaves C P m = Leads C P (λ _. P) m

in_folder-Ends :
    {A : Type 0}
    → (C : Folder → Type 0) → (Q : A → Folder → Type 0) → (r : Run Folder A) → (w : World)
    → Ends C Q r
    → Ends (λ v. C v.folder) (λ x v. Q x v.folder) (in_folder r w)
in_folder-Ends C Q (returned x f fs) w e = e
in_folder-Ends C Q (died f) w e = e

module _ (C P : Folder → Type 0) where
  pub Leads-on_folder :
      {A : Type 0}
      → (Q : A → Folder → Type 0) → (d : Disk A) → ((f : Folder) → P f → Always C Q d f)
      → Leads C P Q (on_folder d)
  unfolding on_folder
  Leads-on_folder Q d safe w p fs = in_folder-Ends C Q (d w.folder fs) w (safe w.folder p fs)

  pub Leads-bind :
      {A B : Type 0}
      → (Q : A → Folder → Type 0) → (R : B → Folder → Type 0) → (m : Faulty World A)
      → (k : A → Faulty World B) → Leads C P Q m
      → ((x : A) → Leads C (Q x) R (k x))
      → Leads C P R (m >>= k)
  Leads-bind Q R m k first next w p fs =
      bind_rule (λ v. C v.folder) (λ x v. Q x v.folder) (λ x v. R x v.folder) k (m w fs)
        (first w p fs) (λ x v q. next x v q)

module _ (C P : Folder → Type 0) (safe : (f : Folder) → P f → C f) where
  pub Leaves-then :
      {A B : Type 0}
      → (R : B → Folder → Type 0) → (m : Faulty World A) → (k : Faulty World B) → Leaves C P m
      → Leads C P R k
      → Leads C P R (m >> k)
  Leaves-then R m k first next = Leads-bind C P (λ _. P) R m (λ _. k) first (λ _. next)

  pub change-Leaves :
      (f : World → World) → ((w : World) → P w.folder → P (f w).folder) → Leaves C P (change f)
  change-Leaves f keeps w p =
      bare_rule (λ v. C v.folder) (λ _ v. P v.folder) f (λ v. v) w (safe w.folder p)
        (safe w.folder p) (keeps w p) p p

  pub quiet-Leaves :
      (f : World → World)
      → ((w : World) → P w.folder → P (f w).folder)
      → Leaves C P (ignore (change f))
  quiet-Leaves f keeps =
      Leaves-then (λ _. P) (change f) (pure tt) (change-Leaves f keeps) (λ w p fs. p)

  pub write_progress-Leaves : Leaves C P write_progress
  write_progress-Leaves = quiet-Leaves _ (λ w p. p)

  pub set_phase-Leaves :
      (now : String) → (phase : Phase) → (s : String) → Leaves C P (set_phase now phase s)
  set_phase-Leaves now phase s w p = write_progress-Leaves _ p

  ticked-Leaves : (o : Option ProgressWriter) → Leaves C P (ticked o)
  ticked-Leaves none = λ w p fs. p
  ticked-Leaves (some writer) = λ w p. write_progress-Leaves _ p

  pub set_all_bytes-Leaves :
      (now : String) → (ticks : List (ℤ × ℤ)) → Leaves C P (set_all_bytes now ticks)
  set_all_bytes-Leaves now [] = λ w p fs. p
  set_all_bytes-Leaves now ((n, total) ∷ ticks) =
      Leaves-then (λ _. P) (set_bytes now n total) (set_all_bytes now ticks)
        (λ w p. ticked-Leaves (bytes_set now n total w.writer) w p) (set_all_bytes-Leaves now ticks)
