-- ===== src/Update/Intent/Recorded.antt =====
-- What `RecordUpdateIntent` of launcher/internal/update/intent.go leaves, whatever fails, and what
-- `Apply` makes of it.
use kobra_game.Base.{◌≡◌, refl, ◌⊎◌, inl, inr, String, Bool, true, false, Option, some, List}
use kobra_game.Base.Faults.{Fault}
use kobra_game.Base.Faults.Triple.{Ends, Always, atomic_rule, only_rule, bind_rule}
use kobra_game.Storage.Text.{Text}
use kobra_game.Update.Pending.{Pending}
use kobra_game.Update.Progress.{initial_progress}
use kobra_game.Update.World.{World, change, clear_cancel}
use kobra_game.Update.Intent.{write_pending, save_pending}

-- The marker is the one there was, or the new one beside its own progress record.
abbrev pub Paired : Option Pending → String → Pending → World → Type 0
Paired old now p w =
    (w.pending ≡ old) ⊎ ((w.pending ≡ some p) × (w.progress ≡ some (initial_progress now p)))

-- How a recording that returns ends.
abbrev pub Recorded : Option Pending → String → Pending → Bool → World → Type 0
Recorded old now p ok w =
    ((ok ≡ true) × (w.pending ≡ some p) × (w.progress ≡ some (initial_progress now p)))
    ⊎ ((ok ≡ false) × (w.pending ≡ old))

-- The new progress record is in place and the marker is still the one there was.
abbrev Noted : Option Pending → String → Pending → World → Type 0
Noted old now p w = (w.pending ≡ old) × (w.progress ≡ some (initial_progress now p))

marking :
    (old : Option Pending)
    → (now : String) → (p : Pending) → (w : World) → Noted old now p w
    → Always (Paired old now p) (Recorded old now p) (change (λ v. record v { pending = some p })) w
marking old now p w n =
    only_rule (Paired old now p) (Recorded old now p) _ w (inl n.0) (inl (refl, refl, n.1))
      (inr (refl, n.0))

saving :
    (old : Option Pending)
    → (now : String) → (p : Pending) → (w : World) → Noted old now p w
    → Always (Paired old now p) (Recorded old now p) (save_pending p true) w
saving old now p w n fs =
    bind_rule (Paired old now p) (λ _. Noted old now p) (Recorded old now p)
      (λ _. change (λ v. record v { pending = some p })) (clear_cancel w fs)
      (atomic_rule (Paired old now p) (λ _. Noted old now p) _ _ w (inl n.0) (λ gs. n) (λ gs. n) fs)
      (λ _ v m. marking old now p v m)

-- Wherever the recording of a request stops, the marker is the one there was before, or the new one
-- with the new progress record in place: a stale record is never beside a new marker. Where it
-- returns no error the marker is the new one, and where it returns one it is the one there was.
pub write_pending-Paired :
    (dir : Bool)
    → (now : String) → (p : Pending) → (w : World) → (fs : List Fault)
    → Ends (Paired w.pending now p) (Recorded w.pending now p) (write_pending dir now p w fs)
write_pending-Paired false now p w = λ fs. inr (refl, refl)
write_pending-Paired true now p w =
    atomic_rule (Paired w.pending now p) (Recorded w.pending now p) _ (save_pending p) w (inl refl)
      (saving w.pending now p _ (refl, refl)) (λ fs. inr (refl, refl))
