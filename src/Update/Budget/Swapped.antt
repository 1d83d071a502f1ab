-- ===== src/Update/Budget/Swapped.antt =====
-- `Swap` of launcher/internal/update/swap.go returns where no fault interrupts it.
use kobra_game.Base.{Bool, true, false, Option, none, some, ◌≡◌, refl, [], ◌∷◌}
use kobra_game.Base.Faults.{Run, returned, died, attempt, pure, ◌>>=◌, ◌>>◌}
use kobra_game.Base.Faults.Clean.{Clean, Clean-bind}
use kobra_game.Update.Disk.{
  Tree, Folder, Disk, Place, at_game, at_backup, at_staging, at_copy, rename, rename_if, tree_at,
  exists,
}
use kobra_game.Update.Swap.{
  Setup, Outcome, swap, swap_rooted, swap_checked, swap_marked, swap_cleared, swap_backed_up,
  swap_promoted, put_back, promote_dir, finish_copy, discard_backup,
}
use kobra_game.Update.World.{World, in_folder}

abbrev Returns : {A : Type 0} → Disk A → Type 0
Returns m = (f : Folder) → Clean (λ _ _. Unit) (m f [])

rename_if-Returns : (s d : Option Tree) → (src dst : Place) → Returns (rename_if s d src dst)
unfolding attempt
rename_if-Returns none d src dst f = tt
rename_if-Returns (some t) none src dst f = tt
rename_if-Returns (some t) (some d) src dst f = tt

rename-Returns : (src dst : Place) → Returns (rename src dst)
rename-Returns src dst f = rename_if-Returns (tree_at src f) (tree_at dst f) src dst f

Returns-bind :
    {A B : Type 0}
    → (m : Disk A) → (k : A → Disk B) → Returns m
    → ((x : A) → Returns (k x))
    → Returns (m >>= k)
Returns-bind m k first next f =
    Clean-bind (λ _ _. Unit) (λ _ _. Unit) k (m f []) (first f) (λ x w u. next x w)

undone-Returns : (ok : Bool) → Returns {A = Outcome} (put_back ok >> pure (some "promote_move"))
unfolding attempt
undone-Returns true f = tt
undone-Returns false f = tt

promoted-Returns : (ok : Bool) → Returns (swap_promoted ok)
unfolding attempt
promoted-Returns true = λ f. tt
promoted-Returns false =
    Returns-bind (rename at_backup at_game) (λ ok. put_back ok >> pure (some "promote_move"))
      (rename-Returns at_backup at_game) undone-Returns

finish_copy-Returns : (src : Place) → (ok : Bool) → Returns (finish_copy src ok)
unfolding attempt
finish_copy-Returns src true f = tt
finish_copy-Returns src false f = tt

promote_dir-Returns : (cross : Bool) → (src dst : Place) → Returns (promote_dir cross src dst)
unfolding attempt
promote_dir-Returns false src dst = rename-Returns src dst
promote_dir-Returns true src dst = λ f.
    Returns-bind (rename at_copy dst) (finish_copy src) (rename-Returns at_copy dst)
      (finish_copy-Returns src) _

backed_up-Returns : (cross ok : Bool) → Returns (swap_backed_up cross ok)
unfolding attempt
backed_up-Returns cross false = λ f. tt
backed_up-Returns cross true =
    Returns-bind (promote_dir cross at_staging at_game) swap_promoted
      (promote_dir-Returns cross at_staging at_game) promoted-Returns

cleared-Returns : (cross ok : Bool) → Returns (swap_cleared cross ok)
unfolding attempt
cleared-Returns cross false = λ f. tt
cleared-Returns cross true =
    Returns-bind (rename at_game at_backup) (swap_backed_up cross)
      (rename-Returns at_game at_backup) (backed_up-Returns cross)

discard_backup-Returns : (b : Bool) → Returns (discard_backup b)
unfolding attempt
discard_backup-Returns true f = tt
discard_backup-Returns false f = tt

marked-Returns : (cross : Bool) → Returns (swap_marked cross true)
marked-Returns cross = λ f.
    Returns-bind (discard_backup (exists f.backup)) (swap_cleared cross)
      (discard_backup-Returns (exists f.backup)) (cleared-Returns cross) f

checked-Returns : (cross new game : Bool) → Returns (swap_checked cross new game)
unfolding attempt
checked-Returns cross false game = λ f. tt
checked-Returns cross true false = λ f. tt
checked-Returns cross true true = λ f. marked-Returns cross _

rooted-Returns : (c : Setup) → (folder staging : Bool) → Returns (swap_rooted c folder staging)
rooted-Returns c true staging = λ f. tt
rooted-Returns c false true = λ f. tt
rooted-Returns c false false =
    λ f. checked-Returns c.cross_device (exists f.staging) (exists f.game) f

swap-Returns : (c : Setup) → Returns (swap c)
swap-Returns c = rooted-Returns c c.folder_blank c.staging_blank

in_folder-Clean :
    {A : Type 0}
    → (r : Run Folder A) → (w : World) → Clean (λ _ _. Unit) r
    → Clean (λ _ v. v.pending ≡ w.pending) (in_folder r w)
in_folder-Clean (returned x f []) w e = refl
in_folder-Clean (returned x f (a ∷ fs)) w e = absurd e
in_folder-Clean (died f) w e = absurd e

-- The marker of the update stays.
pub swap_keeps_pending :
    (c : Setup)
    → (w : World) → Clean (λ _ v. v.pending ≡ w.pending) (in_folder (swap c w.folder []) w)
swap_keeps_pending c w = in_folder-Clean (swap c w.folder []) w (swap-Returns c w.folder)
