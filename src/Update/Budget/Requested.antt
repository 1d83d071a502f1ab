-- ===== src/Update/Budget/Requested.antt =====
-- Every end of `Apply` of launcher/internal/update/apply.go for the pending marker, from the start.
use kobra_game.Base.{
  ◌≡◌, refl, String, Bool, true, false, not, Option, none, some, List, [], ◌∷◌, ◌&&◌, if◌then◌else◌,
  str_eq, sym, arith,
}
use mathlib.Core.Path.{subst}
use kobra_game.Base.Int.{ℤ, pos, leb_ℤ, ltb_ℤ}
use kobra_game.Base.Faults.{Faulty, pure, ◌>>=◌, ◌>>◌, attempt}
use kobra_game.Base.Faults.Clean.{Clean-bind}
use kobra_game.Storage.Text.{Text, same_text}
use kobra_game.Update.Version.{release_newer, Floor, met, unreadable, too_old, launcher_min_refusal}
use kobra_game.Update.Pending.{
  Manifest, Pending, valid, retry_budget, declared_archive_size, resolve_archive_url,
  reconcile_pending, required_bytes,
}
use kobra_game.Update.Progress.{ProgressWriter, bytes_set}
use kobra_game.Update.World.{
  World, Answers, LockAnswer, lock_acquired, lock_held, lock_failed, DownloadEnd, downloaded,
  cancelled, insecure_scheme, archive_too_large, no_archive_size, broken_off, installed_release_in,
  modify, ticked, set_bytes, set_all_bytes,
}
use kobra_game.Update.Reports.{ApplyResult, empty_result, apply_failed}
use kobra_game.Update.Apply.{
  leave_download, download_ended, download_archive, fetch_archive, sized, no_space, with_space,
  guarded, reconciled, fetched, begin_apply, already_current, against_installed, exhausted,
  in_budget, cancelled_before, unless_flagged, clear_and_fail, apply_marker, marked, locked, apply,
  cannot_download, download_failed, insufficient_space,
}
use kobra_game.Update.Budget.{Marker, cleared, waiting, has_room, gets_in, is_acquired}
use kobra_game.Update.Budget.Closing.{
  Closes, Waits, Waits-then, terminal-Closes, retryable-Closes, install-Closes,
}

module _ (a : Answers) (launcher : Text) (p : Pending) where
  if_Closes :
      (m k : Faulty World ApplyResult)
      → (b : Bool) → (b ≡ true → Closes a p m)
      → (b ≡ false → Closes a p k)
      → Closes a p (if b then m else k)
  if_Closes m k true h g = h refl
  if_Closes m k false h g = g refl

  ticked-Waits : (o : Option ProgressWriter) → Waits a p (ticked o)
  unfolding attempt
  ticked-Waits none = λ w h. h
  ticked-Waits (some writer) = λ w h. h

  ticks-Waits : (ticks : List (ℤ × ℤ)) → Waits a p (set_all_bytes a.now ticks)
  ticks-Waits [] = λ w h. h
  ticks-Waits ((n, total) ∷ ticks) = λ w h.
      Clean-bind (λ _ v. v.pending ≡ some p) (λ _ v. v.pending ≡ some p)
        (λ _. set_all_bytes a.now ticks) (set_bytes a.now n total w [])
        (ticked-Waits (bytes_set a.now n total w.writer) w h) (λ _ v e. ticks-Waits ticks v e)

  Waits-bind :
      {A B : Type 0}
      → (m : Faulty World A) → (k : A → Faulty World B) → Waits a p m
      → ((x : A) → Waits a p (k x))
      → Waits a p (m >>= k)
  Waits-bind m k first next w h =
      Clean-bind (λ _ v. v.pending ≡ some p) (λ _ v. v.pending ≡ some p) k (m w []) (first w h)
        (λ x v e. next x v e)

  download-Waits : Waits a p (download_archive a launcher p)
  download-Waits =
      Waits-bind (set_all_bytes a.now a.ticks >> modify (leave_download a launcher p))
        (λ _. pure a.download)
        (Waits-bind (set_all_bytes a.now a.ticks) (λ _. modify (leave_download a launcher p))
          (ticks-Waits a.ticks) (λ _ w h. h))
        (λ _ w h. h)

  abbrev short : ApplyResult → ApplyResult
  short res = record res {
    outcome = apply_failed;
    reason = "insufficient_space";
    message = insufficient_space;
    retryable = true;
  }

  module _ (res : ApplyResult) (fresh : res.retryable ≡ false) where
    ended-Closes : (d : DownloadEnd) → Closes a p (download_ended a launcher p res d)
    unfolding attempt
    ended-Closes downloaded = install-Closes a p res fresh
    ended-Closes cancelled = λ w h. cleared fresh
    ended-Closes insecure_scheme = λ w h. cleared fresh
    ended-Closes archive_too_large = λ w h. cleared fresh
    ended-Closes no_archive_size = λ w h. cleared fresh
    ended-Closes broken_off = retryable-Closes a p res fresh "download_failed" download_failed

  module _ (res : ApplyResult) (fresh : res.retryable ≡ false) where
    fetch-Closes : Closes a p (fetch_archive a launcher p res)
    unfolding attempt
    fetch-Closes w h =
        Waits-then a p (download_archive a launcher p)
          (download_ended a launcher p (record res { bytes_written = a.download_bytes }))
          download-Waits (ended-Closes (record res { bytes_written = a.download_bytes }) fresh) _ h

    sized-Closes : (size : ℤ) → (url : String) → Closes a p (sized a launcher p res size url)
    sized-Closes size url =
        if_Closes _ _ (leb_ℤ size (pos 0))
          (λ _. terminal-Closes a p res fresh "no_archive_size" cannot_download)
          (λ _.
            if_Closes _ _ (str_eq url "")
              (λ _. terminal-Closes a p res fresh "no_archive_url" cannot_download)
              (λ _. fetch-Closes))

    no_space-Closes :
        (required free : ℤ)
        → has_room a ≡ false
        → Closes a p (no_space a launcher p res required free)
    unfolding attempt
    no_space-Closes required free e w h =
        subst (λ o. Marker a p (short res) o) (sym h) (waiting refl e)

    with_space-Closes :
        (m : Manifest)
        → a.fetched ≡ some m
        → (free : Option ℤ) → a.free_space ≡ free
        → Closes a p (
            with_space a launcher p res m
              (required_bytes (declared_archive_size (some m)) m.total_size)
              free)
    with_space-Closes m e none e' =
        sized-Closes (declared_archive_size (some m)) (resolve_archive_url a.net p (some m))
    with_space-Closes m e (some free) e' =
        if_Closes _ _ (ltb_ℤ free (required_bytes (declared_archive_size (some m)) m.total_size))
          (λ full. no_space-Closes _ free (rw e (rw e' (rw full refl))))
          (λ _.
            sized-Closes (declared_archive_size (some m)) (resolve_archive_url a.net p (some m)))

    guarded-Closes :
        (m : Manifest)
        → a.fetched ≡ some m
        → (f : Floor) → Closes a p (guarded a launcher p res m f)
    guarded-Closes m e met = with_space-Closes m e a.free_space refl
    guarded-Closes m e unreadable = terminal-Closes a p res fresh _ _
    guarded-Closes m e too_old = terminal-Closes a p res fresh _ _

    reconciled-Closes :
        (m : Manifest)
        → a.fetched ≡ some m
        → (field : Option String) → Closes a p (reconciled a launcher p res m field)
    reconciled-Closes m e none =
        guarded-Closes m e (launcher_min_refusal (some m.launcher_min) launcher)
    reconciled-Closes m e (some field) = terminal-Closes a p res fresh _ _

    fetched-Closes : (m : Option Manifest) → a.fetched ≡ m → Closes a p (fetched a launcher p res m)
    fetched-Closes none e = retryable-Closes a p res fresh "manifest_unreachable" download_failed
    fetched-Closes (some m) e = reconciled-Closes m e (reconcile_pending a.net p (some m))

    begin-Closes : Closes a p (begin_apply a launcher p res)
    unfolding attempt
    begin-Closes w h = fetched-Closes a.fetched refl _ h

    current-Closes : Closes a p (already_current a launcher p res)
    unfolding attempt
    current-Closes w h = cleared fresh

    exhausted-Closes : Closes a p (exhausted a launcher p res)
    unfolding attempt
    exhausted-Closes w h = cleared fresh

    flagged-Closes : Closes a p (cancelled_before a launcher p res)
    unfolding attempt
    flagged-Closes w h = cleared fresh

    fail-Closes :
        (reason message : String) → Closes a p (clear_and_fail a launcher p res reason message)
    unfolding attempt
    fail-Closes reason message w h = cleared fresh

  module _ (res : ApplyResult) (fresh : res.retryable ≡ false) where
    against-Closes : (installed : Text) → Closes a p (against_installed a launcher p res installed)
    against-Closes installed =
        if_Closes _ _ (not (same_text installed []) && same_text installed p.target_release)
          (λ _. current-Closes (record res { installed_release = installed }) fresh)
          (λ _. begin-Closes (record res { installed_release = installed }) fresh)

    budget-Closes : Closes a p (in_budget a launcher p res)
    budget-Closes =
        if_Closes _ _ (leb_ℤ retry_budget p.retry_count) (λ _. exhausted-Closes res fresh)
          (λ _ w. against-Closes (installed_release_in a w) w)

    unless_flagged-Closes : (c : Bool) → Closes a p (unless_flagged a launcher p res c)
    unless_flagged-Closes true = flagged-Closes res fresh
    unless_flagged-Closes false = budget-Closes

    marker-Closes : Closes a p (apply_marker a launcher p res)
    marker-Closes =
        if_Closes _ _ (not (valid p)) (λ _. fail-Closes res fresh _ _)
          (λ _.
            if_Closes _ _
              (not (same_text p.from_release [])
                && not (release_newer p.target_release p.from_release))
              (λ _. fail-Closes res fresh _ _) (λ _ w. unless_flagged-Closes w.cancel w))

  -- The marker that the world holds.
  marked-Closes : (o : Option Pending) → o ≡ some p → Closes a p (marked a launcher o)
  marked-Closes o e =
      subst (λ q. Closes a p (marked a launcher q)) (sym e)
        (marker-Closes
          (record empty_result { from_release = p.from_release; target_release = p.target_release })
          refl)

  locked-Closes : (l : LockAnswer) → is_acquired l ≡ true → Closes a p (locked a launcher l)
  locked-Closes lock_acquired e = λ w h. marked-Closes w.pending h w h
  locked-Closes lock_held e = ground arith
  locked-Closes lock_failed e = ground arith

  made :
      (d : Bool)
      → (l : LockAnswer) → (d && is_acquired l) ≡ true
      → (d ≡ true) × (is_acquired l ≡ true)
  made true l e = (refl, e)
  made false l e = ground arith

  -- Of an installation that gets to its marker and that no fault cuts short, whatever its calls
  -- answer: either no marker is left and the result is not retryable; or the result is retryable,
  -- the marker counts one attempt more with the reason and the time, and that was not the last one;
  -- or the result is retryable, the marker is as it was and the free space did not suffice.
  pub apply-Closes : gets_in a ≡ true → Closes a p (apply a launcher false false)
  apply-Closes e =
      let parts = made a.makes_dir a.lock e in
      if_Closes _ _ (not a.makes_dir) (λ d. absurd (ground arith))
        (λ d. locked-Closes a.lock (parts.1))
