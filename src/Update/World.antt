-- ===== src/Update/World.antt =====
-- What `Apply` of launcher/internal/update reads and writes: the folder's trees, the launcher and
-- the files of the sidecar's update directory, and what the calls it makes answer.
use kobra_game.Base.{ℕ, String, Bool, false, Option, none, some, List, [], ◌∷◌, if◌then◌else◌}
use kobra_game.Base.Int.{ℤ}
use kobra_game.Base.Faults.{Run, returned, died, Faulty, pure, ◌>>◌, attempt}
use kobra_game.Storage.Text.{Text, same_text}
use kobra_game.Update.Disk.{Tree, Folder, Disk}
use kobra_game.Update.Pending.{Manifest, Pending, UrlLibrary}
use kobra_game.Update.Progress.{
  Phase, Progress, ProgressWriter, Result, result_schema, phase_set, bytes_set, new_progress_writer,
}

pub record World : Type 0 where
  pub folder : Folder
  pub staged_launcher : Bool  -- launcher.new/, in the staging root
  pub config_release : Text  -- the release in launcher.config.json
  pub pending : Option Pending  -- what `ReadPending` finds
  pub progress : Option Progress
  pub result : Option Result
  pub cancel : Bool  -- the flag is there
  pub archive : Bool  -- download.part
  pub meta : Bool  -- download.meta.json
  pub started : Bool  -- started.json
  pub writer : ProgressWriter  -- in memory

pub data LockAnswer : Type 0 where
  lock_acquired lock_held lock_failed : LockAnswer

-- How `DownloadArchive` ends; the three in the middle are the errors no retry will fix.
pub data DownloadEnd : Type 0 where
  downloaded cancelled insecure_scheme archive_too_large no_archive_size broken_off : DownloadEnd

-- An error of `Verify` or `Extract`: one that says that the archive touched data/, or another.
pub data Violation : Type 0 where
  touches_data damaged : Violation

-- What the calls answer that are not modelled here.
pub record Answers : Type 0 where
  pub makes_dir : Bool  -- `EnsureUpdateDir`
  pub lock : LockAnswer  -- `acquireFileLock`
  pub staging_blank : Bool  -- `StagingRootFor` is blank
  pub cross_device : Bool
  pub net : UrlLibrary
  pub now : String  -- `nowRFC3339`
  pub manifest_release : Tree → Text  -- what game/release.manifest.json says, or nothing
  pub fetched : Option Manifest  -- `FetchManifest`; none is its error
  pub free_space : Option ℤ  -- `freeSpace`; none is not known
  pub download : DownloadEnd  -- `DownloadArchive`
  pub download_bytes : ℤ
  pub ticks : List (ℤ × ℤ)  -- the calls of its `Progress`
  pub leaves_archive : Bool
  pub leaves_meta : Bool
  pub cancels : Bool  -- another process writes the cancel flag during the download
  pub verified : Option Violation  -- `Verify`; none is no error
  pub data_before : Option (List (String × ℤ))  -- `snapshotDataDir`; none is its error
  pub data_after : Option (List (String × ℤ))
  pub refused : Option Violation  -- an entry `Extract` refuses
  pub tree : ℕ  -- the release whose tree the archive holds
  pub merges_config : Bool  -- `MergeConfigInto`
  pub launcher_release : Text  -- the release in the staged launcher's config

abbrev pub modify : (World → World) → Faulty World Unit
modify f w fs = returned tt (f w) fs

-- A record written beside the old one and renamed over it, or a file removed.
abbrev pub change : (World → World) → Faulty World Bool
change f = attempt f (λ w. w)

-- An operation whose answer is not looked at.
abbrev pub ignore : {A : Type 0} → Faulty World A → Faulty World Unit
ignore m = m >> pure tt

abbrev pub in_folder : {A : Type 0} → Run Folder A → World → Run World A
in_folder (returned a f fs) w = returned a (record w { folder = f }) fs
in_folder (died f) w = died (record w { folder = f })

-- An operation on the trees.
unfoldable pub on_folder : {A : Type 0} → Disk A → Faulty World A
on_folder d w fs = in_folder (d w.folder fs) w

abbrev pub clear_pending : Faulty World Unit
clear_pending = ignore (change (λ w. record w { pending = none }))

abbrev pub clear_cancel : Faulty World Unit
clear_cancel = ignore (change (λ w. record w { cancel = false }))

abbrev pub clear_started : Faulty World Unit
clear_started = ignore (change (λ w. record w { started = false }))

-- `removeIfPresent` of the archive and its record.
abbrev pub drop_archive : Faulty World Unit
drop_archive = ignore (change (λ w. record w { archive = false }))

abbrev pub drop_meta : Faulty World Unit
drop_meta = ignore (change (λ w. record w { meta = false }))

abbrev pub write_progress : Faulty World Unit
write_progress = ignore (change (λ w. record w { progress = some w.writer.p }))

abbrev pub start_progress : String → Pending → Faulty World Unit
start_progress now p = modify (λ w. record w { writer = new_progress_writer now p })

abbrev pub set_phase : String → Phase → String → Faulty World Unit
set_phase now phase message =
    modify (λ w. record w { writer = phase_set now phase message w.writer }) >> write_progress

abbrev pub ticked : Option ProgressWriter → Faulty World Unit
ticked none = pure tt
ticked (some writer) = modify (λ w. record w { writer = writer }) >> write_progress

abbrev pub set_bytes : String → ℤ → ℤ → Faulty World Unit
set_bytes now n total w = ticked (bytes_set now n total w.writer) w

abbrev pub set_all_bytes : String → List (ℤ × ℤ) → Faulty World Unit
set_all_bytes now [] = pure tt
set_all_bytes now ((n, total) ∷ ticks) = set_bytes now n total >> set_all_bytes now ticks

-- `WriteResult`
abbrev pub write_result : String → Result → Faulty World Unit
write_result now r =
    ignore
      (change (λ w. record w { result = some (record r { schema = result_schema; at = now }) }))

abbrev release_of : Answers → Option Tree → Text
release_of a none = []
release_of a (some t) = a.manifest_release t

-- `InstalledReleaseIn`
unfoldable pub installed_release_in : Answers → World → Text
installed_release_in a w =
    let r = release_of a w.folder.game in if same_text r [] then w.config_release else r
