-- ===== src/Tests/OnApply.antt =====
-- Updates that are requested, installed, refused and cut short.
use kobra_game.Base.{◌⊎◌, arith, ◌≡◌, refl, true, false, none, some, List, [], ◌∷◌, lookup, Dict}
use kobra_game.Base.Int.{ℤ, pos, ◌+ℤ◌, wrap64}
use kobra_game.Base.Faults.{Fault, after, attempt, succeeds, fails, dies, dies_midway}
use kobra_game.Base.Faults.Triple.{Ends}
use kobra_game.Base.Faults.Clean.{Clean}
use kobra_game.Storage.Text.{Text, same_text}
use kobra_game.Update.Version.{
  valid_release, split_dots, digits_onto, parse_parts, release_newer, parse_version, compare_parts,
  launcher_min_refusal,
}
use kobra_game.Update.Disk.{full, torn, begin}
use kobra_game.Update.Recover.{recover}
use kobra_game.Update.Pending.{
  UrlLibrary, Manifest, Pending, reconcile_pending, required_bytes, valid, reconcile_fields,
  resolve_archive_url, at_least_zero, headroom,
}
use kobra_game.Update.Progress.{
  initial_progress, new_progress_writer, percent_of, hundredfold_over, bytes_set,
}
use kobra_game.Update.Reports.{data_unchanged, all_known}
use kobra_game.Update.Reports.Unchanged.{data_unchanged_sound}
use kobra_game.Update.World.{
  World, Answers, lock_acquired, downloaded, on_folder, installed_release_in,
}
use kobra_game.Update.Apply.{apply}
use kobra_game.Update.Startup.{startup}
use kobra_game.Update.Safety.{same_device, folder, Settled, recoveries}
use kobra_game.Update.Safety.Applying.{ready}
use kobra_game.Update.Safety.Starting.{startup_recovers}
use kobra_game.Update.Budget.{Marker, launches, all_ready}
use kobra_game.Update.Budget.Requested.{apply-Closes}
use kobra_game.Update.Budget.Launches.{launches_settle}
use kobra_game.Server.Updates.{cancel_update_intent}
use kobra_game.Server.Cancelling.{cancelled_stays_out}
use kobra_game.Update.Intent.{Request, Latest, write_pending, marker_for}
use kobra_game.Update.Intent.Recorded.{Paired, Recorded, write_pending-Paired}

abbrev plain_urls : UrlLibrary
plain_urls = record { parse = λ s. some s; resolve_reference = λ base ref. ref }

-- 2026.01.1 and 2026.02.1
abbrev first_release : Text
first_release = 50 ∷ 48 ∷ 50 ∷ 54 ∷ 46 ∷ 48 ∷ 49 ∷ 46 ∷ 49 ∷ []

abbrev second_release : Text
second_release = 50 ∷ 48 ∷ 50 ∷ 54 ∷ 46 ∷ 48 ∷ 50 ∷ 46 ∷ 49 ∷ []

abbrev published : Manifest
published = record {
  release = second_release;
  launcher_min = [];
  total_size = pos 1000;
  archive_sha256 = "sha256:aa";
  archive = some (record {
    name = "kobra-2.tar.gz";
    url = "https://a/kobra-2.tar.gz";
    size = pos 500;
    hash = "";
  });
}

abbrev newest : Latest
newest = record { release = second_release; manifest_url = "https://a/m.json"; notes_url = "" }

abbrev asked : Request
asked = record { makes_dir = true; now = "t0"; latest = some newest; manifest = some published }

abbrev wanted : Pending
wanted = marker_for asked first_release first_release newest published

abbrev good_answers : Answers
good_answers = record {
  makes_dir = true;
  lock = lock_acquired;
  staging_blank = false;
  cross_device = false;
  net = plain_urls;
  now = "t1";
  manifest_release = λ t. [];
  fetched = some published;
  free_space = some (pos 1000000000);
  download = downloaded;
  download_bytes = pos 500;
  ticks = (pos 250, pos 500) ∷ (pos 500, pos 500) ∷ [];
  leaves_archive = true;
  leaves_meta = false;
  cancels = false;
  verified = none;
  data_before = some (("save", pos 7) ∷ []);
  data_after = some (("save", pos 7) ∷ []);
  refused = none;
  tree = 2;
  merges_config = true;
  launcher_release = second_release;
}

abbrev offline : Answers
offline = record good_answers { fetched = none }

abbrev requested : World
requested = record {
  folder = folder (some (full 1)) none none none;
  staged_launcher = false;
  config_release = first_release;
  pending = some wanted;
  progress = some (initial_progress "t0" wanted);
  result = none;
  cancel = false;
  archive = false;
  meta = false;
  started = false;
  writer = new_progress_writer "t0" wanted;
}

-- The whole of an update.
applied_folder :
    (after (startup good_answers first_release false false requested [])).folder
    ≡ folder (some (full 2)) (some (full 1)) none none
unfolding attempt on_folder valid valid_release split_dots digits_onto parse_parts release_newer
    parse_version compare_parts same_text reconcile_pending reconcile_fields resolve_archive_url
    required_bytes at_least_zero headroom ◌+ℤ◌ wrap64 installed_release_in launcher_min_refusal
    bytes_set percent_of hundredfold_over data_unchanged all_known lookup
applied_folder = refl

applied_pending :
    (after (startup good_answers first_release false false requested [])).pending ≡ none
unfolding attempt on_folder valid valid_release split_dots digits_onto parse_parts release_newer
    parse_version compare_parts same_text reconcile_pending reconcile_fields resolve_archive_url
    required_bytes at_least_zero headroom ◌+ℤ◌ wrap64 installed_release_in launcher_min_refusal
    bytes_set percent_of hundredfold_over data_unchanged all_known lookup
applied_pending = refl

-- `Startup` installs even where `Recover` has failed: with the game still in game.old/ a power loss
-- during the extraction leaves a part of the release in game.new/, which the next start promotes.
abbrev interrupted : World
interrupted = record requested { folder = folder none (some (full 1)) (some (full 2)) (some begin) }

abbrev unlucky : List Fault
unlucky =
    fails ∷ succeeds ∷ succeeds ∷ succeeds ∷ succeeds ∷ succeeds ∷ succeeds ∷ succeeds ∷ succeeds
    ∷ dies_midway ∷ []

unrecovered_apply_tears :
    (after (
      recover same_device
        (after (startup good_answers first_release false false interrupted unlucky)).folder
        [])).game
    ≡ some (torn 2)
unfolding attempt on_folder valid valid_release split_dots digits_onto parse_parts release_newer
    parse_version compare_parts same_text reconcile_pending reconcile_fields resolve_archive_url
    required_bytes at_least_zero headroom ◌+ℤ◌ wrap64 installed_release_in launcher_min_refusal
    bytes_set percent_of hundredfold_over data_unchanged all_known lookup
unrecovered_apply_tears = refl

startup_recovers_example : Settled 1 2 (
    after (
      recover same_device
        (recoveries same_device
          ((fails ∷ []) ∷ [])
          (after (startup good_answers first_release false false requested unlucky)).folder)
        []))
startup_recovers_example =
    startup_recovers 1 good_answers first_release false false refl refl requested (ready none none)
      unlucky ((fails ∷ []) ∷ [])

apply-Closes_example :
    Clean
      (λ r v. Marker offline wanted r v.pending)
      (apply offline first_release false false requested [])
apply-Closes_example = apply-Closes offline first_release wanted refl requested refl

launches_settle_example :
    (launches first_release (offline ∷ offline ∷ offline ∷ []) requested).pending ≡ none
unfolding all_ready
launches_settle_example =
    launches_settle first_release (offline ∷ offline ∷ offline ∷ []) 0 requested wanted refl refl
      (omega arith) (omega arith) (omega arith) refl

abbrev data_then : Dict ℤ
data_then = ("save", pos 7) ∷ ("mods", pos 9) ∷ []

abbrev data_now : Dict ℤ
data_now = ("mods", pos 9) ∷ ("save", pos 7) ∷ []

data_unchanged_sound_example : lookup "save" data_now ≡ lookup "save" data_then
unfolding data_unchanged all_known lookup
data_unchanged_sound_example =
    data_unchanged_sound data_then data_now (refl, (refl, tt)) (refl, (refl, tt)) refl "save"

write_pending-Paired_example : Ends (Paired none "t0" wanted) (Recorded none "t0" wanted) (
    write_pending true "t0" wanted
      (record requested { pending = none })
      (succeeds ∷ fails ∷ dies ∷ []))
write_pending-Paired_example =
    write_pending-Paired true "t0" wanted (record requested { pending = none })
      (succeeds ∷ fails ∷ dies ∷ [])

cancelled_stays_out_example :
    Ends
      (λ v. v.folder ≡ requested.folder)
      (λ ok v.
        (ok ≡ false)
        ⊎ ((after (apply good_answers first_release false false v (succeeds ∷ dies ∷ []))).folder
            ≡ requested.folder))
      (cancel_update_intent true requested (fails ∷ fails ∷ []))
cancelled_stays_out_example =
    cancelled_stays_out true requested (fails ∷ fails ∷ []) good_answers first_release false false
      (succeeds ∷ dies ∷ [])
