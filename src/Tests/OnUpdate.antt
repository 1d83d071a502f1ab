-- ===== src/Tests/OnUpdate.antt =====
-- Swaps that faults interrupt.
use kobra_game.Base.{◌≡◌, refl, true, false, none, some, [], ◌∷◌, List}
use kobra_game.Base.Faults.{Fault, after, attempt, dies_midway, fails, succeeds}
use kobra_game.Update.Disk.{full, torn}
use kobra_game.Update.Swap.{Setup, swap}
use kobra_game.Update.Recover.{recover}
use kobra_game.Update.Safety.{same_device, folder, recoveries, Settled}
use kobra_game.Update.Safety.Restarts.{swap_recovers}

abbrev power_loss : List Fault
power_loss = succeeds ∷ dies_midway ∷ []

swap_recovers_example : Settled 1 2 (
    after (
      recover same_device
        (recoveries same_device ((fails ∷ []) ∷ []) (
          after (
            swap same_device
              (folder (some (full 1)) (some (full 0)) (some (full 2)) none)
              power_loss)))
        []))
swap_recovers_example = swap_recovers 1 2 (some (full 0)) none power_loss ((fails ∷ []) ∷ [])

abbrev across_devices : Setup
across_devices = record { folder_blank = false; staging_blank = false; cross_device = true }

-- The power is lost while the staging copy of a promoted release is being removed, the staging root
-- being on another file system: the next `Recover` installs what is left of that copy.
torn_staging_promoted :
    let cut = after (
      swap across_devices
        (folder (some (full 1)) none (some (full 2)) none)
        (succeeds ∷ succeeds ∷ succeeds ∷ succeeds ∷ succeeds ∷ dies_midway ∷ [])) in
    (cut.game ≡ some (full 2)) × ((after (recover across_devices cut [])).game ≡ some (torn 2))
unfolding attempt
torn_staging_promoted = (refl, refl)
