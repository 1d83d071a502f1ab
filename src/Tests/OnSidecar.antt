-- ===== src/Tests/OnSidecar.antt =====
-- Two launchers that start one after another.
use kobra_game.Base.{◌≡◌, refl, true, false, some, none, [], if◌then◌else◌}
use kobra_game.Base.Int.{pos, ◌-ℤ◌}
use kobra_game.Base.Faults.{returned, attempt}
use kobra_game.Sidecar.Lock
use kobra_game.Sidecar.Lock.Starting.{Serves, retaken, retaken_dir, serving_lock_decided}

abbrev identity : Lock.LockInfo
identity = record {
  schema = "kobra.instance-lock/1";
  pid = pos 41;
  start_time = "noon";
  launcher_version = "1.0";
  game_id = "game";
  port = 0;
  instance_id = "";
}

abbrev machine : Lock.Machine
machine = record {
  boot_time = some (pos 0);
  lock_mtime = some (pos 5);
  pid_exists = λ pid. true;
  process_start = λ pid. some (pos 3);
  parse_time = λ s. some (pos 4);
  fetch_health =
      λ port. some (record { app = "kobra-launcher"; game_id = "game"; instance_id = "first" });
}

abbrev empty_dir : Lock.Dir
empty_dir = record { entry = none; next = 0 }

abbrev first : Lock.Lock
first = record { inode = 0; info = identity; reclaim = false; released = false }

abbrev locked : Lock.Dir
locked = record { entry = some (record { inode = 0; content = Lock.document identity }); next = 1 }

first_acquires :
    Lock.acquire_lock machine identity empty_dir [] ≡ returned (Lock.acquired first) locked []
unfolding attempt
first_acquires = refl

serves : Serves machine (Lock.completed 8771 "first" identity)
unfolding ◌-ℤ◌
serves = record { has_pid = refl; since_boot = refl; runs = refl; has_port = refl; answers = refl }

serving_lock_decided_example :
    Lock.acquire_lock machine identity (Lock.set_port 8771 "first" first locked).1 [] ≡ (
      if Lock.reused (some (pos 3)) (some (pos 4))
      then returned
          (Lock.acquired (retaken identity (Lock.set_port 8771 "first" first locked).1))
          (retaken_dir identity (Lock.set_port 8771 "first" first locked).1)
          []
      else returned
          (Lock.held (Lock.completed 8771 "first" identity) false)
          (Lock.set_port 8771 "first" first locked).1
          [])
serving_lock_decided_example =
    serving_lock_decided machine machine identity identity 8771 "first" first empty_dir locked [] []
      first_acquires serves
