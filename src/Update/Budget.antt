-- ===== src/Update/Budget.antt =====
-- What becomes of the pending marker of launcher/internal/update when no fault interrupts `Apply`
-- (apply.go), and the starts of the launcher that follow one another.
pub mod Swapped
pub mod Closing
pub mod Requested
pub mod Launches
use kobra_game.Base.{Bool, true, false, not, Option, none, some, ◌≡◌, ◌&&◌, List, [], ◌∷◌}
use kobra_game.Base.Int.{ℤ, pos, leb_ℤ, ltb_ℤ, wrap64, ◌+ℤ◌}
use kobra_game.Base.Faults.{after}
use kobra_game.Storage.Text.{Text}
use kobra_game.Update.Pending.{
  Manifest, Pending, retry_budget, declared_archive_size, required_bytes,
}
use kobra_game.Update.World.{World, Answers, LockAnswer, lock_acquired, lock_held, lock_failed}
use kobra_game.Update.Reports.{ApplyResult}
use kobra_game.Update.Apply.{apply}

-- The disk preflight passes.
abbrev pub room_for : Manifest → Option ℤ → Bool
room_for m none = true
room_for m (some free) =
    not (ltb_ℤ free (required_bytes (declared_archive_size (some m)) m.total_size))

abbrev pub room_if : Option Manifest → Option ℤ → Bool
room_if none free = true
room_if (some m) free = room_for m free

abbrev pub has_room : Answers → Bool
has_room a = room_if a.fetched a.free_space

abbrev pub is_acquired : LockAnswer → Bool
is_acquired lock_acquired = true
is_acquired lock_held = false
is_acquired lock_failed = false

-- The apply gets to the marker.
abbrev pub gets_in : Answers → Bool
gets_in a = a.makes_dir && is_acquired a.lock

-- The marker after an installation that `p` requested: it is gone and the result is final, or one
-- more attempt is counted and some are left, or the free space did not suffice.
pub data Marker (a : Answers) (p : Pending) (r : ApplyResult) : Option Pending → Type 0 where
  cleared : r.retryable ≡ false → Marker a p r none
  counted :
      r.retryable ≡ true
      → leb_ℤ retry_budget (wrap64 (p.retry_count +ℤ pos 1)) ≡ false
      → Marker a p r (
          some (record p {
            retry_count = wrap64 (p.retry_count +ℤ pos 1);
            last_attempt = a.now;
            last_reason = r.reason;
          }))
  waiting : r.retryable ≡ true → has_room a ≡ false → Marker a p r (some p)

-- Starts of the launcher, each with what its calls answer, that no fault interrupts.
unfoldable pub launches : Text → List Answers → World → World
launches launcher [] w = w
launches launcher (a ∷ later) w =
    launches launcher later (after (apply a launcher false false w []))

-- At each of them the apply gets to the marker and finds the space it needs.
unfoldable pub all_ready : List Answers → Bool
all_ready [] = true
all_ready (a ∷ later) = gets_in a && has_room a && all_ready later
