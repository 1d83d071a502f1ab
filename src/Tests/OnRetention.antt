-- ===== src/Tests/OnRetention.antt =====
-- Starts after an update.
use kobra_game.Base.{◌≡◌, ◌≢◌, refl, true, false, some, Option, eq_iff, arith, String}
use kobra_game.Base.Int.{pos}
use kobra_game.Update.Retention.{Kept, Started, IsInt, counts_release}

abbrev old_record : Option Started
old_record = some (record { release = "1.0"; count = pos 4 })

abbrev updated : Kept
updated = record { game = true; backup = true; started = old_record }

other_release : counts_release "1.1" old_record ≡ false
unfolding counts_release
other_release = refl

abbrev release : String
release = "1.1"

has_name : release ≢ ""
has_name = ground (arith, eq_iff "1.1" "")

small : IsInt old_record
small = omega arith
