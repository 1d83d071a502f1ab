-- ===== src/Update/Retention.antt =====
-- The rollback copy of launcher/internal/update/retention.go: game.old/ is kept until the new
-- release has started successfully twice.
use kobra_game.Base.{
  ◌≡◌, ◌≢◌, ◌∙◌, refl, String, Bool, true, false, not, Option, none, some, ◌&&◌, ◌||◌,
  if◌then◌else◌, str_eq, eq_iff, arith,
}
use kobra_game.Base.Int.{ℤ, pos, ◌+ℤ◌, ltb_ℤ, ◌≤ℤ◌, negsuc, wrap64}

-- The record in the sidecar's update directory.
pub record Started : Type 0 where
  pub release : String
  pub count : ℤ

pub record Kept : Type 0 where
  pub game : Bool  -- game/ exists
  pub backup : Bool  -- game.old/ exists
  pub started : Option Started  -- what `ReadStarted` finds

-- Which of the operations on the disk succeed.
pub record Luck : Type 0 where
  pub makes_dir : Bool
  pub writes_record : Bool
  pub removes_backup : Bool
  pub removes_record : Bool

abbrev pub started_retire_count : ℤ
started_retire_count = pos 2

unfoldable pub has_retained_backup : Kept → Bool
has_retained_backup k = k.backup && k.game

-- The count with this start.
unfoldable pub next_count : String → Option Started → ℤ
next_count installed none = pos 1
next_count installed (some prev) =
    if str_eq prev.release installed && ltb_ℤ (pos 0) prev.count
    then wrap64 (prev.count +ℤ pos 1)
    else pos 1

unfoldable pub retire : Luck → Kept → Kept
retire luck k =
    if not luck.removes_backup
    then k
    else record k { backup = false; started = if luck.removes_record then none else k.started }

unfoldable pub count_start : Luck → String → ℤ → Kept → Kept
unfolding retire
count_start luck installed count k =
    if not luck.writes_record
    then k
    else let noted : Kept = record k {
      started = some (record { release = installed; count = count });
    } in
      if ltb_ℤ count started_retire_count then noted else retire luck noted

-- `NoteSuccessfulStart`; the first two arguments say that the folders' names are not empty.
unfoldable pub note_successful_start : Bool → Bool → Luck → String → Kept → Kept
unfolding has_retained_backup next_count count_start
note_successful_start folder sidecar luck installed k =
    if not folder || not sidecar || str_eq installed ""
    then k
    else if not luck.makes_dir
    then k
    else if not (has_retained_backup k)
    then k
    else count_start luck installed (next_count installed k.started) k

abbrev pub lucky : Luck
lucky = record {
  makes_dir = true;
  writes_record = true;
  removes_backup = true;
  removes_record = true;
}

-- The record counts a start of this release, and one more start is still an int.
unfoldable pub started_before : String → Option Started → Bool
started_before installed none = false
started_before installed (some s) =
    str_eq s.release installed
    && ltb_ℤ (pos 0) s.count
    && ltb_ℤ s.count (pos 9_223_372_036_854_775_807)

-- The record's count is a Go int.
abbrev pub IsInt : Option Started → Type 0
IsInt none = Unit
IsInt (some s) = s.count ≤ℤ pos 9_223_372_036_854_775_807

next_retires :
    (b : Bool)
    → (c : ℤ) → c ≤ℤ pos 9_223_372_036_854_775_807
    → ltb_ℤ (if b && ltb_ℤ (pos 0) c then wrap64 (c +ℤ pos 1) else pos 1) (pos 2)
      ≡ not (b && ltb_ℤ (pos 0) c && ltb_ℤ c (pos 9_223_372_036_854_775_807))
unfolding wrap64 ◌+ℤ◌
next_retires false c h = refl
next_retires true (negsuc n) h = ground arith
next_retires true (pos n) h = ground arith

next_count-retires :
    (installed : String)
    → (o : Option Started) → IsInt o
    → ltb_ℤ (next_count installed o) (pos 2) ≡ not (started_before installed o)
unfolding next_count started_before
next_count-retires installed none h = refl
next_count-retires installed (some s) h = next_retires (str_eq s.release installed) s.count h

count_start-backup :
    (luck : Luck)
    → (installed : String) → (c : ℤ) → (k : Kept)
    → (count_start luck installed c k).backup
      ≡ (k.backup && not (luck.writes_record && luck.removes_backup && not (ltb_ℤ c (pos 2))))
unfolding count_start
count_start-backup luck installed c k = ground arith

noted-backup :
    (folder sidecar : Bool)
    → (luck : Luck) → (installed : String) → (k : Kept) → (b : Bool)
    → ltb_ℤ (next_count installed k.started) (pos 2) ≡ not b
    → (note_successful_start folder sidecar luck installed k).backup ≡ (
        k.backup
        && not (
            folder
            && sidecar
            && not (str_eq installed "")
            && k.game
            && luck.makes_dir
            && luck.writes_record
            && luck.removes_backup
            && b))
unfolding note_successful_start
noted-backup folder sidecar luck installed k b h =
    ground (arith, h, count_start-backup luck installed (next_count installed k.started) k)

-- game.old/ is there after a start exactly if it was there before, and it is not the case that the
-- record counts an earlier start of the installed release, game/ is there, the names are not empty,
-- and the directory, the record and the removal succeed. The record's count is a Go int.
pub retired_exactly :
    (folder sidecar : Bool)
    → (luck : Luck) → (installed : String) → (k : Kept) → IsInt k.started
    → (note_successful_start folder sidecar luck installed k).backup ≡ (
        k.backup
        && not (
            folder
            && sidecar
            && not (str_eq installed "")
            && k.game
            && luck.makes_dir
            && luck.writes_record
            && luck.removes_backup
            && started_before installed k.started))
retired_exactly folder sidecar luck installed k h =
    noted-backup folder sidecar luck installed k (started_before installed k.started)
      (next_count-retires installed k.started h)

-- The record is of this release.
unfoldable pub counts_release : String → Option Started → Bool
counts_release installed none = false
counts_release installed (some s) = str_eq s.release installed

first_count :
    (installed : String)
    → (o : Option Started) → counts_release installed o ≡ false
    → next_count installed o ≡ pos 1
unfolding counts_release next_count
first_count installed none h = refl
first_count installed (some s) h = rw h refl

start :
    (installed : String)
    → (o : Option Started) → installed ≢ ""
    → note_successful_start true true lucky installed
        (record { game = true; backup = true; started = o })
      ≡ count_start lucky installed
          (next_count installed o)
          (record { game = true; backup = true; started = o })
unfolding note_successful_start
start installed o named = ground (arith, eq_iff installed "")

once_counted :
    (installed : String)
    → (o : Option Started)
    → count_start lucky installed (pos 1) (record { game = true; backup = true; started = o })
      ≡ record {
        game = true;
        backup = true;
        started = some (record { release = installed; count = pos 1 });
      }
unfolding count_start
once_counted installed o = refl

twice_counted :
    (installed : String)
    → (o : Option Started)
    → count_start lucky installed (pos 2) (record { game = true; backup = true; started = o })
      ≡ record { game = true; backup = false; started = none }
unfolding count_start
twice_counted installed o = refl

second_count :
    (installed : String)
    → next_count installed (some (record { release = installed; count = pos 1 })) ≡ pos 2
unfolding next_count wrap64 ◌+ℤ◌
second_count installed = ground (arith, eq_iff installed installed)

-- Of two starts of a newly installed release in which every operation on the disk succeeds, the
-- first keeps game.old/ and records one start; the second removes game.old/ and the record. The
-- release has a name, and what the record says before is of another release.
pub second_start_retires :
    (installed : String)
    → (o : Option Started) → installed ≢ ""
    → counts_release installed o ≡ false
    → let k : Kept = record { game = true; backup = true; started = o } in
      let once = note_successful_start true true lucky installed k in
      (once ≡ record {
        game = true;
        backup = true;
        started = some (record { release = installed; count = pos 1 });
      })
      × (note_successful_start true true lucky installed once
          ≡ record { game = true; backup = false; started = none })
second_start_retires installed o named other =
    let first =
      start installed o named ∙ (rw (first_count installed o other) (once_counted installed o)) in
    (
      first,
      rw first
          (start installed _ named ∙ (rw (second_count installed) (twice_counted installed _))),
    )
