-- ===== src/Update/Progress.antt =====
-- The progress and result records of launcher/internal/update/progress.go, in memory.
pub mod Percent
use kobra_game.Base.{
  ℕ, zero, suc, ◌+◌, ◌%◌, String, Bool, true, false, not, Option, none, some, ◌&&◌, if◌then◌else◌,
  str_eq, ◌*◌, ◌/◌,
}
use kobra_game.Base.Int.{ℤ, pos, negsuc, ltb_ℤ, leb_ℤ, wrap64, pos_part}
use kobra_game.Storage.Text.{Text}
use kobra_game.Update.Pending.{Pending, differ_ℤ}

pub data Phase : Type 0 where
  phase_idle phase_download phase_verify phase_extract phase_swap : Phase
  phase_complete phase_failed phase_cancelled : Phase

pub record Progress : Type 0 where
  pub schema : String
  pub seq : ℕ  -- uint64
  pub phase : Phase
  pub from_release : Text
  pub target_release : Text
  pub bytes : ℤ
  pub total_bytes : ℤ
  pub percent : ℤ
  pub cancellable : Bool
  pub message : String
  pub updated : String

pub data ResultOutcome : Type 0 where
  outcome_complete outcome_failed outcome_cancelled outcome_skipped : ResultOutcome

pub record Result : Type 0 where
  pub schema : String
  pub outcome : ResultOutcome
  pub target_release : Text
  pub installed_release : Text
  pub message : String
  pub reason : String
  pub bytes_written : ℤ
  pub required_bytes : ℤ
  pub available_bytes : ℤ
  pub retained_backup : Bool
  pub at : String

-- `progressWriter` without its path.
pub record ProgressWriter : Type 0 where
  pub p : Progress
  pub last_phase : Option Phase
  pub written : Bool

abbrev pub progress_schema : String
progress_schema = "kobra.update-progress/1"

abbrev pub result_schema : String
result_schema = "kobra.update-result/1"

abbrev pub is_idle : Phase → Bool
is_idle phase_idle = true
is_idle _ = false

abbrev pub is_download : Phase → Bool
is_download phase_download = true
is_download _ = false

abbrev pub is_complete : Phase → Bool
is_complete phase_complete = true
is_complete _ = false

-- The first argument of these is `nowRFC3339()`.
abbrev pub initial_progress : String → Pending → Progress
initial_progress now p = record {
  schema = progress_schema;
  seq = 0;
  phase = phase_idle;
  from_release = p.from_release;
  target_release = p.target_release;
  bytes = pos 0;
  total_bytes = p.archive_size;
  percent = pos 0;
  cancellable = true;
  message = "The update is waiting to be installed.";
  updated = now;
}

abbrev pub new_progress_writer : String → Pending → ProgressWriter
new_progress_writer now p = record {
  p = initial_progress now p;
  last_phase = none;
  written = false;
}

abbrev negated : ℕ → ℤ
negated zero = pos 0
negated (suc a) = negsuc a

-- Division rounds towards 0.
abbrev divided : ℤ → ℕ → ℤ
divided (pos a) t = pos (a / t)
divided (negsuc a) t = negated ((a + 1) / t)

-- written * 100 / total in int64, where both are positive.
unfoldable pub hundredfold_over : ℤ → ℤ → ℤ
hundredfold_over written total = divided (wrap64 (pos (pos_part written * 100))) (pos_part total)

unfoldable pub percent_of : ℤ → ℤ → ℤ
percent_of written total =
    if leb_ℤ total (pos 0)
    then pos 0
    else if leb_ℤ written (pos 0)
    then pos 0
    else if leb_ℤ total written
    then pos 100
    else let p = hundredfold_over written total in if ltb_ℤ (pos 100) p then pos 100 else p

-- What `flush` does to the writer; the record it then writes is `p`.
abbrev pub flushed : String → ProgressWriter → ProgressWriter
flushed now w = record {
  p = record w.p {
    schema = progress_schema;
    seq = (w.p.seq + 1) % 18446744073709551616;
    updated = now;
  };
  last_phase = if is_idle w.p.phase then w.last_phase else some w.p.phase;
  written = true;
}

abbrev pub with_phase : Phase → String → Progress → Progress
with_phase phase message p = record p {
  phase = phase;
  message = message;
  cancellable = is_download phase;
  percent = if is_complete phase then pos 100 else p.percent;
}

-- `setPhase` up to its write.
abbrev pub phase_set : String → Phase → String → ProgressWriter → ProgressWriter
phase_set now phase message w = flushed now (record w { p = with_phase phase message w.p })

abbrev pub with_bytes : ℤ → ℤ → Progress → Progress
with_bytes n total p = record p {
  phase = phase_download;
  bytes = n;
  total_bytes = total;
  percent = percent_of n total;
  cancellable = true;
}

abbrev pub same_tick : ℤ → ℤ → Progress → Bool
same_tick n total p =
    is_download p.phase && not (differ_ℤ p.bytes n) && not (differ_ℤ p.total_bytes total)

-- `setBytes` up to its write; none where nothing has changed.
unfoldable pub bytes_set : String → ℤ → ℤ → ProgressWriter → Option ProgressWriter
bytes_set now n total w =
    if same_tick n total w.p
    then none
    else some (flushed now (record w { p = with_bytes n total w.p }))
