-- ===== src/Scheduling/Types.antt =====
-- The types of internal/scheduling/scheduling.go.
-- An instant is a count of nanoseconds since Go's zero `time.Time`, so `IsZero` is a test for 0; a
-- `time.Duration` is a signed count of nanoseconds. A utilization (float64 percent) is a whole
-- number of millionths of a percent.
use burnrate.Prelude.{ℕ, ◌-◌, Bool, true, false, Option, List, String}
use burnrate.Prelude.Tests.{leb, if◌then◌else◌, ◌==◌}
use burnrate.Prelude.Int.{ℤ, pos, negsuc}

abbrev pub Time : Type 0
Time = ℕ

abbrev pub Duration : Type 0
Duration = ℤ

abbrev pub minute : ℕ
minute = 60000000000

abbrev pub percent : ℕ
percent = 1000000

abbrev pub is_zero : Time → Bool
is_zero t = t == 0

-- `t.Sub(u)`: saturates at the ends of int64.
abbrev pub sub_time : Time → Time → Duration
sub_time t u =
    if leb u t
    then pos (if leb (t - u) 9223372036854775807 then t - u else 9223372036854775807)
    else negsuc (if leb (u - t - 1) 9223372036854775807 then u - t - 1 else 9223372036854775807)

pub data Action : Type 0 where
  launch wait suspend fail : Action

pub data ReasonCode : Type 0 where
  ready running workers_busy session_exhausted weekly_exhausted weekly_backoff : ReasonCode
  attempt_cap no_usage_data stale_usage_data queue_empty : ReasonCode

-- The text of a reason: one constructor for each format string, with what is formatted into it.
pub data ReasonText : Type 0 where
  running_text launched_by_hand ready_text queue_empty_text waiting_first_reading : ReasonText
  gave_up_after : ℤ → ReasonText
  all_workers_busy : ℤ → ReasonText
  reading_old : Duration → ReasonText
  session_spent : ℕ → ReasonText
  session_spent_until : ℕ → Duration → ReasonText
  weekly_spent : ℕ → ReasonText
  weekly_backoff_left : Duration → ReasonText

pub record Reason : Type 0 where
  pub code : ReasonCode
  pub text : ReasonText

abbrev pub reasonf : ReasonCode → ReasonText → Reason
reasonf c t = record { code = c; text = t }

abbrev code_blocking : ReasonCode → Bool
code_blocking ready = false
code_blocking running = false
code_blocking queue_empty = false
code_blocking _ = true

-- `Reason.Blocking`
unfoldable pub blocking : Reason → Bool
blocking r = code_blocking r.code

pub data WindowState : Type 0 where
  idle open_ saturated : WindowState

pub record Snapshot : Type 0 where
  pub captured_at : Time
  pub session_util : ℕ
  pub session_resets_at : Time
  pub weekly_util : ℕ
  pub weekly_resets_at : Time

pub record Policy : Type 0 where
  pub workers : ℤ
  pub session_threshold : ℕ
  pub weekly_threshold : ℕ
  pub max_attempts : ℤ
  pub run_timeout : Duration
  pub max_snapshot_age : Duration

pub record Candidate : Type 0 where
  pub task_id : ℕ
  pub title : String
  pub resume : Bool
  pub attempt : ℤ

-- `force` is the map of the source: a key that it lacks reads false.
pub record Input : Type 0 where
  pub now : Time
  pub snapshot : Option Snapshot
  pub policy : Policy
  pub candidates : List Candidate
  pub running : List ℕ
  pub weekly_backoff_until : Time
  pub force : ℕ → Bool

pub record Decision : Type 0 where
  pub task_id : ℕ
  pub action : Action
  pub timeout : Duration
  pub reason : Reason

pub record Plan : Type 0 where
  pub window_state : WindowState
  pub global : Reason
  pub decisions : List Decision
  pub suspend : List Decision
