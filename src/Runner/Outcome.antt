-- ===== src/Runner/Outcome.antt =====
-- What becomes of a task and its run, as a function of how the run ended and of nothing else.
use burnrate.Prelude.{Bool, true, false, Option, none, some}
use burnrate.Prelude.Tests.{if◌then◌else◌}
use burnrate.Domain.{TaskStatus, RunStatus}
use burnrate.Scheduler.State.{Cause}
use burnrate.Runner.State.{InvokeError}

-- How a run ended, for the record.
pub data Ending : Type 0 where
  -- with work to look at
  delivered : Ending
  -- waiting for a human, who has not answered or has
  waits replied : Ending
  -- stopped for the session limit, by a rate limit, by the clock, or by another error
  suspended limited timed_out broken : Ending
  -- stopped by the user
  cancelled : Ending

abbrev pub task_outcome : Ending → Bool → TaskStatus
task_outcome Ending.delivered session = TaskStatus.pr_created
task_outcome Ending.waits session = TaskStatus.awaiting_human
task_outcome Ending.replied true = TaskStatus.resumable
task_outcome Ending.replied false = TaskStatus.queued
task_outcome Ending.cancelled session = TaskStatus.paused
task_outcome _ true = TaskStatus.resumable
task_outcome _ false = TaskStatus.failed

abbrev pub run_outcome : Ending → RunStatus
run_outcome Ending.delivered = RunStatus.succeeded
run_outcome Ending.waits = RunStatus.succeeded
run_outcome Ending.replied = RunStatus.succeeded
run_outcome Ending.suspended = RunStatus.rate_limited
run_outcome Ending.limited = RunStatus.rate_limited
run_outcome Ending.timed_out = RunStatus.timed_out
run_outcome Ending.broken = RunStatus.errored
run_outcome Ending.cancelled = RunStatus.errored

-- A run that ended without an error is judged by what it says, also if it was cancelled meanwhile. Else
-- what cancelled the run counts before the error that this made.
abbrev pub ending_of_error : InvokeError → Ending
ending_of_error (InvokeError.rate_limited reset_at text) = Ending.limited
ending_of_error (InvokeError.timed_out text) = Ending.timed_out
ending_of_error _ = Ending.broken

abbrev pub ending : Bool → Bool → Bool → Option InvokeError → Option Cause → Ending
ending agent_mode waiting answered none cause =
    if agent_mode
    then (if waiting then (if answered then Ending.replied else Ending.waits) else Ending.delivered)
    else Ending.delivered
ending agent_mode waiting answered (some err) (some (Cause.suspended reset_at)) = Ending.suspended
ending agent_mode waiting answered (some err) (some Cause.cancelled) = Ending.cancelled
ending agent_mode waiting answered (some err) _ = ending_of_error err
