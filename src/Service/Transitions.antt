-- ===== src/Service/Transitions.antt =====
-- `ValidateStatusTransition` of internal/service/task_service.go, beside the store's function of
-- that name (internal/store/tasks.go).
use burnrate.Prelude.{◌≡◌, ◌≢◌, ◌↔◌, Bool, true, false, Option, none, some, arith}
use burnrate.Prelude.Tests.{if◌then◌else◌}
use burnrate.Domain.{TaskStatus, runner_owned}
use burnrate.Store.Tasks.{Refusal}
use burnrate.Store.Tasks

abbrev valid_target : TaskStatus → Bool
valid_target TaskStatus.queued = true
valid_target TaskStatus.backlog = true
valid_target TaskStatus.paused = true
valid_target TaskStatus.done = true
valid_target TaskStatus.dismissed = true
valid_target TaskStatus.failed = true
valid_target TaskStatus.resumable = true
valid_target _ = false

unfoldable pub validate_status_transition : TaskStatus → TaskStatus → Option Refusal
validate_status_transition TaskStatus.running to = some Refusal.of_running
validate_status_transition from TaskStatus.pr_created = some Refusal.set_by_runner
validate_status_transition from TaskStatus.running = some Refusal.set_by_scheduler
validate_status_transition from to = if valid_target to then none else some Refusal.unknown_target

-- The two functions that are both called `ValidateStatusTransition` allow the same transitions;
-- only the message differs, for the target awaiting_human.
pub validate-agrees :
    (from to : TaskStatus)
    → (validate_status_transition from to ≡ none)
      ↔ (Tasks.validate_status_transition from to ≡ none)
unfolding validate_status_transition Tasks.validate_status_transition
validate-agrees from to = ground arith

-- A transition that is allowed leaves no running task and enters no status of the runner's.
pub validate-not-owned :
    (from to : TaskStatus)
    → validate_status_transition from to ≡ none
    → (from ≢ TaskStatus.running) × (runner_owned to ≡ false)
unfolding validate_status_transition
validate-not-owned from to h = ground arith
