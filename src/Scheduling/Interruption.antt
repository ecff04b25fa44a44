-- ===== src/Scheduling/Interruption.antt =====
-- What becomes of a task whose run stopped early (internal/scheduling/scheduling.go).
use burnrate.Prelude.{Bool, true, false}
use burnrate.Domain.{TaskStatus}

-- `TaskStatusAfterInterruption`
unfoldable pub task_status_after_interruption : Bool → TaskStatus
task_status_after_interruption true = TaskStatus.resumable
task_status_after_interruption false = TaskStatus.failed
