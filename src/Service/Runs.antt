-- ===== src/Service/Runs.antt =====
-- internal/service/run_service.go and comment_service.go. `inflight` lists the tasks for which the
-- scheduler holds a run: `CancelTask` signals such a run and reports that it did.
use burnrate.Prelude.{ℕ, ◌||◌, not, Option, none, some, List, []}
use burnrate.Prelude.Tests.{◌==◌, if◌then◌else◌}
use burnrate.Prelude.Lists.{find, length}
use burnrate.Prelude.Int.{ℤ, pos, leb_ℤ, pos_part}
use burnrate.Prelude.Text.{Text}
use burnrate.Scheduling.Types.{Time}
use burnrate.Scheduling.Decide.{contains}
use burnrate.Domain.{TaskStatus, RunStatus, Run, Comment, Author, is_running, is_backlog, is_active}
use burnrate.Store.Tasks
use burnrate.Store.Tasks.{get_task, reset_task_attempts}
use burnrate.Store.Runs
use burnrate.Store.Runs.{latest_run_for_task, finish_run}
use burnrate.Store.Comments
use burnrate.Service.Base.{Field, Entity, Conflict, ServiceError, Result, ok, err, Env}
use burnrate.Service.Tasks.{in_store, resumes}

-- `ListRuns`: a limit of 0 or less is 50.
unfoldable pub list_runs : Env → ℕ → ℤ → List Run
list_runs e task_id limit =
    Runs.list_runs e.store task_id (if leb_ℤ limit (pos 0) then 50 else pos_part limit)

pub data CancelReply : Type 0 where
  -- the run was signalled, and settles by itself
  cancelling : CancelReply
  -- no process is behind the run: it is settled here
  cancelled : CancelReply

-- `CancelRun`: the reply, and the task signalled if there is one.
unfoldable pub cancel_run : List ℕ → Env → Time → ℕ → Env × Result CancelReply × Option ℕ
cancel_run inflight e now run_id =
    elim (find (λ (r : Run). r.id == run_id) (Runs.list_runs e.store 0 1000)) [
      | none ↦ (e, err (ServiceError.not_found_error Entity.run_entity run_id), none)
      | some run ↦
          if not (is_active run.status)
          then (e, err (ServiceError.conflict_error Conflict.not_active), none)
          else if contains inflight run.task_id
          then (e, ok cancelling, some run.task_id)
          else (
            in_store e (
                Tasks.set_task_status
                  (finish_run e.store now run_id RunStatus.abandoned run.cost_usd run.num_turns
                    run.pr_url "cancelled by user" [])
                  now run.task_id TaskStatus.paused),
            ok cancelled,
            none,
          )
    ]

-- What `AddComment` does to the task: its new status, or `none` in the backlog.
unfoldable pub requeue : Env → Time → ℕ → TaskStatus → Env × Option TaskStatus
requeue e now task_id status =
    if is_backlog status
    then (e, none)
    else let new_status =
        if resumes (latest_run_for_task e.store task_id)
        then TaskStatus.resumable
        else TaskStatus.queued in
      (
        in_store e
            (reset_task_attempts (Tasks.set_task_status e.store now task_id new_status) task_id).0,
        some new_status,
      )

unfoldable pub add_comment :
    List ℕ → Env → Time → ℕ → Text → Env × Result (Comment × Option TaskStatus)
add_comment inflight e now task_id body =
    if length body == 0
    then (e, err (ServiceError.validation_error Field.body_field))
    else elim (get_task e.store task_id) [
      | none ↦ (e, err (ServiceError.not_found_error Entity.task_entity task_id))
      | some task ↦
          if is_running task.status || contains inflight task_id
          then (e, err (ServiceError.conflict_error Conflict.running_task))
          else let (s, comment) = Comments.add_comment e.store now task_id body Author.user in
            let (e', new_status) = requeue (in_store e s) now task_id task.status in
            (e', ok (comment, new_status))
    ]
