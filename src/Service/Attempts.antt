-- ===== src/Service/Attempts.antt =====
-- The attempts that a task has left once a user has sent it back to the queue.
use burnrate.Prelude.{ℕ, ◌≡◌, true, Option, none, some, List}
use burnrate.Prelude.Tests.{either, either_option}
use burnrate.Scheduling.Types.{Time}
use burnrate.Domain.{TaskStatus, Task, effective_attempt}
use burnrate.Store.Tables.{Store}
use burnrate.Store.Tasks
use burnrate.Store.Tasks.{get_task, reset_task_attempts}
use burnrate.Store.Runs.{latest_run_for_task}
use burnrate.Store.Laws.{reset-effective_attempt}
use burnrate.Service.Base.{Env, Result, ok, err, ServiceError, Conflict, Field, Entity}
use burnrate.Service.Transitions.{validate_status_transition}
use burnrate.Service.Tasks.{
  resume_task, set_task_status, apply_status, write_status, schedulable, final_status, closed,
  change_found, resume_found, relaunchable, resumed_status,
}

-- The next run of the task counts as its first attempt, whatever its earlier runs.
abbrev pub Fresh : Store → ℕ → Type 0
Fresh s id =
    (t : Task)
    → get_task s id ≡ some t
    → effective_attempt t.attempt_reset_run_id (latest_run_for_task s id) ≡ 0

pub reset-Fresh : (s : Store) (id : ℕ) → Fresh (reset_task_attempts s id).0 id
reset-Fresh s id t h = reset-effective_attempt s id t h

-- An answer that puts the task where the scheduler launches it from leaves it fresh.
abbrev FreshAnswer : ℕ → TaskStatus → Env × Result TaskStatus → Type 0
FreshAnswer id st x = x.1 ≡ ok st → schedulable st ≡ true → Fresh x.0.store id

module _ (e : Env) (now : Time) (id : ℕ) (st : TaskStatus) where
  resume_found-Fresh : (o : Option Task) → FreshAnswer id st (resume_found e now id o)
  resume_found-Fresh none = λ h k. cc
  resume_found-Fresh (some task) =
      let to = resumed_status e.store id in
      either (FreshAnswer id st) _
        (e, err (ServiceError.conflict_error Conflict.only_resume_paused))
        (relaunchable e now id to, ok to) (λ h k. cc)
        (λ h k. reset-Fresh (Tasks.set_task_status e.store now id to) id)

  -- Resuming a paused task, where it succeeds, gives it all its attempts again.
  pub resume_task-Fresh :
      (resume_task e now id).1 ≡ ok st
      → schedulable st ≡ true
      → Fresh (resume_task e now id).0.store id
  unfolding resume_task
  resume_task-Fresh = resume_found-Fresh (get_task e.store id)

write_status-Fresh :
    (s : Store) (now : Time) (id : ℕ) (st : TaskStatus)
    → schedulable st ≡ true
    → Fresh (write_status s now id st) id
unfolding write_status
write_status-Fresh s now id st k = rw k (reset-Fresh (Tasks.set_task_status s now id st) id)

module _ (inflight : List ℕ) (e : Env) (now : Time) (id : ℕ) (to st : TaskStatus) where
  apply_status-Fresh : (task : Task) → FreshAnswer id st (apply_status e now id task to)
  unfolding apply_status
  apply_status-Fresh task = λ h k.
      write_status-Fresh (closed e id to).store now id
        (final_status task to (latest_run_for_task e.store id)) cc

  refused-Fresh : (x : ServiceError) → FreshAnswer id st (e, err x)
  refused-Fresh x = λ h k. cc

  change_found-Fresh : (task : Task) → FreshAnswer id st (change_found inflight e now id to task)
  change_found-Fresh task =
      let no : (x : ServiceError) → FreshAnswer id st (e, err x) = refused-Fresh in
      either (FreshAnswer id st) _ (e, err (ServiceError.conflict_error Conflict.running_task)) _
        (no _)
        (either_option (FreshAnswer id st) (validate_status_transition task.status to) _ _
          (either (FreshAnswer id st) _ (e, err (ServiceError.conflict_error Conflict.no_session))
            (apply_status e now id task to) (no _) (apply_status-Fresh task))
          (λ why. no _))

  -- Changing a task's status to `queued` or `resumable`, where it succeeds, gives the task all its
  -- attempts again.
  pub set_task_status-Fresh :
      (set_task_status inflight e now id to).1 ≡ ok st
      → schedulable st ≡ true
      → Fresh (set_task_status inflight e now id to).0.store id
  unfolding set_task_status
  set_task_status-Fresh =
      either (FreshAnswer id st) _ (e, err (ServiceError.validation_error Field.status_field)) _
        (refused-Fresh _)
        (either_option (FreshAnswer id st) (get_task e.store id)
          (e, err (ServiceError.not_found_error Entity.task_entity id))
          (λ task. change_found inflight e now id to task) (refused-Fresh _)
          (λ task. change_found-Fresh task))
