-- ===== src/Service/Tasks.antt =====
-- internal/service/task_service.go. `inflight` lists the tasks for which the scheduler holds a
-- run (`SchedulerGate.IsInflight`).
use burnrate.Prelude.{
  ℕ, ◌||◌, ◌&&◌, not, Bool, true, false, Option, none, some, List, [], ◌∷◌, String,
}
use burnrate.Prelude.Tests.{◌==◌, if◌then◌else◌}
use burnrate.Prelude.Lists.{length}
use burnrate.Prelude.Text.{is_blank, is_set}
use burnrate.Scheduling.Types.{Time}
use burnrate.Scheduling.Decide.{contains}
use burnrate.Domain.{
  TaskStatus, Task, Run, is_running, is_queued, is_resumable, is_paused, is_backlog, is_done,
  is_dismissed, is_empty, is_interrupted,
}
use burnrate.Store.Tables.{Store}
use burnrate.Store.Tasks
use burnrate.Store.Tasks.{get_task, reset_task_attempts}
use burnrate.Store.Runs.{latest_run_for_task}
use burnrate.Store.Requests
use burnrate.Service.Base.{
  Field, Entity, Conflict, ServiceError, Result, ok, err, requests_changed, Env, emit, cleanup_of,
}
use burnrate.Service.Transitions.{validate_status_transition}

abbrev pub in_store : Env → Store → Env
in_store e s = record e { store = s }

-- `RequestService.CancelTaskRequests`, which broadcasts.
unfoldable pub cancel_requests : Env → ℕ → Env
cancel_requests e id =
    emit (in_store e (Requests.cancel_task_requests e.store id)) (requests_changed ∷ [])

unfoldable pub create_task :
    Env → Time → String → String → String → String → TaskStatus → Env × Result ℕ
create_task e now title prompt repo_path model status =
    if is_blank title
    then (e, err (ServiceError.validation_error Field.title))
    else if not (is_empty status) && not (is_queued status) && not (is_backlog status)
    then (e, err (ServiceError.validation_error Field.status_field))
    else let (s, made) = Tasks.create_task e.store now title prompt repo_path model status in
      elim made [ none ↦ (e, err ServiceError.store_error) | some id ↦ (in_store e s, ok id) ]

abbrev pub path_or : String → Option String → String
path_or old none = old
path_or old (some p) = p

unfoldable pub update_task :
    Env → Time → ℕ → String → String → String → Option String → Env × Result (Option Task)
update_task e now id title prompt model repo_path = elim (get_task e.store id) [
  | none ↦ (e, err (ServiceError.not_found_error Entity.task_entity id))
  | some existing ↦
      let s =
        (Tasks.update_task e.store now id title prompt (path_or existing.repo_path repo_path)
          model).0 in
      let s' = (reset_task_attempts s id).0 in (in_store e s', ok (get_task s' id))
]

abbrev pub busy : List ℕ → Task → Bool
busy inflight t = is_running t.status || contains inflight t.id

abbrev delete_result : Env → Store × Option Tasks.StoreError → Env × Result (Unit {0})
delete_result e (s, none) = (in_store e s, ok tt)
delete_result e (s, some x) = (in_store e s, err ServiceError.store_error)

unfoldable pub delete_task : List ℕ → Env → ℕ → Env × Result (Unit {0})
delete_task inflight e id = elim (get_task e.store id) [
  | none ↦ (e, err (ServiceError.not_found_error Entity.task_entity id))
  | some task ↦
      if is_running task.status || contains inflight id
      then (e, err (ServiceError.conflict_error Conflict.running_task))
      else delete_result (emit e (cleanup_of (latest_run_for_task e.store id)))
          (Tasks.delete_task e.store id)
]

-- The loop over `orderedIDs` with the map `seen`.
abbrev has_duplicate : List ℕ → List ℕ → Bool
has_duplicate seen [] = false
has_duplicate seen (id ∷ ids) =
    let rest = has_duplicate (id ∷ seen) ids in if contains seen id then true else rest

unfoldable pub reorder_tasks : Env → Time → List ℕ → Env × Result (Unit {0})
reorder_tasks e now ordered_ids =
    if length ordered_ids == 0
    then (e, err (ServiceError.validation_error Field.ordered_ids))
    else if has_duplicate [] ordered_ids
    then (e, err (ServiceError.validation_error Field.ordered_ids))
    else delete_result e (Tasks.reorder_tasks e.store now ordered_ids)

unfoldable pub pause_task : Env → Time → ℕ → Env × Result (Unit {0})
pause_task e now id = elim (get_task e.store id) [
  | none ↦ (e, err (ServiceError.not_found_error Entity.task_entity id))
  | some task ↦
      if not (is_queued task.status) && not (is_resumable task.status)
      then (e, err (ServiceError.conflict_error Conflict.only_pause_schedulable))
      else (in_store e (Tasks.set_task_status e.store now id TaskStatus.paused), ok tt)
]

-- A run whose session can be taken up again.
abbrev pub resumes : Option Run → Bool
resumes none = false
resumes (some r) = is_set r.session_id && is_interrupted r.status

abbrev pub has_session : Option Run → Bool
has_session none = false
has_session (some r) = is_set r.session_id

-- `SetTaskStatus` of the store, and `ResetTaskAttempts`.
abbrev pub relaunchable : Env → Time → ℕ → TaskStatus → Env
relaunchable e now id status =
    in_store e (reset_task_attempts (Tasks.set_task_status e.store now id status) id).0

abbrev pub resumed_status : Store → ℕ → TaskStatus
resumed_status s id =
    if resumes (latest_run_for_task s id) then TaskStatus.resumable else TaskStatus.queued

-- `ResumeTask`, once the task has been looked up.
abbrev pub resume_found : Env → Time → ℕ → Option Task → Env × Result TaskStatus
resume_found e now id none = (e, err (ServiceError.not_found_error Entity.task_entity id))
resume_found e now id (some task) =
    if not (is_paused task.status)
    then (e, err (ServiceError.conflict_error Conflict.only_resume_paused))
    else (relaunchable e now id (resumed_status e.store id), ok (resumed_status e.store id))

unfoldable pub resume_task : Env → Time → ℕ → Env × Result TaskStatus
resume_task e now id = resume_found e now id (get_task e.store id)

-- `CompleteTask` and `DismissTask` differ in the status alone.
abbrev pub retire : List ℕ → Env → Time → ℕ → TaskStatus → Env × Result (Unit {0})
retire inflight e now id status = elim (get_task e.store id) [
  | none ↦ (e, err (ServiceError.not_found_error Entity.task_entity id))
  | some task ↦
      if is_running task.status || contains inflight id
      then (e, err (ServiceError.conflict_error Conflict.running_task))
      else let e' = cancel_requests (emit e (cleanup_of (latest_run_for_task e.store id))) id in
        (in_store e' (Tasks.set_task_status e'.store now id status), ok tt)
]

unfoldable pub complete_task : List ℕ → Env → Time → ℕ → Env × Result (Unit {0})
complete_task inflight e now id = retire inflight e now id TaskStatus.done

unfoldable pub dismiss_task : List ℕ → Env → Time → ℕ → Env × Result (Unit {0})
dismiss_task inflight e now id = retire inflight e now id TaskStatus.dismissed

-- `schedulableStatuses`
abbrev pub schedulable : TaskStatus → Bool
schedulable TaskStatus.queued = true
schedulable TaskStatus.resumable = true
schedulable _ = false

-- The writes at the end of `SetTaskStatus`: the status, and fresh attempts for one that the
-- scheduler launches from.
unfoldable pub write_status : Store → Time → ℕ → TaskStatus → Store
write_status s now id status =
    let s' = Tasks.set_task_status s now id status in
    if schedulable status then (reset_task_attempts s' id).0 else s'

-- A backlog task that has a session is queued as resumable.
abbrev pub final_status : Task → TaskStatus → Option Run → TaskStatus
final_status task status latest =
    if is_backlog task.status && is_queued status && has_session latest
    then TaskStatus.resumable
    else status

-- What a move to done or dismissed brings with it.
abbrev pub closed : Env → ℕ → TaskStatus → Env
closed e id status =
    if is_done status || is_dismissed status
    then cancel_requests (emit e (cleanup_of (latest_run_for_task e.store id))) id
    else e

-- `SetTaskStatus`, once its guards have passed.
unfoldable pub apply_status : Env → Time → ℕ → Task → TaskStatus → Env × Result TaskStatus
apply_status e now id task status =
    let final = final_status task status (latest_run_for_task e.store id) in
    (in_store (closed e id status) (write_status (closed e id status).store now id final), ok final)

-- The guards of `SetTaskStatus`, once the task has been looked up.
abbrev pub change_found : List ℕ → Env → Time → ℕ → TaskStatus → Task → Env × Result TaskStatus
change_found inflight e now id status task =
    if is_running task.status || contains inflight id
    then (e, err (ServiceError.conflict_error Conflict.running_task))
    else elim (validate_status_transition task.status status) [
      | some why ↦ (e, err (ServiceError.conflict_error (Conflict.transition why)))
      | none ↦
          if is_resumable status && not (has_session (latest_run_for_task e.store id))
          then (e, err (ServiceError.conflict_error Conflict.no_session))
          else apply_status e now id task status
    ]

unfoldable pub set_task_status : List ℕ → Env → Time → ℕ → TaskStatus → Env × Result TaskStatus
set_task_status inflight e now id status =
    if is_empty status
    then (e, err (ServiceError.validation_error Field.status_field))
    else elim (get_task e.store id) [
      | none ↦ (e, err (ServiceError.not_found_error Entity.task_entity id))
      | some task ↦ change_found inflight e now id status task
    ]
