-- ===== src/Store/Tasks.antt =====
-- internal/store/tasks.go
use burnrate.Prelude.{
  ℕ, ◌+◌, max, Bool, true, false, not, ◌&&◌, Option, none, some, List, [], ◌∷◌, ◌++◌, String, map,
}
use burnrate.Prelude.Tests.{◌==◌, if◌then◌else◌}
use burnrate.Prelude.Lists.{keep, any, length}
use burnrate.Prelude.Table.{row, modify, newest, sort_by}
use burnrate.Prelude.Text.{Text}
use burnrate.Scheduling.Types.{Time}
use burnrate.Scheduling.Decide.{contains}
use burnrate.Domain.{TaskStatus, Task, Run, HumanRequest, Comment, TaskPr, is_queued}
use burnrate.Store.Tables.{Store, task_key, run_key}

pub data StoreError : Type 0 where
  bad_new_status not_found foreign_key ids_not_found : StoreError

unfoldable pub get_task : Store → ℕ → Option Task
get_task s id = row task_key id s.tasks

-- `UPDATE tasks SET … WHERE id = ?`
unfoldable pub update_task_row : Store → ℕ → (Task → Task) → Store
update_task_row s id f = record s { tasks = modify (λ t. task_key t == id) f s.tasks }

-- `SELECT MAX(sort_order) FROM tasks`, and the order after it.
abbrev pub max_order : List Task → ℕ
max_order [] = 0
max_order (t ∷ ts) = max t.sort_order (max_order ts)

abbrev pub next_order : List Task → ℕ
next_order [] = 10
next_order (t ∷ ts) = max_order (t ∷ ts) + 10

abbrev pub status_or_queued : TaskStatus → TaskStatus
status_or_queued TaskStatus.empty = TaskStatus.queued
status_or_queued st = st

abbrev pub is_new_status : TaskStatus → Bool
is_new_status TaskStatus.queued = true
is_new_status TaskStatus.backlog = true
is_new_status _ = false

abbrev pub new_task : Store → Time → String → String → String → String → TaskStatus → Task
new_task s now title prompt repo_path model status = record {
  id = s.last_task + 1;
  title = title;
  prompt = prompt;
  repo_path = repo_path;
  model = model;
  sort_order = next_order s.tasks;
  status = status;
  created_at = now;
  updated_at = now;
  attempt_reset_run_id = 0;
  summary = [];
}

-- `CreateTask`: the new task's id, or `none` for a status that a new task cannot have.
unfoldable pub create_task :
    Store → Time → String → String → String → String → TaskStatus → Store × Option ℕ
create_task s now title prompt repo_path model status =
    let st = status_or_queued status in
    if is_new_status st
    then (
      record s {
        tasks = s.tasks ++ new_task s now title prompt repo_path model st ∷ [];
        last_task = s.last_task + 1;
      },
      some (s.last_task + 1),
    )
    else (s, none)

-- `UpdateTask`; the update of a missing row changes nothing, and `GetTask` then fails.
unfoldable pub update_task :
    Store → Time → ℕ → String → String → String → String → Store × Option Task
unfolding update_task_row get_task
update_task s now id title prompt repo_path model =
    let s' = update_task_row s id (λ t. record t {
      title = title;
      prompt = prompt;
      repo_path = repo_path;
      model = model;
      updated_at = now;
    }) in
    (s', get_task s' id)

unfoldable pub set_task_status : Store → Time → ℕ → TaskStatus → Store
unfolding update_task_row
set_task_status s now id status =
    update_task_row s id (λ t. record t { status = status; updated_at = now })

unfoldable pub set_task_summary : Store → ℕ → Text → Store
unfolding update_task_row
set_task_summary s id summary = update_task_row s id (λ t. record t { summary = summary })

abbrev pub id_or_zero : Option Run → ℕ
id_or_zero none = 0
id_or_zero (some r) = r.id

-- The runs of a task.
unfoldable pub runs_of : Store → ℕ → List Run
runs_of s id = keep (λ r. r.task_id == id) s.runs

-- `ResetTaskAttempts`: MAX(id) over the task's runs is NULL, read 0, if it has none.
unfoldable pub reset_task_attempts : Store → ℕ → Store × ℕ
unfolding update_task_row runs_of
reset_task_attempts s id =
    let newest_id = id_or_zero (newest run_key (runs_of s id)) in
    (
      update_task_row s id
          (λ t. record t { attempt_reset_run_id = max t.attempt_reset_run_id newest_id }),
      newest_id,
    )

-- `DeleteTask`. The refusal is the schema's, not the method's: the migrations declare
-- `runs.task_id REFERENCES tasks(id)` with no ON DELETE clause, and the pragma of store.go turns
-- foreign keys on, so the delete of a task with a run fails. Comments, requests and pull requests are deleted with the task.
unfoldable pub delete_task : Store → ℕ → Store × Option StoreError
unfolding runs_of
delete_task s id =
    if any (λ t. task_key t == id) s.tasks && any (λ r. r.task_id == id) s.runs
    then (s, some StoreError.foreign_key)
    else (
      record s {
        tasks = keep (λ t. not (t.id == id)) s.tasks;
        requests = keep (λ (r : HumanRequest). not (r.task_id == id)) s.requests;
        comments = keep (λ (c : Comment). not (c.task_id == id)) s.comments;
        task_prs = keep (λ (p : TaskPr). not (p.task_id == id)) s.task_prs;
      },
      none,
    )

-- `for i, id := range orderedIDs { UPDATE tasks SET sort_order = orders[i] … }`
unfoldable pub assign_orders : Time → List ℕ → List ℕ → Store → Store
unfolding update_task_row
assign_orders now (id ∷ ids) (o ∷ os) s =
    assign_orders now ids os
      (update_task_row s id (λ t. record t { sort_order = o; updated_at = now }))
assign_orders now _ _ s = s

-- `SELECT sort_order FROM tasks WHERE id IN (…) ORDER BY sort_order ASC`
abbrev pub orders_of : Store → List ℕ → List ℕ
orders_of s ids =
    map (λ (t : Task). t.sort_order)
      (sort_by (λ t. t.sort_order) (keep (λ t. contains ids t.id) s.tasks))

unfoldable pub reorder_tasks : Store → Time → List ℕ → Store × Option StoreError
unfolding assign_orders
reorder_tasks s now ordered_ids =
    let orders = orders_of s ordered_ids in
    if length ordered_ids == 0
    then (s, none)
    else if length orders == length ordered_ids
    then (assign_orders now ordered_ids orders s, none)
    else (s, some StoreError.ids_not_found)

unfoldable pub queued_tasks_by_order : Store → List Task
queued_tasks_by_order s = sort_by (λ t. t.sort_order) (keep (λ t. is_queued t.status) s.tasks)

-- The store's `ValidateStatusTransition`, with the source's five refusals.
pub data Refusal : Type 0 where
  of_running set_by_runner set_by_scheduler unknown_target : Refusal

abbrev valid_target : TaskStatus → Bool
valid_target TaskStatus.queued = true
valid_target TaskStatus.backlog = true
valid_target TaskStatus.paused = true
valid_target TaskStatus.done = true
valid_target TaskStatus.dismissed = true
valid_target TaskStatus.failed = true
valid_target TaskStatus.resumable = true
valid_target _ = false

-- `none` is the source's nil: the transition is allowed.
unfoldable pub validate_status_transition : TaskStatus → TaskStatus → Option Refusal
validate_status_transition TaskStatus.running to = some Refusal.of_running
validate_status_transition from TaskStatus.pr_created = some Refusal.set_by_runner
validate_status_transition from TaskStatus.awaiting_human = some Refusal.set_by_runner
validate_status_transition from TaskStatus.running = some Refusal.set_by_scheduler
validate_status_transition from to = if valid_target to then none else some Refusal.unknown_target
