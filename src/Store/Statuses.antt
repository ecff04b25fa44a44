-- ===== src/Store/Statuses.antt =====
-- The statuses that a store gives for a task and a run, and what the updates do to them.
use burnrate.Prelude.{ℕ, ◌≡◌, refl, ◌∙◌, ap, Option, none, some, String, arith}
use burnrate.Prelude.Tests.{◌==◌, if◌then◌else◌, either, either_option}
use burnrate.Prelude.Lists.{any, find}
use burnrate.Prelude.Table.{on_some, row-modify}
use burnrate.Prelude.Text.{Text}
use burnrate.Scheduling.Types.{Time}
use burnrate.Domain.{TaskStatus, RunStatus, Task, Run, TaskPr}
use burnrate.Store.Tables.{Store, task_key, run_key}
use burnrate.Store.Tasks.{
  get_task, update_task_row, set_task_status, reset_task_attempts, StoreError,
}
use burnrate.Store.Runs.{get_run, update_run_row, finish_run, finished, set_run_status}
use burnrate.Store.TaskPrs.{upsert_task_pr, record_task_pr_lines, same_target}
use burnrate.Store.Laws.{get_task-update_task_row}

abbrev pub status_of_task : Option Task → Option TaskStatus
status_of_task none = none
status_of_task (some t) = some t.status

abbrev pub status_of_run : Option Run → Option RunStatus
status_of_run none = none
status_of_run (some r) = some r.status

unfoldable pub task_status : Store → ℕ → Option TaskStatus
task_status s id = status_of_task (get_task s id)

unfoldable pub run_status : Store → ℕ → Option RunStatus
run_status s id = status_of_run (get_run s id)

-- The value of a column after it was set: there is one only where there is a row.
abbrev pub put {ℓ} : {A : Type ℓ} → A → Option A → Option A
put a none = none
put a (some b) = some a

pub put-put {ℓ} : {A : Type ℓ} (a b : A) (o : Option A) → put a (put b o) ≡ put a o
put-put a b none = refl
put-put a b (some c) = refl

-- Between two stores the statuses of one task and one run are the same.
abbrev pub Same : ℕ → ℕ → Store → Store → Type 0
Same id run_id s s' =
    (task_status s' id ≡ task_status s id) × (run_status s' run_id ≡ run_status s run_id)

pub Same-trans :
    (id run_id : ℕ) (a b c : Store) → Same id run_id a b → Same id run_id b c → Same id run_id a c
Same-trans id run_id a b c (p, q) (p', q') = (p' ∙ p, q' ∙ q)

status_kept :
    (f : Task → Task) (o : Option Task)
    → ((t : Task) → (f t).status ≡ t.status)
    → status_of_task (on_some f o) ≡ status_of_task o
status_kept f none h = refl
status_kept f (some t) h = rw (h t)

run_status_kept :
    (f : Run → Run) (o : Option Run)
    → ((r : Run) → (f r).status ≡ r.status)
    → status_of_run (on_some f o) ≡ status_of_run o
run_status_kept f none h = refl
run_status_kept f (some r) h = rw (h r)

status_set :
    (f : Task → Task) (st : TaskStatus) (o : Option Task)
    → ((t : Task) → (f t).status ≡ st)
    → status_of_task (on_some f o) ≡ put st (status_of_task o)
status_set f st none h = refl
status_set f st (some t) h = ap (λ x. some x) (h t)

pub run_status_set :
    (f : Run → Run) (st : RunStatus) (o : Option Run)
    → ((r : Run) → (f r).status ≡ st)
    → status_of_run (on_some f o) ≡ put st (status_of_run o)
run_status_set f st none h = refl
run_status_set f st (some r) h = ap (λ x. some x) (h r)

pub get_run-update_run_row :
    (s : Store) (id j : ℕ) (f : Run → Run)
    → ((r : Run) → run_key (f r) ≡ run_key r)
    → get_run (update_run_row s id f) j ≡ (if id == j then on_some f (get_run s j) else get_run s j)
unfolding get_run update_run_row
get_run-update_run_row s id j f h = row-modify run_key id j f s.runs h

module _ (s : Store) (id run_id : ℕ) where
  -- An update of a task's other columns, and of a run's.
  pub Same-task_row :
      (j : ℕ) (f : Task → Task)
      → ((t : Task) → task_key (f t) ≡ task_key t)
      → ((t : Task) → (f t).status ≡ t.status)
      → Same id run_id s (update_task_row s j f)
  unfolding task_status run_status update_task_row get_run
  Same-task_row j f k h = (
    rw (get_task-update_task_row s j id f k) (ground (arith, status_kept f (get_task s id) h)),
    refl,
  )

  pub Same-run_row :
      (j : ℕ) (f : Run → Run)
      → ((r : Run) → run_key (f r) ≡ run_key r)
      → ((r : Run) → (f r).status ≡ r.status)
      → Same id run_id s (update_run_row s j f)
  unfolding task_status run_status update_run_row get_task
  Same-run_row j f k h = (
    refl,
    rw (get_run-update_run_row s j run_id f k)
        (ground (arith, run_status_kept f (get_run s run_id) h)),
  )

  pub task_status-set_task_status :
      (now : Time) (st : TaskStatus)
      → task_status (set_task_status s now id st) id ≡ put st (task_status s id)
  unfolding task_status set_task_status
  task_status-set_task_status now st = ground (
    arith,
    get_task-update_task_row s id id (λ (t : Task). record t { status = st; updated_at = now })
        (λ (t : Task). refl),
    status_set (λ (t : Task). record t { status = st; updated_at = now }) st (get_task s id)
        (λ (t : Task). refl),
  )

  pub run_status-set_task_status :
      (now : Time) (st : TaskStatus)
      → run_status (set_task_status s now id st) run_id ≡ run_status s run_id
  unfolding run_status set_task_status update_task_row get_run
  run_status-set_task_status now st = refl

  pub run_status-finish_run :
      (now : Time) (st : RunStatus) (cost turns : ℕ) (pr_url : Text) (error : String) (text : Text)
      → run_status (finish_run s now run_id st cost turns pr_url error text) run_id
        ≡ put st (run_status s run_id)
  unfolding run_status finish_run
  run_status-finish_run now st cost turns pr_url error text = ground (
    arith,
    get_run-update_run_row s run_id run_id (finished now st cost turns pr_url error text)
        (λ (r : Run). refl),
    run_status_set (finished now st cost turns pr_url error text) st (get_run s run_id)
        (λ (r : Run). refl),
  )

  pub run_status-set_run_status :
      (st : RunStatus)
      → run_status (set_run_status s run_id st) run_id ≡ put st (run_status s run_id)
  unfolding run_status set_run_status
  run_status-set_run_status st = ground (
    arith,
    get_run-update_run_row s run_id run_id (λ (r : Run). record r { status = st })
        (λ (r : Run). refl),
    run_status_set (λ (r : Run). record r { status = st }) st (get_run s run_id)
        (λ (r : Run). refl),
  )

  pub Same-reset_task_attempts : Same id run_id s (reset_task_attempts s id).0
  unfolding reset_task_attempts
  Same-reset_task_attempts = Same-task_row id _ (λ (t : Task). refl) (λ (t : Task). refl)

  pub Same-upsert_task_pr :
      (now : Time) (task_id run : ℕ) (repo branch pr_url worked_in : Text)
      → Same id run_id s (upsert_task_pr s now task_id run repo branch pr_url worked_in).0
  unfolding upsert_task_pr task_status run_status get_task get_run
  Same-upsert_task_pr now task_id run repo branch pr_url worked_in =
      either (λ (x : Store × Option StoreError). Same id run_id s x.0)
        (any (same_target task_id repo branch) s.task_prs) _ _ (refl, refl)
        (either (λ (x : Store × Option StoreError). Same id run_id s x.0)
          (any (λ t. task_key t == task_id) s.tasks) _ _ (refl, refl) (refl, refl))

  pub Same-record_task_pr_lines :
      (task_id : ℕ) (repo branch : Text) (added removed : ℕ)
      → Same id run_id s (record_task_pr_lines s task_id repo branch added removed).0
  unfolding record_task_pr_lines task_status run_status get_task get_run
  Same-record_task_pr_lines task_id repo branch added removed =
      either_option (λ (x : Store × Option (ℕ × ℕ)). Same id run_id s x.0)
        (find (same_target task_id repo branch) s.task_prs) _ _ (refl, refl)
        (λ (p : TaskPr). (refl, refl))
