-- ===== src/Store/Laws.antt =====
-- What the updates of the tasks table leave and change.
use burnrate.Prelude.{
  ℕ, max, ◌≡◌, refl, ◌⊎◌, false, not, Option, none, some, List, [], ◌∷◌, ◌++◌, ◌∙◌, String, arith,
}
use burnrate.Prelude.Tests.{◌==◌, if◌then◌else◌}
use burnrate.Prelude.Lists.{keep}
use burnrate.Prelude.Table.{row, newest, on_some, row-modify}
use burnrate.Scheduling.Types.{Time}
use burnrate.Domain.{TaskStatus, Task, effective_attempt, runner_owned}
use burnrate.Store.Tables.{Store, task_key, run_key}
use burnrate.Store.Tasks.{
  get_task, update_task_row, set_task_status, reset_task_attempts, runs_of, create_task,
  delete_task, assign_orders, reorder_tasks, update_task, orders_of, new_task, status_or_queued,
  id_or_zero,
}
use burnrate.Store.Runs.{latest_run_for_task}

-- A task is found updated, and any other as it was.
pub get_task-update_task_row :
    (s : Store) (id j : ℕ) (f : Task → Task)
    → ((t : Task) → task_key (f t) ≡ task_key t)
    → get_task (update_task_row s id f) j
      ≡ (if id == j then on_some f (get_task s j) else get_task s j)
unfolding get_task update_task_row
get_task-update_task_row s id j f h = row-modify task_key id j f s.tasks h

-- A status that only the scheduler and the runner give, if the task has one.
abbrev pub owned_of : Option Task → Option TaskStatus
owned_of none = none
owned_of (some t) = if runner_owned t.status then some t.status else none

abbrev pub f_status : (Task → Task) → Task → TaskStatus
f_status f t = (f t).status

owned_of-on_some :
    (f : Task → Task) (o : Option Task)
    → ((t : Task) → f_status f t ≡ t.status)
    → owned_of (on_some f o) ≡ owned_of o
owned_of-on_some f none h = refl
owned_of-on_some f (some t) h = rw (h t)

unfoldable pub owned : Store → ℕ → Option TaskStatus
owned s j = owned_of (get_task s j)

module _ (s : Store) (now : Time) (id j : ℕ) where
  pub owned-set_task_status :
      (st : TaskStatus)
      → runner_owned st ≡ false
      → owned (set_task_status s now id st) j ≡ (if id == j then none else owned s j)
  unfolding owned set_task_status
  owned-set_task_status st h = ground (
    arith,
    get_task-update_task_row s id j (λ (t : Task). record t { status = st; updated_at = now })
        (λ (t : Task). refl),
  )

  pub owned-update_task_row :
      (f : Task → Task)
      → ((t : Task) → task_key (f t) ≡ task_key t)
      → ((t : Task) → f_status f t ≡ t.status)
      → owned (update_task_row s id f) j ≡ owned s j
  unfolding owned
  owned-update_task_row f k h =
      rw (get_task-update_task_row s id j f k) (ground (arith, owned_of-on_some f (get_task s j) h))

  pub owned-reset_task_attempts : owned (reset_task_attempts s id).0 j ≡ owned s j
  unfolding reset_task_attempts
  owned-reset_task_attempts = owned-update_task_row _ (λ (t : Task). refl) (λ (t : Task). refl)

  pub owned-update_task :
      (title prompt repo_path model : String)
      → owned (update_task s now id title prompt repo_path model).0 j ≡ owned s j
  unfolding update_task
  owned-update_task title prompt repo_path model =
      owned-update_task_row _ (λ (t : Task). refl) (λ (t : Task). refl)

pub owned-assign_orders :
    (now : Time) (ids os : List ℕ) (s : Store) (j : ℕ)
    → owned (assign_orders now ids os s) j ≡ owned s j
unfolding assign_orders
owned-assign_orders now [] os s j = refl
owned-assign_orders now (id ∷ ids) [] s j = refl
owned-assign_orders now (id ∷ ids) (o ∷ os) s j =
    owned-assign_orders now ids os _ j
    ∙ owned-update_task_row s now id j _ (λ (t : Task). refl) (λ (t : Task). refl)

pub owned-reorder_tasks :
    (s : Store) (now : Time) (ids : List ℕ) (j : ℕ)
    → owned (reorder_tasks s now ids).0 j ≡ owned s j
unfolding reorder_tasks
owned-reorder_tasks s now ids j = ground (arith, owned-assign_orders now ids (orders_of s ids) s j)

row-append :
    (j : ℕ) (t : Task) (ts : List Task)
    → row task_key j (ts ++ t ∷ [])
      ≡ elim (row task_key j ts) [ none ↦ (if t.id == j then some t else none) | some u ↦ some u ]
unfolding row
row-append j t [] = refl
row-append j t (u ∷ ts) = ground (arith, row-append j t ts)

row-keep :
    (id j : ℕ) (ts : List Task)
    → row task_key j (keep (λ t. not (t.id == id)) ts)
      ≡ (if id == j then none else row task_key j ts)
unfolding row
row-keep id j [] = ground arith
row-keep id j (t ∷ ts) = ground (arith, row-keep id j ts)

pub owned-create_task :
    (s : Store) (now : Time) (title prompt repo_path model : String) (st : TaskStatus) (j : ℕ)
    → owned (create_task s now title prompt repo_path model st).0 j ≡ owned s j
unfolding owned create_task get_task
owned-create_task s now title prompt repo_path model st j = ground (
  arith,
  row-append j (new_task s now title prompt repo_path model (status_or_queued st)) s.tasks,
)

-- Deleting a task takes its status with it.
pub owned-delete_task :
    (s : Store) (id j : ℕ)
    → (owned (delete_task s id).0 j ≡ owned s j)
      ⊎ ((id ≡ j) × (owned (delete_task s id).0 j ≡ none))
unfolding owned delete_task get_task
owned-delete_task s id j = ground (arith, row-keep id j s.tasks)

-- After a reset the task's newest run counts for no attempt.
pub reset-effective_attempt :
    (s : Store) (id : ℕ) (t : Task)
    → get_task (reset_task_attempts s id).0 id ≡ some t
    → effective_attempt t.attempt_reset_run_id (latest_run_for_task (reset_task_attempts s id).0 id)
      ≡ 0
unfolding reset_task_attempts effective_attempt latest_run_for_task
reset-effective_attempt s id t h = ground (
  arith,
  get_task-update_task_row s id id
      (λ (u : Task). record u {
        attempt_reset_run_id =
            max u.attempt_reset_run_id (id_or_zero (newest run_key (runs_of s id)));
      })
      (λ (u : Task). refl),
)
