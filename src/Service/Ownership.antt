-- ===== src/Service/Ownership.antt =====
-- The statuses that belong to the scheduler and the runner, under everything that a user or an
-- agent can call.
use burnrate.Prelude.{
  ℕ, ◌≡◌, ◌≢◌, refl, ap, ◌⊎◌, ◌∙◌, inl, inr, true, false, Option, none, some, List, String, arith,
}
use burnrate.Prelude.Tests.{◌==◌, ==_iff, if◌then◌else◌, Option-cases}
use burnrate.Scheduling.Types.{Time}
use burnrate.Domain.{TaskStatus, Task, runner_owned, is_running}
use burnrate.Store.Tables.{Store}
use burnrate.Store.Tasks
use burnrate.Store.Tasks.{get_task, reset_task_attempts}
use burnrate.Store.Runs
use burnrate.Store.Requests
use burnrate.Store.Laws.{
  owned, owned-set_task_status, owned-reset_task_attempts, owned-update_task, owned-reorder_tasks,
  owned-create_task, owned-delete_task,
}
use burnrate.Service.Base.{Env}
use burnrate.Service.Tasks.{
  create_task, update_task, delete_task, reorder_tasks, pause_task, resume_task, set_task_status,
  cancel_requests, retire, write_status, apply_status, final_status, path_or,
}
use burnrate.Service.Transitions.{validate-not-owned}

-- Task `j` keeps its runner-owned status, or it had none that a user may not take and has lost it.
abbrev pub KeepsOwned : Store → Store → ℕ → Type 0
KeepsOwned s s' j =
    (owned s' j ≡ owned s j) ⊎ ((owned s' j ≡ none) × (owned s j ≢ some TaskStatus.running))

module _ (s : Store) (now : Time) (id j : ℕ) where
  pub owned-requeue :
      (st : TaskStatus)
      → runner_owned st ≡ false
      → owned (reset_task_attempts (Tasks.set_task_status s now id st) id).0 j
        ≡ (if id == j then none else owned s j)
  owned-requeue st h =
      owned-reset_task_attempts (Tasks.set_task_status s now id st) now id j
      ∙ owned-set_task_status s now id j st h

  owned-write_status :
      (st : TaskStatus)
      → runner_owned st ≡ false
      → owned (write_status s now id st) j ≡ (if id == j then none else owned s j)
  unfolding write_status
  owned-write_status st h =
      ground (arith, owned-requeue st h, owned-set_task_status s now id j st h)

  owned-cancel : owned (Requests.cancel_task_requests s id) j ≡ owned s j
  unfolding owned Requests.cancel_task_requests get_task
  owned-cancel = refl

-- A task whose status is not running has no runner-owned status that the user may not take.
pub owned-not_running :
    (s : Store) (id j : ℕ) (t : Task)
    → get_task s id ≡ some t
    → is_running t.status ≡ false
    → (id == j) ≡ true
    → owned s j ≢ some TaskStatus.running
unfolding owned
owned-not_running s id j t g r e = ground (arith, ap (get_task s) ((==_iff id j).0 e))

module _ (e : Env) (now : Time) (id j : ℕ) where
  apply-KeepsOwned :
      (task : Task) (st : TaskStatus)
      → get_task e.store id ≡ some task
      → is_running task.status ≡ false
      → runner_owned st ≡ false
      → KeepsOwned e.store (apply_status e now id task st).0.store j
  unfolding apply_status cancel_requests
  apply-KeepsOwned task st g r o =
      let final = final_status task st (Runs.latest_run_for_task e.store id) in
      ground (
        arith,
        owned-write_status e.store now id j final,
        owned-write_status (Requests.cancel_task_requests e.store id) now id j final,
        owned-cancel e.store now id j,
        owned-not_running e.store id j task g r,
      )

  pub pause-KeepsOwned : KeepsOwned e.store (pause_task e now id).0.store j
  unfolding pause_task owned
  pause-KeepsOwned = ground (arith, owned-set_task_status e.store now id j TaskStatus.paused)

  pub resume-KeepsOwned : KeepsOwned e.store (resume_task e now id).0.store j
  unfolding resume_task owned
  resume-KeepsOwned = ground (
    arith,
    owned-requeue e.store now id j TaskStatus.queued,
    owned-requeue e.store now id j TaskStatus.resumable,
  )

  pub set_status-KeepsOwned :
      (inflight : List ℕ) (st : TaskStatus)
      → KeepsOwned e.store (set_task_status inflight e now id st).0.store j
  unfolding set_task_status
  set_status-KeepsOwned inflight st = elim (Option-cases (get_task e.store id)) [
    | inl p ↦ ground arith
    | inr (task, p) ↦ ground (arith, apply-KeepsOwned task st p, validate-not-owned task.status st)
  ]

  pub retire-KeepsOwned :
      (inflight : List ℕ) (st : TaskStatus)
      → runner_owned st ≡ false
      → KeepsOwned e.store (retire inflight e now id st).0.store j
  unfolding cancel_requests
  retire-KeepsOwned inflight st o = elim (Option-cases (get_task e.store id)) [
    | inl p ↦ ground arith
    | inr (task, p) ↦ ground (
      arith,
      owned-set_task_status (Requests.cancel_task_requests e.store id) now id j st,
      owned-cancel e.store now id j,
      owned-not_running e.store id j task p,
    )
  ]

  pub delete-KeepsOwned :
      (inflight : List ℕ) → KeepsOwned e.store (delete_task inflight e id).0.store j
  unfolding delete_task
  delete-KeepsOwned inflight = elim (Option-cases (get_task e.store id)) [
    | inl p ↦ ground arith
    | inr (task, p) ↦
        ground (
          arith,
          owned-delete_task e.store id j,
          owned-not_running e.store id j task p,
          ==_iff id j,
        )
  ]

  pub owned-create :
      (title prompt repo_path model : String) (st : TaskStatus)
      → owned (create_task e now title prompt repo_path model st).0.store j ≡ owned e.store j
  unfolding create_task
  owned-create title prompt repo_path model st =
      ground (arith, owned-create_task e.store now title prompt repo_path model st j)

  pub owned-update :
      (title prompt model : String) (repo_path : Option String)
      → owned (update_task e now id title prompt model repo_path).0.store j ≡ owned e.store j
  unfolding update_task
  owned-update title prompt model repo_path = elim (Option-cases (get_task e.store id)) [
    | inl p ↦ rw (p, update_task)
    | inr (task, p) ↦
        let path = path_or task.repo_path repo_path in
        rw (p, update_task)
          (owned-reset_task_attempts (Tasks.update_task e.store now id title prompt path model).0
              now id j
            ∙ owned-update_task e.store now id j title prompt path model)
  ]

  pub owned-reorder : (ids : List ℕ) → owned (reorder_tasks e now ids).0.store j ≡ owned e.store j
  unfolding reorder_tasks
  owned-reorder ids = ground (arith, owned-reorder_tasks e.store now ids j)
