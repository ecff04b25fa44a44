-- ===== src/Runner/Started.antt =====
-- How a launch leaves the task, and its run.
use burnrate.Prelude.{
  ℕ, ◌+◌, ◌≤◌, ◌≡◌, ◌⊎◌, inl, inr, refl, ap, ◌∙◌, Option, none, some, List, [], ◌∷◌, ◌++◌, String,
  arith,
}
use burnrate.Prelude.Tests.{either, Bool-cases}
use burnrate.Prelude.Lists.{All}
use burnrate.Prelude.Table.{row}
use burnrate.Prelude.Text.{is_set, is_blank, eq_iff}
use burnrate.Scheduling.Types.{Time}
use burnrate.Domain.{TaskStatus, RunStatus, Task, Run}
use burnrate.Store.Tables.{Store, run_key}
use burnrate.Store.Tasks.{get_task}
use burnrate.Store.Runs.{
  get_run, create_run, finish_run, new_run, set_run_session_id, set_run_status, set_run_model,
  update_run_row,
}
use burnrate.Store.Statuses.{
  task_status, run_status, put, put-put, status_of_task, status_of_run, Same-run_row,
  task_status-set_task_status, run_status-set_run_status, run_status-set_task_status,
}
use burnrate.Runner.State.{RunnerEnv, RunnerAct}
use burnrate.Runner.Preflight.{Preflight, preflight_error, attempts}
use burnrate.Runner.Workspace.{Surroundings, Workspace, Prepared}
use burnrate.Runner.Launch.{
  Launched, RunError, session_of, resumed_row, token_status, started, with_token, launch_ready,
  launch_prepared, begin_run, model_of,
}
use burnrate.Runner.Cap.{Issued, GivenUp, preflight_all, preflight_all-status}

-- How a launch leaves a task that it does not get to run: with no token it is to be taken up again,
-- resumed if there is a session to resume; any other error is one of the attempts.
abbrev pub Unstarted : Surroundings → Option Run → ℕ → RunError → Option TaskStatus → Type 0
Unstarted x resume n RunError.token_failed st =
    ¬ (x.token_error ≡ none)
    × (((session_of resume ≡ "") × (st ≡ some TaskStatus.queued))
        ⊎ (¬ (session_of resume ≡ "") × (st ≡ some TaskStatus.resumable)))
Unstarted x resume n RunError.preflight_failed st = GivenUp x.max_attempts n st
Unstarted x resume n RunError.create_failed st = ⊥

-- What a launch of the task leaves.
abbrev pub Outcome : Surroundings → Option Run → ℕ → ℕ → RunnerEnv × Launched → Type 0
Outcome x resume n id (e, Launched.returned err) = Unstarted x resume n err (task_status e.store id)
Outcome x resume n id (e, Launched.calling j call) =
    (j.task.id ≡ id)
    × (x.token_error ≡ none)
    × (task_status e.store id ≡ some TaskStatus.running)
    × (run_status e.store j.run.id ≡ some RunStatus.running)

run_status-appended :
    (last : ℕ) (new : Run) (xs : List Run)
    → All (λ (r : Run). r.id ≤ last) xs
    → new.id ≡ last + 1
    → status_of_run (row run_key (last + 1) (xs ++ new ∷ [])) ≡ some new.status
unfolding row
run_status-appended last new [] h m = ground (arith, m)
run_status-appended last new (x ∷ xs) h m =
    ground (arith, m, h.0, run_status-appended last new xs h.1 m)

task_status-resumed_row :
    (resume : Option Run) (run_id id : ℕ) (s : Store)
    → task_status (resumed_row resume run_id s) id ≡ task_status s id
unfolding task_status get_task set_run_status set_run_session_id update_run_row
task_status-resumed_row none run_id id s = refl
task_status-resumed_row (some r) run_id id s =
    either (λ (s' : Store). task_status s' id ≡ task_status s id) (is_set r.session_id)
      (set_run_session_id s run_id r.session_id) s refl refl

run_status-resumed_row :
    (st : RunStatus) (resume : Option Run) (run_id : ℕ) (s : Store)
    → put st (run_status (resumed_row resume run_id s) run_id) ≡ put st (run_status s run_id)
unfolding set_run_session_id
run_status-resumed_row st none run_id s = refl
run_status-resumed_row st (some r) run_id s =
    ap (put st) (run_status-set_run_status _ run_id run_id RunStatus.resuming)
    ∙ put-put st RunStatus.resuming _
    ∙ ap (put st) (
        either (λ (s' : Store). run_status s' run_id ≡ run_status s run_id) (is_set r.session_id)
          (set_run_session_id s run_id r.session_id) s
          (Same-run_row s run_id run_id run_id _ (λ (r : Run). refl) (λ (r : Run). refl)).1 refl)

put-some : {A : Type 0} (a b : A) (o : Option A) → o ≡ some b → put a o ≡ some a
put-some a b o h = rw h refl

token_status-resume :
    (resume : Option Run)
    → ((session_of resume ≡ "") × (token_status resume ≡ TaskStatus.queued))
      ⊎ (¬ (session_of resume ≡ "") × (token_status resume ≡ TaskStatus.resumable))
token_status-resume resume = elim (Bool-cases (is_blank (session_of resume))) [
  | inl blank ↦ inl ((eq_iff (session_of resume) "").0 blank, rw blank refl)
  | inr set ↦ inr (λ e. (let k = (eq_iff (session_of resume) "").1 e in cc), rw set refl)
]

token_status-Unstarted :
    (x : Surroundings) (resume : Option Run) (n : ℕ) (o : Option TaskStatus) (err : String)
    → x.token_error ≡ some err
    → o ≡ some (token_status resume)
    → Unstarted x resume n RunError.token_failed o
token_status-Unstarted x resume n o err e h = (
  λ k. cc,
  elim (token_status-resume resume) [
    | inl (blank, q) ↦ inl (blank, h ∙ ap some q)
    | inr (set, q) ↦ inr (set, h ∙ ap some q)
  ],
)

-- The last updates of a run that starts.
running_row-statuses :
    (s : Store) (run_id id : ℕ) (model : String)
    → let s' = set_run_model (set_run_status s run_id RunStatus.running) run_id model in
      (task_status s' id ≡ task_status s id)
      × (run_status s' run_id ≡ put RunStatus.running (run_status s run_id))
unfolding set_run_model task_status set_run_status update_run_row get_task
running_row-statuses s run_id id model = (
  refl,
  (Same-run_row (set_run_status s run_id RunStatus.running) id run_id run_id
        (λ (r : Run). record r { model = model }) (λ (r : Run). refl) (λ (r : Run). refl)).1
      ∙ run_status-set_run_status s id run_id RunStatus.running,
)

task_status-finish_run :
    (s : Store) (now : Time) (run_id id : ℕ) (error : String)
    → task_status (finish_run s now run_id RunStatus.errored 0 0 [] error []) id ≡ task_status s id
unfolding task_status finish_run update_run_row get_task
task_status-finish_run s now run_id id error = refl

module _ (x : Surroundings) (task : Task) (resume : Option Run) where
  module _ (e : RunnerEnv) (t : Task) (h : get_task e.store task.id ≡ some t) where
    abbrev Launch : RunnerEnv × Launched → Type 0
    Launch = Outcome x resume (attempts e.store task.id + 1) task.id

    module _ (ws : Workspace) where
      abbrev run : Run
      run =
          new_run (e.store.last_run + 1) x.now task.id ws.worktree_path ws.branch ws.repo_path
            x.window_id ws.attempt

      abbrev created : Store
      created =
          (create_run e.store x.now task.id ws.worktree_path ws.branch ws.repo_path x.window_id
            ws.attempt).0

      task_status-created : task_status created task.id ≡ some t.status
      unfolding task_status create_run get_task
      task_status-created = ap status_of_task h

      task_status-started :
          task_status (started x task resume created run.id) task.id ≡ some TaskStatus.running
      unfolding started
      task_status-started =
          task_status-set_task_status (resumed_row resume run.id created) task.id run.id x.now
            TaskStatus.running
          ∙ put-some TaskStatus.running t.status _
              (task_status-resumed_row resume run.id task.id created ∙ task_status-created)

      run_status-created :
          Issued e.store task.id → run_status created run.id ≡ some RunStatus.starting
      unfolding create_run run_status get_run
      run_status-created i = run_status-appended e.store.last_run run e.store.runs i.0 refl

      run_status-started :
          Issued e.store task.id
          → put RunStatus.running (run_status (started x task resume created run.id) run.id)
            ≡ some RunStatus.running
      unfolding started
      run_status-started i =
          ap (put RunStatus.running) (
            run_status-set_task_status (resumed_row resume run.id created) task.id run.id x.now
              TaskStatus.running)
          ∙ run_status-resumed_row RunStatus.running resume run.id created
          ∙ put-some RunStatus.running RunStatus.starting _ (run_status-created i)

      with_token-Outcome :
          (fx : List RunnerAct) (err : Option String)
          → x.token_error ≡ err
          → Issued e.store task.id
          → Launch (
              with_token x task resume
                (record { store = started x task resume created run.id; acts = fx })
                ws
                run
                err)
      unfolding with_token
      with_token-Outcome fx (some err) token i =
          let s = started x task resume created run.id in
          token_status-Unstarted x resume (attempts e.store task.id + 1) _ err token (
            task_status-set_task_status (finish_run s x.now run.id RunStatus.errored 0 0 [] err [])
              task.id run.id x.now (token_status resume)
            ∙ put-some (token_status resume) TaskStatus.running _
                (task_status-finish_run s x.now run.id task.id err ∙ task_status-started))
      with_token-Outcome fx none token i =
          let r =
            running_row-statuses (started x task resume created run.id) run.id task.id
              (model_of x task) in
          (refl, token, r.0 ∙ task_status-started, r.1 ∙ run_status-started i)

    launch_ready-Outcome :
        (ws : Workspace) (o : Option Task)
        → get_task e.store task.id ≡ o
        → Issued e.store task.id
        → Launch (launch_ready x task resume e ws o)
    unfolding launch_ready create_run
    launch_ready-Outcome ws none p i = cc
    launch_ready-Outcome ws (some r) p i = with_token-Outcome ws _ x.token_error refl i

    preflight_error-Outcome :
        (p : Preflight)
        → Issued e.store task.id
        → GivenUp x.max_attempts
            (attempts e.store task.id + 1)
            (task_status (preflight_error e task.id x.max_attempts p).store task.id)
    unfolding preflight_all
    preflight_error-Outcome p i = preflight_all-status task.id x.max_attempts p [] e t h i

    launch_prepared-Outcome :
        (o : Prepared) → Issued e.store task.id → Launch (launch_prepared x task resume e o)
    unfolding launch_prepared
    launch_prepared-Outcome (Prepared.refused p) i = preflight_error-Outcome p i
    launch_prepared-Outcome (Prepared.ready ws) i = launch_ready-Outcome ws _ refl i

  -- A launch of a task that is there, in tables whose runs and reset have numbers that were given out,
  -- gets to its call of `claude`, with a token, the task and its new run shown as running, or it returns
  -- an error and the task is not running. With an error of the token it is queued, or resumable if
  -- there is a session to resume. With any other error the run counts as an attempt: the task has
  -- failed if the limit is above 0 and the attempts with this one have reached it, and is queued
  -- otherwise.
  pub begin_run-Outcome :
      (e : RunnerEnv) (t : Task)
      → get_task e.store task.id ≡ some t
      → Issued e.store task.id
      → Outcome x resume (attempts e.store task.id + 1) task.id (begin_run x task resume e)
  unfolding begin_run
  begin_run-Outcome e t h i = launch_prepared-Outcome e t h _ i
