-- ===== src/Runner/Launch.antt =====
-- `Run` of internal/runner/runner.go: up to the call of `claude`, what that call reports, and what
-- follows it. The tables may change while `claude` runs.
use burnrate.Prelude.{ℕ, Bool, true, false, not, ◌&&◌, Option, none, some, [], ◌∷◌, String}
use burnrate.Prelude.Tests.{if◌then◌else◌}
use burnrate.Prelude.Text.{is_set, is_blank, str_eq}
use burnrate.Domain.{TaskStatus, RunStatus, Task, Run}
use burnrate.Store.Tables.{Store}
use burnrate.Store.Tasks.{get_task, set_task_status}
use burnrate.Store.Runs.{
  create_run, new_run, finish_run, set_run_session_id, set_run_status, set_run_model, set_run_pid,
}
use burnrate.Scheduler.State.{Cause}
use burnrate.Runner.State.{ClaudeResult, InvokeError, RunnerAct, RunnerEnv, with_acts, Job}
use burnrate.Runner.Preflight.{preflight_error}
use burnrate.Runner.Continue.{Call}
use burnrate.Runner.Classify.{World, classify}
use burnrate.Runner.Workspace.{
  Surroundings, Workspace, Prepared, workspace, agent_workspace, managed_workspace,
}

pub data RunError : Type 0 where
  preflight_failed create_failed token_failed : RunError

-- How far `Run` got: it returned, or it calls `claude`.
pub data Launched : Type 0 where
  returned : RunError → Launched
  calling : Job → Call → Launched

abbrev pub session_of : Option Run → String
session_of none = ""
session_of (some r) = r.session_id

abbrev pub model_of : Surroundings → Task → String
model_of x task = if is_set task.model then task.model else x.model

-- The row of a run that resumes another one.
abbrev pub resumed_row : Option Run → ℕ → Store → Store
resumed_row none run_id s = s
resumed_row (some r) run_id s =
    set_run_status (if is_set r.session_id then set_run_session_id s run_id r.session_id else s)
      run_id RunStatus.resuming

-- A run that cannot get its token.
abbrev pub token_status : Option Run → TaskStatus
token_status resume = if is_set (session_of resume) then TaskStatus.resumable else TaskStatus.queued

module _ (x : Surroundings) (task : Task) (resume : Option Run) where
  abbrev job : Workspace → Run → Job
  job ws run = record {
    task = task;
    run = run;
    repo_path = task.repo_path;
    default_branch = ws.default_branch;
    worktree_path = ws.worktree_path;
    prior_session = session_of resume;
    agent_mode = is_blank task.repo_path;
  }

  abbrev call : Call
  call = record { resume_session_id = session_of resume; nudge = none; timeout = x.timeout }

  -- The run's row is there, and the task is running.
  unfoldable pub started : Store → ℕ → Store
  started s run_id = set_task_status (resumed_row resume run_id s) x.now task.id TaskStatus.running

  -- After `resolveTokenEnv`.
  unfoldable pub with_token : RunnerEnv → Workspace → Run → Option String → RunnerEnv × Launched
  with_token e ws run (some err) = (
    with_acts
        (record e {
          store =
              set_task_status (finish_run e.store x.now run.id RunStatus.errored 0 0 [] err [])
                x.now task.id (token_status resume);
        })
        (RunnerAct.mutated task.id ∷ []),
    Launched.returned RunError.token_failed,
  )
  with_token e ws run none = (
    with_acts
        (record e {
          store =
              set_run_model (set_run_status e.store run.id RunStatus.running) run.id
                (model_of x task);
        })
        (RunnerAct.mutated task.id ∷ []),
    Launched.calling (job ws run) call,
  )

  -- From `CreateRun` on, which a missing task refuses.
  unfoldable pub launch_ready : RunnerEnv → Workspace → Option Task → RunnerEnv × Launched
  unfolding started with_token create_run
  launch_ready e ws none = (e, Launched.returned RunError.create_failed)
  launch_ready e ws (some row) =
      let (s, run_id) =
        create_run e.store x.now task.id ws.worktree_path ws.branch ws.repo_path x.window_id
          ws.attempt in
      let run =
        new_run run_id x.now task.id ws.worktree_path ws.branch ws.repo_path x.window_id
          ws.attempt in
      with_token
        (with_acts (record e { store = started s run_id }) (RunnerAct.mutated task.id ∷ [])) ws run
        x.token_error

  unfoldable pub launch_prepared : RunnerEnv → Prepared → RunnerEnv × Launched
  unfolding launch_ready preflight_error
  launch_prepared e (Prepared.refused p) =
      (preflight_error e task.id x.max_attempts p, Launched.returned RunError.preflight_failed)
  launch_prepared e (Prepared.ready ws) = launch_ready e ws (get_task e.store task.id)

  -- `Run`, up to its call of `claude`.
  unfoldable pub begin_run : RunnerEnv → RunnerEnv × Launched
  unfolding launch_prepared agent_workspace managed_workspace
  begin_run e = launch_prepared e (workspace x task e.store resume)

-- What `Invoke` and the auto-continue loop report while the run goes on.
pub data Report : Type 0 where
  pid : ℕ → Report
  session : String → Report
  continues : Report

unfoldable pub on_report : RunnerEnv → Job → Report → RunnerEnv
on_report e j (Report.pid n) = record e { store = set_run_pid e.store j.run.id n }
on_report e j (Report.session id) = record e { store = set_run_session_id e.store j.run.id id }
on_report e j Report.continues =
    with_acts (record e { store = set_run_status e.store j.run.id RunStatus.resuming })
      (RunnerAct.mutated j.task.id ∷ [])

abbrev is_session_not_found : Option InvokeError → Bool
is_session_not_found (some (InvokeError.session_not_found text)) = true
is_session_not_found _ = false

-- The second call, without the session that `claude` does not know, if there is to be one.
unfoldable pub restart :
    RunnerEnv → Job → Call → Option InvokeError → Option (RunnerEnv × (Job × Call))
restart e j call err =
    if is_session_not_found err && is_set call.resume_session_id
    then some (
      with_acts
          (record e {
            store =
                set_run_status (set_run_session_id e.store j.run.id "") j.run.id RunStatus.running;
          })
          (RunnerAct.mutated j.task.id ∷ []),
      (record j { prior_session = "" }, record call { resume_session_id = "" }),
    )
    else none

-- The rest of `Run`: the model that answered, if it is not the one asked for, and the classification.
unfoldable pub end_run :
    World
    → String
    → RunnerEnv
    → Job
    → ClaudeResult
    → Option InvokeError
    → Option Cause
    → RunnerEnv × Option InvokeError
unfolding classify
end_run w model e j result err cause =
    let s = set_run_pid e.store j.run.id 0 in
    let s' =
      if is_set result.model && not (str_eq result.model model)
      then set_run_model s j.run.id result.model
      else s in
    classify w (record e { store = s' }) j result err cause
