-- ===== src/Runner/Preflight.antt =====
-- `preflightError` of internal/runner/runner.go.
use burnrate.Prelude.{ℕ, ◌+◌, Bool, ◌&&◌, Option, none, some, [], ◌∷◌, String}
use burnrate.Prelude.Tests.{if◌then◌else◌}
use burnrate.Prelude.Int.{ℤ, pos, ltb_ℤ, leb_ℤ}
use burnrate.Prelude.Text.{Text}
use burnrate.Scheduling.Types.{Time}
use burnrate.Domain.{TaskStatus, RunStatus, Task, effective_attempt}
use burnrate.Store.Tables.{Store}
use burnrate.Store.Tasks.{get_task, set_task_status}
use burnrate.Store.Runs.{create_run, finish_run, latest_run_for_task}
use burnrate.Runner.State.{RunnerAct, RunnerEnv, with_acts}

-- The arguments of the call besides the task.
pub record Preflight : Type 0 where
  pub now : Time
  pub window_id : String
  pub worktree_path : String
  pub branch : Text
  pub repo_path : String
  pub err : String

abbrev pub reset_run_id : Option Task → ℕ
reset_run_id none = 0
reset_run_id (some t) = t.attempt_reset_run_id

-- The attempts that count against a task: `EffectiveAttempt` of its latest run.
unfoldable pub attempts : Store → ℕ → ℕ
unfolding effective_attempt latest_run_for_task get_task
attempts s task_id =
    effective_attempt (reset_run_id (get_task s task_id)) (latest_run_for_task s task_id)

-- `maxAttempts > 0 && attempt >= maxAttempts`
abbrev pub spent : ℤ → ℕ → Bool
spent max_attempts attempt = ltb_ℤ (pos 0) max_attempts && leb_ℤ max_attempts (pos attempt)

abbrev pub preflight_status : ℤ → ℕ → TaskStatus
preflight_status max_attempts attempt =
    if spent max_attempts attempt then TaskStatus.failed else TaskStatus.queued

-- The errored run of the attempt.
unfoldable pub errored_run : Store → ℕ → Preflight → Store
unfolding create_run finish_run attempts
errored_run s task_id p =
    let (s', run_id) =
      create_run s p.now task_id p.worktree_path p.branch p.repo_path p.window_id
        (attempts s task_id + 1) in
    finish_run s' p.now run_id RunStatus.errored 0 0 [] p.err []

unfoldable pub preflight_found : RunnerEnv → ℕ → ℤ → Preflight → Option Task → RunnerEnv
unfolding errored_run attempts
preflight_found e task_id max_attempts p none = e
preflight_found e task_id max_attempts p (some t) =
    let status = preflight_status max_attempts (attempts e.store task_id + 1) in
    with_acts
      (record e { store = set_task_status (errored_run e.store task_id p) p.now task_id status })
      (RunnerAct.mutated task_id ∷ [])

-- `preflightError`, which returns the error that it is given. `runs.task_id` refers to the task, so
-- that `CreateRun` fails for a task that is gone.
unfoldable pub preflight_error : RunnerEnv → ℕ → ℤ → Preflight → RunnerEnv
unfolding preflight_found
preflight_error e task_id max_attempts p =
    preflight_found e task_id max_attempts p (get_task e.store task_id)
