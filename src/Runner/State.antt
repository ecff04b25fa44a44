-- ===== src/Runner/State.antt =====
-- What a run of internal/runner/runner.go has to do with: the answer of the Claude process, the
-- tables, and what is started beside. `text` is what the error's method `Error` writes.
use burnrate.Prelude.{ℕ, Bool, ◌||◌, List, ◌++◌, String}
use burnrate.Prelude.Text.{Text, is_set}
use burnrate.Scheduling.Types.{Time}
use burnrate.Domain.{Task, Run}
use burnrate.Store.Tables.{Store}

-- `claude.Result`
pub record ClaudeResult : Type 0 where
  pub session_id : String
  pub model : String
  pub result_text : Text
  pub cost_usd : ℕ
  pub num_turns : ℕ
  pub duration_ms : ℕ

-- The errors of `claude.Invoke`: an `ErrRateLimited` with its time of reset, an `ErrToolDenied` with
-- its message, an `ErrTimeout`, and any other.
pub data InvokeError : Type 0 where
  rate_limited : Time → String → InvokeError
  tool_denied : String → String → InvokeError
  timed_out : String → InvokeError
  session_not_found : String → InvokeError
  other : String → InvokeError

abbrev pub error_text : InvokeError → String
error_text (InvokeError.rate_limited reset_at text) = text
error_text (InvokeError.tool_denied message text) = text
error_text (InvokeError.timed_out text) = text
error_text (InvokeError.session_not_found text) = text
error_text (InvokeError.other text) = text

pub data RunnerAct : Type 0 where
  -- `notifyRunMutation`
  mutated : ℕ → RunnerAct
  -- `cleanupAgentWorkdir` and `CheckpointAndRemove`
  cleanup_agent_workdir : String → ℕ → RunnerAct
  checkpoint_and_remove : String → String → ℕ → RunnerAct
  -- `notify.HumanRequest` and `notify.Review`
  notify_human_request : ℕ → String → RunnerAct
  notify_review : ℕ → String → Text → RunnerAct

pub record RunnerEnv : Type 0 where
  pub store : Store
  pub acts : List RunnerAct

abbrev pub with_acts : RunnerEnv → List RunnerAct → RunnerEnv
with_acts e fx = record e { acts = e.acts ++ fx }

-- The variables of `Run` that it hands to `classify`.
pub record Job : Type 0 where
  pub task : Task
  pub run : Run
  pub repo_path : String
  pub default_branch : Text
  pub worktree_path : String
  pub prior_session : String
  pub agent_mode : Bool

abbrev pub has_session : ClaudeResult → Job → Bool
has_session result j = is_set result.session_id || is_set j.prior_session
