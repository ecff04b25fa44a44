-- ===== src/Domain.antt =====
-- internal/domain/models.go: the rows of the database, and the attempt count. A status column is
-- an enumeration of the source's constants; a text that is none of them is `unnamed`. Numbers that
-- the program only adds (costs, turns, lines) and ids are natural numbers, and an id of 0 is none.
use burnrate.Prelude.{ℕ, Bool, true, false, Option, none, some, String}
use burnrate.Prelude.Tests.{leb, if◌then◌else◌}
use burnrate.Prelude.Text.{Text}
use burnrate.Scheduling.Types.{Time}

pub data TaskStatus : Type 0 where
  queued running resumable done failed paused dismissed backlog : TaskStatus
  pr_created awaiting_human : TaskStatus
  -- the empty text, and any other
  empty : TaskStatus
  unnamed : String → TaskStatus

-- `succeeded` is what the runner writes; `completed` is the domain's constant for it.
pub data RunStatus : Type 0 where
  starting running resuming completed succeeded errored : RunStatus
  rate_limited timed_out abandoned : RunStatus

pub data RequestKind : Type 0 where
  question demo capture_approval : RequestKind
  unnamed_kind : String → RequestKind

pub data RequestStatus : Type 0 where
  pending answered denied expired canceled : RequestStatus

pub data Author : Type 0 where
  user agent : Author

pub record Task : Type 0 where
  pub id : ℕ
  pub title : String
  pub prompt : String
  pub repo_path : String
  pub model : String
  pub sort_order : ℕ
  pub status : TaskStatus
  pub created_at : Time
  pub updated_at : Time
  pub attempt_reset_run_id : ℕ
  pub summary : Text

pub record Run : Type 0 where
  pub id : ℕ
  pub task_id : ℕ
  pub session_id : String
  pub worktree_path : String
  pub branch : Text
  pub repo_path : String
  pub pid : ℕ
  pub status : RunStatus
  pub attempt : ℕ
  pub cost_usd : ℕ
  pub num_turns : ℕ
  pub pr_url : Text
  pub error : String
  pub window_id : String
  pub rate_limit_reset_at : Time
  pub started_at : Time
  pub ended_at : Time
  pub agent_repo : Text
  pub agent_worked_in : Text
  pub result_text : Text
  pub model : String
  pub lines_added : ℕ
  pub lines_removed : ℕ

pub record HumanRequest : Type 0 where
  pub id : ℕ
  pub task_id : ℕ
  pub run_id : ℕ
  pub kind : RequestKind
  pub title : String
  pub body : String
  pub status : RequestStatus
  pub live : Bool
  pub created_at : Time
  pub answered_at : Time
  pub response_comment_id : ℕ

-- `consumed_by_run` is 0 for a comment that no run has consumed; the -1 of `MarkCommentConsumed`,
-- "delivered, by no run", is `by_no_run`.
pub data Consumer : Type 0 where
  unconsumed by_no_run : Consumer
  by_run : ℕ → Consumer

pub record Comment : Type 0 where
  pub id : ℕ
  pub task_id : ℕ
  pub author : Author
  pub body : Text
  pub created_at : Time
  pub consumed_by_run : Consumer

-- The state of a pull request that `gh` reports, the local `PRStateGone`, or none yet.
pub data PrState : Type 0 where
  unprobed open_ merged closed gone : PrState

pub record TaskPr : Type 0 where
  pub id : ℕ
  pub task_id : ℕ
  pub run_id : ℕ
  pub repo : Text
  pub branch : Text
  pub pr_url : Text
  pub worked_in : Text
  pub created_at : Time
  pub lines_added : ℕ
  pub lines_removed : ℕ
  pub pr_state : PrState
  pub pr_is_draft : Bool
  pub pr_checked_at : Time
  pub pr_probe_failures : ℕ

-- `EffectiveAttempt`
unfoldable pub effective_attempt : ℕ → Option Run → ℕ
effective_attempt attempt_reset_run_id none = 0
effective_attempt attempt_reset_run_id (some prior) =
    if leb prior.id attempt_reset_run_id then 0 else prior.attempt

abbrev pub is_running : TaskStatus → Bool
is_running TaskStatus.running = true
is_running _ = false

abbrev pub is_queued : TaskStatus → Bool
is_queued TaskStatus.queued = true
is_queued _ = false

abbrev pub is_resumable : TaskStatus → Bool
is_resumable TaskStatus.resumable = true
is_resumable _ = false

abbrev pub is_paused : TaskStatus → Bool
is_paused TaskStatus.paused = true
is_paused _ = false

abbrev pub is_backlog : TaskStatus → Bool
is_backlog TaskStatus.backlog = true
is_backlog _ = false

abbrev pub is_awaiting_human : TaskStatus → Bool
is_awaiting_human TaskStatus.awaiting_human = true
is_awaiting_human _ = false

abbrev pub is_done : TaskStatus → Bool
is_done TaskStatus.done = true
is_done _ = false

abbrev pub is_dismissed : TaskStatus → Bool
is_dismissed TaskStatus.dismissed = true
is_dismissed _ = false

abbrev pub is_empty : TaskStatus → Bool
is_empty TaskStatus.empty = true
is_empty _ = false

-- A run that a process is behind.
abbrev pub is_active : RunStatus → Bool
is_active RunStatus.starting = true
is_active RunStatus.running = true
is_active RunStatus.resuming = true
is_active _ = false

-- The `case "rate_limited", "timed_out", "errored"` of the services.
abbrev pub is_interrupted : RunStatus → Bool
is_interrupted RunStatus.rate_limited = true
is_interrupted RunStatus.timed_out = true
is_interrupted RunStatus.errored = true
is_interrupted _ = false

abbrev pub is_pending : RequestStatus → Bool
is_pending RequestStatus.pending = true
is_pending _ = false

abbrev pub is_answered : RequestStatus → Bool
is_answered RequestStatus.answered = true
is_answered _ = false

abbrev pub is_unconsumed : Consumer → Bool
is_unconsumed Consumer.unconsumed = true
is_unconsumed _ = false

abbrev pub is_agent : Author → Bool
is_agent Author.agent = true
is_agent _ = false

-- The statuses that only the scheduler and the runner give.
abbrev pub runner_owned : TaskStatus → Bool
runner_owned TaskStatus.running = true
runner_owned TaskStatus.pr_created = true
runner_owned TaskStatus.awaiting_human = true
runner_owned _ = false
