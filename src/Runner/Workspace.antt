-- ===== src/Runner/Workspace.antt =====
-- Where `Run` of internal/runner/runner.go puts a run: its directory and branch. What git, the file system and the token store answer is given; an error is its text.
use burnrate.Prelude.{ℕ, ◌+◌, Bool, not, ◌&&◌, Option, none, some, List, [], ◌∷◌, String}
use burnrate.Prelude.Tests.{if◌then◌else◌}
use burnrate.Prelude.Lists.{keep}
use burnrate.Prelude.Int.{ℤ}
use burnrate.Prelude.Text.{Text, codes, no_text, is_blank}
use burnrate.Scheduling.Types.{Time, Duration}
use burnrate.Domain.{Task, Run, Comment, effective_attempt, is_agent}
use burnrate.Store.Tables.{Store}
use burnrate.Store.Runs.{latest_run_for_task}
use burnrate.Store.Comments.{unconsumed_comments}
use burnrate.Runner.Preflight.{Preflight}

-- What `Run` finds. `none` for an error is that there is none.
pub record Surroundings : Type 0 where
  pub now : Time
  pub window_id : String
  pub max_attempts : ℤ
  pub model : String
  pub timeout : Duration
  -- the directories of a task below the roots for agents and for worktrees, and the new branch
  pub agent_dir : ℕ → String
  pub worktree_dir : ℕ → String
  pub new_branch : Task → Text
  pub mkdir_error : Option String
  pub default_branch : Option Text
  pub default_branch_error : String
  pub is_present : String → Bool
  pub exists_at_origin : Text → Bool
  pub add_from_branch_error : Option String
  pub add_worktree_error : Option String
  pub token_error : Option String

-- `userComments`
unfoldable pub user_comments : List Comment → List Comment
user_comments comments = keep (λ (c : Comment). not (is_agent c.author)) comments

-- Where the run works.
pub record Workspace : Type 0 where
  pub worktree_path : String
  pub branch : Text
  pub repo_path : String
  pub default_branch : Text
  pub attempt : ℕ

pub data Prepared : Type 0 where
  ready : Workspace → Prepared
  refused : Preflight → Prepared

module _ (x : Surroundings) (task : Task) where
  abbrev pub refusal : String → Text → String → String → Preflight
  refusal worktree_path branch repo_path err = record {
    now = x.now;
    window_id = x.window_id;
    worktree_path = worktree_path;
    branch = branch;
    repo_path = repo_path;
    err = err;
  }

  abbrev unless_error : Option String → (String → Preflight) → Workspace → Prepared
  unless_error none refuse ws = Prepared.ready ws
  unless_error (some err) refuse ws = Prepared.refused (refuse err)

  abbrev resume_attempt : Run → ℕ
  resume_attempt r = effective_attempt task.attempt_reset_run_id (some r) + 1

  -- A task without a repository.
  unfoldable pub agent_workspace : Option Run → Prepared
  unfolding effective_attempt
  agent_workspace (some r) = unless_error x.mkdir_error (refusal r.worktree_path [] "") (record {
    worktree_path = r.worktree_path;
    branch = r.branch;
    repo_path = "";
    default_branch = [];
    attempt = resume_attempt r;
  })
  agent_workspace none = unless_error x.mkdir_error (refusal (x.agent_dir task.id) [] "") (record {
    worktree_path = x.agent_dir task.id;
    branch = [];
    repo_path = "";
    default_branch = [];
    attempt = 1;
  })

  abbrev or_develop : Option Text → Text
  or_develop none = codes "develop"
  or_develop (some []) = codes "develop"
  or_develop (some (c ∷ cs)) = c ∷ cs

  abbrev managed : String → Text → Text → ℕ → Workspace
  managed worktree_path branch default_branch attempt = record {
    worktree_path = worktree_path;
    branch = branch;
    repo_path = task.repo_path;
    default_branch = default_branch;
    attempt = attempt;
  }

  -- The branch of an earlier run that a follow-up goes on with.
  abbrev branch_at_origin : Option Run → Option Text
  branch_at_origin none = none
  branch_at_origin (some r) =
      if not (no_text r.branch) && x.exists_at_origin r.branch then some r.branch else none

  unfoldable pub followup_branch : Store → Option Text
  unfolding user_comments latest_run_for_task unconsumed_comments
  followup_branch s = elim (user_comments (unconsumed_comments s task.id)) [
    | [] ↦ none
    | c ∷ cs ↦ branch_at_origin (latest_run_for_task s task.id)
  ]

  abbrev fresh_worktree : Text → Option Text → Prepared
  fresh_worktree default_branch (some branch) =
      let dir = x.worktree_dir task.id in
      unless_error x.add_from_branch_error (refusal dir branch task.repo_path)
        (managed dir branch default_branch 1)
  fresh_worktree default_branch none =
      let dir = x.worktree_dir task.id in
      let branch = x.new_branch task in
      unless_error x.add_worktree_error (refusal dir branch task.repo_path)
        (managed dir branch default_branch 1)

  -- A task of a repository.
  unfoldable pub managed_workspace : Store → Option Run → Prepared
  unfolding followup_branch effective_attempt
  managed_workspace s (some r) =
      let ws = managed r.worktree_path r.branch (or_develop x.default_branch) (resume_attempt r) in
      if not (x.is_present r.worktree_path) && not (no_text r.branch)
      then unless_error x.add_from_branch_error (refusal r.worktree_path r.branch task.repo_path) ws
      else Prepared.ready ws
  managed_workspace s none = elim x.default_branch [
    | none ↦ Prepared.refused (refusal "" [] task.repo_path x.default_branch_error)
    | some default_branch ↦ fresh_worktree default_branch (followup_branch s)
  ]

  abbrev pub workspace : Store → Option Run → Prepared
  workspace s resume =
      if is_blank task.repo_path then agent_workspace resume else managed_workspace s resume

pub data RunError : Type 0 where
  preflight_failed create_failed token_failed : RunError
