-- ===== src/Recovery.antt =====
-- internal/recovery/recovery.go: the branches of interrupted runs that are pushed late, and the
-- working directories of runs that are over. What git, `gh` and the file system answer is given.
pub mod Kept
use burnrate.Prelude.{
  Bool, true, false, not, ◌||◌, ◌&&◌, Option, none, some, List, [], ◌∷◌, ◌++◌, String, map,
}
use burnrate.Prelude.Tests.{if◌then◌else◌}
use burnrate.Prelude.Lists.{keep, any}
use burnrate.Prelude.Text.{
  Text, codes, no_text, text_eq, trim_space, starts_with, is_blank, is_set, str_eq,
}
use burnrate.Scheduling.Types.{Time}
use burnrate.Domain.{RunStatus, Run, Task, is_active, is_interrupted}
use burnrate.Store.Tables.{Store}
use burnrate.Store.Tasks.{get_task}
use burnrate.Store.Runs.{finish_run, runs_by_status}
use burnrate.Store.TaskPrs.{upsert_task_pr}

pub record Checkouts : Type 0 where
  -- a path is there
  pub stat : String → Bool
  -- `git.DefaultBranch`, no text for its error
  pub default_branch : String → Text
  -- `git.HasUnpushedCommits`, none for its error, and whether `git.PushBranch` succeeds
  pub has_unpushed : String → Text → Option Bool
  pub pushes : String → Text → Bool
  -- the outputs of `gh pr view` and of `gh pr create`, which can fail
  pub viewed : String → Text → Text
  pub created : String → Text → Text → String → Option Text

abbrev pub own_prefix : Text
own_prefix = codes "burnrate/"

abbrev pub is_https : Text → Bool
is_https url = starts_with (codes "https://") url

abbrev or_develop : Text → Text
or_develop [] = codes "develop"
or_develop (c ∷ cs) = c ∷ cs

abbrev created_url : Option Text → Text
created_url none = []
created_url (some out) = let url = trim_space out in if is_https url then url else []

-- `findOrCreatePR`
unfoldable pub find_or_create_pr : Checkouts → String → Text → Text → String → Text
unfolding trim_space
find_or_create_pr g dir branch base title =
    let existing = trim_space (g.viewed dir branch) in
    if is_https existing then existing else created_url (g.created dir branch base title)

-- The tables, and the branches that were pushed, for which run.
pub record Swept : Type 0 where
  pub store : Store
  pub pushed : List Run

-- `FinishRun` and `UpsertTaskPR`
unfoldable pub attach : Store → Time → Run → Text → Store
attach s now r pr_url =
    let s' = finish_run s now r.id r.status r.cost_usd r.num_turns pr_url r.error r.result_text in
    (upsert_task_pr s' now r.task_id r.id r.agent_repo r.branch pr_url r.agent_worked_in).0

abbrev pub attach_set : Swept → Time → Run → Text → Swept
attach_set w now r pr_url =
    if no_text pr_url then w else record w { store = attach w.store now r pr_url }

abbrev pub pushed_one : Swept → Run → Swept
pushed_one w r = record w { pushed = w.pushed ++ r ∷ [] }

module _ (g : Checkouts) (now : Time) where
  abbrev pub of_unpushed : Swept → Run → Task → Text → Option Bool → Swept
  of_unpushed w r t base none = w
  of_unpushed w r t base (some false) =
      let existing = trim_space (g.viewed r.worktree_path r.branch) in
      if is_https existing then record w { store = attach w.store now r existing } else w
  of_unpushed w r t base (some true) =
      if g.pushes r.worktree_path r.branch
      then attach_set (pushed_one w r) now r
          (find_or_create_pr g r.worktree_path r.branch base t.title)
      else w

  abbrev pub of_task : Swept → Run → Option Task → Swept
  of_task w r none = w
  of_task w r (some t) =
      let base = or_develop (g.default_branch r.repo_path) in
      of_unpushed w r t base (g.has_unpushed r.worktree_path base)

  -- The body of the loop.
  unfoldable pub sweep_run : Swept → Run → Swept
  unfolding attach find_or_create_pr trim_space
  sweep_run w r =
      if is_blank r.worktree_path
      then w
      else if not (starts_with own_prefix r.branch)
      then w
      else if not (g.stat r.worktree_path)
      then w
      else of_task w r (get_task w.store r.task_id)

  unfoldable pub sweep_each : Swept → List Run → Swept
  unfolding sweep_run
  sweep_each w [] = w
  sweep_each w (r ∷ rs) = sweep_each (sweep_run w r) rs

  -- `Sweep`
  unfoldable pub sweep : Store → Swept
  unfolding sweep_each runs_by_status
  sweep s = sweep_each (record { store = s; pushed = [] }) (runs_by_status s is_interrupted)

abbrev path_of : Run → List String
path_of r = if is_set r.worktree_path then r.worktree_path ∷ [] else []

abbrev paths_of : List Run → List String
paths_of [] = []
paths_of (r ∷ rs) = path_of r ++ paths_of rs

-- `activeWorktrees`
unfoldable pub active_worktrees : Store → List String
unfolding runs_by_status
active_worktrees s = paths_of (runs_by_status s is_active)

pub data Cleanup : Type 0 where
  -- of a path: `git.Checkpoint`, which may fail, and `git.RemoveWorktree`; `git.RemoveAgentWorkdir`,
  -- which may keep it
  checkpoint remove_worktree remove_agent_workdir : String → Cleanup

pub record Directories : Type 0 where
  -- the directories in a root, none for an error that is not a missing root
  pub read_dirs : String → Option (List String)
  -- `filepath.Join`
  pub join : String → String → String
  -- `git.OwningRepo`, none for its error
  pub owning_repo : String → Option String

module _ (d : Directories) (active : List String) where
  abbrev pub is_kept : String → Bool
  is_kept path = any (str_eq path) active

  abbrev cleaned : String → Option String → List Cleanup
  cleaned path none = []
  cleaned path (some owner) = Cleanup.checkpoint path ∷ Cleanup.remove_worktree path ∷ []

  -- `cleanupManagedWorktrees`, over the entries of its root
  unfoldable pub cleanup_managed : String → List String → List Cleanup
  cleanup_managed root [] = []
  cleanup_managed root (name ∷ names) =
      let path = d.join root name in
      (if is_kept path then [] else cleaned path (d.owning_repo path)) ++ cleanup_managed root names

  -- `cleanupAgentWorkdirs`
  unfoldable pub cleanup_agent : String → List String → List Cleanup
  cleanup_agent root [] = []
  cleanup_agent root (name ∷ names) =
      let path = d.join root name in
      (if is_kept path then [] else Cleanup.remove_agent_workdir path ∷ [])
      ++ cleanup_agent root names

abbrev then_agent :
    Directories → List String → String → List Cleanup → Option (List String) → List Cleanup
then_agent d active agent_root done none = done
then_agent d active agent_root done (some names) = done ++ cleanup_agent d active agent_root names

abbrev then_managed :
    Directories → List String → String → String → Option (List String) → List Cleanup
then_managed d active root agent_root none = []
then_managed d active root agent_root (some names) =
    then_agent d active agent_root (cleanup_managed d active root names) (d.read_dirs agent_root)

-- `CleanupStale`
unfoldable pub cleanup_stale : Directories → Store → String → String → List Cleanup
unfolding cleanup_managed cleanup_agent active_worktrees
cleanup_stale d s root agent_root =
    then_managed d (active_worktrees s) root agent_root (d.read_dirs root)
