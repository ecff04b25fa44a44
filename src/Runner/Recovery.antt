-- ===== src/Runner/Recovery.antt =====
-- `recoverSingleWorktree`, `createPR` and `CheckpointAndRemove`. What git, `gh` and the file system
-- answer is given.
use burnrate.Prelude.{Bool, Option, none, some, List, [], ◌∷◌, String}
use burnrate.Prelude.Tests.{if◌then◌else◌}
use burnrate.Prelude.Text.{Text, codes, trim_space, starts_with, is_blank}

pub record GitAnswers : Type 0 where
  -- `git.HasUnpushedCommits`: none for its error
  pub has_unpushed : Option Bool
  -- the output of `gh pr view`
  pub viewed : Text
  pub pushes : Bool
  -- the output of `gh pr create`: none for its error
  pub created : Option Text

abbrev pub is_https : Text → Bool
is_https url = starts_with (codes "https://") url

-- `createPR`: none is its error.
unfoldable pub create_pr : GitAnswers → Option Text
create_pr g =
    let existing = trim_space g.viewed in
    if is_https existing then some existing else elim g.created [
      | none ↦ none
      | some out ↦ if is_https (trim_space out) then some (trim_space out) else none
    ]

abbrev or_empty : Option Text → Text
or_empty none = []
or_empty (some url) = url

unfoldable pub recover_single_worktree : GitAnswers → Text
unfolding create_pr
recover_single_worktree g = elim g.has_unpushed [
  | none ↦ []
  | some has ↦
      if has
      then (if g.pushes then or_empty (create_pr g) else [])
      else if is_https (trim_space g.viewed)
      then trim_space g.viewed
      else []
]

-- A worktree before its teardown: whether it is there, whether `git.Checkpoint` saves its work, and
-- whether changes are left when it did not.
pub record Worktree : Type 0 where
  pub present : Bool
  pub checkpoints : Bool
  pub uncommitted : Bool

pub data Teardown : Type 0 where
  cleaned_agent_workdir checkpointed removed : Teardown

-- `CheckpointAndRemove`: what it does, in order; nothing to a worktree that it keeps.
unfoldable pub checkpoint_and_remove : Worktree → String → String → List Teardown
checkpoint_and_remove w worktree_path repo_path =
    if is_blank worktree_path
    then []
    else if is_blank repo_path
    then Teardown.cleaned_agent_workdir ∷ []
    else if w.present
    then (if w.checkpoints
        then Teardown.checkpointed ∷ Teardown.removed ∷ []
        else if w.uncommitted
        then []
        else Teardown.removed ∷ [])
    else []
