-- ===== src/Store/Runs.antt =====
-- internal/store/runs.go
use burnrate.Prelude.{
  ℕ, zero, suc, ◌+◌, Bool, ◌&&◌, Option, none, some, List, [], ◌∷◌, ◌++◌, String,
}
use burnrate.Prelude.Tests.{leb, ltb, ◌==◌, if◌then◌else◌}
use burnrate.Prelude.Lists.{keep}
use burnrate.Prelude.Table.{row, modify, newest, sort_by}
use burnrate.Prelude.Text.{is_set, Text}
use burnrate.Scheduling.Types.{Time}
use burnrate.Domain.{RunStatus, Task, Run, is_active, is_resumable}
use burnrate.Store.Tables.{Store, run_key}
use burnrate.Store.Tasks.{runs_of}

unfoldable pub get_run : Store → ℕ → Option Run
get_run s id = row run_key id s.runs

-- `UPDATE runs SET … WHERE id = ?`
unfoldable pub update_run_row : Store → ℕ → (Run → Run) → Store
update_run_row s id f = record s { runs = modify (λ r. run_key r == id) f s.runs }

abbrev pub new_run : ℕ → Time → ℕ → String → Text → String → String → ℕ → Run
new_run id now task_id worktree_path branch repo_path window_id attempt = record {
  id = id;
  task_id = task_id;
  session_id = "";
  worktree_path = worktree_path;
  branch = branch;
  repo_path = repo_path;
  pid = 0;
  status = RunStatus.starting;
  attempt = attempt;
  cost_usd = 0;
  num_turns = 0;
  pr_url = [];
  error = "";
  window_id = window_id;
  rate_limit_reset_at = 0;
  started_at = now;
  ended_at = 0;
  agent_repo = [];
  agent_worked_in = [];
  result_text = [];
  model = "";
  lines_added = 0;
  lines_removed = 0;
}

-- `CreateRun`: the new run's id. (Its other columns have the defaults of the schema.)
unfoldable pub create_run : Store → Time → ℕ → String → Text → String → String → ℕ → Store × ℕ
create_run s now task_id worktree_path branch repo_path window_id attempt = (
  record s {
    runs =
        s.runs
        ++ new_run (s.last_run + 1) now task_id worktree_path branch repo_path window_id attempt
          ∷ [];
    last_run = s.last_run + 1;
  },
  s.last_run + 1,
)

unfoldable pub set_run_session_id : Store → ℕ → String → Store
unfolding update_run_row
set_run_session_id s id session_id = update_run_row s id (λ r. record r { session_id = session_id })

unfoldable pub set_run_pid : Store → ℕ → ℕ → Store
unfolding update_run_row
set_run_pid s id pid = update_run_row s id (λ r. record r { pid = pid })

unfoldable pub set_run_rate_limit_reset_at : Store → ℕ → Time → Store
unfolding update_run_row
set_run_rate_limit_reset_at s id reset_at =
    update_run_row s id (λ r. record r { rate_limit_reset_at = reset_at })

unfoldable pub set_run_status : Store → ℕ → RunStatus → Store
unfolding update_run_row
set_run_status s id status = update_run_row s id (λ r. record r { status = status })

-- The columns that `FinishRun` writes.
abbrev pub finished : Time → RunStatus → ℕ → ℕ → Text → String → Text → Run → Run
finished now status cost_usd num_turns pr_url error result_text r = record r {
  status = status;
  cost_usd = cost_usd;
  num_turns = num_turns;
  pr_url = pr_url;
  error = error;
  result_text = result_text;
  ended_at = now;
}

unfoldable pub finish_run : Store → Time → ℕ → RunStatus → ℕ → ℕ → Text → String → Text → Store
unfolding update_run_row
finish_run s now id status cost_usd num_turns pr_url error result_text =
    update_run_row s id (finished now status cost_usd num_turns pr_url error result_text)

unfoldable pub set_run_branch : Store → ℕ → Text → Store
unfolding update_run_row
set_run_branch s id branch = update_run_row s id (λ r. record r { branch = branch })

unfoldable pub set_run_agent_repo : Store → ℕ → Text → Store
unfolding update_run_row
set_run_agent_repo s id repo = update_run_row s id (λ r. record r { agent_repo = repo })

unfoldable pub set_run_agent_worked_in : Store → ℕ → Text → Store
unfolding update_run_row
set_run_agent_worked_in s id worked_in =
    update_run_row s id (λ r. record r { agent_worked_in = worked_in })

unfoldable pub set_run_model : Store → ℕ → String → Store
unfolding update_run_row
set_run_model s id model = update_run_row s id (λ r. record r { model = model })

unfoldable pub set_run_lines : Store → ℕ → ℕ → ℕ → Store
unfolding update_run_row
set_run_lines s id added removed =
    update_run_row s id (λ r. record r { lines_added = added; lines_removed = removed })

-- Newest first, for `ORDER BY id DESC`.
abbrev pub insert_desc : Run → List Run → List Run
insert_desc x [] = x ∷ []
insert_desc x (y ∷ ys) =
    let rest = insert_desc x ys in if leb y.id x.id then x ∷ y ∷ ys else y ∷ rest

unfoldable pub newest_first : List Run → List Run
newest_first [] = []
newest_first (x ∷ xs) = insert_desc x (newest_first xs)

-- `RunsByStatus`
unfoldable pub runs_by_status : Store → (RunStatus → Bool) → List Run
unfolding newest_first
runs_by_status s p = newest_first (keep (λ (r : Run). p r.status) s.runs)

abbrev take : ℕ → List Run → List Run
take zero xs = []
take (suc n) [] = []
take (suc n) (x ∷ xs) = x ∷ take n xs

-- `RunsByStatus("starting", "running", "resuming")`
unfoldable pub active_runs : Store → List Run
active_runs s = newest_first (keep (λ r. is_active r.status) s.runs)

-- `ListRuns`: a task id of 0 lists the runs of every task.
unfoldable pub list_runs : Store → ℕ → ℕ → List Run
unfolding runs_of
list_runs s task_id limit =
    take limit (newest_first (if ltb 0 task_id then runs_of s task_id else s.runs))

unfoldable pub latest_run_for_task : Store → ℕ → Option Run
unfolding runs_of
latest_run_for_task s task_id = newest run_key (runs_of s task_id)

-- Each resumable task's newest run, if that recorded a session, beside the task.
abbrev resumable_pairs : Store → List Task → List (Task × Run)
resumable_pairs s [] = []
resumable_pairs s (t ∷ ts) =
    let rest = resumable_pairs s ts in
    elim (latest_run_for_task s t.id) [
      | none ↦ rest
      | some r ↦ if is_resumable t.status && is_set r.session_id then (t, r) ∷ rest else rest
    ]

abbrev runs_in : List (Task × Run) → List Run
runs_in [] = []
runs_in ((t, r) ∷ ps) = r ∷ runs_in ps

-- `ResumableRuns`: the join of tasks and runs, by the task's order.
unfoldable pub resumable_runs : Store → List Run
unfolding latest_run_for_task
resumable_runs s =
    runs_in (sort_by (λ (p : Task × Run). p.0.sort_order) (resumable_pairs s s.tasks))
