-- ===== src/Store/TaskPrs.antt =====
-- internal/store/task_prs.go: the pull requests of a task, one for each repository and branch.
use burnrate.Prelude.{ℕ, ◌+◌, ◌-◌, Bool, false, ◌&&◌, ◌||◌, Option, none, some, List, [], ◌∷◌, ◌++◌}
use burnrate.Prelude.Tests.{◌==◌, if◌then◌else◌}
use burnrate.Prelude.Lists.{any, find, keep}
use burnrate.Prelude.Table.{modify}
use burnrate.Prelude.Text.{Text, codes, no_text, text_eq, starts_with}
use burnrate.Scheduling.Types.{Time}
use burnrate.Domain.{PrState, TaskPr}
use burnrate.Store.Tables.{Store, task_key}
use burnrate.Store.Tasks.{StoreError}

-- `WHERE task_id = ? AND repo = ? AND branch = ?`
unfoldable pub same_target : ℕ → Text → Text → TaskPr → Bool
same_target task_id repo branch p =
    p.task_id == task_id && text_eq p.repo repo && text_eq p.branch branch

-- `if !strings.HasPrefix(prURL, "http") { prURL = "" }`
abbrev pub link : Text → Text
link pr_url = if starts_with (codes "http") pr_url then pr_url else []

-- `CASE WHEN excluded.x != '' THEN excluded.x ELSE task_prs.x END`
abbrev pub or_kept : Text → Text → Text
or_kept [] old = old
or_kept (c ∷ cs) old = c ∷ cs

-- What the clause `DO UPDATE SET` makes of the row that is there.
unfoldable pub on_conflict : ℕ → Text → Text → TaskPr → TaskPr
on_conflict run_id pr_url worked_in p =
    let p' = record p {
      run_id = run_id;
      pr_url = or_kept pr_url p.pr_url;
      worked_in = or_kept worked_in p.worked_in;
    } in
    if no_text pr_url || text_eq pr_url p.pr_url then p' else record p' {
      pr_state = PrState.unprobed;
      pr_is_draft = false;
      pr_checked_at = 0;
      pr_probe_failures = 0;
    }

abbrev pub new_task_pr : ℕ → Time → ℕ → ℕ → Text → Text → Text → Text → TaskPr
new_task_pr id now task_id run_id repo branch pr_url worked_in = record {
  id = id;
  task_id = task_id;
  run_id = run_id;
  repo = repo;
  branch = branch;
  pr_url = pr_url;
  worked_in = worked_in;
  created_at = now;
  lines_added = 0;
  lines_removed = 0;
  pr_state = PrState.unprobed;
  pr_is_draft = false;
  pr_checked_at = 0;
  pr_probe_failures = 0;
}

-- `UpsertTaskPR`. `task_id REFERENCES tasks(id)`: a missing task refuses the row.
unfoldable pub upsert_task_pr :
    Store → Time → ℕ → ℕ → Text → Text → Text → Text → Store × Option StoreError
upsert_task_pr s now task_id run_id repo branch pr_url worked_in =
    if any (same_target task_id repo branch) s.task_prs
    then (
      record s {
        task_prs =
            modify (same_target task_id repo branch) (on_conflict run_id (link pr_url) worked_in)
              s.task_prs;
      },
      none,
    )
    else if any (λ t. task_key t == task_id) s.tasks
    then (
      record s {
        task_prs =
            s.task_prs
            ++ new_task_pr (s.last_task_pr + 1) now task_id run_id repo branch (link pr_url)
                worked_in
              ∷ [];
        last_task_pr = s.last_task_pr + 1;
      },
      none,
    )
    else (s, some StoreError.foreign_key)

abbrev pub measured : ℕ → ℕ → TaskPr → TaskPr
measured added removed p = record p { lines_added = added; lines_removed = removed }

-- `RecordTaskPRLines`: what is new since the last measurement, `max(0, …)`; none without a row.
unfoldable pub record_task_pr_lines : Store → ℕ → Text → Text → ℕ → ℕ → Store × Option (ℕ × ℕ)
record_task_pr_lines s task_id repo branch added removed =
    elim (find (same_target task_id repo branch) s.task_prs) [
      | none ↦ (s, none)
      | some p ↦ (
        record s {
          task_prs = modify (same_target task_id repo branch) (measured added removed) s.task_prs;
        },
        some (added - p.lines_added, removed - p.lines_removed),
      )
    ]

-- `ListTaskPRs`; rows are kept in the order of their ids.
unfoldable pub list_task_prs : Store → ℕ → List TaskPr
list_task_prs s task_id = keep (λ (p : TaskPr). p.task_id == task_id) s.task_prs
