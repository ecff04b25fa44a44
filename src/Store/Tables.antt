-- ===== src/Store/Tables.antt =====
-- The tables of internal/store/migrations that the services share, with the last id that each
-- AUTOINCREMENT column has given out.
use burnrate.Prelude.{ℕ, List, String}
use burnrate.Domain.{Task, Run, HumanRequest, Comment, TaskPr}

pub record Store : Type 0 where
  pub tasks : List Task
  pub runs : List Run
  pub requests : List HumanRequest
  pub comments : List Comment
  pub task_prs : List TaskPr
  pub settings : List (String × String)
  pub last_task : ℕ
  pub last_run : ℕ
  pub last_request : ℕ
  pub last_comment : ℕ
  pub last_task_pr : ℕ

abbrev pub task_key : Task → ℕ
task_key t = t.id

abbrev pub run_key : Run → ℕ
run_key r = r.id

abbrev pub request_key : HumanRequest → ℕ
request_key r = r.id

abbrev pub comment_key : Comment → ℕ
comment_key c = c.id

abbrev pub task_pr_key : TaskPr → ℕ
task_pr_key p = p.id
