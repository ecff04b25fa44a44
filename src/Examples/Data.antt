-- ===== src/Examples/Data.antt =====
-- A database and a scheduler to run the tests on: two tasks, of which the first has a finished run
-- and the second one that is still shown as running, and a pending request of the first.
use burnrate.Prelude.{ℕ, ◌*◌, ◌+◌, false, none, some, [], ◌∷◌}
use burnrate.Prelude.Int.{pos}
use burnrate.Prelude.Text.{codes}
use burnrate.Scheduling.Types.{Time, Snapshot, minute, percent}
use burnrate.Domain.{TaskStatus, RunStatus, RequestKind, RequestStatus, Task, Run, HumanRequest}
use burnrate.Store.Tables.{Store}
use burnrate.Store.Runs.{new_run}
use burnrate.Service.Base.{Env}
use burnrate.Service.Requests.{RequestEnv}
use burnrate.Scheduler.State.{Account, Config, Scheduler}

abbrev pub noon : Time
noon = 1000 * minute

abbrev pub task_of : ℕ → ℕ → TaskStatus → Task
task_of id order status = record {
  id = id;
  title = "task";
  prompt = "do it";
  repo_path = "/code/app";
  model = "";
  sort_order = order;
  status = status;
  created_at = 0;
  updated_at = 0;
  attempt_reset_run_id = 0;
  summary = [];
}

abbrev pub run_of : ℕ → ℕ → RunStatus → Run
run_of id task_id status =
    record (new_run id 0 task_id "/work/tree" (codes "burnrate/task") "/code/app" "" 3) {
      status = status;
      session_id = "a1b2";
    }

abbrev pub question : HumanRequest
question = record {
  id = 1;
  task_id = 1;
  run_id = 1;
  kind = RequestKind.question;
  title = "which";
  body = "left or right";
  status = RequestStatus.pending;
  live = false;
  created_at = 0;
  answered_at = 0;
  response_comment_id = 0;
}

abbrev pub answered : HumanRequest
answered = record question { status = RequestStatus.answered }

abbrev pub desk : Store
desk = record {
  tasks = task_of 1 10 TaskStatus.paused ∷ task_of 2 20 TaskStatus.running ∷ [];
  runs = run_of 1 1 RunStatus.rate_limited ∷ run_of 2 2 RunStatus.running ∷ [];
  requests = question ∷ [];
  comments = [];
  task_prs = [];
  settings = ("capture_approval_wait_sec", "900") ∷ [];
  last_task = 2;
  last_run = 2;
  last_request = 1;
  last_comment = 0;
  last_task_pr = 0;
}

abbrev pub env : Env
env = record { store = desk; effects = [] }

abbrev pub office : RequestEnv
office = record { env = env; run_grants = [] }

abbrev pub office_settled : RequestEnv
office_settled = record {
  env = record { store = record desk { requests = answered ∷ [] }; effects = [] };
  run_grants = [];
}

abbrev pub account : Account
account = record {
  claude_config_dir = "";
  sandbox_keychain = "";
  sandbox_keychain_password_file = "";
}

abbrev pub config : Config
config = record {
  account = account;
  parallel_n = pos 2;
  util_threshold = 90 * percent;
  seven_day_threshold = 95 * percent;
  poll_interval_sec = pos 5;
  max_attempts = pos 20;
  medium_timeout = none;
  dry_run = false;
  model = "";
}

abbrev pub low : Snapshot
low = record {
  captured_at = noon;
  session_util = 10 * percent;
  session_resets_at = noon + 60 * minute;
  weekly_util = 20 * percent;
  weekly_resets_at = noon + 6000 * minute;
}

abbrev pub queue : Store
queue = record desk {
  tasks =
      task_of 1 10 TaskStatus.resumable
      ∷ task_of 2 20 TaskStatus.queued
      ∷ task_of 3 30 TaskStatus.queued
      ∷ [];
  runs = run_of 1 1 RunStatus.rate_limited ∷ [];
}

abbrev pub daemon : Store → Scheduler
daemon st = record {
  st = st;
  cfg = config;
  resets = record { last_util = 0; last_reset = 0 };
  inflight = [];
  last_snap = some low;
  last_fetch_at = 0;
  backoff = none;
  rate_limit_backoff_until = 0;
  rate_limit_delay = 0;
  rate_limit_consecutive = 0;
  last_idle_fetch_at = 0;
  refresh_now = false;
  cfg_reloaded = false;
  acts = [];
}
