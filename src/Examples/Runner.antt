-- ===== src/Examples/Runner.antt =====
-- Tests of the runner, and its theorems at concrete inputs.
use burnrate.Prelude.{ℕ, ◌+◌, ◌*◌, ◌≤◌, ◌≡◌, refl, true, false, none, some, List, [], ◌∷◌, arith}
use burnrate.Prelude.Lists.{length}
use burnrate.Prelude.Int.{pos}
use burnrate.Prelude.Table.{row}
use burnrate.Prelude.Text.{Text, codes, is_space, strip_prefix, trim_space}
use burnrate.Scheduling.Types.{minute}
use burnrate.Domain.{TaskStatus, RunStatus, Comment, Author, Consumer}
use burnrate.Runner.Effort.{parse_effort_level, resolve_effort_level, resolve_effort_level-latest}
use burnrate.Store.Tasks.{get_task}
use burnrate.Store.Statuses.{task_status}
use burnrate.Service.Attempts.{Fresh}
use burnrate.Runner.State.{ClaudeResult, InvokeError, RunnerEnv, Job}
use burnrate.Runner.Results.{
  parse_results, primary_result, is_waiting_human, split_on, drop_while, group, result_field,
}
use burnrate.Runner.PrUrl.{extract_pr_url, greedy}
use burnrate.Runner.Classify.{World, answered_in_park_window, classify}
use burnrate.Runner.Outcome.{ending}
use burnrate.Runner.Settled.{Ends, classify-Ends}
use burnrate.Runner.Replies.{Kept, classify-Kept}
use burnrate.Runner.Continue.{Call, Invoker, Progress, invoke_with_auto_continue, first_call}
use burnrate.Runner.Budget.{Trace, Over, costs, turns, invoke-Trace}
use burnrate.Runner.Preflight.{Preflight, attempts}
use burnrate.Runner.Cap.{GivenUp, preflight_all, preflight_all-status, Issued}
use burnrate.Runner.Workspace.{Surroundings}
use burnrate.Runner.Launch.{begin_run}
use burnrate.Runner.Started.{Outcome, begin_run-Outcome}
use burnrate.Examples.Data.{desk, noon, task_of, run_of, answered, queue}

abbrev world : World
world = record {
  now = noon;
  summary_of = λ text. [];
  recovered = [];
  origin_slug = codes "o/r";
  branch_diff_stat = λ dir base. some (5, 2);
  suspended_text = λ t. "suspended";
}

abbrev bench : RunnerEnv
bench = record { store = desk; acts = [] }

abbrev job : Job
job = record {
  task = task_of 2 20 TaskStatus.running;
  run = run_of 2 2 RunStatus.running;
  repo_path = "";
  default_branch = [];
  worktree_path = "/work/task-2";
  prior_session = "";
  agent_mode = true;
}

abbrev report : ClaudeResult
report = record {
  session_id = "c3d4";
  model = "opus";
  result_text = codes "RESULT: WAITING_HUMAN";
  cost_usd = 3;
  num_turns = 4;
  duration_ms = 2000;
}

classify-Ends_example :
    Ends world bench job report
      (ending true
        (is_waiting_human report.result_text)
        (answered_in_park_window desk 2)
        (some (InvokeError.timed_out "late"))
        none)
      (classify world bench job report (some (InvokeError.timed_out "late")) none).0
classify-Ends_example =
    classify-Ends world bench job report (some (InvokeError.timed_out "late")) none

-- The run 2 has asked, and was answered.
abbrev replied : RunnerEnv
replied = record {
  store = record desk { requests = record answered { task_id = 2; run_id = 2 } ∷ [] };
  acts = [];
}

classify-Kept_example :
    Kept replied.store (classify world replied job report none none).0.store
    × Fresh (classify world replied job report none none).0.store 2
unfolding is_waiting_human split_on drop_while answered_in_park_window
classify-Kept_example = classify-Kept world replied job report none refl refl refl

abbrev denied_once : Invoker
denied_once = record {
  invoke = λ k call.
      (report, elim k [ ℕ.zero ↦ some (InvokeError.tool_denied "no" "denied") | ℕ.suc n ↦ none ]);
  is_done = λ k. false;
  remaining = λ k. some (pos (10 * minute));
}

abbrev opening : Call
opening = record { resume_session_id = ""; nudge = none; timeout = pos (60 * minute) }

invoke-Trace_example :
    let out = invoke_with_auto_continue denied_once opening (pos 3) in
    let first = first_call denied_once opening in
    (q : Progress) × (rs : List ClaudeResult) × Trace denied_once first rs q
    × (out.1.0 ≡ length rs)
    × (length rs ≤ 3)
    × (out.0.cost_usd ≡ costs (first.result ∷ rs))
    × (out.0.num_turns ≡ turns (first.result ∷ rs))
    × (out.1.1 ≡ q.error)
    × Over denied_once (length rs) 3 q
invoke-Trace_example = invoke-Trace denied_once opening (pos 3)

abbrev no_fetch : Preflight
no_fetch = record {
  now = noon;
  window_id = "";
  worktree_path = "";
  branch = [];
  repo_path = "/code/app";
  err = "no such repository";
}

abbrev queued_bench : RunnerEnv
queued_bench = record { store = queue; acts = [] }

issued : Issued queue 2
unfolding get_task row
issued = ((ground arith, tt), ground arith)

preflight_all-status_example : GivenUp (pos 3) (attempts queue 2 + 3) (
    task_status
      (preflight_all 2 (pos 3) (no_fetch ∷ no_fetch ∷ no_fetch ∷ []) queued_bench).store
      2)
unfolding get_task row
preflight_all-status_example =
    preflight_all-status 2 (pos 3) no_fetch (no_fetch ∷ no_fetch ∷ []) queued_bench
      (task_of 2 20 TaskStatus.queued) refl issued

abbrev around : Surroundings
around = record {
  now = noon;
  window_id = "w1";
  max_attempts = pos 3;
  model = "opus";
  timeout = pos (60 * minute);
  agent_dir = λ id. "/agents/task";
  worktree_dir = λ id. "/trees/task";
  new_branch = λ t. codes "burnrate/2-task";
  mkdir_error = none;
  default_branch = some (codes "main");
  default_branch_error = "";
  is_present = λ dir. false;
  exists_at_origin = λ branch. false;
  add_from_branch_error = none;
  add_worktree_error = none;
  token_error = none;
}

begin_run-Outcome_example :
    Outcome around none
      (attempts queue 2 + 1)
      2
      (begin_run around (task_of 2 20 TaskStatus.queued) none queued_bench)
unfolding get_task row
begin_run-Outcome_example =
    begin_run-Outcome around (task_of 2 20 TaskStatus.queued) none queued_bench
      (task_of 2 20 TaskStatus.queued) refl issued

abbrev message : List ℕ
message =
    codes
      "all done\nRESULT: o/a | feat | none | /w\nRESULT: o/b | feat |https://github.com/o/b/pull/7|/v\n"

primary_found :
    (primary_result (parse_results message)).pr_url ≡ codes "https://github.com/o/b/pull/7"
unfolding primary_result parse_results is_space strip_prefix group result_field trim_space
primary_found = refl

url_found :
    extract_pr_url (codes "see https://github.com/o/r/pull/1, https://github.com/o/r/pull/23.")
    ≡ codes "https://github.com/o/r/pull/23"
unfolding extract_pr_url strip_prefix greedy
url_found = refl

-- The arguments of a text that is one directive.
abbrev whole_text : Text → List Text
whole_text text = text ∷ []

abbrev note : Text → Comment
note body = record {
  id = 1;
  task_id = 1;
  author = Author.user;
  body = body;
  created_at = noon;
  consumed_by_run = Consumer.unconsumed;
}

resolve_effort_level-latest_example :
    resolve_effort_level whole_text
      (λ c. c)
      (codes "2")
      (note (codes "1") ∷ note (codes "4") ∷ note [] ∷ [])
    ≡ (4, true)
unfolding parse_effort_level is_space
resolve_effort_level-latest_example =
    resolve_effort_level-latest whole_text (λ c. c) (codes "2") (note (codes "1") ∷ [])
      (note [] ∷ []) (note (codes "4")) 4 refl (refl, tt)
