-- ===== src/Runner/Classify.antt =====
-- `classify` of internal/runner/runner.go, and what it calls. The summary that `ParseRunOutput` finds
-- in a text, and what git answers, are parameters.
use burnrate.Prelude.{
  ℕ, ◌+◌, Bool, true, false, ◌&&◌, ◌||◌, Option, none, some, List, [], ◌∷◌, String,
}
use burnrate.Prelude.Tests.{◌==◌, ltb, if◌then◌else◌}
use burnrate.Prelude.Text.{Text, codes, no_text, str_eq}
use burnrate.Scheduling.Types.{Time, is_zero}
use burnrate.Scheduling.Interruption.{task_status_after_interruption}
use burnrate.Domain.{TaskStatus, RunStatus, Author, Task}
use burnrate.Store.Tables.{Store}
use burnrate.Store.Tasks.{set_task_status, set_task_summary, reset_task_attempts}
use burnrate.Store.Runs.{
  finish_run, set_run_branch, set_run_agent_repo, set_run_agent_worked_in, set_run_lines,
  set_run_rate_limit_reset_at,
}
use burnrate.Store.Comments.{add_comment, mark_comments_consumed}
use burnrate.Store.Requests.{request_counts_for_run}
use burnrate.Store.TaskPrs.{upsert_task_pr, record_task_pr_lines}
use burnrate.Scheduler.State.{Cause}
use burnrate.Runner.State.{
  ClaudeResult, InvokeError, RunnerAct, RunnerEnv, with_acts, Job, has_session,
}
use burnrate.Runner.Results.{AgentResult, parse_results, primary_result, is_waiting_human}
use burnrate.Runner.PrUrl.{extract_pr_url}

pub record World : Type 0 where
  pub now : Time
  -- the summary of `ParseRunOutput`
  pub summary_of : Text → Text
  -- what `recoverSingleWorktree` and `git.OriginSlug` answer
  pub recovered : Text
  pub origin_slug : Text
  -- `git.BranchDiffStat` of a directory against a base: lines added and removed
  pub branch_diff_stat : Text → Text → Option (ℕ × ℕ)
  -- the text of the suspension until a time
  pub suspended_text : Time → String

-- `suspendCause` and `cancelledCause`
abbrev pub suspend_cause : Option Cause → Option Time
suspend_cause (some (Cause.suspended reset_at)) = some reset_at
suspend_cause _ = none

abbrev pub cancelled_cause : Option Cause → Bool
cancelled_cause (some Cause.cancelled) = true
cancelled_cause _ = false

abbrev pub teardown : Job → RunnerAct
teardown j =
    if j.agent_mode
    then RunnerAct.cleanup_agent_workdir j.worktree_path j.run.id
    else RunnerAct.checkpoint_and_remove j.worktree_path j.repo_path j.run.id

-- `recordTaskPRs`: an error of one row is logged, and the next one is tried.
unfoldable pub record_task_prs : Time → ℕ → ℕ → List AgentResult → Store → Store
record_task_prs now task_id run_id [] s = s
record_task_prs now task_id run_id (r ∷ rs) s =
    record_task_prs now task_id run_id rs
      (upsert_task_pr s now task_id run_id r.repo r.branch r.pr_url r.worked_in).0

-- What one result adds: the tables, and the lines added and removed.
abbrev pub recorded : Store → ℕ → AgentResult → Option (ℕ × ℕ) → Store × Option (ℕ × ℕ)
recorded s task_id r none = (s, none)
recorded s task_id r (some (added, removed)) =
    record_task_pr_lines s task_id r.repo r.branch added removed

abbrev pub plus : Option (ℕ × ℕ) → ℕ × ℕ → ℕ × ℕ
plus none total = total
plus (some (added, removed)) (a, b) = (a + added, b + removed)

-- The loop of `recordRunLines`.
unfoldable pub measure_each :
    (Text → Text → Option (ℕ × ℕ)) → Text → ℕ → List AgentResult → Store → ℕ × ℕ → Store × (ℕ × ℕ)
measure_each stat base task_id [] s total = (s, total)
measure_each stat base task_id (r ∷ rs) s total =
    let (s', delta) = recorded s task_id r (stat r.worked_in base) in
    let skipped = measure_each stat base task_id rs s total in
    let counted = measure_each stat base task_id rs s' (plus delta total) in
    if no_text r.worked_in || no_text r.branch then skipped else counted

abbrev pub stored_lines : ℕ → Store × (ℕ × ℕ) → Store
stored_lines run_id (s, (added, removed)) =
    if added == 0 && removed == 0 then s else set_run_lines s run_id added removed

unfoldable pub record_run_lines : World → ℕ → ℕ → List AgentResult → Text → Store → Store
unfolding measure_each
record_run_lines w task_id run_id results base s =
    stored_lines run_id (measure_each w.branch_diff_stat base task_id results s (0, 0))

abbrev reviews_off : List (String × String) → Bool
reviews_off [] = false
reviews_off ((k, v) ∷ ps) =
    let rest = reviews_off ps in
    if str_eq k "notify_on_review" then str_eq v "false" || str_eq v "0" else rest

-- `fireReviewNotification`
abbrev pub review_notification : Store → Task → Text → List RunnerAct
review_notification s task pr_url =
    if reviews_off s.settings then [] else RunnerAct.notify_review task.id task.title pr_url ∷ []

-- `AddComment` of a final response that is not empty, and `SetTaskSummary` of such a summary.
abbrev pub with_response : Store → Time → ℕ → Text → Store
with_response s now task_id [] = s
with_response s now task_id (c ∷ cs) = (add_comment s now task_id (c ∷ cs) Author.agent).0

abbrev pub with_summary : Store → ℕ → Text → Store
with_summary s task_id [] = s
with_summary s task_id (c ∷ cs) = set_task_summary s task_id (c ∷ cs)

-- The response and summary of a successful run.
unfoldable pub with_report : World → ℕ → Text → Store → Store
with_report w task_id text s =
    with_summary (with_response s w.now task_id text) task_id (w.summary_of text)

-- `if primary.Branch != "" { st.SetRunBranch(…) }`, and so on.
abbrev pub set_if : (Store → ℕ → Text → Store) → ℕ → Text → Store → Store
set_if set run_id [] s = s
set_if set run_id (c ∷ cs) s = set s run_id (c ∷ cs)

unfoldable pub with_primary : ℕ → AgentResult → Store → Store
with_primary run_id p s =
    set_if set_run_agent_worked_in run_id p.worked_in
      (set_if set_run_agent_repo run_id p.repo (set_if set_run_branch run_id p.branch s))

abbrev all_answered : ℕ × ℕ → Bool
all_answered (total, pending) = ltb 0 total && pending == 0

-- The human replied after the agent had stopped waiting.
unfoldable pub answered_in_park_window : Store → ℕ → Bool
unfolding request_counts_for_run
answered_in_park_window s run_id =
    if run_id == 0 then false else all_answered (request_counts_for_run s run_id)

abbrev pub requeued_status : Bool → TaskStatus
requeued_status session = if session then TaskStatus.resumable else TaskStatus.queued

module _ (w : World) (e : RunnerEnv) (j : Job) (result : ClaudeResult) where
  -- The run is recorded as a success, with the URL of its primary pull request.
  abbrev pub succeeded : Text → Store
  succeeded pr_url =
      finish_run e.store w.now j.run.id RunStatus.succeeded result.cost_usd result.num_turns pr_url
        "" result.result_text

  abbrev pub cleanup_agent : RunnerAct
  cleanup_agent = RunnerAct.cleanup_agent_workdir j.worktree_path j.run.id

  -- An agent that waits for a human whose answer is here already: back to the queue.
  unfoldable pub requeued : RunnerEnv
  unfolding with_report
  requeued =
      with_acts
        (record e {
          store =
              (reset_task_attempts
                (set_task_status (with_report w j.task.id result.result_text (succeeded [])) w.now
                  j.task.id (requeued_status (has_session result j)))
                j.task.id).0;
        })
        (RunnerAct.mutated j.task.id ∷ cleanup_agent ∷ [])

  unfoldable pub parked : RunnerEnv
  unfolding with_report
  parked =
      with_acts
        (record e {
          store =
              set_task_status
                (with_report w j.task.id result.result_text
                  (mark_comments_consumed (succeeded []) j.task.id j.run.id))
                w.now j.task.id TaskStatus.awaiting_human;
        })
        (RunnerAct.mutated j.task.id
          ∷ RunnerAct.notify_human_request j.task.id j.task.title
          ∷ cleanup_agent
          ∷ [])

  -- The end of a run that has its results in: comments, report, status and the cleanup.
  unfoldable pub pr_created : Text → Store → RunnerEnv
  unfolding with_report
  pr_created pr_url s =
      let s' =
        set_task_status
          (with_report w j.task.id result.result_text (mark_comments_consumed s j.task.id j.run.id))
          w.now j.task.id TaskStatus.pr_created in
      with_acts
        (with_acts (with_acts (record e { store = s' }) (RunnerAct.mutated j.task.id ∷ []))
          (review_notification s' j.task pr_url))
        (teardown j ∷ [])

  unfoldable pub agent_results : List AgentResult → RunnerEnv
  unfolding pr_created with_primary record_task_prs record_run_lines
  agent_results results =
      let primary = primary_result results in
      pr_created primary.pr_url (
        record_run_lines w j.task.id j.run.id results [] (
          record_task_prs w.now j.task.id j.run.id results
            (with_primary j.run.id primary (succeeded primary.pr_url))))

  abbrev pub managed_result : Text → AgentResult
  managed_result pr_url = record {
    repo = w.origin_slug;
    branch = j.run.branch;
    pr_url = pr_url;
    worked_in = codes j.worktree_path;
  }

  abbrev pub managed_prs : Text → Store → Store
  managed_prs [] s = s
  managed_prs (c ∷ cs) s =
      let managed = managed_result (c ∷ cs) ∷ [] in
      record_run_lines w j.task.id j.run.id managed j.default_branch
        (record_task_prs w.now j.task.id j.run.id managed s)

  abbrev pub or_recovered : Text → Text
  or_recovered [] = w.recovered
  or_recovered (c ∷ cs) = c ∷ cs

  unfoldable pub managed_done : RunnerEnv
  unfolding pr_created record_task_prs record_run_lines
  managed_done =
      let pr_url = or_recovered (extract_pr_url result.result_text) in
      pr_created pr_url (managed_prs pr_url (succeeded pr_url))

  -- A run that ended by itself: the case `invokeErr == nil`.
  unfoldable pub completed : RunnerEnv
  unfolding agent_results managed_done requeued parked answered_in_park_window
  completed =
      if j.agent_mode
      then (if is_waiting_human result.result_text
          then (if answered_in_park_window e.store j.run.id then requeued else parked)
          else agent_results (parse_results result.result_text))
      else managed_done

  -- `FinishRun` of a run that did not.
  abbrev pub ended : RunStatus → String → Text → Store
  ended status error text =
      finish_run e.store w.now j.run.id status result.cost_usd result.num_turns [] error text

  abbrev pub with_reset_at : Time → Store → Store
  with_reset_at reset_at s =
      if is_zero reset_at then s else set_run_rate_limit_reset_at s j.run.id reset_at

  -- `settleInterrupted`, and the notification after it.
  unfoldable pub settle_interrupted : Store → RunnerEnv
  unfolding task_status_after_interruption
  settle_interrupted s =
      with_acts
        (record e {
          store =
              set_task_status s w.now j.task.id
                (task_status_after_interruption (has_session result j));
        })
        (teardown j ∷ RunnerAct.mutated j.task.id ∷ [])

  unfoldable pub suspended : Time → RunnerEnv
  unfolding settle_interrupted
  suspended reset_at =
      settle_interrupted
        (with_reset_at reset_at (ended RunStatus.rate_limited (w.suspended_text reset_at) []))

  unfoldable pub cancelled : RunnerEnv
  cancelled =
      with_acts
        (record e {
          store =
              set_task_status (ended RunStatus.errored "cancelled by user" []) w.now j.task.id
                TaskStatus.paused;
        })
        (teardown j ∷ RunnerAct.mutated j.task.id ∷ [])

  -- The cases after the suspension and the cancellation.
  unfoldable pub failed : InvokeError → RunnerEnv
  unfolding settle_interrupted
  failed (InvokeError.rate_limited reset_at text) =
      settle_interrupted (with_reset_at reset_at (ended RunStatus.rate_limited text []))
  failed (InvokeError.tool_denied message text) =
      settle_interrupted (ended RunStatus.errored text result.result_text)
  failed (InvokeError.timed_out text) = settle_interrupted (ended RunStatus.timed_out text [])
  failed (InvokeError.session_not_found text) = settle_interrupted (ended RunStatus.errored text [])
  failed (InvokeError.other text) = settle_interrupted (ended RunStatus.errored text [])

  -- `classify`: what it leaves, and the error that it returns.
  unfoldable pub classify : Option InvokeError → Option Cause → RunnerEnv × Option InvokeError
  unfolding completed suspended cancelled failed
  classify none cause = (completed, none)
  classify (some err) cause =
      let stopped =
        if cancelled_cause cause then (cancelled, some err) else (failed err, some err) in
      elim (suspend_cause cause) [ none ↦ stopped | some reset_at ↦ (suspended reset_at, none) ]
