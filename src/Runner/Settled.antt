-- ===== src/Runner/Settled.antt =====
-- `classify` does what Outcome says, whatever the tables.
use burnrate.Prelude.{
  ℕ, ◌≡◌, refl, sym, inl, inr, ◌∙◌, ap, Bool, true, false, Option, none, some, List, [], ◌∷◌,
  String,
}
use burnrate.Prelude.Tests.{Bool-cases, either}
use burnrate.Prelude.Text.{Text}
use burnrate.Scheduling.Types.{Time, is_zero}
use burnrate.Scheduling.Interruption.{task_status_after_interruption}
use burnrate.Domain.{Run}
use burnrate.Store.Tables.{Store}
use burnrate.Store.Tasks.{get_task, set_task_status}
use burnrate.Store.Runs.{finish_run, set_run_rate_limit_reset_at}
use burnrate.Store.Comments.{mark_comments_consumed}
use burnrate.Store.Statuses.{
  task_status, run_status, put, Same, Same-trans, Same-run_row, task_status-set_task_status,
  run_status-set_task_status, run_status-finish_run, Same-reset_task_attempts,
}
use burnrate.Scheduler.State.{Cause}
use burnrate.Runner.State.{ClaudeResult, InvokeError, RunnerEnv, Job, has_session}
use burnrate.Runner.Results.{AgentResult, parse_results, primary_result, is_waiting_human}
use burnrate.Runner.Outcome.{Ending, task_outcome, run_outcome, ending, ending_of_error}
use burnrate.Runner.Frames.{
  Same-with_report, Same-consumed, Same-with_primary, Same-record_task_prs, Same-record_run_lines,
}
use burnrate.Runner.Classify.{
  World, record_task_prs, with_report, with_primary, answered_in_park_window, requeued_status,
  managed_result, requeued, parked, pr_created, agent_results, managed_done, managed_prs, completed,
  ended, with_reset_at, settle_interrupted, suspended, cancelled, failed, classify, succeeded,
}

-- The store `s'` differs from `s`, in the statuses of the task and of the run, by an ending.
abbrev pub Records : ℕ → ℕ → Ending → Bool → Store → Store → Type 0
Records id run_id x session s s' =
    (task_status s' id ≡ put (task_outcome x session) (task_status s id))
    × (run_status s' run_id ≡ put (run_outcome x) (run_status s run_id))

module _ (w : World) (e : RunnerEnv) (j : Job) (result : ClaudeResult) where
  -- The status of the task is set after the run was finished and nothing else touched either.
  recorded-Records :
      (x : Ending) (session : Bool) (pr_url : Text) (error : String) (text : Text) (s : Store)
      → Same j.task.id j.run.id
          (finish_run e.store w.now j.run.id
            (run_outcome x)
            result.cost_usd
            result.num_turns
            pr_url
            error
            text)
          s
      → Records j.task.id j.run.id x session e.store
          (set_task_status s w.now j.task.id (task_outcome x session))
  unfolding task_status run_status finish_run get_task
  recorded-Records x session pr_url error text s h = (
    task_status-set_task_status s j.task.id j.run.id w.now (task_outcome x session)
        ∙ ap (λ o. put (task_outcome x session) o) h.0,
    run_status-set_task_status s j.task.id j.run.id w.now (task_outcome x session)
        ∙ h.1
        ∙ run_status-finish_run e.store j.task.id j.run.id w.now (run_outcome x) result.cost_usd
            result.num_turns pr_url error text,
  )

  pr_created-Records :
      (pr_url : Text) (s : Store)
      → Same j.task.id j.run.id (succeeded w e j result pr_url) s
      → Records j.task.id j.run.id Ending.delivered
          (has_session result j)
          e.store
          (pr_created w e j result pr_url s).store
  unfolding pr_created
  pr_created-Records pr_url s h =
      recorded-Records Ending.delivered (has_session result j) pr_url "" result.result_text _ (
        Same-trans j.task.id j.run.id _ s _ h (
          Same-trans j.task.id j.run.id s (mark_comments_consumed s j.task.id j.run.id) _
            (Same-consumed j.task.id j.run.id s j.task.id j.run.id)
            (Same-with_report j.task.id j.run.id w j.task.id result.result_text _)))

  -- By the ending and whether there is a session, what `x` says of the store `s'`.
  abbrev pub Ends : Ending → RunnerEnv → Type 0
  Ends x e' = Records j.task.id j.run.id x (has_session result j) e.store e'.store

  agent_results-Ends :
      (rs : List AgentResult) → Ends Ending.delivered (agent_results w e j result rs)
  unfolding agent_results
  agent_results-Ends rs =
      let p = primary_result rs in
      let s0 = succeeded w e j result p.pr_url in
      let s1 = with_primary j.run.id p s0 in
      let s2 = record_task_prs w.now j.task.id j.run.id rs s1 in
      pr_created-Records p.pr_url _ (
        Same-trans j.task.id j.run.id s0 s1 _ (Same-with_primary j.task.id j.run.id j.run.id p s0) (
          Same-trans j.task.id j.run.id s1 s2 _
            (Same-record_task_prs j.task.id j.run.id w.now j.task.id j.run.id rs s1)
            (Same-record_run_lines j.task.id j.run.id w j.task.id j.run.id rs [] s2)))

  Same-managed_prs :
      (pr_url : Text) (s : Store) → Same j.task.id j.run.id s (managed_prs w e j result pr_url s)
  Same-managed_prs [] s = (refl, refl)
  Same-managed_prs (c ∷ cs) s =
      let managed = managed_result w e j result (c ∷ cs) ∷ [] in
      let s1 = record_task_prs w.now j.task.id j.run.id managed s in
      Same-trans j.task.id j.run.id s s1 _
        (Same-record_task_prs j.task.id j.run.id w.now j.task.id j.run.id managed s)
        (Same-record_run_lines j.task.id j.run.id w j.task.id j.run.id managed j.default_branch s1)

  managed_done-Ends : Ends Ending.delivered (managed_done w e j result)
  unfolding managed_done
  managed_done-Ends = pr_created-Records _ _ (Same-managed_prs _ (succeeded w e j result _))

  parked-Ends : Ends Ending.waits (parked w e j result)
  unfolding parked
  parked-Ends =
      let s = succeeded w e j result [] in
      recorded-Records Ending.waits (has_session result j) [] "" result.result_text _ (
        Same-trans j.task.id j.run.id s (mark_comments_consumed s j.task.id j.run.id) _
          (Same-consumed j.task.id j.run.id s j.task.id j.run.id)
          (Same-with_report j.task.id j.run.id w j.task.id result.result_text _))

  -- `requeued_status` is the outcome of a reply in time.
  requeued_outcome :
      (session : Bool) → task_outcome Ending.replied session ≡ requeued_status session
  requeued_outcome true = refl
  requeued_outcome false = refl

  Records-trans :
      (x : Ending) (session : Bool) (s s' : Store)
      → Records j.task.id j.run.id x session e.store s
      → Same j.task.id j.run.id s s'
      → Records j.task.id j.run.id x session e.store s'
  Records-trans x session s s' (p, q) (p', q') = (p' ∙ p, q' ∙ q)

  requeued-Ends : Ends Ending.replied (requeued w e j result)
  unfolding requeued
  requeued-Ends =
      let session = has_session result j in
      let s = with_report w j.task.id result.result_text (succeeded w e j result []) in
      Records-trans Ending.replied session
        (set_task_status s w.now j.task.id (requeued_status session)) _
        (rw (sym (requeued_outcome session)) (
          recorded-Records Ending.replied session [] "" result.result_text s
            (Same-with_report j.task.id j.run.id w j.task.id result.result_text _)))
        (Same-reset_task_attempts _ j.task.id j.run.id)

  completed-Ends :
      Ends
        (ending j.agent_mode
          (is_waiting_human result.result_text)
          (answered_in_park_window e.store j.run.id)
          none
          none)
        (completed w e j result)
  unfolding completed
  completed-Ends = elim (Bool-cases j.agent_mode) [
    | inl a ↦ rw a (elim (Bool-cases (is_waiting_human result.result_text)) [
      | inl b ↦ rw b (elim (Bool-cases (answered_in_park_window e.store j.run.id)) [
        | inl c ↦ rw c requeued-Ends
        | inr c ↦ rw c parked-Ends
      ])
      | inr b ↦ rw b (agent_results-Ends (parse_results result.result_text))
    ])
    | inr a ↦ rw a managed_done-Ends
  ]

  -- The endings that `settleInterrupted` deals with.
  abbrev Interrupts : Ending → Type 0
  Interrupts x = (session : Bool) → task_status_after_interruption session ≡ task_outcome x session

  settle_interrupted-Ends :
      (x : Ending) (error : String) (text : Text) (s : Store)
      → Interrupts x
      → Same j.task.id j.run.id (ended w e j result (run_outcome x) error text) s
      → Ends x (settle_interrupted w e j result s)
  unfolding settle_interrupted
  settle_interrupted-Ends x error text s i h =
      rw (i (has_session result j)) (recorded-Records x (has_session result j) [] error text s h)

  Same-with_reset_at :
      (reset_at : Time) (s : Store)
      → Same j.task.id j.run.id s (with_reset_at w e j result reset_at s)
  unfolding set_run_rate_limit_reset_at
  Same-with_reset_at reset_at s =
      either (λ s'. Same j.task.id j.run.id s s') (is_zero reset_at) s _ (refl, refl)
        (Same-run_row s j.task.id j.run.id j.run.id _ (λ (r : Run). refl) (λ (r : Run). refl))

  suspended-Ends : (reset_at : Time) → Ends Ending.suspended (suspended w e j result reset_at)
  unfolding suspended task_status_after_interruption
  suspended-Ends reset_at =
      settle_interrupted-Ends Ending.suspended (w.suspended_text reset_at) [] _
        (λ b. elim b [ true ↦ refl | false ↦ refl ]) (Same-with_reset_at reset_at _)

  cancelled-Ends : Ends Ending.cancelled (cancelled w e j result)
  unfolding cancelled
  cancelled-Ends =
      recorded-Records Ending.cancelled (has_session result j) [] "cancelled by user" [] _
        (refl, refl)

  failed-Ends : (err : InvokeError) → Ends (ending_of_error err) (failed w e j result err)
  unfolding failed task_status_after_interruption
  failed-Ends (InvokeError.rate_limited reset_at text) =
      settle_interrupted-Ends Ending.limited text [] _ (λ b. elim b [ true ↦ refl | false ↦ refl ])
        (Same-with_reset_at reset_at _)
  failed-Ends (InvokeError.tool_denied message text) =
      settle_interrupted-Ends Ending.broken text result.result_text _
        (λ b. elim b [ true ↦ refl | false ↦ refl ]) (refl, refl)
  failed-Ends (InvokeError.timed_out text) =
      settle_interrupted-Ends Ending.timed_out text [] _
        (λ b. elim b [ true ↦ refl | false ↦ refl ]) (refl, refl)
  failed-Ends (InvokeError.session_not_found text) =
      settle_interrupted-Ends Ending.broken text [] _ (λ b. elim b [ true ↦ refl | false ↦ refl ])
        (refl, refl)
  failed-Ends (InvokeError.other text) =
      settle_interrupted-Ends Ending.broken text [] _ (λ b. elim b [ true ↦ refl | false ↦ refl ])
        (refl, refl)

  -- The end of a run is classified as the table of outcomes says, whatever the tables: the task gets
  -- the status, and the run the one, that follow from how the run ended and whether it has a session.
  pub classify-Ends :
      (err : Option InvokeError) (cause : Option Cause)
      → Ends
          (ending j.agent_mode
            (is_waiting_human result.result_text)
            (answered_in_park_window e.store j.run.id)
            err
            cause)
          (classify w e j result err cause).0
  unfolding classify
  classify-Ends none cause = completed-Ends
  classify-Ends (some err) none = failed-Ends err
  classify-Ends (some err) (some Cause.shutdown) = failed-Ends err
  classify-Ends (some err) (some (Cause.suspended reset_at)) = suspended-Ends reset_at
  classify-Ends (some err) (some Cause.cancelled) = cancelled-Ends
