-- ===== src/Runner/Replies.antt =====
-- A human's reply that arrives while its run is being classified.
use burnrate.Prelude.{ℕ, ◌≡◌, refl, sym, true, Option, none, List, [], ◌∷◌, ◌++◌}
use mathlib.Core.Path.{subst}
use burnrate.Prelude.Lists.{All}
use burnrate.Prelude.Text.{Text}
use burnrate.Scheduling.Types.{Time}
use burnrate.Domain.{Comment, is_agent}
use burnrate.Store.Tables.{Store}
use burnrate.Store.Tasks.{update_task_row, set_task_status, set_task_summary, reset_task_attempts}
use burnrate.Store.Runs.{finish_run, update_run_row}
use burnrate.Store.Comments.{add_comment}
use burnrate.Service.Attempts.{Fresh, reset-Fresh}
use burnrate.Scheduler.State.{Cause}
use burnrate.Runner.State.{ClaudeResult, RunnerEnv, Job}
use burnrate.Runner.Results.{is_waiting_human}
use burnrate.Runner.Classify.{
  World, with_report, with_summary, with_response, answered_in_park_window, requeued, completed,
  classify, succeeded,
}

-- The comments of `s'` are those of `s`, unchanged, with some of the agent's after them.
abbrev pub Kept : Store → Store → Type 0
Kept s s' =
    (extra : List Comment) × (s'.comments ≡ s.comments ++ extra)
    × All (λ c. is_agent c.author ≡ true) extra

append_nil : (xs : List Comment) → xs ≡ xs ++ []
append_nil [] = refl
append_nil (x ∷ xs) = rw (sym (append_nil xs)) refl

Kept-with_response :
    (s : Store) (now : Time) (task_id : ℕ) (text : Text) → Kept s (with_response s now task_id text)
unfolding add_comment
Kept-with_response s now task_id [] = ([], append_nil s.comments, tt)
Kept-with_response s now task_id (c ∷ cs) = (_, refl, (refl, tt))

Kept-with_summary :
    (s s' : Store) (task_id : ℕ) (text : Text) → Kept s s' → Kept s (with_summary s' task_id text)
unfolding set_task_summary update_task_row
Kept-with_summary s s' task_id [] h = h
Kept-with_summary s s' task_id (c ∷ cs) h = h

module _ (w : World) (e : RunnerEnv) (j : Job) (result : ClaudeResult) where
  Kept-requeued : Kept e.store (requeued w e j result).store
  unfolding requeued with_report set_task_status reset_task_attempts update_task_row finish_run
      update_run_row
  Kept-requeued =
      Kept-with_summary e.store _ j.task.id (w.summary_of result.result_text)
        (Kept-with_response (succeeded w e j result []) w.now j.task.id result.result_text)

  Fresh-requeued : Fresh (requeued w e j result).store j.task.id
  unfolding requeued with_report
  Fresh-requeued = reset-Fresh _ j.task.id

  completed-requeued :
      j.agent_mode ≡ true
      → is_waiting_human result.result_text ≡ true
      → answered_in_park_window e.store j.run.id ≡ true
      → completed w e j result ≡ requeued w e j result
  unfolding completed
  completed-requeued a b c = simp (a, b, c)

  -- When a run ends waiting for a human who has answered all that it asked, the reply is not lost: no
  -- comment of before is consumed or changed, and the next run counts as the task's first attempt.
  pub classify-Kept :
      (cause : Option Cause)
      → j.agent_mode ≡ true
      → is_waiting_human result.result_text ≡ true
      → answered_in_park_window e.store j.run.id ≡ true
      → Kept e.store (classify w e j result none cause).0.store
        × Fresh (classify w e j result none cause).0.store j.task.id
  unfolding classify
  classify-Kept cause a b c =
      subst (λ (x : RunnerEnv). Kept e.store x.store × Fresh x.store j.task.id)
        (sym (completed-requeued a b c)) (Kept-requeued, Fresh-requeued)
