-- ===== src/Runner/Frames.antt =====
-- The parts of `classify` that leave the statuses of tasks and runs alone.
use burnrate.Prelude.{ℕ, refl, ◌&&◌, ◌||◌, Option, none, some, List, [], ◌∷◌}
use burnrate.Prelude.Tests.{◌==◌, either}
use burnrate.Prelude.Text.{Text, no_text}
use burnrate.Scheduling.Types.{Time}
use burnrate.Domain.{Task, Run}
use burnrate.Store.Tables.{Store}
use burnrate.Store.Tasks.{get_task, set_task_summary}
use burnrate.Store.Runs.{
  get_run, set_run_branch, set_run_agent_repo, set_run_agent_worked_in, set_run_lines,
}
use burnrate.Store.Comments.{add_comment, mark_comments_consumed}
use burnrate.Store.TaskPrs.{upsert_task_pr}
use burnrate.Store.Statuses.{
  task_status, run_status, Same, Same-trans, Same-task_row, Same-run_row, Same-upsert_task_pr,
  Same-record_task_pr_lines,
}
use burnrate.Runner.Results.{AgentResult}
use burnrate.Runner.Classify.{
  World, record_task_prs, measure_each, record_run_lines, with_report, with_primary, with_summary,
  with_response, set_if, recorded, plus, stored_lines,
}

module _ (id run_id : ℕ) where
  Same-with_response :
      (s : Store) (now : Time) (task_id : ℕ) (text : Text)
      → Same id run_id s (with_response s now task_id text)
  unfolding add_comment task_status run_status get_task get_run
  Same-with_response s now task_id [] = (refl, refl)
  Same-with_response s now task_id (c ∷ cs) = (refl, refl)

  Same-with_summary :
      (s : Store) (task_id : ℕ) (text : Text) → Same id run_id s (with_summary s task_id text)
  unfolding set_task_summary
  Same-with_summary s task_id [] = (refl, refl)
  Same-with_summary s task_id (c ∷ cs) =
      Same-task_row s id run_id task_id _ (λ (t : Task). refl) (λ (t : Task). refl)

  pub Same-with_report :
      (w : World) (task_id : ℕ) (text : Text) (s : Store)
      → Same id run_id s (with_report w task_id text s)
  unfolding with_report
  Same-with_report w task_id text s =
      Same-trans id run_id s (with_response s w.now task_id text) _
        (Same-with_response s w.now task_id text) (Same-with_summary _ task_id (w.summary_of text))

  pub Same-consumed :
      (s : Store) (task_id run : ℕ) → Same id run_id s (mark_comments_consumed s task_id run)
  unfolding mark_comments_consumed task_status run_status get_task get_run
  Same-consumed s task_id run = (refl, refl)

  Same-set_if :
      (set : Store → ℕ → Text → Store) (run : ℕ) (text : Text) (s : Store)
      → ((t : Text) → Same id run_id s (set s run t))
      → Same id run_id s (set_if set run text s)
  Same-set_if set run [] s h = (refl, refl)
  Same-set_if set run (c ∷ cs) s h = h (c ∷ cs)

  pub Same-with_primary :
      (run : ℕ) (p : AgentResult) (s : Store) → Same id run_id s (with_primary run p s)
  unfolding with_primary set_run_branch set_run_agent_repo set_run_agent_worked_in
  Same-with_primary run p s =
      let s1 = set_if set_run_branch run p.branch s in
      let s2 = set_if set_run_agent_repo run p.repo s1 in
      Same-trans id run_id s s1 _
        (Same-set_if set_run_branch run p.branch s
          (λ t. Same-run_row s id run_id run _ (λ (r : Run). refl) (λ (r : Run). refl)))
        (Same-trans id run_id s1 s2 _
          (Same-set_if set_run_agent_repo run p.repo s1
            (λ t. Same-run_row s1 id run_id run _ (λ (r : Run). refl) (λ (r : Run). refl)))
          (Same-set_if set_run_agent_worked_in run p.worked_in s2
            (λ t. Same-run_row s2 id run_id run _ (λ (r : Run). refl) (λ (r : Run). refl))))

  pub Same-record_task_prs :
      (now : Time) (task_id run : ℕ) (rs : List AgentResult) (s : Store)
      → Same id run_id s (record_task_prs now task_id run rs s)
  unfolding record_task_prs
  Same-record_task_prs now task_id run [] s = (refl, refl)
  Same-record_task_prs now task_id run (r ∷ rs) s =
      Same-trans id run_id s
        (upsert_task_pr s now task_id run r.repo r.branch r.pr_url r.worked_in).0 _
        (Same-upsert_task_pr s id run_id now task_id run r.repo r.branch r.pr_url r.worked_in)
        (Same-record_task_prs now task_id run rs _)

  Same-recorded :
      (s : Store) (task_id : ℕ) (r : AgentResult) (d : Option (ℕ × ℕ))
      → Same id run_id s (recorded s task_id r d).0
  Same-recorded s task_id r none = (refl, refl)
  Same-recorded s task_id r (some (added, removed)) =
      Same-record_task_pr_lines s id run_id task_id r.repo r.branch added removed

  Same-measure_each :
      (stat : Text → Text → Option (ℕ × ℕ)) (base : Text) (task_id : ℕ) (rs : List AgentResult)
      (s : Store) (total : ℕ × ℕ)
      → Same id run_id s (measure_each stat base task_id rs s total).0
  unfolding measure_each
  Same-measure_each stat base task_id [] s total = (refl, refl)
  Same-measure_each stat base task_id (r ∷ rs) s total =
      let d = recorded s task_id r (stat r.worked_in base) in
      either (λ (x : Store × (ℕ × ℕ)). Same id run_id s x.0)
        (no_text r.worked_in || no_text r.branch) (measure_each stat base task_id rs s total)
        (measure_each stat base task_id rs d.0 (plus d.1 total))
        (Same-measure_each stat base task_id rs s total)
        (Same-trans id run_id s d.0 _ (Same-recorded s task_id r (stat r.worked_in base))
          (Same-measure_each stat base task_id rs d.0 (plus d.1 total)))

  Same-stored_lines : (run : ℕ) (x : Store × (ℕ × ℕ)) → Same id run_id x.0 (stored_lines run x)
  unfolding set_run_lines
  Same-stored_lines run (s, (added, removed)) =
      either (λ s'. Same id run_id s s') (added == 0 && removed == 0) s _ (refl, refl)
        (Same-run_row s id run_id run _ (λ (r : Run). refl) (λ (r : Run). refl))

  pub Same-record_run_lines :
      (w : World) (task_id run : ℕ) (rs : List AgentResult) (base : Text) (s : Store)
      → Same id run_id s (record_run_lines w task_id run rs base s)
  unfolding record_run_lines
  Same-record_run_lines w task_id run rs base s =
      let x = measure_each w.branch_diff_stat base task_id rs s (0, 0) in
      Same-trans id run_id s x.0 _ (Same-measure_each w.branch_diff_stat base task_id rs s (0, 0))
        (Same-stored_lines run x)
