-- ===== src/Examples/Store.antt =====
-- The measurements of a branch at concrete inputs.
use burnrate.Prelude.{ℕ, ◌+◌, ◌*◌, ◌≤◌, arith, ◌≡◌, refl, inl, inr, List, [], ◌∷◌}
use burnrate.Prelude.Tests.{◌==◌, ==_iff, Bool-cases}
use burnrate.Scheduling.Types.{minute}
use burnrate.Store.Streak.{compute_streak}
use burnrate.Store.Streak.Longest.{Kept, compute_streak-longest}
use burnrate.Prelude.Text.{codes}
use burnrate.Domain.{TaskPr, Run, RunStatus}
use burnrate.Store.Tables.{Store}
use burnrate.Store.TaskPrs.{same_target, new_task_pr, link}
use burnrate.Store.Growth.{record_all, record_all-Growing}
use burnrate.Examples.Data.{desk, noon, run_of}

abbrev branch_pr : TaskPr
branch_pr = record (new_task_pr 1 noon 1 1 (codes "o/r") (codes "feat") [] []) {
  lines_added = 10;
  lines_removed = 4;
}

abbrev recorded_desk : Store
recorded_desk = record desk { task_prs = branch_pr ∷ []; last_task_pr = 1 }

record_all-Growing_example :
    10 + (record_all recorded_desk 1 (codes "o/r") (codes "feat") ((25, 4) ∷ (31, 6) ∷ [])).1.0 ≡ 31
unfolding same_target
record_all-Growing_example =
    record_all-Growing 1 (codes "o/r") (codes "feat") ((25, 4) ∷ (31, 6) ∷ []) recorded_desk
      branch_pr refl (ground arith, (ground arith, tt))

no_link : link (codes "none (no access)") ≡ []
no_link = refl

abbrev day_run : ℕ → Run
day_run d = record (run_of 1 1 RunStatus.errored) { started_at = d * (1440 * minute) }

abbrev two_days : List Run
two_days = day_run 7 ∷ day_run 8 ∷ day_run 5 ∷ []

compute_streak-longest_example :
    (2 ≤ (compute_streak two_days 9).longest_streak) × Kept two_days (compute_streak two_days 9)
compute_streak-longest_example = compute_streak-longest two_days 9 1 7 (λ k p q.
    elim (Bool-cases (k == 7)) [
      | inl first ↦ rw ((==_iff k 7).0 first) refl
      | inr other ↦ let e : k ≡ 8 = ground arith in rw e refl
    ])

two_days_streak : (compute_streak two_days 9).current_streak ≡ 2
unfolding compute_streak
two_days_streak = refl
