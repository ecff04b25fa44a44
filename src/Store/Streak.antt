-- ===== src/Store/Streak.antt =====
-- internal/store/streak.go. A day is its number since Go's zero time, in the order of the texts
-- `2006-01-02`; one of 0 is none, like a start of 0.

pub mod Chains
pub mod Longest
use burnrate.Prelude.{ℕ, zero, suc, ◌+◌, ◌*◌, ◌/◌, Bool, true, false, ◌||◌, List, [], ◌∷◌}
use burnrate.Prelude.Tests.{◌==◌, ltb, leb, if◌then◌else◌}
use burnrate.Prelude.Lists.{length, any}
use burnrate.Scheduling.Types.{Time, minute, is_zero}
use burnrate.Domain.{Run}
use burnrate.Store.Tables.{Store}
use burnrate.Store.Runs.{list_runs}

pub record StreakData : Type 0 where
  pub current_streak : ℕ
  pub longest_streak : ℕ
  pub longest_start : ℕ
  pub longest_end : ℕ
  pub first_day : ℕ
  pub active_days : ℕ
  pub total_runs : ℕ
  pub total_tasks : ℕ
  pub total_cost : ℕ
  pub lines_added : ℕ
  pub lines_removed : ℕ

abbrev pub no_data : StreakData
no_data = record {
  current_streak = 0;
  longest_streak = 0;
  longest_start = 0;
  longest_end = 0;
  first_day = 0;
  active_days = 0;
  total_runs = 0;
  total_tasks = 0;
  total_cost = 0;
  lines_added = 0;
  lines_removed = 0;
}

abbrev pub streak_run_limit : ℕ
streak_run_limit = 10000

abbrev pub day_of : Time → ℕ
day_of t = t / (1440 * minute)

-- A set of numbers, in ascending order.
abbrev pub insert_number : ℕ → List ℕ → List ℕ
insert_number d [] = d ∷ []
insert_number d (y ∷ ys) =
    let rest = insert_number d ys in
    if ltb d y then d ∷ y ∷ ys else if d == y then y ∷ ys else y ∷ rest

abbrev counted : Run → StreakData → StreakData
counted r data' = record data' {
  total_runs = data'.total_runs + 1;
  total_cost = data'.total_cost + r.cost_usd;
  lines_added = data'.lines_added + r.lines_added;
  lines_removed = data'.lines_removed + r.lines_removed;
}

-- The loop over the runs: the totals, the days and the tasks.
unfoldable pub totals : List Run → StreakData
totals [] = no_data
totals (r ∷ rs) = let rest = totals rs in if is_zero r.started_at then rest else counted r rest

unfoldable pub days_of : List Run → List ℕ
days_of [] = []
days_of (r ∷ rs) =
    let rest = days_of rs in
    if is_zero r.started_at then rest else insert_number (day_of r.started_at) rest

unfoldable pub tasks_of : List Run → List ℕ
tasks_of [] = []
tasks_of (r ∷ rs) =
    let rest = tasks_of rs in if is_zero r.started_at then rest else insert_number r.task_id rest

-- `chainStart`, `chainLen` and `prev`
pub record Chain : Type 0 where
  pub start : ℕ
  pub len : ℕ
  pub prev : ℕ

abbrev pub single : ℕ → Chain
single d = record { start = d; len = 1; prev = d }

abbrev pub extended : Chain → ℕ → Chain
extended c d = record c { len = c.len + 1; prev = d }

-- `endChain`
unfoldable pub end_chain : ℕ → StreakData → Chain → StreakData
end_chain today s c =
    let s' =
      if leb s.longest_streak c.len
      then record s { longest_streak = c.len; longest_start = c.start; longest_end = c.prev }
      else s in
    if c.prev == today || c.prev + 1 == today then record s' { current_streak = c.len } else s'

-- The loop over the days after the first.
unfoldable pub walk : ℕ → StreakData → Chain → List ℕ → StreakData
unfolding end_chain
walk today s c [] = end_chain today s c
walk today s c (d ∷ ds) =
    let joined = walk today s (extended c d) ds in
    let apart = walk today (end_chain today s c) (single d) ds in
    if d == c.prev + 1 then joined else apart

abbrev pub walk_days : ℕ → StreakData → List ℕ → StreakData
walk_days today s [] = s
walk_days today s (d ∷ ds) = walk today (record s { first_day = d }) (single d) ds

-- `computeStreak`
unfoldable pub compute_streak : List Run → ℕ → StreakData
unfolding totals days_of tasks_of walk
compute_streak runs today =
    walk_days today
      (record (totals runs) {
        total_tasks = length (tasks_of runs);
        active_days = length (days_of runs);
      })
      (days_of runs)

-- `Streak`
unfoldable pub streak : Store → Time → StreakData
unfolding compute_streak list_runs
streak s now = compute_streak (list_runs s 0 streak_run_limit) (day_of now)
