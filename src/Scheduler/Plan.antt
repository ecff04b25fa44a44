-- ===== src/Scheduler/Plan.antt =====
-- internal/scheduler/plan.go: the adapter between the daemon and the scheduling policy.
use burnrate.Prelude.{ℕ, ◌*◌, Bool, true, false, Option, none, some, List, [], ◌∷◌, ◌++◌, map}
use burnrate.Prelude.Tests.{◌==◌, ltb, leb, if◌then◌else◌}
use burnrate.Prelude.Int.{pos, ltb_ℤ}
use burnrate.Prelude.Text.{is_set}
use burnrate.Scheduling.Types.{
  Time, Duration, Action, ReasonCode, ReasonText, Reason, Snapshot, Policy, Input, Decision, Plan,
  minute,
}
use burnrate.Scheduling.Types
use burnrate.Scheduling.Decide.{decide, launches, failures}
use burnrate.Domain.{TaskStatus, Task, Run, effective_attempt}
use burnrate.Store.Tasks.{get_task, set_task_status, queued_tasks_by_order}
use burnrate.Store.Runs.{resumable_runs}
use burnrate.Store.Tables.{Store}
use burnrate.Scheduler.State.{
  Config, Cause, Candidate, Act, run_task, checkpoint_and_remove, run_update, Scheduler, act,
  running, is_inflight, signal,
}

abbrev pub max_snapshot_age : Duration
max_snapshot_age = pos (15 * minute)

abbrev pub fallback_run_timeout : Duration
fallback_run_timeout = pos (75 * minute)

unfoldable pub run_timeout : Config → Duration
run_timeout cfg = elim cfg.medium_timeout [
  | none ↦ fallback_run_timeout
  | some d ↦ if ltb_ℤ (pos 0) d then d else fallback_run_timeout
]

unfoldable pub policy_of : Config → Policy
unfolding run_timeout
policy_of cfg = record {
  workers = cfg.parallel_n;
  session_threshold = cfg.util_threshold;
  weekly_threshold = cfg.seven_day_threshold;
  max_attempts = cfg.max_attempts;
  run_timeout = run_timeout cfg;
  max_snapshot_age = max_snapshot_age;
}

-- The loop over the resumable runs: one whose task is gone is left out.
abbrev resume_candidates : Store → List Run → List Candidate
resume_candidates st [] = []
resume_candidates st (r ∷ rs) =
    let rest = resume_candidates st rs in
    elim (get_task st r.task_id) [
      | none ↦ rest
      | some t ↦ record { task = t; resume = some r } ∷ rest
    ]

abbrev fresh_candidate : Task → Candidate
fresh_candidate t = record { task = t; resume = none }

unfoldable pub fetch_candidates : Store → List Candidate
fetch_candidates st =
    resume_candidates st (resumable_runs st) ++ map fresh_candidate (queued_tasks_by_order st)

abbrev is_some : Option Run → Bool
is_some none = false
is_some (some _) = true

abbrev pub policy_candidate : Candidate → Types.Candidate
policy_candidate c = record {
  task_id = c.task.id;
  title = c.task.title;
  resume = is_some c.resume;
  attempt = pos (effective_attempt c.task.attempt_reset_run_id c.resume);
}

-- `byID`: of two candidates for one task the later one is kept.
unfoldable pub by_id : List Candidate → ℕ → Option Candidate
by_id [] id = none
by_id (c ∷ cs) id =
    let later = by_id cs id in
    elim later [ none ↦ (if c.task.id == id then some c else none) | some d ↦ some d ]

abbrev or_zero : Option Time → Time
or_zero none = 0
or_zero (some t) = t

unfoldable pub input_of : Scheduler → Time → List Candidate → (ℕ → Bool) → Input
unfolding running policy_of
input_of s now cands force = record {
  now = now;
  snapshot = s.last_snap;
  policy = policy_of s.cfg;
  candidates = map policy_candidate cands;
  running = running s;
  weekly_backoff_until = or_zero s.backoff;
  force = force;
}

-- `plan`: the plan, and the candidates by their task.
unfoldable pub plan : Scheduler → Time → (ℕ → Bool) → Plan × List Candidate
unfolding input_of
plan s now force = let cands = fetch_candidates s.st in (decide (input_of s now cands force), cands)

-- `launch`: the part under the lock, and the start of the run.
unfoldable pub launch : Scheduler → Candidate → Decision → Scheduler
unfolding is_inflight
launch s c d =
    if is_inflight s c.task.id
    then s
    else act
        (record s { inflight = s.inflight ++ record { task_id = c.task.id; cause = none } ∷ [] })
        (run_task c s.cfg d.timeout
            (elim s.last_snap [ none ↦ 0 | some snap ↦ snap.session_resets_at ])
          ∷ [])

unfoldable pub suspend : Scheduler → Decision → Scheduler
unfolding is_inflight signal
suspend s d =
    if is_inflight s d.task_id
    then signal s d.task_id
        (Cause.suspended (elim s.last_snap [ none ↦ 0 | some snap ↦ snap.session_resets_at ]))
    else s

-- `if c.resume == nil || c.resume.WorktreePath == "" { return }`
abbrev torn_down : Option Run → List Act
torn_down none = []
torn_down (some r) =
    if is_set r.worktree_path
    then checkpoint_and_remove r.worktree_path r.repo_path r.id ∷ []
    else []

unfoldable pub fail : Scheduler → Time → Candidate → Scheduler
fail s now c =
    act (record s { st = set_task_status s.st now c.task.id TaskStatus.failed })
      (run_update c.task.id ∷ torn_down c.resume)

pub record ForecastEntry : Type 0 where
  pub task_id : ℕ
  pub action : Action
  pub reason_code : ReasonCode
  pub reason : ReasonText

abbrev forecast_entry : Decision → ForecastEntry
forecast_entry d = record {
  task_id = d.task_id;
  action = d.action;
  reason_code = d.reason.code;
  reason = d.reason.text;
}

unfoldable pub forecast_from : Plan → List ForecastEntry
forecast_from p = map forecast_entry p.decisions

abbrev pub no_force : ℕ → Bool
no_force id = false

-- `Forecast`
unfoldable pub forecast : Scheduler → Time → List ForecastEntry
unfolding plan
forecast s now = forecast_from (plan s now no_force).0

-- `recordWeeklyBackoff`
unfoldable pub record_weekly_backoff : Scheduler → Time → Scheduler
record_weekly_backoff s now = elim s.last_snap [
  | none ↦ s
  | some snap ↦
      if leb s.cfg.seven_day_threshold snap.weekly_util
      then elim s.backoff [ none ↦ record s { backoff = some snap.weekly_resets_at } | some _ ↦ s ]
      else elim s.backoff [
        | none ↦ s
        | some t ↦ if ltb now t then s else record s { backoff = none }
      ]
]

-- The three loops of `evaluate`.
unfoldable pub suspend_each : List Decision → Scheduler → Scheduler
suspend_each [] s = s
suspend_each (d ∷ ds) s = suspend_each ds (suspend s d)

unfoldable pub fail_each : Time → List Candidate → List Decision → Scheduler → Scheduler
fail_each now cands [] s = s
fail_each now cands (d ∷ ds) s =
    fail_each now cands ds (elim (by_id cands d.task_id) [ none ↦ s | some c ↦ fail s now c ])

unfoldable pub launch_each : List Candidate → List Decision → Scheduler → Scheduler
launch_each cands [] s = s
launch_each cands (d ∷ ds) s =
    launch_each cands ds (elim (by_id cands d.task_id) [ none ↦ s | some c ↦ launch s c d ])

unfoldable pub evaluate : Scheduler → Time → Scheduler
evaluate s now =
    let s1 = record_weekly_backoff s now in
    let (p, cands) = plan s1 now no_force in
    launch_each cands (launches p) (fail_each now cands (failures p) (suspend_each p.suspend s1))
