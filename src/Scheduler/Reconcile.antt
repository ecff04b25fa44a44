-- ===== src/Scheduler/Reconcile.antt =====
-- `reconcile` of internal/scheduler/scheduler.go: the runs that an earlier daemon left behind. The
-- kernel's answers on a process are parameters.
use burnrate.Prelude.{ℕ, Bool, not, ◌&&◌, List, [], ◌∷◌, ◌++◌, String}
use burnrate.Prelude.Tests.{ltb, if◌then◌else◌}
use burnrate.Prelude.Text.{is_set}
use burnrate.Scheduling.Types.{Time}
use burnrate.Scheduling.Interruption.{task_status_after_interruption}
use burnrate.Domain.{TaskStatus, RunStatus, Run}
use burnrate.Store.Tasks.{set_task_status}
use burnrate.Store.Runs.{active_runs, finish_run}
use burnrate.Scheduler.State.{Scheduler, Act, kill_orphan, run_update, act, is_inflight}

module _ (process_alive is_claude : ℕ → Bool) where
  -- The store after a run was given up: `FinishRun` and `SetTaskStatus`.
  abbrev given_up : Scheduler → Time → Run → String → TaskStatus → Scheduler
  given_up s now r error status = record s {
    st =
        set_task_status
          (finish_run s.st now r.id RunStatus.errored r.cost_usd r.num_turns [] error []) now
          r.task_id status;
  }

  -- One run of the loop; the second component is the task if it was touched.
  unfoldable pub reconcile_run : Scheduler → Time → Run → Scheduler × List ℕ
  reconcile_run s now r =
      let recovered = task_status_after_interruption (is_set r.session_id) in
      if is_inflight s r.task_id
      then (s, [])
      else if ltb 0 r.pid && process_alive r.pid
      then if not (is_claude r.pid)
        then (
          given_up s now r "daemon lost track (pid recycled)"
              (if is_set r.session_id then TaskStatus.resumable else TaskStatus.failed),
          r.task_id ∷ [],
        )
        else (
          given_up (act s (kill_orphan r.pid ∷ [])) now r
              "orphaned claude from previous daemon killed; will resume" recovered,
          r.task_id ∷ [],
        )
      else (given_up s now r "process died" recovered, r.task_id ∷ [])

  unfoldable pub reconcile_locked : Time → List Run → Scheduler → Scheduler × List ℕ
  reconcile_locked now [] s = (s, [])
  reconcile_locked now (r ∷ rs) s =
      let (s1, touched) = reconcile_run s now r in
      let (s2, more) = reconcile_locked now rs s1 in (s2, touched ++ more)

  abbrev updates : List ℕ → List Act
  updates [] = []
  updates (id ∷ ids) = run_update id ∷ updates ids

  unfoldable pub reconcile : Scheduler → Time → Scheduler
  reconcile s now =
      let (s', touched) = reconcile_locked now (active_runs s.st) s in act s' (updates touched)
