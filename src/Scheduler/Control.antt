-- ===== src/Scheduler/Control.antt =====
-- What is asked of the scheduler from outside, and its loop: internal/scheduler/scheduler.go.
use burnrate.Prelude.{ℕ, ◌*◌, Bool, true, false, not, ◌&&◌, Option, none, some, List, [], ◌∷◌}
use burnrate.Prelude.Tests.{◌==◌, if◌then◌else◌}
use burnrate.Prelude.Lists.{keep}
use burnrate.Prelude.Int.{pos, ltb_ℤ}
use burnrate.Scheduling.Types.{Time, Action, ReasonText, Decision, sub_time}
use burnrate.Scheduling.Decide.{decision_for}
use burnrate.Domain.{TaskStatus, Task, is_queued, is_resumable}
use burnrate.Store.Tasks.{get_task}
use burnrate.Scheduler.State.{
  Scheduler, Candidate, Account, Config, run_complete, act, is_inflight, flight_id, request_refresh,
  second, set_account, set_config, cancel_task,
}
use burnrate.Scheduler.Plan.{plan, by_id, launch}
use burnrate.Scheduler.Poll.{World, tick}

pub data RunNowError : Type 0 where
  task_not_found not_launchable no_claude already_running : RunNowError
  bad_status : TaskStatus → RunNowError
  gives_up cannot_launch : ReasonText → RunNowError

abbrev pub launch_if : Scheduler → Decision → Option Candidate → Scheduler × Option RunNowError
launch_if s d none = (s, some not_launchable)
launch_if s d (some c) = (launch s c d, none)

-- The `switch` on the decision's action.
abbrev pub obey : Action → Scheduler → Decision → Option Candidate → Scheduler × Option RunNowError
obey Action.launch s d c = launch_if s d c
obey Action.fail s d c = (s, some (gives_up d.reason.text))
obey Action.wait s d c = (s, some (cannot_launch d.reason.text))
obey Action.suspend s d c = (s, some (cannot_launch d.reason.text))

abbrev pub obey_plan :
    Scheduler → Option Decision → Option Candidate → Scheduler × Option RunNowError
obey_plan s none c = (s, some not_launchable)
obey_plan s (some d) c = obey d.action s d c

abbrev pub force_only : ℕ → ℕ → Bool
force_only id i = i == id

-- `RunNow`, once the task has been looked up; `has_claude` is the answer of `exec.LookPath`.
abbrev pub run_found : Scheduler → Time → Bool → ℕ → Option Task → Scheduler × Option RunNowError
run_found s now has_claude id none = (s, some task_not_found)
run_found s now has_claude id (some task) =
    if not (is_queued task.status) && not (is_resumable task.status)
    then (s, some (bad_status task.status))
    else if not has_claude && not s.cfg.dry_run
    then (s, some no_claude)
    else if is_inflight s id
    then (s, some already_running)
    else let (p, cands) = plan s now (force_only id) in
      obey_plan s (decision_for p id) (by_id cands id)

unfoldable pub run_now : Scheduler → Time → Bool → ℕ → Scheduler × Option RunNowError
run_now s now has_claude id = run_found s now has_claude id (get_task s.st id)

-- The deferred function of a launch: the run has ended.
unfoldable pub run_ended : Scheduler → ℕ → Scheduler
run_ended s id = request_refresh (
    act (record s { inflight = keep (λ f. not (flight_id f == id)) s.inflight })
      (run_complete id ∷ []))

-- What can happen to a scheduler: a message of its loop, the end of a run, or a call.
pub data Event : Type 0 where
  polled : World → Event
  refreshed : World → Event
  ended : ℕ → Event
  wants_refresh : Event
  launched_now : Time → Bool → ℕ → Event
  cancels : ℕ → Event
  switches_account : Account → Event
  configures : Config → Event

-- The loop's `refreshNow` case takes the message, and ticks unless the last fetch is less than
-- three seconds old.
unfoldable pub on_refresh : World → Scheduler → Scheduler
on_refresh w s =
    let s' = record s { refresh_now = false } in
    if ltb_ℤ (sub_time w.now s.last_fetch_at) (pos (3 * second)) then s' else tick w true s'

unfoldable pub handle : Event → Scheduler → Scheduler
handle (Event.polled w) s = tick w false s
handle (Event.refreshed w) s = on_refresh w s
handle (Event.ended id) s = run_ended s id
handle Event.wants_refresh s = request_refresh s
handle (Event.launched_now now has_claude id) s = (run_now s now has_claude id).0
handle (Event.cancels id) s = (cancel_task s id).0
handle (Event.switches_account a) s = set_account s a
handle (Event.configures cfg) s = set_config s cfg

unfoldable pub handle_all : List Event → Scheduler → Scheduler
handle_all [] s = s
handle_all (e ∷ es) s = handle_all es (handle e s)
