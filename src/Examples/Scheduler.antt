-- ===== src/Examples/Scheduler.antt =====
-- Tests of the scheduler, and its theorems at concrete inputs.
use burnrate.Prelude.{◌≤◌, ◌≡◌, ◌⊎◌, refl, inl, max, true, false, List, [], ◌∷◌}
use burnrate.Prelude.Lists.{All, length}
use burnrate.Prelude.Int.{pos, pos_part}
use burnrate.Domain.{Run, is_active}
use burnrate.Scheduler.State.{running, is_inflight}
use burnrate.Scheduler.Reconcile.{reconcile}
use burnrate.Scheduler.Poll.{World, Fetched, tick}
use burnrate.Scheduler.Control.{Event, handle_all, run_now}
use burnrate.Scheduler.Backoff.{RateLimit}
use burnrate.Scheduler.Limits.{handle_all-RateLimit}
use burnrate.Scheduler.Orphans.{reconcile-no-orphans}
use burnrate.Scheduler.Flights.{NoRepeat}
use burnrate.Scheduler.Life.{tick-within-workers, handle_all-NoRepeat}
use burnrate.Scheduler.Manual.{Outcome, run_now-Outcome}
use burnrate.Examples.Data.{noon, desk, queue, daemon, low}

abbrev world : World
world = record {
  now = noon;
  nanos = 12345;
  answer = Fetched.reading low;
  process_alive = λ pid. false;
  is_claude = λ pid. false;
}

abbrev limited : World
limited = record world { answer = Fetched.rate_limited 0 }

abbrev events : List Event
events =
    Event.polled limited
    ∷ Event.launched_now noon true 3
    ∷ Event.cancels 1
    ∷ Event.polled world
    ∷ Event.ended 2
    ∷ []

handle_all-RateLimit_example : RateLimit (handle_all events (daemon queue))
handle_all-RateLimit_example = handle_all-RateLimit events (daemon queue) (inl (refl, refl, refl))

reconcile-no-orphans_example :
    All
      (λ (x : Run). (is_active x.status ≡ false) ⊎ (is_inflight (daemon desk) x.task_id ≡ true))
      (reconcile (λ pid. false) (λ pid. false) (daemon desk) noon).st.runs
reconcile-no-orphans_example = reconcile-no-orphans (λ pid. false) (λ pid. false) noon (daemon desk)

tick-within-workers_example :
    length (running (tick world true (daemon queue)))
    ≤ max (length (running (daemon queue))) (pos_part (pos 2))
tick-within-workers_example = tick-within-workers world (daemon queue) true

handle_all-NoRepeat_example : NoRepeat (running (handle_all events (daemon queue)))
unfolding running
handle_all-NoRepeat_example = handle_all-NoRepeat events (daemon queue) tt

run_now-Outcome_example : Outcome (daemon queue) noon true 3 (run_now (daemon queue) noon true 3)
run_now-Outcome_example = run_now-Outcome (daemon queue) noon true 3
