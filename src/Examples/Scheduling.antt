-- ===== src/Examples/Scheduling.antt =====
-- Tests of the scheduling policy, and its theorems at concrete inputs.
use burnrate.Prelude.{ℕ, ◌*◌, ◌≡◌, ◌≤◌, false, some, [], ◌∷◌, refl}
use burnrate.Prelude.Tests.{◌==◌}
use burnrate.Prelude.Lists.{length}
use burnrate.Prelude.Int.{pos}
use burnrate.Scheduling.Types.{
  ReasonCode, ReasonText, Snapshot, Policy, Candidate, Input, minute, percent, blocking,
}
use burnrate.Scheduling.Gate.{global_gate}
use burnrate.Scheduling.Decide.{
  decide, decide_each, decide_one, global_after, launches, launches_of, contains,
}
use burnrate.Scheduling.Reset.{ResetDetector}
use burnrate.Scheduling.Capacity.{
  slots_taken, decide-within-workers, NoOvertaking, decide-NoOvertaking,
}
use burnrate.Scheduling.Verdicts.{Zip, Decides, decide-IsVerdict}

abbrev reading : Snapshot
reading = record {
  captured_at = 1000 * minute;
  session_util = 30 * percent;
  session_resets_at = 1100 * minute;
  weekly_util = 20 * percent;
  weekly_resets_at = 9000 * minute;
}

abbrev policy : Policy
policy = record {
  workers = pos 2;
  session_threshold = 95 * percent;
  weekly_threshold = 90 * percent;
  max_attempts = pos 20;
  run_timeout = pos (75 * minute);
  max_snapshot_age = pos (15 * minute);
}

abbrev queued_task : ℕ → Candidate
queued_task id = record { task_id = id; title = "task"; resume = false; attempt = pos 0 }

abbrev queue : Input
queue = record {
  now = 1001 * minute;
  snapshot = some reading;
  policy = policy;
  candidates = queued_task 1 ∷ queued_task 2 ∷ queued_task 3 ∷ queued_task 4 ∷ [];
  running = 2 ∷ [];
  weekly_backoff_until = 0;
  force = λ id. id == 4;
}

abbrev spent : Input
spent = record queue { snapshot = some (record reading { session_util = 100 * percent }) }

abbrev full : Input
full = record queue {
  candidates = queued_task 5 ∷ queued_task 6 ∷ [];
  running = 2 ∷ 3 ∷ [];
  force = λ id. false;
}

takes_one : slots_taken queue (decide queue).decisions ≡ 1
unfolding decide decide_each decide_one global_gate contains blocking
takes_one = refl

launches_two : length (launches (decide queue)) ≡ 2
unfolding decide decide_each decide_one global_gate contains blocking launches
launches_two = refl

spent_global : (decide spent).global ≡ record {
  code = ReasonCode.session_exhausted;
  text = ReasonText.session_spent_until (100 * percent) (pos (99 * minute));
}
unfolding decide decide_each decide_one global_gate contains blocking global_after launches_of
spent_global = refl

decide-within-workers_example : slots_taken queue (decide queue).decisions ≤ 1
decide-within-workers_example = decide-within-workers queue

decide-NoOvertaking_example : NoOvertaking queue (decide queue).decisions
decide-NoOvertaking_example = decide-NoOvertaking queue

decide-IsVerdict_example : Zip (Decides queue) queue.candidates (decide queue).decisions
decide-IsVerdict_example = decide-IsVerdict queue

abbrev detector : ResetDetector
detector = record { last_util = 90 * percent; last_reset = 1100 * minute }
