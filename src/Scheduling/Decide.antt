-- ===== src/Scheduling/Decide.antt =====
-- `Decide` of internal/scheduling/scheduling.go: the loop over the candidates, and the plan.
use burnrate.Prelude.{ℕ, Bool, true, false, not, ◌&&◌, Option, none, some, List, [], ◌∷◌, map}
use burnrate.Prelude.Tests.{◌==◌, if◌then◌else◌}
use burnrate.Prelude.Lists.{length, keep, find, any}
use burnrate.Prelude.Int.{ℤ, pos, ◌-ℤ◌, leb_ℤ}
use burnrate.Scheduling.Types.{
  Action, Reason, ReasonCode, ReasonText, reasonf, blocking, Candidate, Input, Decision, Plan,
}
use burnrate.Scheduling.Gate.{global_gate, window_state_for}

unfoldable pub contains : List ℕ → ℕ → Bool
contains ids id = any (λ v. v == id) ids

abbrev pub is_launch : Action → Bool
is_launch Action.launch = true
is_launch _ = false

abbrev pub is_fail : Action → Bool
is_fail Action.fail = true
is_fail _ = false

abbrev pub is_wait : Action → Bool
is_wait Action.wait = true
is_wait _ = false

-- The `switch` on one candidate, with the number of free slots after it.
unfoldable pub decide_one : Input → Reason → ℤ → Candidate → Decision × ℤ
decide_one input gate free c =
    let waiting : Reason → Decision =
      λ r. record { task_id = c.task_id; action = Action.wait; timeout = pos 0; reason = r } in
    let launching : ReasonText → Decision = λ t. record {
      task_id = c.task_id;
      action = Action.launch;
      timeout = input.policy.run_timeout;
      reason = reasonf ReasonCode.ready t;
    } in
    if contains input.running c.task_id
    then (waiting (reasonf ReasonCode.running ReasonText.running_text), free)
    else if c.resume && leb_ℤ input.policy.max_attempts c.attempt
    then (
      record {
        task_id = c.task_id;
        action = Action.fail;
        timeout = pos 0;
        reason =
            reasonf ReasonCode.attempt_cap (ReasonText.gave_up_after input.policy.max_attempts);
      },
      free,
    )
    else if input.force c.task_id
    then (launching ReasonText.launched_by_hand, free)
    else if blocking gate
    then (waiting gate, free)
    else if leb_ℤ free (pos 0)
    then (
      waiting (reasonf ReasonCode.workers_busy (ReasonText.all_workers_busy input.policy.workers)),
      free,
    )
    else (launching ReasonText.ready_text, free -ℤ pos 1)

-- `firstBlocked` after one more decision; `none` is the zero Reason.
abbrev pub first_blocked_after : Option Reason → Decision → Option Reason
first_blocked_after (some r) d = some r
first_blocked_after none d = if is_wait d.action && blocking d.reason then some d.reason else none

-- The loop: the decisions, and `firstBlocked` at its end.
unfoldable pub decide_each :
    Input → Reason → ℤ → Option Reason → List Candidate → List Decision × Option Reason
decide_each input gate free first [] = ([], first)
decide_each input gate free first (c ∷ cs) =
    let (d, free') = decide_one input gate free c in
    let (ds, last) = decide_each input gate free' (first_blocked_after first d) cs in (d ∷ ds, last)

unfoldable pub launches_of : List Decision → List Decision
launches_of ds = keep (λ d. is_launch d.action) ds

unfoldable pub launches : Plan → List Decision
unfolding launches_of
launches p = launches_of p.decisions

unfoldable pub failures : Plan → List Decision
failures p = keep (λ d. is_fail d.action) p.decisions

-- `Plan.For`
unfoldable pub decision_for : Plan → ℕ → Option Decision
decision_for p id = find (λ d. d.task_id == id) p.decisions

abbrev pub suspend_one : Reason → ℕ → Decision
suspend_one gate id = record {
  task_id = id;
  action = Action.suspend;
  timeout = pos 0;
  reason = gate;
}

abbrev pub is_session_exhausted : ReasonCode → Bool
is_session_exhausted ReasonCode.session_exhausted = true
is_session_exhausted _ = false

-- `plan.Global`, once the loop has run.
unfoldable pub global_after : Reason → List Candidate → List Decision → Option Reason → Reason
global_after gate candidates ds first =
    if not (blocking gate) && (length (launches_of ds) == 0)
    then if length candidates == 0
      then reasonf ReasonCode.queue_empty ReasonText.queue_empty_text
      else elim first [ none ↦ gate | some r ↦ r ]
    else gate

unfoldable pub decide : Input → Plan
decide input =
    let gate = global_gate input in
    let (ds, first) =
      decide_each input gate (input.policy.workers -ℤ pos (length input.running)) none
        input.candidates in
    record {
      window_state = window_state_for input.snapshot input.policy.session_threshold;
      global = global_after gate input.candidates ds first;
      decisions = ds;
      suspend = if is_session_exhausted gate.code then map (suspend_one gate) input.running else [];
    }
