-- ===== src/Scheduling/Verdicts.antt =====
-- What `Decide` says of each candidate, against a description with no loop and no slot counter.
use burnrate.Prelude.{
  ℕ, ◌≡◌, ◌↔◌, inl, inr, Bool, true, false, ◌&&◌, Option, none, some, List, [], ◌∷◌, map, refl, ap,
  arith,
}
use burnrate.Prelude.Tests.{Bool-cases, if◌then◌else◌}
use burnrate.Prelude.Lists.{length, All}
use burnrate.Prelude.Int.{ℤ, pos, leb_ℤ, ltb_ℤ, ◌-ℤ◌}
use burnrate.Scheduling.Types.{
  Action, Reason, ReasonCode, Input, Candidate, Decision, Snapshot, WindowState, blocking, sub_time,
}
use burnrate.Scheduling.Gate.{global_gate, window_state_for}
use burnrate.Scheduling.Decide.{
  contains, suspend_one, decide_one, decide_each, decide, first_blocked_after, is_session_exhausted,
}

-- Two lists of one length, related place by place.
abbrev pub Zip {ℓ κ} : {A B : Type ℓ} → (A → B → Type κ) → List A → List B → Type κ
Zip R [] [] = Unit
Zip R (x ∷ xs) (y ∷ ys) = R x y × Zip R xs ys
Zip R [] (y ∷ ys) = Unit → ⊥
Zip R (x ∷ xs) [] = Unit → ⊥

-- A task that has used up its attempts.
abbrev pub capped : Input → Candidate → Bool
capped input c = c.resume && leb_ℤ input.policy.max_attempts c.attempt

-- What one decision must be: each constructor gives a case of the candidate, and the decision in
-- it. The case of a forced candidate speaks of no gate and no worker.
pub data IsVerdict (input : Input) (c : Candidate) (d : Decision) : Type 0 where
  running_waits :
      contains input.running c.task_id ≡ true
      → d.action ≡ Action.wait
      → d.reason.code ≡ ReasonCode.running
      → IsVerdict input c d
  capped_fails :
      contains input.running c.task_id ≡ false
      → capped input c ≡ true
      → d.action ≡ Action.fail
      → d.reason.code ≡ ReasonCode.attempt_cap
      → IsVerdict input c d
  forced_launches :
      contains input.running c.task_id ≡ false
      → capped input c ≡ false
      → input.force c.task_id ≡ true
      → d.action ≡ Action.launch
      → d.timeout ≡ input.policy.run_timeout
      → IsVerdict input c d
  gated_waits :
      contains input.running c.task_id ≡ false
      → capped input c ≡ false
      → input.force c.task_id ≡ false
      → blocking (global_gate input) ≡ true
      → d.action ≡ Action.wait
      → d.reason ≡ global_gate input
      → IsVerdict input c d
  slot_launches :
      contains input.running c.task_id ≡ false
      → capped input c ≡ false
      → input.force c.task_id ≡ false
      → blocking (global_gate input) ≡ false
      → d.action ≡ Action.launch
      → d.timeout ≡ input.policy.run_timeout
      → IsVerdict input c d
  busy_waits :
      contains input.running c.task_id ≡ false
      → capped input c ≡ false
      → input.force c.task_id ≡ false
      → blocking (global_gate input) ≡ false
      → d.action ≡ Action.wait
      → d.reason.code ≡ ReasonCode.workers_busy
      → IsVerdict input c d

-- The decision is about the candidate, and is its verdict.
abbrev pub Decides : Input → Candidate → Decision → Type 0
Decides input c d = (d.task_id ≡ c.task_id) × IsVerdict input c d

ruleset verdicts =
    (running_waits, capped_fails, forced_launches, gated_waits, slot_launches, busy_waits)

suspend_ids :
    (gate : Reason) (ids : List ℕ)
    → map (λ (d : Decision). d.task_id) (map (suspend_one gate) ids) ≡ ids
suspend_ids gate [] = refl
suspend_ids gate (id ∷ ids) = ap (λ (l : List ℕ). id ∷ l) (suspend_ids gate ids)

suspend-All :
    (gate : Reason) (ids : List ℕ)
    → All
        (λ (d : Decision). (d.action ≡ Action.suspend) × (d.reason ≡ gate))
        (map (suspend_one gate) ids)
suspend-All gate [] = tt
suspend-All gate (id ∷ ids) = ((refl, refl), suspend-All gate ids)

module _ (input : Input) where
  decide_one-IsVerdict :
      (free : ℤ) (c : Candidate) → Decides input c (decide_one input (global_gate input) free c).0
  unfolding decide_one
  decide_one-IsVerdict free c = (ground arith, grind (arith, verdicts))

  decide_each-IsVerdict :
      (free : ℤ) (first : Option Reason) (cs : List Candidate)
      → Zip (Decides input) cs (decide_each input (global_gate input) free first cs).0
  unfolding decide_each
  decide_each-IsVerdict free first [] = tt
  decide_each-IsVerdict free first (c ∷ cs) = (
    decide_one-IsVerdict free c,
    decide_each-IsVerdict (decide_one input (global_gate input) free c).1
        (first_blocked_after first (decide_one input (global_gate input) free c).0) cs,
  )

  -- The plan has one decision for each candidate, in order: a running task waits, a capped one
  -- fails, a forced one launches whatever the gate and the workers, and of the others each waits
  -- with the gate's reason if the gate blocks, and else launches or is told that workers are busy.
  pub decide-IsVerdict : Zip (Decides input) input.candidates (decide input).decisions
  unfolding decide
  decide-IsVerdict =
      decide_each-IsVerdict (input.policy.workers -ℤ pos (length input.running)) none
        input.candidates

  -- What is suspended: every running task if the session is spent, nothing otherwise; each with the
  -- gate's reason.
  pub decide_suspends :
      (map (λ (d : Decision). d.task_id) (decide input).suspend
        ≡ (if is_session_exhausted (global_gate input).code then input.running else []))
      × All
          (λ d. (d.action ≡ Action.suspend) × (d.reason ≡ global_gate input))
          (decide input).suspend
  unfolding decide
  decide_suspends = elim (Bool-cases (is_session_exhausted (global_gate input).code)) [
    | inl spent ↦ rw spent (
      suspend_ids (global_gate input) input.running,
      suspend-All (global_gate input) input.running,
    )
    | inr other ↦ rw other (refl, tt)
  ]

-- A usable reading that saturates the window is what suspends: with a reading that is fresh enough,
-- the window is saturated exactly when the gate says that the session is spent.
pub window-agrees-gate :
    (input : Input) (snap : Snapshot)
    → input.snapshot ≡ some snap
    → ltb_ℤ input.policy.max_snapshot_age (sub_time input.now snap.captured_at) ≡ false
    → ((decide input).window_state ≡ WindowState.saturated)
      ↔ ((global_gate input).code ≡ ReasonCode.session_exhausted)
unfolding decide global_gate window_state_for
window-agrees-gate input snap e fresh = ground arith
