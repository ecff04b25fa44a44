-- ===== src/Scheduling/Capacity.antt =====
-- How many runs one pass of `Decide` may start, and in which order.
use burnrate.Prelude.{
  ℕ, ◌+◌, ◌≤◌, ◌≡◌, ◌⊎◌, Bool, true, false, not, ◌&&◌, Option, none, List, [], ◌∷◌, arith,
}
use burnrate.Prelude.Tests.{if◌then◌else◌}
use burnrate.Prelude.Lists.{length, keep}
use burnrate.Prelude.Int.{ℤ, pos, pos_part, ◌-ℤ◌}
use burnrate.Scheduling.Types.{Reason, ReasonCode, Input, Candidate, Decision}
use burnrate.Scheduling.Gate.{global_gate}
use burnrate.Scheduling.Decide.{decide_one, decide_each, decide, is_launch, first_blocked_after}

-- A launch that takes a worker slot: not one that the operator forced.
abbrev pub takes_slot : Input → Decision → Bool
takes_slot input d = is_launch d.action && not (input.force d.task_id)

abbrev pub is_busy : ReasonCode → Bool
is_busy ReasonCode.workers_busy = true
is_busy _ = false

abbrev pub waits_for_worker : Decision → Bool
waits_for_worker d = is_busy d.reason.code

abbrev pub slots_taken : Input → List Decision → ℕ
slots_taken input ds = length (keep (takes_slot input) ds)

module _ (input : Input) (gate : Reason) (free : ℤ) (c : Candidate) where
  decide_one_takes :
      takes_slot input (decide_one input gate free c).0 ≡ true
      → pos_part (decide_one input gate free c).1 + 1 ≡ pos_part free
  unfolding decide_one
  decide_one_takes h = ground arith

  decide_one_keeps :
      takes_slot input (decide_one input gate free c).0 ≡ false
      → (decide_one input gate free c).1 ≡ free
  unfolding decide_one
  decide_one_keeps h = ground arith

  decide_one_busy :
      is_busy gate.code ≡ false
      → waits_for_worker (decide_one input gate free c).0 ≡ true
      → (pos_part free ≡ 0)
        × (takes_slot input (decide_one input gate free c).0 ≡ false)
        × ((decide_one input gate free c).1 ≡ free)
  unfolding decide_one
  decide_one_busy g h = ground arith

slots-decide_each :
    (input : Input) (gate : Reason) (free : ℤ) (first : Option Reason) (cs : List Candidate)
    → slots_taken input (decide_each input gate free first cs).0 ≤ pos_part free
unfolding decide_each
slots-decide_each input gate free first [] = omega arith
slots-decide_each input gate free first (c ∷ cs) = ground (
  arith,
  decide_one_takes input gate free c,
  decide_one_keeps input gate free c,
  slots-decide_each input gate (decide_one input gate free c).1
      (first_blocked_after first (decide_one input gate free c).0) cs,
)

abbrev pub any_busy : List Decision → Bool
any_busy [] = false
any_busy (d ∷ ds) = let rest = any_busy ds in if waits_for_worker d then true else rest

-- Whoever waits for a worker, all slots are taken, and none behind it takes one.
full-decide_each :
    (input : Input) (gate : Reason) (free : ℤ) (first : Option Reason) (cs : List Candidate)
    → is_busy gate.code ≡ false
    → any_busy (decide_each input gate free first cs).0 ≡ true
    → slots_taken input (decide_each input gate free first cs).0 ≡ pos_part free
unfolding decide_each
full-decide_each input gate free first [] g h = cc
full-decide_each input gate free first (c ∷ cs) g h = ground (
  arith,
  decide_one_takes input gate free c,
  decide_one_keeps input gate free c,
  decide_one_busy input gate free c,
  slots-decide_each input gate (decide_one input gate free c).1
      (first_blocked_after first (decide_one input gate free c).0) cs,
  full-decide_each input gate (decide_one input gate free c).1
      (first_blocked_after first (decide_one input gate free c).0) cs,
)

gate-not-busy : (input : Input) → is_busy (global_gate input).code ≡ false
unfolding global_gate
gate-not-busy input = ground arith

-- One pass starts at most as many runs, beside the forced ones, as there are worker slots free of
-- running tasks (none if more tasks run than there are workers).
pub decide-within-workers :
    (input : Input)
    → slots_taken input (decide input).decisions
      ≤ pos_part (input.policy.workers -ℤ pos (length input.running))
unfolding decide
decide-within-workers input =
    slots-decide_each input (global_gate input) (input.policy.workers -ℤ pos (length input.running))
      none input.candidates

-- If some candidate is told that all workers are busy, the pass has given away every free slot.
pub decide-busy-full :
    (input : Input)
    → any_busy (decide input).decisions ≡ true
    → slots_taken input (decide input).decisions
      ≡ pos_part (input.policy.workers -ℤ pos (length input.running))
unfolding decide
decide-busy-full input h =
    full-decide_each input (global_gate input) (input.policy.workers -ℤ pos (length input.running))
      none input.candidates (gate-not-busy input) h

-- No decision that takes a slot stands behind one that waits for a worker.
abbrev pub NoOvertaking : Input → List Decision → Type 0
NoOvertaking input [] = Unit
NoOvertaking input (d ∷ ds) =
    ((waits_for_worker d ≡ false) ⊎ (slots_taken input ds ≡ 0)) × NoOvertaking input ds

decide_each-NoOvertaking :
    (input : Input) (gate : Reason) (free : ℤ) (first : Option Reason) (cs : List Candidate)
    → is_busy gate.code ≡ false
    → NoOvertaking input (decide_each input gate free first cs).0
unfolding decide_each
decide_each-NoOvertaking input gate free first [] g = tt
decide_each-NoOvertaking input gate free first (c ∷ cs) g =
    let free' = (decide_one input gate free c).1 in
    let first' = first_blocked_after first (decide_one input gate free c).0 in
    (
      ground
          (arith, decide_one_busy input gate free c, slots-decide_each input gate free' first' cs),
      decide_each-NoOvertaking input gate free' first' cs g,
    )

-- Slots are given in priority order: behind a candidate that waits for a worker, only forced
-- candidates launch.
pub decide-NoOvertaking : (input : Input) → NoOvertaking input (decide input).decisions
unfolding decide
decide-NoOvertaking input =
    decide_each-NoOvertaking input (global_gate input)
      (input.policy.workers -ℤ pos (length input.running)) none input.candidates
      (gate-not-busy input)
