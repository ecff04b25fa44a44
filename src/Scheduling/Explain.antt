-- ===== src/Scheduling/Explain.antt =====
-- The one-line answer of a plan to "why is nothing happening?".
use burnrate.Prelude.{
  ◌≡◌, ◌≢◌, ◌↔◌, inl, inr, Bool, true, false, ◌&&◌, Option, none, some, List, [], ◌∷◌, refl, arith,
}
use burnrate.Prelude.Tests.{Bool-cases, Option-cases}
use burnrate.Prelude.Lists.{length, find}
use burnrate.Prelude.Int.{ℤ, pos, ◌-ℤ◌}
use burnrate.Scheduling.Types.{Reason, ReasonCode, Input, Candidate, Decision, blocking}
use burnrate.Scheduling.Gate.{global_gate}
use burnrate.Scheduling.Decide.{
  decide_one, decide_each, decide, is_wait, global_after, launches, launches_of,
}

-- A decision that explains the queue: it waits, and something holds it back.
abbrev pub held : Decision → Bool
held d = is_wait d.action && blocking d.reason

abbrev reason_of : Option Decision → Option Reason
reason_of none = none
reason_of (some d) = some d.reason

-- The reason of the first held decision, or else another.
abbrev pub first_held_or : Reason → List Decision → Reason
first_held_or r ds = elim (find held ds) [ none ↦ r | some d ↦ d.reason ]

keeps_first :
    (input : Input) (gate : Reason) (free : ℤ) (r : Reason) (cs : List Candidate)
    → (decide_each input gate free (some r) cs).1 ≡ some r
unfolding decide_each
keeps_first input gate free r [] = refl
keeps_first input gate free r (c ∷ cs) =
    keeps_first input gate (decide_one input gate free c).1 r cs

first-decide_each :
    (input : Input) (gate : Reason) (free : ℤ) (cs : List Candidate)
    → (decide_each input gate free none cs).1
      ≡ reason_of (find held (decide_each input gate free none cs).0)
unfolding decide_each
first-decide_each input gate free [] = refl
first-decide_each input gate free (c ∷ cs) =
    elim (Bool-cases (held (decide_one input gate free c).0)) [
      | inl h ↦ rw h (
          keeps_first input gate (decide_one input gate free c).1
            (decide_one input gate free c).0.reason cs)
      | inr h ↦ rw h (first-decide_each input gate (decide_one input gate free c).1 cs)
    ]

find-held : (ds : List Decision) (d : Decision) → find held ds ≡ some d → held d ≡ true
find-held [] d h = cc
find-held (e ∷ ds) d h = ground (arith, find-held ds d)

module _ (gate : Reason) (ds : List Decision) (first : Option Reason)
    (e : first ≡ reason_of (find held ds)) where
  global_after-first_held :
      (cs : List Candidate)
      → blocking gate ≡ false
      → launches_of ds ≡ []
      → cs ≢ []
      → global_after gate cs ds first ≡ first_held_or gate ds
  unfolding global_after
  global_after-first_held [] o l c = absurd (c refl)
  global_after-first_held (x ∷ cs) o l c = rw (o, l, e) (ground arith)

  first-blocks : (r : Reason) → first ≡ some r → r.code ≢ ReasonCode.queue_empty
  unfolding blocking
  first-blocks r p q = elim (Option-cases (find held ds)) [
    | inl n ↦ ground arith
    | inr (d, h) ↦ ground (arith, find-held ds d)
  ]

  global_after-empty :
      (cs : List Candidate)
      → gate.code ≢ ReasonCode.queue_empty
      → ((global_after gate cs ds first).code ≡ ReasonCode.queue_empty)
      → (cs ≡ []) × (blocking gate ≡ false)
  unfolding global_after
  global_after-empty [] n h = (refl, ground arith)
  global_after-empty (x ∷ cs) n h = elim (Option-cases first) [
    | inl p ↦ ground arith
    | inr (r, p) ↦ ground (arith, first-blocks r p)
  ]

empty-global :
    (input : Input) (gate : Reason) (free : ℤ) (cs : List Candidate)
    → cs ≡ []
    → blocking gate ≡ false
    → (global_after gate cs
        (decide_each input gate free none cs).0
        (decide_each input gate free none cs).1).code
      ≡ ReasonCode.queue_empty
unfolding global_after decide_each launches_of
empty-global input gate free [] e o = rw o
empty-global input gate free (c ∷ cs) e o = cc

gate_codes : (input : Input) → ((global_gate input).code ≢ ReasonCode.queue_empty)
unfolding global_gate
gate_codes input = ground arith

-- With the gate open and a queue in which nothing launches, the plan's reason is that of the first
-- candidate that is held back; it stays the gate's only if none is.
pub decide-global-first_held :
    (input : Input)
    → blocking (global_gate input) ≡ false
    → launches (decide input) ≡ []
    → input.candidates ≢ []
    → (decide input).global ≡ first_held_or (global_gate input) (decide input).decisions
unfolding decide global_after launches
decide-global-first_held input o l c =
    global_after-first_held (global_gate input) (decide input).decisions _
      (first-decide_each input (global_gate input)
        (input.policy.workers -ℤ pos (length input.running)) input.candidates)
      input.candidates o l c

-- A plan says that the queue is empty exactly when it is, and no gate is tripped.
pub decide-queue_empty :
    (input : Input)
    → ((decide input).global.code ≡ ReasonCode.queue_empty)
      ↔ ((input.candidates ≡ []) × (blocking (global_gate input) ≡ false))
unfolding decide global_after launches
decide-queue_empty input = (
  global_after-empty (global_gate input) (decide input).decisions _
      (first-decide_each input (global_gate input)
        (input.policy.workers -ℤ pos (length input.running)) input.candidates)
      input.candidates (gate_codes input),
  λ h.
      empty-global input (global_gate input) (input.policy.workers -ℤ pos (length input.running))
        input.candidates h.0 h.1,
)

-- A tripped gate is the plan's reason, also when a forced candidate launches.
pub decide-global-blocked :
    (input : Input)
    → blocking (global_gate input) ≡ true
    → (decide input).global ≡ global_gate input
unfolding decide global_after
decide-global-blocked input b = ground arith
