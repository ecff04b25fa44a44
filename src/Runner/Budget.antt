-- ===== src/Runner/Budget.antt =====
-- The auto-continue loop ends, and its sums are those of the calls that it made.
use burnrate.Prelude.{
  ℕ, zero, suc, ◌+◌, ◌≤◌, ◌≡◌, ◌⊎◌, inl, inr, refl, sym, ap, true, false, none, some, List, [], ◌∷◌,
  String, arith,
}
use mathlib.Core.Path.{subst}
use burnrate.Prelude.Tests.{Bool-cases, Option-cases}
use burnrate.Prelude.Lists.{length}
use burnrate.Prelude.Int.{ℤ, pos_part}
use burnrate.Runner.State.{ClaudeResult}
use burnrate.Runner.Continue.{
  Call, Invoker, Progress, denial_of, stops, continued, continue_loop, first_call,
  invoke_with_auto_continue,
}

-- The loop went from one point to another with these answers of `claude`: each call but the last was
-- denied a tool, and nothing stood against the next one.
pub data Trace (inv : Invoker) : Progress → List ClaudeResult → Progress → Type 0 where
  here : {p : Progress} → Trace inv p [] p
  goes :
      {p q : Progress} {rs : List ClaudeResult} (denial : String)
      → denial_of p.error ≡ some denial
      → stops inv p ≡ false
      → Trace inv (continued inv p denial) rs q
      → Trace inv p ((continued inv p denial).result ∷ rs) q

abbrev pub costs : List ClaudeResult → ℕ
costs [] = 0
costs (r ∷ rs) = r.cost_usd + costs rs

abbrev pub turns : List ClaudeResult → ℕ
turns [] = 0
turns (r ∷ rs) = r.num_turns + turns rs

-- Why there is no other call after `q`, when `limit` continuations were allowed and `n` made.
abbrev pub Over : Invoker → ℕ → ℕ → Progress → Type 0
Over inv n limit q = (denial_of q.error ≡ none) ⊎ (stops inv q ≡ true) ⊎ (n ≡ limit)

module _ (inv : Invoker) where
  -- What there is to say of the loop's end `q`, from `p` with `left` continuations left.
  abbrev Traced : ℕ → Progress → Progress → Type 0
  Traced left p q =
      (rs : List ClaudeResult) × Trace inv p rs q × (length rs ≤ left) × Over inv (length rs) left q

  extend :
      (left : ℕ) (p q : Progress) (denial : String)
      → denial_of p.error ≡ some denial
      → stops inv p ≡ false
      → Traced left (continued inv p denial) q
      → Traced (suc left) p q
  extend left p q denial d b (rs, t, l, o) = (
    _,
    Trace.goes denial d b t,
    ground (arith, l),
    elim o [
      | inl x ↦ inl x
      | inr (inl x) ↦ inr (inl x)
      | inr (inr x) ↦ inr (inr (ap (λ n. suc n) x))
    ],
  )

  loop-Traced : (left : ℕ) (p : Progress) → Traced left p (continue_loop inv left p)
  unfolding continue_loop
  loop-Traced zero p = ([], Trace.here, omega arith, inr (inr refl))
  loop-Traced (suc left) p = elim (Option-cases (denial_of p.error)) [
    | inl d ↦
        subst (Traced (suc left) p) (sym (rw (d, continue_loop) refl))
          ([], Trace.here, omega arith, inl d)
    | inr (denial, d) ↦ elim (Bool-cases (stops inv p)) [
      | inl b ↦
          subst (Traced (suc left) p) (sym (rw (d, continue_loop) (rw b refl)))
            ([], Trace.here, omega arith, inr (inl b))
      | inr b ↦ subst (Traced (suc left) p) (sym (rw (d, continue_loop) (rw b refl))) (
          extend left p (continue_loop inv left (continued inv p denial)) denial d b
            (loop-Traced left (continued inv p denial)))
    ]
  ]

  -- The counters along a trace.
  pub Trace-sums :
      {p q : Progress} {rs : List ClaudeResult}
      → Trace inv p rs q
      → (q.continues ≡ p.continues + length rs)
        × (q.total_cost ≡ p.total_cost + costs rs)
        × (q.total_turns ≡ p.total_turns + turns rs)
  unfolding continued
  Trace-sums Trace.here = (omega arith, omega arith, omega arith)
  Trace-sums (Trace.goes denial d b t) =
      let h = Trace-sums t in (omega (arith, h), omega (arith, h), omega (arith, h))

  -- Continuing a run after denied tool calls ends. The calls form a trace from the first one: after it
  -- there are as many as are reported, at most the limit; the cost and the turns returned are the sums
  -- over all calls; and a denial is left only if the limit is reached, or no session is known, the
  -- context is done or too little time is left.
  pub invoke-Trace :
      (call : Call) (limit : ℤ)
      → let out = invoke_with_auto_continue inv call limit in
        let first = first_call inv call in
        (q : Progress) × (rs : List ClaudeResult) × Trace inv first rs q
        × (out.1.0 ≡ length rs)
        × (length rs ≤ pos_part limit)
        × (out.0.cost_usd ≡ costs (first.result ∷ rs))
        × (out.0.num_turns ≡ turns (first.result ∷ rs))
        × (out.1.1 ≡ q.error)
        × Over inv (length rs) (pos_part limit) q
  unfolding invoke_with_auto_continue
  invoke-Trace call limit =
      let p = first_call inv call in
      let (rs, t, l, o) = loop-Traced (pos_part limit) p in
      let h = Trace-sums t in
      (continue_loop inv (pos_part limit) p, rs, t, counted h.0, l, h.1, h.2, refl, o)
    where
      counted : {n k : ℕ} → n ≡ 0 + k → n ≡ k
      counted h = omega (arith, h)
