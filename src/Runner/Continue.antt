-- ===== src/Runner/Continue.antt =====
-- `invokeWithAutoContinue` of internal/runner/runner.go. The calls of `claude.Invoke` are numbered from
-- 0; what each answers, whether its context is done after it, and how much of the run's time is left
-- then, are given.
use burnrate.Prelude.{ℕ, zero, suc, ◌+◌, ◌*◌, Bool, false, ◌||◌, Option, none, some, String}
use burnrate.Prelude.Tests.{if◌then◌else◌}
use burnrate.Prelude.Int.{ℤ, pos, pos_part, ltb_ℤ}
use burnrate.Prelude.Text.{is_set, is_blank}
use burnrate.Scheduling.Types.{Duration, minute}
use burnrate.Runner.State.{ClaudeResult, InvokeError}

-- The options of a call that the loop changes. `nudge` is the denial that the prompt is built from.
pub record Call : Type 0 where
  pub resume_session_id : String
  pub nudge : Option String
  pub timeout : Duration

pub record Invoker : Type 0 where
  pub invoke : ℕ → Call → ClaudeResult × Option InvokeError
  pub is_done : ℕ → Bool
  -- `time.Until(ac.Deadline)`: none without a deadline
  pub remaining : ℕ → Option Duration

abbrev pub min_continue_window : Duration
min_continue_window = pos (3 * minute)

-- `claude.IsToolDenied`, with the message of the error.
abbrev pub denial_of : Option InvokeError → Option String
denial_of (some (InvokeError.tool_denied message text)) = some message
denial_of _ = none

abbrev pub or_text : String → String → String
or_text a b = if is_set a then a else b

abbrev pub too_late : Option Duration → Bool
too_late none = false
too_late (some left) = ltb_ℤ left min_continue_window

abbrev timeout_of : Option Duration → Duration → Duration
timeout_of none timeout = timeout
timeout_of (some left) timeout = left

-- What the loop carries: the calls so far, the options of the last one and its answer, the known session
-- and model, and the sums.
pub record Progress : Type 0 where
  pub continues : ℕ
  pub call : Call
  pub result : ClaudeResult
  pub error : Option InvokeError
  pub session : String
  pub model : String
  pub total_cost : ℕ
  pub total_turns : ℕ

module _ (inv : Invoker) where
  unfoldable pub first_call : Call → Progress
  first_call call =
      let (result, err) = inv.invoke 0 call in
      record {
        continues = 0;
        call = call;
        result = result;
        error = err;
        session = or_text result.session_id call.resume_session_id;
        model = result.model;
        total_cost = result.cost_usd;
        total_turns = result.num_turns;
      }

  -- `break`
  abbrev pub stops : Progress → Bool
  stops p = is_blank p.session || inv.is_done p.continues || too_late (inv.remaining p.continues)

  -- One turn of the loop, after a denial.
  unfoldable pub continued : Progress → String → Progress
  continued p denial =
      let call : Call = record {
        resume_session_id = p.session;
        nudge = some denial;
        timeout = timeout_of (inv.remaining p.continues) p.call.timeout;
      } in
      let (result, err) = inv.invoke (p.continues + 1) call in
      record {
        continues = p.continues + 1;
        call = call;
        result = result;
        error = err;
        session = or_text result.session_id p.session;
        model = or_text result.model p.model;
        total_cost = p.total_cost + result.cost_usd;
        total_turns = p.total_turns + result.num_turns;
      }

  -- The loop, with `left` continuations left of `ac.Max`.
  unfoldable pub continue_loop : ℕ → Progress → Progress
  unfolding continued
  continue_loop zero p = p
  continue_loop (suc left) p = elim (denial_of p.error) [
    | none ↦ p
    | some denial ↦
        let next = continue_loop left (continued p denial) in if stops p then p else next
  ]

  abbrev pub final_result : Progress → ClaudeResult
  final_result p = record p.result {
    cost_usd = p.total_cost;
    num_turns = p.total_turns;
    session_id = or_text p.result.session_id p.session;
    model = or_text p.result.model p.model;
  }

  -- The result, how many continuations there were, and the final error. `pos_part` of a limit below 1
  -- is 0: there are none then.
  unfoldable pub invoke_with_auto_continue : Call → ℤ → ClaudeResult × (ℕ × Option InvokeError)
  unfolding continue_loop first_call
  invoke_with_auto_continue call limit =
      let p = continue_loop (pos_part limit) (first_call call) in
      (final_result p, (p.continues, p.error))
