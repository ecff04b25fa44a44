-- ===== src/Service/Await/Budget.antt =====
-- How long a call may wait.
use burnrate.Prelude.{true, ◌≡◌, ◌⊎◌, arith}
use burnrate.Prelude.Int.{ℤ, pos, ◌≤ℤ◌, ltb_ℤ}
use burnrate.Store.Tables.{Store}
use burnrate.Service.Await.{
  min_wait_sec, clamp_wait, await_budget, approval_budget, human_request_wait_sec,
  capture_approval_wait_sec,
}

-- A wait is at least five seconds and at most the configured time, where that is at least five
-- seconds; a request within these bounds is granted as it stands.
pub clamp_wait-bounds :
    (requested configured : ℤ)
    → min_wait_sec ≤ℤ configured
    → (min_wait_sec ≤ℤ clamp_wait requested configured)
      × (clamp_wait requested configured ≤ℤ configured)
      × ((clamp_wait requested configured ≡ requested)
          ⊎ (requested ≤ℤ pos 4)
          ⊎ (ltb_ℤ configured requested ≡ true))
unfolding clamp_wait
clamp_wait-bounds requested configured h = ground arith

-- An approval never waits longer than the budget for questions, whatever is configured for
-- approvals: where the latter is the longer one (and both are at least five seconds), a call that
-- asks for no time of its own gets the former.
pub approval_budget-capped :
    (s : Store)
    → min_wait_sec ≤ℤ human_request_wait_sec s
    → human_request_wait_sec s ≤ℤ capture_approval_wait_sec s
    → approval_budget s (pos 0) ≡ human_request_wait_sec s
unfolding approval_budget await_budget
approval_budget-capped s h k = ground arith
