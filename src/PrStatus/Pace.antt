-- ===== src/PrStatus/Pace.antt =====
-- How often a pull request is looked up.
use burnrate.Prelude.{
  ℕ, zero, suc, ◌+◌, ◌*◌, ◌^◌, ◌≤◌, ◌<◌, min, ◌≡◌, ◌⊎◌, ap, sym, ◌∙◌, Bool, true, false, arith,
}
use native.Mathlib.Omega.{mod_fact}
use native.Mathlib.Nat.{pow-succ', mul_assoc}
use burnrate.Prelude.Int.{pos}
use burnrate.Scheduling.Types.{Time, Duration}
use burnrate.PrStatus.{
  TaskPr, Probe, terminal, is_gone, max_probe_backoff, doubled, probe_backoff, should_probe, probed,
}

double_pow : (a n : ℕ) → a * 2 ^ suc n ≡ (a * 2) * 2 ^ n
double_pow a n = ap (λ (k : ℕ). a * k) (pow-succ' 2 n) ∙ sym (mul_assoc a 2 (2 ^ n))

grow : (a n : ℕ) → a ≤ a * 2 ^ n
grow a zero = ground arith
grow a (suc n) = ground (arith, double_pow a n, grow (a * 2) n)

-- The wait after a number of failures is the base wait, doubled as often, up to a day: the loop,
-- which stops early, computes this.
pub probe_backoff-closed :
    (min_age failures : ℕ)
    → probe_backoff min_age failures ≡ min (min_age * 2 ^ failures) max_probe_backoff
unfolding probe_backoff doubled
probe_backoff-closed min_age zero = ground arith
probe_backoff-closed min_age (suc n) =
    ground (arith, probe_backoff-closed (min_age * 2) n, double_pow min_age n, grow min_age (suc n))

backoff_ge : (min_age failures : ℕ) → min min_age max_probe_backoff ≤ probe_backoff min_age failures
unfolding probe_backoff doubled
backoff_ge min_age zero = ground arith
backoff_ge min_age (suc n) = ground (arith, backoff_ge (min_age * 2) n)

-- A pull request that has been probed, with whatever outcome, is not probed again by the sweep
-- before the base wait (a positive one of at most a day) is over, less the second to which its time
-- of check is cut off; if the clock is at least a second past its zero and does not go back.
pub probed-paced :
    (pr : TaskPr) (answer : Probe) (now later : Time) (min_age : ℕ)
    → 1000000000 ≤ now
    → 0 < min_age
    → min_age ≤ max_probe_backoff
    → now ≤ later
    → later + 1000000000 ≤ now + min_age
    → should_probe (probed now pr answer).0 later (pos min_age) false ≡ false
unfolding should_probe probed
probed-paced pr answer now later min_age z p d l h =
    ground
      (arith, backoff_ge min_age (probed now pr answer).0.pr_probe_failures, mod_fact now 999999999)

-- No refresh, not even one that a user asks for, touches a pull request that is merged or closed,
-- and no sweep touches one that GitHub does not know.
pub should_probe-settled :
    (pr : TaskPr) (now : Time) (min_age : Duration) (force : Bool)
    → (terminal pr.pr_state ≡ true) ⊎ ((is_gone pr.pr_state ≡ true) × (force ≡ false))
    → should_probe pr now min_age force ≡ false
unfolding should_probe
should_probe-settled pr now min_age force h = ground arith
