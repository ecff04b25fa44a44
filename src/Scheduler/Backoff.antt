-- ===== src/Scheduler/Backoff.antt =====
-- The delays between polls.
use burnrate.Prelude.{ℕ, ◌+◌, ◌*◌, ◌/◌, ◌≤◌, ◌≡◌, ◌⊎◌, inl, refl, true, false, arith}
use native.Mathlib.Omega.{mod_fact}
use burnrate.Prelude.Int.{pos, ltb_ℤ, leb_ℤ}
use burnrate.Prelude.Wrap.{wrap_int64}
use burnrate.Scheduling.Types.{Time, minute}
use burnrate.Scheduler.State.{Scheduler, Config, second, poll_interval}
use burnrate.Scheduler.Frames.{settings}
use burnrate.Scheduler.Poll.{
  default_jitter, base_delay, next_rate_limit_delay, Fetched, fetched, rate_limit_max_delay,
}

-- Jitter moves a delay by at most a tenth of it either way.
pub default_jitter-bounds :
    (n d : ℕ) → (9 * d ≤ 10 * default_jitter n d) × (10 * default_jitter n d ≤ 11 * d + 10)
unfolding default_jitter
default_jitter-bounds n d = ground (arith, mod_fact n (d / 5))

base_delay-bounds :
    (current retry_after : ℕ)
    → (current ≡ 0) ⊎ (15 * second ≤ current)
    → (30 * second ≤ base_delay current retry_after)
      × (base_delay current retry_after ≤ rate_limit_max_delay)
base_delay-bounds current retry_after h = ground arith

-- The delays that a scheduler keeps: none, or one between 27 seconds and 11 minutes.
abbrev pub IsDelay : ℕ → Type 0
IsDelay d = (27 * second ≤ d) × (d ≤ 11 * minute + 1)

-- After every 429, whatever its Retry-After and whatever the clock that jitters it, the next delay
-- is between 27 seconds and a nanosecond over 11 minutes, if the delay before was so or there was
-- none.
pub next_rate_limit_delay-IsDelay :
    (n current retry_after : ℕ)
    → (current ≡ 0) ⊎ IsDelay current
    → IsDelay (next_rate_limit_delay n current retry_after)
unfolding next_rate_limit_delay
next_rate_limit_delay-IsDelay n current retry_after h =
    let b = base_delay current retry_after in
    ground (arith, default_jitter-bounds n b, base_delay-bounds current retry_after)

-- For every setting of at most 9223372036 seconds the poll interval is positive, as a ticker
-- requires, and at 9223372037 seconds it has wrapped around and is not.
pub poll_interval-positive :
    (cfg : Config)
    → (leb_ℤ cfg.poll_interval_sec (pos 9223372036) ≡ true
        → ltb_ℤ (pos 0) (poll_interval cfg) ≡ true)
      × (cfg.poll_interval_sec ≡ pos 9223372037 → ltb_ℤ (pos 0) (poll_interval cfg) ≡ false)
unfolding poll_interval wrap_int64
poll_interval-positive cfg = (λ h. ground arith, λ h. rw h refl)

-- A rate limit's delay, count and end: nothing is held back, or a delay runs from the last 429.
abbrev pub RateLimitOf : Config × ℕ × ℕ × Time → Type 0
RateLimitOf (cfg, delay, consecutive, until) =
    ((delay ≡ 0) × (consecutive ≡ 0) × (until ≡ 0))
    ⊎ (IsDelay delay × (1 ≤ consecutive) × (delay ≤ until))

abbrev pub RateLimit : Scheduler → Type 0
RateLimit s = RateLimitOf (settings s)

pub fetched-RateLimit :
    (s : Scheduler) (now : Time) (n : ℕ) (a : Fetched) → RateLimit s → RateLimit (fetched s now n a)
unfolding fetched
fetched-RateLimit s now n (Fetched.reading snap) h = inl (refl, refl, refl)
fetched-RateLimit s now n (Fetched.rate_limited retry_after) h =
    ground (arith, next_rate_limit_delay-IsDelay n s.rate_limit_delay retry_after)
fetched-RateLimit s now n Fetched.failed h = h
