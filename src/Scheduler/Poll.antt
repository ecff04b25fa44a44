-- ===== src/Scheduler/Poll.antt =====
-- The poll of the usage API in internal/scheduler/scheduler.go: `tick`, with one reading of the
-- clock for the whole call. The answer of the API and the clock's nanoseconds, which jitter a
-- delay, are parameters.
use burnrate.Prelude.{ℕ, ◌+◌, ◌-◌, ◌*◌, ◌/◌, ◌%◌, Bool, not, ◌&&◌, none, some, [], ◌∷◌}
use burnrate.Prelude.Tests.{◌==◌, ltb, if◌then◌else◌}
use burnrate.Prelude.Lists.{length}
use burnrate.Prelude.Int.{pos, ltb_ℤ}
use burnrate.Scheduling.Types.{Time, Snapshot, minute, sub_time, is_zero}
use burnrate.Scheduling.Reset.{observe}
use burnrate.Scheduler.State.{Scheduler, usage, act, second}
use burnrate.Scheduler.Plan.{fetch_candidates, evaluate}
use burnrate.Scheduler.Reconcile.{reconcile}

abbrev pub rate_limit_initial_delay : ℕ
rate_limit_initial_delay = 30 * second

abbrev pub rate_limit_max_delay : ℕ
rate_limit_max_delay = 10 * minute

abbrev pub idle_poll_interval : ℕ
idle_poll_interval = 60 * second

-- `defaultJitter`: `n` is the clock's nanoseconds. A fifth of a delay, cut off, is exact in
-- float64 at the delays that occur.
unfoldable pub default_jitter : ℕ → ℕ → ℕ
default_jitter n d = let jitter = d / 5 in d - jitter / 2 + n % (jitter + 1)

abbrev pub base_delay : ℕ → ℕ → ℕ
base_delay current retry_after =
    let doubled = if current == 0 then rate_limit_initial_delay else current * 2 in
    let base = if ltb rate_limit_max_delay doubled then rate_limit_max_delay else doubled in
    if ltb base retry_after
    then if ltb rate_limit_max_delay retry_after then rate_limit_max_delay else retry_after
    else base

unfoldable pub next_rate_limit_delay : ℕ → ℕ → ℕ → ℕ
unfolding default_jitter
next_rate_limit_delay n current retry_after = default_jitter n (base_delay current retry_after)

pub data Fetched : Type 0 where
  reading : Snapshot → Fetched
  -- a 429, with its Retry-After (0 for none)
  rate_limited : ℕ → Fetched
  failed : Fetched

unfoldable pub fetched : Scheduler → Time → ℕ → Fetched → Scheduler
fetched s now n (reading snap) = record s {
  last_snap = some snap;
  last_fetch_at = now;
  rate_limit_delay = 0;
  rate_limit_backoff_until = 0;
  rate_limit_consecutive = 0;
  last_idle_fetch_at = if length s.inflight == 0 then now else 0;
}
fetched s now n (rate_limited retry_after) =
    let delay = next_rate_limit_delay n s.rate_limit_delay retry_after in
    record s {
      rate_limit_delay = delay;
      rate_limit_backoff_until = now + delay;
      rate_limit_consecutive = s.rate_limit_consecutive + 1;
    }
fetched s now n failed = s

-- The broadcast of the reading, and the edge into a new session.
unfoldable pub observed : Scheduler → Scheduler
observed s = elim s.last_snap [
  | none ↦ s
  | some snap ↦
      let (detector, reset) = observe s.resets snap in
      let s' = record (act s (usage snap ∷ [])) { resets = detector } in
      if reset then record s' { backoff = none } else s'
]

abbrev in_backoff : Scheduler → Time → Bool
in_backoff s now = ltb now s.rate_limit_backoff_until

abbrev idle_throttle : Scheduler → Time → Bool → Bool
idle_throttle s now force_refresh =
    not force_refresh
    && (length s.inflight == 0)
    && not (is_zero s.last_idle_fetch_at)
    && ltb_ℤ (sub_time now s.last_idle_fetch_at) (pos idle_poll_interval)

-- What a tick finds around it.
pub record World : Type 0 where
  pub now : Time
  pub nanos : ℕ
  pub answer : Fetched
  pub process_alive : ℕ → Bool
  pub is_claude : ℕ → Bool

abbrev pub last_broadcast : Scheduler → Scheduler
last_broadcast s = elim s.last_snap [ none ↦ s | some snap ↦ act s (usage snap ∷ []) ]

-- The fetch, unless the API is left alone for now.
abbrev pub asked : World → Scheduler → Scheduler
asked w s = if in_backoff s w.now then s else fetched s w.now w.nanos w.answer

-- The rest of the call.
abbrev pub settled : World → Scheduler → Scheduler
settled w s = evaluate (reconcile w.process_alive w.is_claude (observed s) w.now) w.now

unfoldable pub tick : World → Bool → Scheduler → Scheduler
tick w force_refresh s =
    if idle_throttle s w.now force_refresh
      && not (in_backoff s w.now)
      && (length (fetch_candidates s.st) == 0)
    then last_broadcast s
    else settled w (asked w s)
