-- ===== src/Scheduler/State.antt =====
-- The state of internal/scheduler/scheduler.go, and its small operations on it.
use burnrate.Prelude.{
  ℕ, ◌*◌, Bool, true, false, not, ◌&&◌, Option, none, some, List, [], ◌∷◌, ◌++◌, String, map,
}
use burnrate.Prelude.Tests.{◌==◌, if◌then◌else◌}
use burnrate.Prelude.Table.{modify}
use burnrate.Prelude.Int.{ℤ, pos, pos_part, ltb_ℤ}
use burnrate.Prelude.Wrap.{wrap_int64}
use burnrate.Scheduling.Types.{Time, Duration, Snapshot}
use burnrate.Scheduling.Decide.{contains}
use burnrate.Scheduling.Reset.{ResetDetector}
use burnrate.Domain.{Task, Run}
use burnrate.Store.Tables.{Store}

abbrev pub second : ℕ
second = 1000000000

-- The three fields that `SetAccount` owns.
pub record Account : Type 0 where
  pub claude_config_dir : String
  pub sandbox_keychain : String
  pub sandbox_keychain_password_file : String

-- `config.Config`, as far as the scheduler reads it. `medium_timeout` is
-- `SizeEstimates["medium"].MaxTimeout`, if there is one.
pub record Config : Type 0 where
  pub account : Account
  pub parallel_n : ℤ
  pub util_threshold : ℕ
  pub seven_day_threshold : ℕ
  pub poll_interval_sec : ℤ
  pub max_attempts : ℤ
  pub medium_timeout : Option Duration
  pub dry_run : Bool
  pub model : String

-- What a run's context is cancelled with: nil, `ErrSuspended` or `ErrCancelled`.
pub data Cause : Type 0 where
  shutdown : Cause
  suspended : Time → Cause
  cancelled : Cause

-- One entry of the map `inflight`. Of the calls of its cancel function the first one counts.
pub record Flight : Type 0 where
  pub task_id : ℕ
  pub cause : Option Cause

-- A candidate: a task, and the run that it would resume.
pub record Candidate : Type 0 where
  pub task : Task
  pub resume : Option Run

-- What the scheduler does beside its own state: `runner.Run` with its parameters, the kill of an
-- orphaned process, broadcasts, and the usage client's switch of account.
pub data Act : Type 0 where
  run_task : Candidate → Config → Duration → Time → Act
  kill_orphan : ℕ → Act
  checkpoint_and_remove : String → String → ℕ → Act
  run_update run_complete : ℕ → Act
  usage : Snapshot → Act
  client_account : Account → Act

pub record Scheduler : Type 0 where
  pub st : Store
  pub cfg : Config
  pub resets : ResetDetector
  pub inflight : List Flight
  pub last_snap : Option Snapshot
  pub last_fetch_at : Time
  pub backoff : Option Time
  pub rate_limit_backoff_until : Time
  pub rate_limit_delay : ℕ
  pub rate_limit_consecutive : ℕ
  pub last_idle_fetch_at : Time
  -- the channels `refreshNow` and `cfgReloaded` hold one message each
  pub refresh_now : Bool
  pub cfg_reloaded : Bool
  pub acts : List Act

abbrev pub act : Scheduler → List Act → Scheduler
act s fx = record s { acts = s.acts ++ fx }

abbrev pub flight_id : Flight → ℕ
flight_id f = f.task_id

-- `runningLocked`
unfoldable pub running : Scheduler → List ℕ
running s = map flight_id s.inflight

unfoldable pub is_inflight : Scheduler → ℕ → Bool
unfolding running
is_inflight s id = contains (running s) id

unfoldable pub request_refresh : Scheduler → Scheduler
request_refresh s = record s { refresh_now = true }

abbrev pub or_cause : Cause → Option Cause → Option Cause
or_cause c none = some c
or_cause c (some d) = some d

-- Calls the cancel function of a task's flight.
unfoldable pub signal : Scheduler → ℕ → Cause → Scheduler
signal s id cause = record s {
  inflight =
      modify (λ f. flight_id f == id) (λ f. record f { cause = or_cause cause f.cause }) s.inflight;
}

-- `cancelAll`
unfoldable pub cancel_all : Scheduler → Scheduler
cancel_all s = record s {
  inflight =
      modify (λ f. true) (λ f. record f { cause = or_cause Cause.shutdown f.cause }) s.inflight;
}

unfoldable pub cancel_task : Scheduler → ℕ → Scheduler × Bool
unfolding is_inflight signal
cancel_task s id = if is_inflight s id then (signal s id Cause.cancelled, true) else (s, false)

-- `pollInterval`: the product is one of int64.
unfoldable pub poll_interval : Config → Duration
poll_interval cfg =
    if ltb_ℤ cfg.poll_interval_sec (pos 1)
    then pos second
    else wrap_int64 (pos_part cfg.poll_interval_sec * second)

unfoldable pub set_account : Scheduler → Account → Scheduler
unfolding request_refresh
set_account s account = request_refresh (
    act
      (record s {
        cfg = record s.cfg { account = account };
        last_snap = none;
        last_fetch_at = 0;
        last_idle_fetch_at = 0;
        rate_limit_delay = 0;
        rate_limit_backoff_until = 0;
        rate_limit_consecutive = 0;
      })
      (client_account account ∷ []))

abbrev eq_ℤ : ℤ → ℤ → Bool
eq_ℤ a b = not (ltb_ℤ a b) && not (ltb_ℤ b a)

unfoldable pub set_config : Scheduler → Config → Scheduler
set_config s cfg =
    let cfg' = record cfg { account = s.cfg.account } in
    let s' = record s { cfg = cfg' } in
    if eq_ℤ (poll_interval cfg') (poll_interval s.cfg)
    then s'
    else record s' { cfg_reloaded = true }
