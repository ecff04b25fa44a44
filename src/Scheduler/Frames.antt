-- ===== src/Scheduler/Frames.antt =====
-- What the parts of a tick leave as it was: the running tasks, the config and the rate limit.
use burnrate.Prelude.{ℕ, ◌≡◌, refl, ◌∙◌, Bool, none, some, List, [], ◌∷◌, map, arith}
use burnrate.Prelude.Tests.{◌==◌}
use burnrate.Prelude.Table.{modify}
use burnrate.Scheduling.Types.{Time, Decision}
use burnrate.Scheduling.Decide.{launches, failures}
use burnrate.Domain.{Run}
use burnrate.Scheduler.State.{
  Scheduler, Cause, Flight, Candidate, Config, flight_id, running, signal, or_cause,
}
use burnrate.Scheduler.Plan.{
  suspend, fail, launch, suspend_each, fail_each, launch_each, record_weekly_backoff, evaluate,
  plan, no_force,
}
use burnrate.Scheduler.Reconcile.{reconcile_run, reconcile_locked, reconcile}
use burnrate.Scheduler.Poll.{observed}

map-modify :
    (p : Flight → Bool) (f : Flight → Flight) (fs : List Flight)
    → ((x : Flight) → flight_id (f x) ≡ flight_id x)
    → map flight_id (modify p f fs) ≡ map flight_id fs
unfolding modify
map-modify p f [] h = refl
map-modify p f (x ∷ xs) h = ground (arith, h x, map-modify p f xs h)

pub running-signal : (s : Scheduler) (id : ℕ) (c : Cause) → running (signal s id c) ≡ running s
unfolding running signal
running-signal s id c =
    map-modify (λ f. flight_id f == id) (λ f. record f { cause = or_cause c f.cause }) s.inflight
      (λ f. refl)

-- The fields that the parts of a tick below do not change.
abbrev pub settings : Scheduler → Config × ℕ × ℕ × Time
settings s = (s.cfg, s.rate_limit_delay, s.rate_limit_consecutive, s.rate_limit_backoff_until)

module _ (s : Scheduler) (d : Decision) where
  running-suspend : running (suspend s d) ≡ running s
  unfolding suspend
  running-suspend = ground (
    arith,
    running-signal s d.task_id
        (Cause.suspended (elim s.last_snap [ none ↦ 0 | some snap ↦ snap.session_resets_at ])),
  )

  settings-suspend : settings (suspend s d) ≡ settings s
  unfolding suspend signal
  settings-suspend = ground arith

pub running-suspend_each :
    (ds : List Decision) (s : Scheduler) → running (suspend_each ds s) ≡ running s
unfolding suspend_each
running-suspend_each [] s = refl
running-suspend_each (d ∷ ds) s = running-suspend_each ds (suspend s d) ∙ running-suspend s d

pub settings-suspend_each :
    (ds : List Decision) (s : Scheduler) → settings (suspend_each ds s) ≡ settings s
unfolding suspend_each
settings-suspend_each [] s = refl
settings-suspend_each (d ∷ ds) s = settings-suspend_each ds (suspend s d) ∙ settings-suspend s d

module _ (now : Time) (cands : List Candidate) where
  pub running-fail_each :
      (ds : List Decision) (s : Scheduler) → running (fail_each now cands ds s) ≡ running s
  unfolding fail_each fail running
  running-fail_each [] s = refl
  running-fail_each (d ∷ ds) s = running-fail_each ds _ ∙ ground arith

  pub settings-fail_each :
      (ds : List Decision) (s : Scheduler) → settings (fail_each now cands ds s) ≡ settings s
  unfolding fail_each fail
  settings-fail_each [] s = refl
  settings-fail_each (d ∷ ds) s = settings-fail_each ds _ ∙ ground arith

pub settings-launch_each :
    (cands : List Candidate) (ds : List Decision) (s : Scheduler)
    → settings (launch_each cands ds s) ≡ settings s
unfolding launch_each launch
settings-launch_each cands [] s = refl
settings-launch_each cands (d ∷ ds) s = settings-launch_each cands ds _ ∙ ground arith

module _ (s : Scheduler) (now : Time) where
  pub running-record_weekly_backoff : running (record_weekly_backoff s now) ≡ running s
  unfolding record_weekly_backoff running
  running-record_weekly_backoff = ground arith

  pub settings-record_weekly_backoff : settings (record_weekly_backoff s now) ≡ settings s
  unfolding record_weekly_backoff
  settings-record_weekly_backoff = ground arith

  pub settings-evaluate : settings (evaluate s now) ≡ settings s
  unfolding evaluate
  settings-evaluate =
      let s1 = record_weekly_backoff s now in
      let p = (plan s1 now no_force).0 in
      let cands = (plan s1 now no_force).1 in
      settings-launch_each cands (launches p)
        (fail_each now cands (failures p) (suspend_each p.suspend s1))
      ∙ settings-fail_each now cands (failures p) (suspend_each p.suspend s1)
      ∙ settings-suspend_each p.suspend s1
      ∙ settings-record_weekly_backoff

pub running-observed : (s : Scheduler) → running (observed s) ≡ running s
unfolding observed running
running-observed s = ground arith

pub settings-observed : (s : Scheduler) → settings (observed s) ≡ settings s
unfolding observed
settings-observed s = ground arith

module _ (process_alive is_claude : ℕ → Bool) (now : Time) where
  running-reconcile_run :
      (s : Scheduler) (r : Run)
      → running (reconcile_run process_alive is_claude s now r).0 ≡ running s
  unfolding reconcile_run running
  running-reconcile_run s r = ground arith

  settings-reconcile_run :
      (s : Scheduler) (r : Run)
      → settings (reconcile_run process_alive is_claude s now r).0 ≡ settings s
  unfolding reconcile_run
  settings-reconcile_run s r = ground arith

  running-reconcile_locked :
      (rs : List Run) (s : Scheduler)
      → running (reconcile_locked process_alive is_claude now rs s).0 ≡ running s
  unfolding reconcile_locked
  running-reconcile_locked [] s = refl
  running-reconcile_locked (r ∷ rs) s =
      running-reconcile_locked rs (reconcile_run process_alive is_claude s now r).0
      ∙ running-reconcile_run s r

  settings-reconcile_locked :
      (rs : List Run) (s : Scheduler)
      → settings (reconcile_locked process_alive is_claude now rs s).0 ≡ settings s
  unfolding reconcile_locked
  settings-reconcile_locked [] s = refl
  settings-reconcile_locked (r ∷ rs) s =
      settings-reconcile_locked rs (reconcile_run process_alive is_claude s now r).0
      ∙ settings-reconcile_run s r

  pub running-reconcile :
      (s : Scheduler) → running (reconcile process_alive is_claude s now) ≡ running s
  unfolding reconcile running
  running-reconcile s = running-reconcile_locked _ s

  pub settings-reconcile :
      (s : Scheduler) → settings (reconcile process_alive is_claude s now) ≡ settings s
  unfolding reconcile
  settings-reconcile s = settings-reconcile_locked _ s

pub settings-tick-tail :
    (s : Scheduler) (process_alive is_claude : ℕ → Bool) (now : Time)
    → settings (evaluate (reconcile process_alive is_claude (observed s) now) now) ≡ settings s
settings-tick-tail s process_alive is_claude now =
    settings-evaluate (reconcile process_alive is_claude (observed s) now) now
    ∙ settings-reconcile process_alive is_claude now (observed s)
    ∙ settings-observed s
