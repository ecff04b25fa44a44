-- ===== src/Scheduler/Life.antt =====
-- The running tasks over the life of the scheduler.
use burnrate.Prelude.{
  ℕ, ◌≤◌, ◌≡◌, ap, sym, ◌∙◌, max, Bool, true, false, not, Option, none, some, List, [], ◌∷◌, arith,
}
use mathlib.Core.Path.{subst}
use burnrate.Prelude.Tests.{◌==◌, either}
use burnrate.Prelude.Lists.{length}
use burnrate.Prelude.Int.{pos_part}
use burnrate.Scheduling.Types.{Time}
use burnrate.Scheduler.State.{
  Scheduler, running, cancel_task, request_refresh, set_account, set_config, Cause,
}
use burnrate.Scheduler.Poll.{World, tick, asked, settled, fetched, observed, last_broadcast}
use burnrate.Scheduler.Reconcile.{reconcile}
use burnrate.Scheduler.Control.{
  Event, handle, handle_all, run_now, on_refresh, run_ended, RunNowError,
}
use burnrate.Scheduler.Manual.{Outcome, run_now-Outcome}
use burnrate.Scheduler.Frames.{
  running-signal, running-observed, running-reconcile, settings-observed, settings-reconcile,
}
use burnrate.Scheduler.Flights.{
  NoRepeat, launch-NoRepeat, keep-NoRepeat, map-keep, evaluate-NoRepeat, evaluate-within-workers,
}

module _ (w : World) (s : Scheduler) where
  running-asked : running (asked w s) ≡ running s
  unfolding fetched running
  running-asked = ground arith

  workers-asked : (asked w s).cfg ≡ s.cfg
  unfolding fetched
  workers-asked = ground arith

  running-last_broadcast : running (last_broadcast s) ≡ running s
  unfolding running
  running-last_broadcast = ground arith

-- What `evaluate` is called on in a tick.
module _ (w : World) (s : Scheduler) where
  reconciled : Scheduler
  reconciled = reconcile w.process_alive w.is_claude (observed (asked w s)) w.now

  running-reconciled : running reconciled ≡ running s
  unfolding reconciled
  running-reconciled =
      running-reconcile w.process_alive w.is_claude w.now (observed (asked w s))
      ∙ running-observed (asked w s)
      ∙ running-asked w s

  cfg-reconciled : reconciled.cfg ≡ s.cfg
  unfolding reconciled
  cfg-reconciled =
      ap (λ q. q.0) (settings-reconcile w.process_alive w.is_claude w.now (observed (asked w s)))
      ∙ ap (λ q. q.0) (settings-observed (asked w s))
      ∙ workers-asked w s

  -- A tick never has more runs going than there are workers, beyond those that it found going.
  pub tick-within-workers :
      (force_refresh : Bool)
      → length (running (tick w force_refresh s))
        ≤ max (length (running s)) (pos_part s.cfg.parallel_n)
  unfolding tick reconciled
  tick-within-workers force_refresh =
      either
        (λ (t : Scheduler).
          length (running t) ≤ max (length (running s)) (pos_part s.cfg.parallel_n))
        _ (last_broadcast s) (settled w (asked w s))
        (ground (arith, ap (λ (l : List ℕ). length l) (running-last_broadcast w s)))
        (ground (
          arith,
          evaluate-within-workers reconciled w.now,
          ap (λ (l : List ℕ). length l) running-reconciled,
          ap (λ c. pos_part c.parallel_n) cfg-reconciled,
        ))

  tick-NoRepeat :
      (force_refresh : Bool) → NoRepeat (running s) → NoRepeat (running (tick w force_refresh s))
  unfolding tick reconciled
  tick-NoRepeat force_refresh h =
      either (λ (t : Scheduler). NoRepeat (running t)) _ (last_broadcast s) (settled w (asked w s))
        (subst NoRepeat (sym (running-last_broadcast w s)) h)
        (evaluate-NoRepeat reconciled w.now (subst NoRepeat (sym running-reconciled) h))

cancel-NoRepeat :
    (s : Scheduler) (id : ℕ) → NoRepeat (running s) → NoRepeat (running (cancel_task s id).0)
unfolding cancel_task
cancel-NoRepeat s id h =
    either (λ (q : Scheduler × Bool). NoRepeat (running q.0)) _ _ (s, false)
      (subst NoRepeat (sym (running-signal s id Cause.cancelled)) h) h

of_outcome :
    (s : Scheduler) (now : Time) (has_claude : Bool) (id : ℕ) (x : Scheduler × Option RunNowError)
    → Outcome s now has_claude id x
    → NoRepeat (running s)
    → NoRepeat (running x.0)
of_outcome s now has_claude id (s', none) (l, (d, c, m, a, listed, same, p, q)) h =
    subst (λ (t : Scheduler). NoRepeat (running t)) (sym p) (launch-NoRepeat s c d h)
of_outcome s now has_claude id (s', some e) (p, why) h =
    subst (λ (t : Scheduler). NoRepeat (running t)) (sym p) h

run_now-NoRepeat :
    (s : Scheduler) (now : Time) (has_claude : Bool) (id : ℕ)
    → NoRepeat (running s)
    → NoRepeat (running (run_now s now has_claude id).0)
run_now-NoRepeat s now has_claude id h =
    of_outcome s now has_claude id _ (run_now-Outcome s now has_claude id) h

handle-NoRepeat :
    (e : Event) (s : Scheduler) → NoRepeat (running s) → NoRepeat (running (handle e s))
unfolding handle on_refresh run_ended request_refresh running set_account set_config
handle-NoRepeat (Event.polled w) s h = tick-NoRepeat w s false h
handle-NoRepeat (Event.refreshed w) s h =
    let s' = record s { refresh_now = false } in
    either (λ (t : Scheduler). NoRepeat (running t)) _ s' (tick w true s') h
      (tick-NoRepeat w s' true h)
handle-NoRepeat (Event.ended id) s h =
    subst NoRepeat (sym (map-keep id s.inflight)) (keep-NoRepeat (λ i. not (i == id)) (running s) h)
handle-NoRepeat Event.wants_refresh s h = h
handle-NoRepeat (Event.launched_now now has_claude id) s h = run_now-NoRepeat s now has_claude id h
handle-NoRepeat (Event.cancels id) s h = cancel-NoRepeat s id h
handle-NoRepeat (Event.switches_account a) s h = h
handle-NoRepeat (Event.configures cfg) s h =
    let s' = record s { cfg = record cfg { account = s.cfg.account } } in
    either (λ (t : Scheduler). NoRepeat (running t)) _ s' (record s' { cfg_reloaded = true }) h h

-- Over any sequence of events, launches by hand among them, no task comes to have two runs going, if
-- none had at the start.
pub handle_all-NoRepeat :
    (es : List Event) (s : Scheduler) → NoRepeat (running s) → NoRepeat (running (handle_all es s))
unfolding handle_all
handle_all-NoRepeat [] s h = h
handle_all-NoRepeat (e ∷ es) s h = handle_all-NoRepeat es (handle e s) (handle-NoRepeat e s h)
