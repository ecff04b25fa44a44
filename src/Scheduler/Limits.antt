-- ===== src/Scheduler/Limits.antt =====
-- The rate limit of the usage API, over the life of the scheduler.
use burnrate.Prelude.{ℕ, ◌≡◌, refl, sym, inl, Bool, true, false, List, [], ◌∷◌, arith}
use mathlib.Core.Path.{subst}
use burnrate.Prelude.Tests.{either}
use burnrate.Scheduling.Types.{Time}
use burnrate.Scheduler.State.{
  Scheduler, cancel_task, signal, request_refresh, set_account, set_config,
}
use burnrate.Scheduler.Plan.{launch}
use burnrate.Scheduler.Poll.{World, tick, last_broadcast, settled, asked, fetched}
use burnrate.Scheduler.Control.{Event, handle, handle_all, run_now, on_refresh, run_ended}
use burnrate.Scheduler.Frames.{settings, settings-tick-tail}
use burnrate.Scheduler.Backoff.{RateLimit, RateLimitOf, fetched-RateLimit}

RateLimit-settings : (s t : Scheduler) → settings t ≡ settings s → RateLimit s → RateLimit t
RateLimit-settings s t e h = subst RateLimitOf (sym e) h

settings-last_broadcast : (s : Scheduler) → settings (last_broadcast s) ≡ settings s
settings-last_broadcast s = ground arith

tick-RateLimit :
    (w : World) (force : Bool) (s : Scheduler) → RateLimit s → RateLimit (tick w force s)
unfolding tick
tick-RateLimit w force s h =
    either RateLimit _ (last_broadcast s) (settled w (asked w s))
      (RateLimit-settings s (last_broadcast s) (settings-last_broadcast s) h)
      (RateLimit-settings (asked w s) (settled w (asked w s))
        (settings-tick-tail (asked w s) w.process_alive w.is_claude w.now)
        (either RateLimit _ s (fetched s w.now w.nanos w.answer) h
          (fetched-RateLimit s w.now w.nanos w.answer h)))

settings-run_now :
    (s : Scheduler) (now : Time) (has_claude : Bool) (id : ℕ)
    → settings (run_now s now has_claude id).0 ≡ settings s
unfolding run_now launch
settings-run_now s now has_claude id = ground arith

settings-cancel : (s : Scheduler) (id : ℕ) → settings (cancel_task s id).0 ≡ settings s
unfolding cancel_task signal
settings-cancel s id = ground arith

handle-RateLimit : (e : Event) (s : Scheduler) → RateLimit s → RateLimit (handle e s)
unfolding handle on_refresh run_ended request_refresh set_account set_config
handle-RateLimit (Event.polled w) s h = tick-RateLimit w _ s h
handle-RateLimit (Event.refreshed w) s h =
    let s' = record s { refresh_now = false } in
    either RateLimit _ s' (tick w true s') h (tick-RateLimit w true s' h)
handle-RateLimit (Event.ended id) s h = h
handle-RateLimit Event.wants_refresh s h = h
handle-RateLimit (Event.launched_now now has_claude id) s h =
    RateLimit-settings s (run_now s now has_claude id).0 (settings-run_now s now has_claude id) h
handle-RateLimit (Event.cancels id) s h =
    RateLimit-settings s (cancel_task s id).0 (settings-cancel s id) h
handle-RateLimit (Event.switches_account a) s h = inl (refl, refl, refl)
handle-RateLimit (Event.configures cfg) s h =
    let s' = record s { cfg = record cfg { account = s.cfg.account } } in
    either RateLimit _ s' (record s' { cfg_reloaded = true }) h h

-- Over any sequence of events the scheduler either holds nothing back from the usage API, and has
-- counted no 429, or holds a delay between 27 seconds and a nanosecond over 11 minutes, has
-- counted at least one, with an end no earlier than that delay after the clock's zero; if it did so
-- at the start.
pub handle_all-RateLimit :
    (es : List Event) (s : Scheduler) → RateLimit s → RateLimit (handle_all es s)
unfolding handle_all
handle_all-RateLimit [] s h = h
handle_all-RateLimit (e ∷ es) s h = handle_all-RateLimit es (handle e s) (handle-RateLimit e s h)
