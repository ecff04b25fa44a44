-- ===== src/Scheduler/Flights.antt =====
-- How many runs there are, and that no task has two.
use burnrate.Prelude.{
  ℕ, ◌+◌, ◌≤◌, ◌≡◌, refl, ap, sym, ◌∙◌, max, inl, inr, Bool, false, not, ◌&&◌, ◌||◌, none, List, [],
  ◌∷◌, ◌++◌, map, arith,
}
use mathlib.Core.Path.{subst}
use burnrate.Prelude.Tests.{◌==◌, if◌then◌else◌, Bool-cases, Option-cases, either}
use burnrate.Prelude.Lists.{length, keep}
use burnrate.Prelude.Int.{pos_part}
use burnrate.Scheduling.Types.{Time, Decision}
use burnrate.Scheduling.Decide.{contains, decide, launches, launches_of, failures, is_launch}
use burnrate.Scheduling.Capacity.{decide-within-workers}
use burnrate.Scheduler.State.{Scheduler, Candidate, Flight, flight_id, running, is_inflight}
use burnrate.Scheduler.Plan.{
  launch, launch_each, evaluate, by_id, plan, input_of, fetch_candidates, no_force, policy_of,
  record_weekly_backoff, fail_each, suspend_each,
}
use burnrate.Scheduler.Frames.{
  running-suspend_each, running-fail_each, running-record_weekly_backoff,
  settings-record_weekly_backoff,
}

-- No task twice.
abbrev pub NoRepeat : List ℕ → Type 0
NoRepeat [] = Unit
NoRepeat (x ∷ xs) = (contains xs x ≡ false) × NoRepeat xs

contains-snoc : (xs : List ℕ) (y x : ℕ) → contains (xs ++ y ∷ []) x ≡ (contains xs x || (y == x))
unfolding contains
contains-snoc [] y x = ground arith
contains-snoc (z ∷ zs) y x = ground (arith, contains-snoc zs y x)

snoc-NoRepeat :
    (xs : List ℕ) (y : ℕ) → contains xs y ≡ false → NoRepeat xs → NoRepeat (xs ++ y ∷ [])
unfolding contains
snoc-NoRepeat [] y h k = (refl, tt)
snoc-NoRepeat (x ∷ xs) y h (k, ks) =
    (rw (contains-snoc xs y x) (ground (arith, k)), snoc-NoRepeat xs y (ground (arith, h)) ks)

contains-keep :
    (p : ℕ → Bool) (xs : List ℕ) (x : ℕ) → contains xs x ≡ false → contains (keep p xs) x ≡ false
unfolding contains
contains-keep p [] x h = refl
contains-keep p (y ∷ ys) x h = ground (arith, contains-keep p ys x)

pub keep-NoRepeat : (p : ℕ → Bool) (xs : List ℕ) → NoRepeat xs → NoRepeat (keep p xs)
keep-NoRepeat p [] h = tt
keep-NoRepeat p (x ∷ xs) (h, hs) =
    either NoRepeat (p x) (x ∷ keep p xs) (keep p xs)
      (contains-keep p xs x h, keep-NoRepeat p xs hs) (keep-NoRepeat p xs hs)

map-snoc :
    (fs : List Flight) (f : Flight)
    → map flight_id (fs ++ f ∷ []) ≡ map flight_id fs ++ f.task_id ∷ []
map-snoc [] f = refl
map-snoc (g ∷ gs) f = ap (λ (l : List ℕ). g.task_id ∷ l) (map-snoc gs f)

pub map-keep :
    (id : ℕ) (fs : List Flight)
    → map flight_id (keep (λ f. not (flight_id f == id)) fs)
      ≡ keep (λ i. not (i == id)) (map flight_id fs)
map-keep id [] = refl
map-keep id (f ∷ fs) = ground (arith, map-keep id fs)

pub running-launch :
    (s : Scheduler) (c : Candidate) (d : Decision)
    → running (launch s c d)
      ≡ (if contains (running s) c.task.id then running s else running s ++ c.task.id ∷ [])
unfolding running launch is_inflight
running-launch s c d = elim (Bool-cases (contains (running s) c.task.id)) [
  | inl p ↦ rw p refl
  | inr p ↦ rw p (map-snoc s.inflight (record { task_id = c.task.id; cause = none }))
]

length-snoc : (xs : List ℕ) (x : ℕ) → length (xs ++ x ∷ []) ≡ length xs + 1
length-snoc [] x = refl
length-snoc (y ∷ ys) x = ground (arith, length-snoc ys x)

pub launch-NoRepeat :
    (s : Scheduler) (c : Candidate) (d : Decision)
    → NoRepeat (running s)
    → NoRepeat (running (launch s c d))
launch-NoRepeat s c d h =
    rw (running-launch s c d) (elim (Bool-cases (contains (running s) c.task.id)) [
      | inl p ↦ rw p h
      | inr p ↦ rw p (snoc-NoRepeat (running s) c.task.id p h)
    ])

module _ (cands : List Candidate) where
  launch_each-NoRepeat :
      (ds : List Decision) (s : Scheduler)
      → NoRepeat (running s)
      → NoRepeat (running (launch_each cands ds s))
  unfolding launch_each
  launch_each-NoRepeat [] s h = h
  launch_each-NoRepeat (d ∷ ds) s h = elim (Option-cases (by_id cands d.task_id)) [
    | inl p ↦ rw p (launch_each-NoRepeat ds s h)
    | inr (c, p) ↦ rw p (launch_each-NoRepeat ds (launch s c d) (launch-NoRepeat s c d h))
  ]

  length-launch_each :
      (ds : List Decision) (s : Scheduler)
      → length (running (launch_each cands ds s)) ≤ length (running s) + length ds
  unfolding launch_each
  length-launch_each [] s = ground arith
  length-launch_each (d ∷ ds) s = elim (Option-cases (by_id cands d.task_id)) [
    | inl p ↦ rw p (ground (arith, length-launch_each ds s))
    | inr (c, p) ↦ rw p (
        ground (
          arith,
          length-launch_each ds (launch s c d),
          running-launch s c d,
          length-snoc (running s) c.task.id,
        ))
  ]

-- The state that `evaluate` launches from has the same running tasks as the one it began with.
launching_from : Scheduler → Time → Scheduler
launching_from s now =
    let s1 = record_weekly_backoff s now in
    let p = (plan s1 now no_force).0 in
    let cands = (plan s1 now no_force).1 in
    fail_each now cands (failures p) (suspend_each p.suspend s1)

running-launching_from : (s : Scheduler) (now : Time) → running (launching_from s now) ≡ running s
unfolding launching_from
running-launching_from s now =
    let s1 = record_weekly_backoff s now in
    let p = (plan s1 now no_force).0 in
    running-fail_each now (plan s1 now no_force).1 (failures p) (suspend_each p.suspend s1)
    ∙ running-suspend_each p.suspend s1
    ∙ running-record_weekly_backoff s now

length-launches_of :
    (ds : List Decision)
    → length (launches_of ds)
      ≡ length (keep (λ (d : Decision). is_launch d.action && not (no_force d.task_id)) ds)
unfolding launches_of
length-launches_of [] = refl
length-launches_of (d ∷ ds) = ground (arith, length-launches_of ds)

launches-within-workers :
    (s : Scheduler) (now : Time)
    → length (running s) + length (launches (plan s now no_force).0)
      ≤ max (length (running s)) (pos_part s.cfg.parallel_n)
unfolding plan launches input_of policy_of
launches-within-workers s now =
    let input = input_of s now (fetch_candidates s.st) no_force in
    ground (arith, decide-within-workers input, length-launches_of (decide input).decisions)

module _ (s : Scheduler) (now : Time) where
  pub evaluate-NoRepeat : NoRepeat (running s) → NoRepeat (running (evaluate s now))
  unfolding evaluate launching_from
  evaluate-NoRepeat h =
      let p = plan (record_weekly_backoff s now) now no_force in
      launch_each-NoRepeat p.1 (launches p.0) (launching_from s now)
        (subst NoRepeat (sym (running-launching_from s now)) h)

  -- One scheduling pass never has more runs going than there are workers, beyond those that it
  -- found going.
  pub evaluate-within-workers :
      length (running (evaluate s now)) ≤ max (length (running s)) (pos_part s.cfg.parallel_n)
  unfolding evaluate launching_from
  evaluate-within-workers =
      let s1 = record_weekly_backoff s now in
      let p = plan s1 now no_force in
      ground (
        arith,
        length-launch_each p.1 (launches p.0) (launching_from s now),
        ap (λ (l : List ℕ). length l) (running-launching_from s now),
        ap (λ (l : List ℕ). length l) (running-record_weekly_backoff s now),
        ap (λ q. pos_part q.0.parallel_n) (settings-record_weekly_backoff s now),
        launches-within-workers s1 now,
      )
