-- ===== src/Scheduler/Manual.antt =====
-- What a launch by hand does.
use burnrate.Prelude.{
  ℕ, ◌≡◌, ◌≢◌, refl, sym, ap, ◌∙◌, ◌⊎◌, inl, inr, Bool, true, false, not, ◌&&◌, Option, none, some,
  List, [], ◌∷◌, ◌++◌, arith,
}
use mathlib.Core.Path.{subst}
use mathlib.Core.List.{Mem, mem-cons_self, mem-cons_of_mem}
use burnrate.Prelude.Tests.{◌==◌, ==_iff, Bool-cases, Option-cases}
use burnrate.Prelude.Lists.{find-Mem}
use burnrate.Scheduling.Types.{Time, Action, Decision}
use burnrate.Scheduling.Decide.{decision_for}
use burnrate.Domain.{TaskStatus, Task, is_queued, is_resumable}
use burnrate.Store.Tasks.{get_task}
use burnrate.Scheduler.State.{Scheduler, Candidate, is_inflight}
use burnrate.Scheduler.Plan.{plan, by_id, launch}
use burnrate.Scheduler.Control.{
  RunNowError, run_now, obey, obey_plan, launch_if, force_only, run_found,
}

by_id-none :
    (d : Candidate) (ds : List Candidate) (id : ℕ) (c : Candidate)
    → by_id ds id ≡ none
    → (d.task.id == id) ≡ false
    → by_id (d ∷ ds) id ≢ some c
unfolding by_id
by_id-none d ds id c k other h = ground (arith, k, other, rw (k, by_id) at h)

by_id-Mem :
    (cands : List Candidate) (id : ℕ) (c : Candidate)
    → by_id cands id ≡ some c
    → Mem c cands × (c.task.id ≡ id)
unfolding by_id
by_id-Mem [] id c h = cc
by_id-Mem (d ∷ ds) id c h = elim (Option-cases (by_id ds id)) [
  | inr (e, k) ↦
      let (later, same) = by_id-Mem ds id c (rw k (rw (k, by_id) at h)) in
      (mem-cons_of_mem d later, same)
  | inl k ↦ elim (Bool-cases (d.task.id == id)) [
    | inl same ↦
        let head : d ≡ c = ground (arith, h, k, same) in
        (
          subst (λ e. Mem e (d ∷ ds)) head mem-cons_self,
          ap (λ (e : Candidate). e.task.id) (sym head) ∙ (==_iff d.task.id id).0 same,
        )
    | inr other ↦ absurd (by_id-none d ds id c k other h)
  ]
]

queued_of : (st : TaskStatus) → is_queued st ≡ true → st ≡ TaskStatus.queued
queued_of TaskStatus.queued h = refl
queued_of _ h = cc

resumable_of : (st : TaskStatus) → is_resumable st ≡ true → st ≡ TaskStatus.resumable
resumable_of TaskStatus.resumable h = refl
resumable_of _ h = cc

waits-cases :
    (st : TaskStatus)
    → (not (is_queued st) && not (is_resumable st)) ≡ false
    → (st ≡ TaskStatus.queued) ⊎ (st ≡ TaskStatus.resumable)
waits-cases st h = elim (Bool-cases (is_queued st)) [
  | inl q ↦ inl (queued_of st q)
  | inr other ↦ inr (resumable_of st (ground (arith, h, other)))
]

not_waiting :
    (st : TaskStatus)
    → (not (is_queued st) && not (is_resumable st)) ≡ true
    → (st ≢ TaskStatus.queued) × (st ≢ TaskStatus.resumable)
not_waiting st h =
    (λ e. (let k : false ≡ true = rw e at h in cc), λ e. (let k : false ≡ true = rw e at h in cc))

module _ (s : Scheduler) (now : Time) (has_claude : Bool) (id : ℕ) where
  abbrev decisions : List Decision
  decisions = (plan s now (force_only id)).0.decisions

  abbrev candidates : List Candidate
  candidates = (plan s now (force_only id)).1

  -- The decision on the task, in a plan that lets this task alone pass the gates.
  abbrev pub Decided : Decision → Type 0
  Decided d = Mem d decisions × (d.task_id ≡ id)

  -- The task waits for its turn, there is a `claude` to call, and no run of it goes on.
  abbrev pub Launchable : Type 0
  Launchable =
      ((t : Task) × (get_task s.st id ≡ some t)
        × ((t.status ≡ TaskStatus.queued) ⊎ (t.status ≡ TaskStatus.resumable)))
      × ((has_claude ≡ true) ⊎ (s.cfg.dry_run ≡ true))
      × (is_inflight s id ≡ false)

  -- Why a launch is refused.
  abbrev pub Refuses : RunNowError → Type 0
  Refuses RunNowError.task_not_found = get_task s.st id ≡ none
  Refuses (RunNowError.bad_status st) =
      (t : Task) × (get_task s.st id ≡ some t)
      × (t.status ≡ st)
      × (st ≢ TaskStatus.queued)
      × (st ≢ TaskStatus.resumable)
  Refuses RunNowError.no_claude = (has_claude ≡ false) × (s.cfg.dry_run ≡ false)
  Refuses RunNowError.already_running = is_inflight s id ≡ true
  Refuses RunNowError.not_launchable =
      (decision_for (plan s now (force_only id)).0 id ≡ none) ⊎ (by_id candidates id ≡ none)
  Refuses (RunNowError.gives_up text) =
      (d : Decision) × Decided d × (d.action ≡ Action.fail) × (d.reason.text ≡ text)
  Refuses (RunNowError.cannot_launch text) =
      (d : Decision) × Decided d
      × ((d.action ≡ Action.wait) ⊎ (d.action ≡ Action.suspend))
      × (d.reason.text ≡ text)

  abbrev pub Outcome : Scheduler × Option RunNowError → Type 0
  Outcome (s', none) =
      Launchable
      × ((d : Decision) × (c : Candidate) × Decided d
          × (d.action ≡ Action.launch)
          × Mem c candidates
          × (c.task.id ≡ id)
          × (s' ≡ launch s c d)
          × (s'.inflight ≡ s.inflight ++ record { task_id = id; cause = none } ∷ []))
  Outcome (s', some e) = (s' ≡ s) × Refuses e

  inflight-launch :
      (c : Candidate) (d : Decision)
      → is_inflight s id ≡ false
      → c.task.id ≡ id
      → (launch s c d).inflight ≡ s.inflight ++ record { task_id = id; cause = none } ∷ []
  unfolding launch
  inflight-launch c d idle same =
      rw (ap (is_inflight s) same ∙ idle, launch)
        (ap (λ i. s.inflight ++ record { task_id = i; cause = none } ∷ []) same)

  launch_if-Outcome :
      (d : Decision) (o : Option Candidate)
      → by_id candidates id ≡ o
      → Launchable
      → Decided d
      → d.action ≡ Action.launch
      → Outcome (launch_if s d o)
  launch_if-Outcome d none k l m a = (refl, inr k)
  launch_if-Outcome d (some c) k l m a =
      let (listed, same) = by_id-Mem candidates id c k in
      (l, (d, c, m, a, listed, same, refl, inflight-launch c d l.2 same))

  obey-Outcome :
      (a : Action) (d : Decision) (o : Option Candidate)
      → d.action ≡ a
      → by_id candidates id ≡ o
      → Launchable
      → Decided d
      → Outcome (obey a s d o)
  obey-Outcome Action.launch d o a k l m = launch_if-Outcome d o k l m a
  obey-Outcome Action.fail d o a k l m = (refl, (d, m, a, refl))
  obey-Outcome Action.wait d o a k l m = (refl, (d, m, inl a, refl))
  obey-Outcome Action.suspend d o a k l m = (refl, (d, m, inr a, refl))

  obey_plan-Outcome :
      (m : Option Decision) (o : Option Candidate)
      → decision_for (plan s now (force_only id)).0 id ≡ m
      → by_id candidates id ≡ o
      → Launchable
      → Outcome (obey_plan s m o)
  unfolding decision_for
  obey_plan-Outcome none o e k l = (refl, inl e)
  obey_plan-Outcome (some d) o e k l =
      let (listed, same) = find-Mem (λ (x : Decision). x.task_id == id) decisions d e in
      obey-Outcome d.action d o refl k l (listed, (==_iff d.task_id id).0 same)

  run_found-Outcome :
      (t : Option Task) → get_task s.st id ≡ t → Outcome (run_found s now has_claude id t)
  run_found-Outcome none e = (refl, e)
  run_found-Outcome (some task) e =
      elim (Bool-cases (not (is_queued task.status) && not (is_resumable task.status))) [
        | inl other ↦ rw other (
          refl,
          (task, e, refl, (not_waiting task.status other).0, (not_waiting task.status other).1),
        )
        | inr waits ↦ elim (Bool-cases (not has_claude && not s.cfg.dry_run)) [
          | inl missing ↦ rw (waits, missing) (refl, ground (arith, missing))
          | inr there ↦ elim (Bool-cases (is_inflight s id)) [
            | inl going ↦ rw (waits, there, going) (refl, going)
            | inr idle ↦
                rw (waits, there, idle)
                  (obey_plan-Outcome _ _ refl refl
                    ((task, e, waits-cases task.status waits), ground (arith, there), idle))
          ]
        ]
      ]

-- A launch by hand launches the task if it is queued or resumable, there is a `claude` or the scheduler
-- only pretends to call it, no run of the task is in flight, and a plan in which the gates are open for
-- this task alone decides to launch it; the run that is started is a candidate's for the task, and
-- the task is then in flight. Otherwise nothing changes, and the error names the condition that
-- failed, or the plan's reason.
pub run_now-Outcome :
    (s : Scheduler) (now : Time) (has_claude : Bool) (id : ℕ)
    → Outcome s now has_claude id (run_now s now has_claude id)
unfolding run_now
run_now-Outcome s now has_claude id = run_found-Outcome s now has_claude id (get_task s.st id) refl
