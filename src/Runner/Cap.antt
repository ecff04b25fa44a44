-- ===== src/Runner/Cap.antt =====
-- A task whose runs cannot even start is given up.
use burnrate.Prelude.{
  ℕ, ◌+◌, ◌≤◌, ◌≡◌, ◌⊎◌, inl, inr, refl, ap, ◌∙◌, Option, none, some, List, [], ◌∷◌, ◌++◌, arith,
}
use burnrate.Prelude.Tests.{◌==◌, Bool-cases}
use burnrate.Prelude.Lists.{keep, length, All}
use burnrate.Prelude.Int.{ℤ, pos, negsuc, ◌≤ℤ◌}
use burnrate.Prelude.Table.{modify, newest, on_some, modify-All}
use burnrate.Domain.{TaskStatus, RunStatus, Task, Run, effective_attempt}
use burnrate.Store.Tables.{Store, run_key}
use burnrate.Store.Tasks.{get_task, set_task_status, runs_of, update_task_row}
use burnrate.Store.Runs.{
  create_run, finish_run, latest_run_for_task, new_run, finished, update_run_row,
}
use burnrate.Store.Laws.{get_task-update_task_row}
use burnrate.Store.Statuses.{task_status}
use burnrate.Runner.State.{RunnerEnv}
use burnrate.Runner.Preflight.{
  Preflight, reset_run_id, attempts, preflight_status, errored_run, preflight_found,
  preflight_error, spent,
}

-- No run, and no reset, is of a run that is still to come.
abbrev pub Issued : Store → ℕ → Type 0
Issued s task_id =
    All (λ (r : Run). r.id ≤ s.last_run) s.runs × (reset_run_id (get_task s task_id) ≤ s.last_run)

newest-appended :
    (id last : ℕ) (f : Run → Run) (new : Run) (xs : List Run)
    → All (λ (r : Run). r.id ≤ last) xs
    → (f new).id ≡ last + 1
    → (f new).task_id ≡ id
    → new.id ≡ last + 1
    → newest run_key
        (keep (λ r. r.task_id == id) (modify (λ r. run_key r == last + 1) f (xs ++ new ∷ [])))
      ≡ some (f new)
unfolding newest modify
newest-appended id last f new [] h k m n = ground (arith, k, m, n)
newest-appended id last f new (x ∷ xs) h k m n =
    ground (arith, k, m, n, h.0, newest-appended id last f new xs h.1 k m n)

All-append : (P : Run → Type 0) (x : Run) (xs : List Run) → All P xs → P x → All P (xs ++ x ∷ [])
All-append P x [] h p = (p, tt)
All-append P x (y ∷ ys) h p = (h.0, All-append P x ys h.1 p)

All-weaken :
    (n : ℕ) (xs : List Run) → All (λ (r : Run). r.id ≤ n) xs → All (λ (r : Run). r.id ≤ n + 1) xs
All-weaken n [] h = tt
All-weaken n (x ∷ xs) h = (omega (arith, h.0), All-weaken n xs h.1)

module _ (s : Store) (id : ℕ) (p : Preflight) (st : TaskStatus) where
  abbrev after : Store
  after = set_task_status (errored_run s id p) p.now id st

  abbrev new : Run
  new =
      new_run (s.last_run + 1) p.now id p.worktree_path p.branch p.repo_path p.window_id
        (attempts s id + 1)

  abbrev written : Run → Run
  written = finished p.now RunStatus.errored 0 0 [] p.err []

  get_task-after :
      get_task after id
      ≡ on_some (λ (t : Task). record t { status = st; updated_at = p.now }) (get_task s id)
  unfolding errored_run create_run finish_run set_task_status
  get_task-after = ground (
    arith,
    get_task-update_task_row (errored_run s id p) id id
        (λ (t : Task). record t { status = st; updated_at = p.now }) (λ (t : Task). refl),
  )

  latest-after : Issued s id → latest_run_for_task after id ≡ some (written new)
  unfolding errored_run create_run finish_run set_task_status update_task_row update_run_row runs_of
      latest_run_for_task
  latest-after h = newest-appended id s.last_run written new s.runs h.0 refl refl refl

  reset-after : reset_run_id (get_task after id) ≡ reset_run_id (get_task s id)
  reset-after = rw get_task-after (kept (get_task s id))
    where
      kept :
          (o : Option Task)
          → reset_run_id (on_some (λ (t : Task). record t { status = st; updated_at = p.now }) o)
            ≡ reset_run_id o
      kept none = refl
      kept (some t) = refl

  attempts-after : Issued s id → attempts after id ≡ attempts s id + 1
  unfolding attempts effective_attempt
  attempts-after h = rw (latest-after h, reset-after) (ground (arith, h.1))

  Issued-after : Issued s id → Issued after id
  unfolding errored_run create_run finish_run set_task_status update_task_row update_run_row
  Issued-after h = (
    modify-All (λ (r : Run). r.id ≤ s.last_run + 1) (λ r. run_key r == s.last_run + 1) written
        (s.runs ++ new ∷ []) (λ r k. k)
        (All-append (λ (r : Run). r.id ≤ s.last_run + 1) new s.runs
          (All-weaken s.last_run s.runs h.0) (omega arith)),
    rw reset-after (omega (arith, h.1)),
  )

-- The status of a task after as many attempts, the last of which could not start: the end of them if
-- there is a limit and they reach it, and else the queue.
abbrev pub GivenUp : ℤ → ℕ → Option TaskStatus → Type 0
GivenUp max_attempts n status =
    ((pos 1 ≤ℤ max_attempts) × (max_attempts ≤ℤ pos n) × (status ≡ some TaskStatus.failed))
    ⊎ (((max_attempts ≤ℤ pos 0) ⊎ (pos (n + 1) ≤ℤ max_attempts))
        × (status ≡ some TaskStatus.queued))

GivenUp-preflight_status :
    (max_attempts : ℤ) (n : ℕ) → GivenUp max_attempts n (some (preflight_status max_attempts n))
GivenUp-preflight_status (pos m) n = elim (Bool-cases (spent (pos m) n)) [
  | inl y ↦ inl (ground (arith, y), ground (arith, y), ground (arith, y))
  | inr unspent ↦ inr (ground (arith, unspent), ground (arith, unspent))
]
GivenUp-preflight_status (negsuc m) n = inr (inl (ground arith), ground arith)

-- The errors of several launches of one task, one after another.
unfoldable pub preflight_all : ℕ → ℤ → List Preflight → RunnerEnv → RunnerEnv
preflight_all id max_attempts [] e = e
preflight_all id max_attempts (p ∷ ps) e =
    preflight_all id max_attempts ps (preflight_error e id max_attempts p)

module _ (id : ℕ) (max_attempts : ℤ) where
  store-preflight_error :
      (e : RunnerEnv) (p : Preflight) (t : Task)
      → get_task e.store id ≡ some t
      → (preflight_error e id max_attempts p).store
        ≡ after e.store id p (preflight_status max_attempts (attempts e.store id + 1))
  unfolding preflight_error preflight_found
  store-preflight_error e p t h = ap (λ o. (preflight_found e id max_attempts p o).store) h

  preflight_all-preflight_status :
      (p : Preflight) (ps : List Preflight) (e : RunnerEnv) (t : Task)
      → get_task e.store id ≡ some t
      → Issued e.store id
      → task_status (preflight_all id max_attempts (p ∷ ps) e).store id
        ≡ some (preflight_status max_attempts (attempts e.store id + length (p ∷ ps)))
  unfolding preflight_all task_status
  preflight_all-preflight_status p [] e t h i =
      rw (store-preflight_error e p t h) (rw (get_task-after e.store id p _) (rw h refl))
  preflight_all-preflight_status p (q ∷ qs) e t h i =
      let st = preflight_status max_attempts (attempts e.store id + 1) in
      let x = store-preflight_error e p t h in
      preflight_all-preflight_status q qs (preflight_error e id max_attempts p)
        (record t { status = st; updated_at = p.now })
        (rw x (get_task-after e.store id p st ∙ ap (on_some _) h))
        (rw x (Issued-after e.store id p st i))
      ∙ ap (λ n. some (preflight_status max_attempts n))
          (rw x (rw (attempts-after e.store id p st i) (omega arith)))

  -- A task that is there, in tables whose runs and reset have numbers that were given out, and whose
  -- launches fail before its run starts, one after another, has failed if the limit is above 0 and its
  -- attempts with these launches have reached it; with a limit of 0 or less, or one that is above
  -- them, it stands in the queue.
  pub preflight_all-status :
      (p : Preflight) (ps : List Preflight) (e : RunnerEnv) (t : Task)
      → get_task e.store id ≡ some t
      → Issued e.store id
      → GivenUp max_attempts
          (attempts e.store id + length (p ∷ ps))
          (task_status (preflight_all id max_attempts (p ∷ ps) e).store id)
  preflight_all-status p ps e t h i =
      rw (preflight_all-preflight_status p ps e t h i) (GivenUp-preflight_status max_attempts _)
