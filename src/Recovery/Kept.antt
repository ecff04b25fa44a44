-- ===== src/Recovery/Kept.antt =====
-- What a sweep pushes, and what it leaves alone.
use burnrate.Prelude.{
  ℕ, ◌≡◌, ◌∙◌, refl, inl, inr, Bool, true, false, not, Option, none, some, List, [], ◌∷◌, ◌++◌,
  arith, String,
}
use burnrate.Prelude.Tests.{leb, either, Bool-cases}
use burnrate.Prelude.Lists.{All, keep}
use burnrate.Prelude.Text.{Text, starts_with, no_text, is_blank}
use burnrate.Scheduling.Types.{Time}
use burnrate.Domain.{Run, Task, is_interrupted}
use burnrate.Store.Tables.{Store}
use burnrate.Store.Tasks.{get_task}
use burnrate.Store.Runs.{get_run, finish_run, finished, insert_desc, newest_first, runs_by_status}
use burnrate.Store.Statuses.{
  Same, Same-trans, Same-upsert_task_pr, run_status, task_status, get_run-update_run_row,
  run_status_set,
}
use burnrate.Recovery.{
  Checkouts, Swept, find_or_create_pr, own_prefix, attach, attach_set, of_unpushed, of_task,
  sweep_run, sweep_each, sweep, pushed_one,
}

module _ {κ} (P : Run → Type κ) where
  All-insert_desc : (x : Run) (xs : List Run) → P x → All P xs → All P (insert_desc x xs)
  All-insert_desc x [] p h = (p, tt)
  All-insert_desc x (y ∷ ys) p h =
      either (All P) (leb y.id x.id) _ _ (p, h) (h.0, All-insert_desc x ys p h.1)

  All-newest_first : (xs : List Run) → All P xs → All P (newest_first xs)
  unfolding newest_first
  All-newest_first [] h = tt
  All-newest_first (x ∷ xs) h = All-insert_desc x (newest_first xs) h.0 (All-newest_first xs h.1)

  All-keep : (q : Run → Bool) (xs : List Run) → All P xs → All (λ r. P r × (q r ≡ true)) (keep q xs)
  All-keep q [] h = tt
  All-keep q (x ∷ xs) h = elim (Bool-cases (q x)) [
    | inl e ↦ rw e ((h.0, e), All-keep q xs h.1)
    | inr e ↦ rw e (All-keep q xs h.1)
  ]

-- The run is stored with the status it was listed with.
abbrev pub Listed : Store → Run → Type 0
Listed s r = run_status s r.id ≡ some r.status

module _ (g : Checkouts) (now : Time) (id run_id : ℕ) where
  Same-finish_run :
      (s : Store) (r : Run) (cost turns : ℕ) (pr_url : Text) (error : String) (text : Text)
      → Listed s r
      → Same id run_id s (finish_run s now r.id r.status cost turns pr_url error text)
  unfolding run_status task_status finish_run get_task
  Same-finish_run s r cost turns pr_url error text h = (
    refl,
    ground (
      arith,
      get_run-update_run_row s r.id run_id (finished now r.status cost turns pr_url error text)
          (λ (x : Run). refl),
      run_status_set (finished now r.status cost turns pr_url error text) r.status
          (get_run s run_id) (λ (x : Run). refl),
    ),
  )

  Same-attach :
      (s : Store) (r : Run) (url : Text) → Listed s r → Same id run_id s (attach s now r url)
  unfolding attach
  Same-attach s r url h =
      Same-trans id run_id s _ _
        (Same-finish_run s r r.cost_usd r.num_turns url r.error r.result_text h)
        (Same-upsert_task_pr _ id run_id now r.task_id r.id r.agent_repo r.branch url
          r.agent_worked_in)

  Same-of_unpushed :
      (w : Swept) (r : Run) (t : Task) (base : Text) (has : Option Bool)
      → Listed w.store r
      → Same id run_id w.store (of_unpushed g now w r t base has).store
  Same-of_unpushed w r t base none h = (refl, refl)
  Same-of_unpushed w r t base (some false) h =
      either (λ (x : Swept). Same id run_id w.store x.store) _ _ _ (Same-attach w.store r _ h)
        (refl, refl)
  Same-of_unpushed w r t base (some true) h =
      either (λ (x : Swept). Same id run_id w.store x.store) _ _ _
        (either (λ (x : Swept). Same id run_id w.store x.store) _ _ _ (refl, refl)
          (Same-attach w.store r _ h))
        (refl, refl)

  Same-of_task :
      (w : Swept) (r : Run) (t : Option Task)
      → Listed w.store r
      → Same id run_id w.store (of_task g now w r t).store
  Same-of_task w r none h = (refl, refl)
  Same-of_task w r (some t) h = Same-of_unpushed w r t _ _ h

  Same-sweep_run :
      (w : Swept) (r : Run) → Listed w.store r → Same id run_id w.store (sweep_run g now w r).store
  unfolding sweep_run
  Same-sweep_run w r h =
      either Kept (is_blank r.worktree_path) _ _ (refl, refl)
        (either Kept (not (starts_with own_prefix r.branch)) _ _ (refl, refl)
          (either Kept (not (g.stat r.worktree_path)) _ _ (refl, refl)
            (Same-of_task w r (get_task w.store r.task_id) h)))
    where
      Kept : Swept → Type 0
      Kept x = Same id run_id w.store x.store

-- A branch that burnrate made, of a run that was interrupted.
abbrev pub Ours : Run → Type 0
Ours r = (starts_with own_prefix r.branch ≡ true) × (is_interrupted r.status ≡ true)

-- What a swept state keeps to, with the listed runs still to come.
abbrev Sound : Store → Swept → Type 0
Sound s w = ((id run_id : ℕ) → Same id run_id s w.store) × All Ours w.pushed

All-snoc : (xs : List Run) (x : Run) → All Ours xs → Ours x → All Ours (xs ++ x ∷ [])
All-snoc [] x h p = (p, tt)
All-snoc (y ∷ ys) x h p = (h.0, All-snoc ys x h.1 p)

module _ (g : Checkouts) (now : Time) where
  abbrev Pushes : Swept → Swept → Type 0
  Pushes w x = All Ours x.pushed

  Ours-of_unpushed :
      (w : Swept) (r : Run) (t : Task) (base : Text) (has : Option Bool)
      → All Ours w.pushed
      → Ours r
      → All Ours (of_unpushed g now w r t base has).pushed
  Ours-of_unpushed w r t base none h p = h
  Ours-of_unpushed w r t base (some false) h p = either (Pushes w) _ _ _ h h
  Ours-of_unpushed w r t base (some true) h p =
      let url = find_or_create_pr g r.worktree_path r.branch base t.title in
      let q = pushed_one w r in
      let own = All-snoc w.pushed r h p in
      either (Pushes w) (g.pushes r.worktree_path r.branch) (attach_set q now r url) w
        (either (Pushes w) (no_text url) q (record q { store = attach q.store now r url }) own own)
        h

  Ours-of_task :
      (w : Swept) (r : Run) (t : Option Task)
      → All Ours w.pushed
      → Ours r
      → All Ours (of_task g now w r t).pushed
  Ours-of_task w r none h p = h
  Ours-of_task w r (some t) h p = Ours-of_unpushed w r t _ _ h p

  Ours-sweep_run :
      (w : Swept) (r : Run)
      → All Ours w.pushed
      → is_interrupted r.status ≡ true
      → All Ours (sweep_run g now w r).pushed
  unfolding sweep_run
  Ours-sweep_run w r h p =
      either (Pushes w) (is_blank r.worktree_path) _ _ h
        (elim (Bool-cases (starts_with own_prefix r.branch)) [
          | inl own ↦ rw own (
              either (Pushes w) (not (g.stat r.worktree_path)) _ _ h
                (Ours-of_task w r (get_task w.store r.task_id) h (own, p)))
          | inr other ↦ rw other h
        ])

  Listed-All :
      (s s' : Store) (rs : List Run)
      → ((id run_id : ℕ) → Same id run_id s s')
      → All (λ r. Listed s r × (is_interrupted r.status ≡ true)) rs
      → All (λ r. Listed s' r × (is_interrupted r.status ≡ true)) rs
  Listed-All s s' [] same h = tt
  Listed-All s s' (r ∷ rs) same h =
      ((((same r.id r.id).1 ∙ h.0.0), h.0.1), Listed-All s s' rs same h.1)

  sweep_each-Sound :
      (rs : List Run) (w : Swept)
      → All Ours w.pushed
      → All (λ r. Listed w.store r × (is_interrupted r.status ≡ true)) rs
      → Sound w.store (sweep_each g now w rs)
  unfolding sweep_each
  sweep_each-Sound [] w p h = (λ id run_id. (refl, refl), p)
  sweep_each-Sound (r ∷ rs) w p h =
      let w' = sweep_run g now w r in
      let same : (id run_id : ℕ) → Same id run_id w.store w'.store =
        λ id run_id. Same-sweep_run g now id run_id w r h.0.0 in
      let rest =
        sweep_each-Sound rs w' (Ours-sweep_run w r p h.0.1)
          (Listed-All w.store w'.store rs same h.1) in
      (
        λ id run_id. Same-trans id run_id w.store w'.store _ (same id run_id) (rest.0 id run_id),
        rest.1,
      )

  -- If each run is the one that is found by its id, a sweep leaves the status of every task and every
  -- run as it was, and each branch that it pushes is one of burnrate's own, of an interrupted run.
  pub sweep-Sound :
      (s : Store)
      → All (λ (r : Run). Listed s r) s.runs
      → ((id run_id : ℕ) → Same id run_id s (sweep g now s).store) × All Ours (sweep g now s).pushed
  unfolding sweep runs_by_status
  sweep-Sound s h =
      sweep_each-Sound (newest_first (keep (λ (r : Run). is_interrupted r.status) s.runs))
        (record { store = s; pushed = [] }) tt
        (All-newest_first (λ r. Listed s r × (is_interrupted r.status ≡ true)) _
          (All-keep (Listed s) (λ (r : Run). is_interrupted r.status) s.runs h))
