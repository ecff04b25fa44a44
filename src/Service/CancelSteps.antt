-- ===== src/Service/CancelSteps.antt =====
-- `CancelRun` among the calls: it may take a task from `running`.
use burnrate.Prelude.{
  ℕ, ◌≡◌, ◌≢◌, ◌⊎◌, refl, sym, ap, ◌∙◌, inl, inr, true, false, Option, none, some, List, [], ◌∷◌,
}
use mathlib.Core.List.{Mem}
use burnrate.Prelude.Lists.{find, find-Mem}
use burnrate.Prelude.Tests.{◌==◌, ==_iff, Bool-cases}
use burnrate.Scheduling.Types.{Time}
use burnrate.Scheduling.Decide.{contains}
use burnrate.Domain.{TaskStatus, RunStatus, Run, is_active}
use burnrate.Store.Tables.{Store}
use burnrate.Store.Tasks
use burnrate.Store.Tasks.{get_task}
use burnrate.Store.Runs
use burnrate.Store.Runs.{finish_run}
use burnrate.Store.Laws.{owned, owned-set_task_status}
use burnrate.Service.Runs.{cancel_run}
use burnrate.Service.Requests.{RequestEnv}
use burnrate.Service.Ownership.{KeepsOwned}
use burnrate.Service.UserCalls.{UserCall, perform}

-- The call settles an active run of the task for which this daemon has no process.
abbrev pub Cancels : ℕ → UserCall → RequestEnv → Type 0
Cancels j (UserCall.cancels_run inflight now run_id) r =
    (run : Run) × Mem run (Runs.list_runs r.env.store 0 1000)
    × (run.id ≡ run_id)
    × (run.task_id ≡ j)
    × (is_active run.status ≡ true)
    × (contains inflight j ≡ false)
Cancels j _ r = ⊥

-- One of the calls does.
abbrev pub CancelsIn : ℕ → List UserCall → RequestEnv → Type 0
CancelsIn j [] r = ⊥
CancelsIn j (c ∷ cs) r = Cancels j c r ⊎ CancelsIn j cs (perform c r)

-- Task `j` keeps its runner-owned status, or has lost it: one that is not `running`, or by `C`.
abbrev pub Keeps : Type 0 → Store → Store → ℕ → Type 0
Keeps C s s' j =
    (owned s' j ≡ owned s j) ⊎ ((owned s' j ≡ none) × ((owned s j ≢ some TaskStatus.running) ⊎ C))

pub Keeps-uncancelled : (C : Type 0) (s s' : Store) (j : ℕ) → KeepsOwned s s' j → Keeps C s s' j
Keeps-uncancelled C s s' j (inl same) = inl same
Keeps-uncancelled C s s' j (inr (lost, other)) = inr (lost, inl other)

pub Keeps-after :
    (C D : Type 0) (s t u : Store) (j : ℕ) → Keeps C s t j → Keeps D t u j → Keeps (C ⊎ D) s u j
Keeps-after C D s t u j (inl e) (inl k) = inl (k ∙ e)
Keeps-after C D s t u j (inl e) (inr (lost, inl other)) = inr (lost, inl (λ x. other (e ∙ x)))
Keeps-after C D s t u j (inl e) (inr (lost, inr d)) = inr (lost, inr (inr d))
Keeps-after C D s t u j (inr (lost, inl other)) (inl k) = inr (k ∙ lost, inl other)
Keeps-after C D s t u j (inr (lost, inr c)) (inl k) = inr (k ∙ lost, inr (inl c))
Keeps-after C D s t u j (inr (lost, inl other)) (inr (k, why)) = inr (k, inl other)
Keeps-after C D s t u j (inr (lost, inr c)) (inr (k, why)) = inr (k, inr (inl c))

owned-finish_run :
    (s : Store) (now : Time) (run_id j : ℕ) (run : Run)
    → owned
        (finish_run s now run_id RunStatus.abandoned run.cost_usd run.num_turns run.pr_url
          "cancelled by user" [])
        j
      ≡ owned s j
unfolding owned finish_run Runs.update_run_row get_task
owned-finish_run s now run_id j run = refl

module _ (inflight : List ℕ) (r : RequestEnv) (now : Time) (run_id j : ℕ) where
  abbrev call : UserCall
  call = UserCall.cancels_run inflight now run_id

  settled-Keeps :
      (run : Run)
      → Mem run (Runs.list_runs r.env.store 0 1000) × (run.id ≡ run_id)
      → is_active run.status ≡ true
      → contains inflight run.task_id ≡ false
      → Keeps
          (Cancels j call r)
          r.env.store
          (Tasks.set_task_status
            (finish_run r.env.store now run_id RunStatus.abandoned run.cost_usd run.num_turns
              run.pr_url "cancelled by user" [])
            now
            run.task_id
            TaskStatus.paused)
          j
  settled-Keeps run (listed, same_id) active gone =
      let kept =
        owned-set_task_status
          (finish_run r.env.store now run_id RunStatus.abandoned run.cost_usd run.num_turns
            run.pr_url "cancelled by user" [])
          now run.task_id j TaskStatus.paused refl in
      let finished = owned-finish_run r.env.store now run_id j run in
      elim (Bool-cases (run.task_id == j)) [
        | inr other ↦ inl (kept ∙ rw other finished)
        | inl same ↦
            let its = (==_iff run.task_id j).0 same in
            inr (
              kept ∙ rw same refl,
              inr (run, listed, same_id, its, active, ap (contains inflight) (sym its) ∙ gone),
            )
      ]

  cancel_found-Keeps :
      (o : Option Run)
      → find (λ (x : Run). x.id == run_id) (Runs.list_runs r.env.store 0 1000) ≡ o
      → Keeps (Cancels j call r) r.env.store (cancel_run inflight r.env now run_id).0.store j
  unfolding cancel_run owned Runs.list_runs contains get_task Runs.newest_first
  cancel_found-Keeps none e = rw e (inl refl)
  cancel_found-Keeps (some run) e =
      let listed = find-Mem (λ (x : Run). x.id == run_id) _ run e in
      let same_id = (==_iff run.id run_id).0 listed.1 in
      elim (Bool-cases (is_active run.status)) [
        | inr idle ↦ rw (cancel_run, e, idle) (inl refl)
        | inl active ↦ elim (Bool-cases (contains inflight run.task_id)) [
          | inl going ↦ rw (cancel_run, e, active, going) (inl refl)
          | inr gone ↦
              rw (cancel_run, e, active, gone) (settled-Keeps run (listed.0, same_id) active gone)
        ]
      ]

  pub cancel_run-Keeps :
      Keeps (Cancels j call r) r.env.store (cancel_run inflight r.env now run_id).0.store j
  cancel_run-Keeps = cancel_found-Keeps _ refl
