-- ===== src/Scheduler/Orphans.antt =====
-- What a reconciliation leaves.
use burnrate.Prelude.{
  ℕ, ◌≡◌, refl, ap, sym, ◌∙◌, ◌⊎◌, inl, inr, Bool, true, false, not, ◌&&◌, ◌||◌, List, [], ◌∷◌,
  arith,
}
use burnrate.Prelude.Tests.{◌==◌, ==_iff, ltb, Bool-cases, either}
use burnrate.Prelude.Lists.{keep, any, All}
use burnrate.Prelude.Table.{modify}
use burnrate.Scheduling.Types.{Time}
use burnrate.Domain.{Run, is_active}
use burnrate.Store.Tables.{run_key}
use burnrate.Store.Tasks.{set_task_status, update_task_row}
use burnrate.Store.Runs.{active_runs, finish_run, newest_first, insert_desc, update_run_row}
use burnrate.Scheduler.State.{Scheduler, is_inflight, running}
use burnrate.Scheduler.Reconcile.{reconcile_run, reconcile_locked, reconcile}

abbrev same_run : Run → Run → Bool
same_run x r = r.id == x.id && r.task_id == x.task_id

-- A run that is not active, or has a run of this daemon behind it, or is still to be looked at.
abbrev Accounted : (ℕ → Bool) → List Run → Run → Type 0
Accounted tracked rs x =
    (is_active x.status ≡ false) ⊎ (tracked x.task_id ≡ true) ⊎ (any (same_run x) rs ≡ true)

any-insert_desc :
    (p : Run → Bool) (x : Run) (xs : List Run) → any p (insert_desc x xs) ≡ (p x || any p xs)
any-insert_desc p x [] = refl
any-insert_desc p x (y ∷ ys) = ground (arith, any-insert_desc p x ys)

any-newest_first : (p : Run → Bool) (xs : List Run) → any p (newest_first xs) ≡ any p xs
unfolding newest_first
any-newest_first p [] = refl
any-newest_first p (x ∷ xs) =
    any-insert_desc p x (newest_first xs) ∙ ap (λ (b : Bool). p x || b) (any-newest_first p xs)

All-map : {P Q : Run → Type 0} (xs : List Run) → ((x : Run) → P x → Q x) → All P xs → All Q xs
All-map [] k h = tt
All-map (x ∷ xs) k (h, hs) = (k x h, All-map xs k hs)

same_run_refl : (x : Run) → same_run x x ≡ true
same_run_refl x = ground arith

-- Every run of the table is accounted for by a list in which each active one is found.
Accounted-active :
    (tracked : ℕ → Bool) (rs xs : List Run)
    → ((p : Run → Bool) → any p (keep (λ r. is_active r.status) xs) ≡ true → any p rs ≡ true)
    → All (Accounted tracked rs) xs
Accounted-active tracked rs [] h = tt
Accounted-active tracked rs (x ∷ xs) h = elim (Bool-cases (is_active x.status)) [
  | inl a ↦ (
    inr (inr (h (same_run x) (rw (a, same_run_refl x) refl))),
    Accounted-active tracked rs xs (λ p q. h p (rw a (ground (arith, q)))),
  )
  | inr a ↦ (inl a, Accounted-active tracked rs xs (λ p q. h p (rw a q)))
]

module _ (tracked : ℕ → Bool) (r : Run) (rs : List Run) where
  Accounted-tracked :
      (xs : List Run)
      → tracked r.task_id ≡ true
      → All (Accounted tracked (r ∷ rs)) xs
      → All (Accounted tracked rs) xs
  Accounted-tracked [] t h = tt
  Accounted-tracked (x ∷ xs) t (h, hs) = (
    ground (arith, ==_iff r.task_id x.task_id, λ (e : r.task_id ≡ x.task_id). ap tracked e),
    Accounted-tracked xs t hs,
  )

  Accounted-modify :
      (f : Run → Run) (xs : List Run)
      → ((x : Run) → is_active (f x).status ≡ false)
      → All (Accounted tracked (r ∷ rs)) xs
      → All (Accounted tracked rs) (modify (λ x. run_key x == r.id) f xs)
  unfolding modify
  Accounted-modify f [] k h = tt
  Accounted-modify f (x ∷ xs) k (h, hs) =
      (ground (arith, k x, ==_iff r.id x.id, ==_iff x.id r.id), Accounted-modify f xs k hs)

module _ (process_alive is_claude : ℕ → Bool) (now : Time) where
  is_inflight-reconcile_run :
      (s : Scheduler) (r : Run) (id : ℕ)
      → is_inflight (reconcile_run process_alive is_claude s now r).0 id ≡ is_inflight s id
  unfolding reconcile_run is_inflight running
  is_inflight-reconcile_run s r id = ground arith

  reconcile_run-Accounted :
      (tracked : ℕ → Bool) (s : Scheduler) (r : Run) (rs : List Run)
      → is_inflight s r.task_id ≡ tracked r.task_id
      → All (Accounted tracked (r ∷ rs)) s.st.runs
      → All (Accounted tracked rs) (reconcile_run process_alive is_claude s now r).0.st.runs
  unfolding reconcile_run set_task_status finish_run update_run_row update_task_row
  reconcile_run-Accounted tracked s r rs e h = elim (Bool-cases (is_inflight s r.task_id)) [
    | inl t ↦ rw t (Accounted-tracked tracked r rs s.st.runs (sym e ∙ t) h)
    | inr t ↦
        let Fine : Scheduler × List ℕ → Type 0 = λ o. All (Accounted tracked rs) o.0.st.runs in
        rw t (
          either Fine (ltb 0 r.pid && process_alive r.pid) _ _
            (either Fine (not (is_claude r.pid)) _ _
              (Accounted-modify tracked r rs _ s.st.runs (λ x. refl) h)
              (Accounted-modify tracked r rs _ s.st.runs (λ x. refl) h))
            (Accounted-modify tracked r rs _ s.st.runs (λ x. refl) h))
  ]

  reconcile_locked-Accounted :
      (tracked : ℕ → Bool) (rs : List Run) (s : Scheduler)
      → ((id : ℕ) → is_inflight s id ≡ tracked id)
      → All (Accounted tracked rs) s.st.runs
      → All (Accounted tracked []) (reconcile_locked process_alive is_claude now rs s).0.st.runs
  unfolding reconcile_locked
  reconcile_locked-Accounted tracked [] s e h = h
  reconcile_locked-Accounted tracked (r ∷ rs) s e h =
      let s' = (reconcile_run process_alive is_claude s now r).0 in
      reconcile_locked-Accounted tracked rs s' (λ id. is_inflight-reconcile_run s r id ∙ e id)
        (reconcile_run-Accounted tracked s r rs (e r.task_id) h)

  -- After a reconciliation every active run of the database belongs to a task that this daemon
  -- runs itself: none that an earlier daemon left behind is still shown as running.
  pub reconcile-no-orphans :
      (s : Scheduler)
      → All
          (λ (x : Run). (is_active x.status ≡ false) ⊎ (is_inflight s x.task_id ≡ true))
          (reconcile process_alive is_claude s now).st.runs
  unfolding reconcile active_runs
  reconcile-no-orphans s =
      All-map _ (λ x h. elim h [ inl a ↦ inl a | inr (inl t) ↦ inr t | inr (inr b) ↦ cc ])
        (reconcile_locked-Accounted (is_inflight s) (active_runs s.st) s (λ id. refl)
          (Accounted-active (is_inflight s) (active_runs s.st) s.st.runs
            (λ p q. any-newest_first p (keep (λ r. is_active r.status) s.st.runs) ∙ q)))
