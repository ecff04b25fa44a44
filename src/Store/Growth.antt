-- ===== src/Store/Growth.antt =====
-- The lines of a branch, over all its measurements.
use burnrate.Prelude.{
  ℕ, ◌+◌, ◌-◌, ◌≤◌, ◌≡◌, refl, sym, Bool, Option, none, some, List, [], ◌∷◌, arith,
}
use mathlib.Core.Path.{subst}
use burnrate.Prelude.Lists.{find}
use burnrate.Prelude.Table.{modify, on_some}
use burnrate.Prelude.Text.{Text}
use burnrate.Domain.{TaskPr}
use burnrate.Store.Tables.{Store}
use burnrate.Store.TaskPrs.{same_target, measured, record_task_pr_lines}

abbrev plus : Option (ℕ × ℕ) → ℕ × ℕ → ℕ × ℕ
plus none total = total
plus (some (added, removed)) (a, b) = (added + a, removed + b)

-- A branch is measured again and again: the tables at the end, and the sums of what was new each time.
unfoldable pub record_all : Store → ℕ → Text → Text → List (ℕ × ℕ) → Store × (ℕ × ℕ)
unfolding record_task_pr_lines
record_all s task_id repo branch [] = (s, (0, 0))
record_all s task_id repo branch ((added, removed) ∷ ms) =
    let (s', delta) = record_task_pr_lines s task_id repo branch added removed in
    let (s'', total) = record_all s' task_id repo branch ms in (s'', plus delta total)

-- The last of the measured numbers, and that none is below the one before.
abbrev pub final : ℕ → List (ℕ × ℕ) → ℕ
final n [] = n
final n ((added, removed) ∷ ms) = final added ms

abbrev pub Growing : ℕ → List (ℕ × ℕ) → Type 0
Growing n [] = Unit
Growing n ((added, removed) ∷ ms) = (n ≤ added) × Growing added ms

find-modify :
    (q : TaskPr → Bool) (f : TaskPr → TaskPr) (xs : List TaskPr)
    → ((p : TaskPr) → q (f p) ≡ q p)
    → find q (modify q f xs) ≡ on_some f (find q xs)
unfolding modify
find-modify q f [] h = refl
find-modify q f (x ∷ xs) h = ground (arith, h x, find-modify q f xs h)

-- What the sums `total` of some measurements from `n` on keep to.
abbrev pub Counts : ℕ → List (ℕ × ℕ) → ℕ → Type 0
Counts n ms total = (final n ms ≤ n + total) × (Growing n ms → n + total ≡ final n ms)

module _ (task_id : ℕ) (repo branch : Text) where
  abbrev target : Store → Option TaskPr
  target s = find (same_target task_id repo branch) s.task_prs

  abbrev found : Store → ℕ → ℕ → Option TaskPr → Store × Option (ℕ × ℕ)
  found s added removed none = (s, none)
  found s added removed (some p) = (
    record s {
      task_prs = modify (same_target task_id repo branch) (measured added removed) s.task_prs;
    },
    some (added - p.lines_added, removed - p.lines_removed),
  )

  record_task_pr_lines-found :
      (s : Store) (added removed : ℕ) (p : TaskPr)
      → target s ≡ some p
      → record_task_pr_lines s task_id repo branch added removed ≡ found s added removed (some p)
  unfolding record_task_pr_lines
  record_task_pr_lines-found s added removed p h = rw (h, record_task_pr_lines) refl

  Counts-step :
      (n added total : ℕ) (removed : ℕ) (ms : List (ℕ × ℕ))
      → Counts added ms total
      → Counts n ((added, removed) ∷ ms) (added - n + total)
  Counts-step n added total removed ms h = (omega (arith, h.0), λ g. grind (arith, h.1 g.1, g.0))

  record_all-Counts :
      (ms : List (ℕ × ℕ)) (s : Store) (p : TaskPr)
      → find (same_target task_id repo branch) s.task_prs ≡ some p
      → Counts p.lines_added ms (record_all s task_id repo branch ms).1.0
  unfolding record_all same_target
  record_all-Counts [] s p h = (omega arith, λ g. omega arith)
  record_all-Counts ((added, removed) ∷ ms) s p h =
      let s' = (found s added removed (some p)).0 in
      subst
        (λ (x : Store × Option (ℕ × ℕ)).
          Counts p.lines_added ((added, removed) ∷ ms)
            (plus x.1 (record_all x.0 task_id repo branch ms).1).0)
        (sym (record_task_pr_lines-found s added removed p h))
        (Counts-step p.lines_added added (record_all s' task_id repo branch ms).1.0 removed ms (
          record_all-Counts ms s' (measured added removed p) (
            rw
              (find-modify (same_target task_id repo branch) (measured added removed) s.task_prs
                (λ (q : TaskPr). refl))
              (rw h refl))))

  -- If no measurement of a recorded branch found fewer added lines than the one before, the lines that
  -- are credited over all of them are exactly those that it has grown by at the end.
  pub record_all-Growing :
      (ms : List (ℕ × ℕ)) (s : Store) (p : TaskPr)
      → find (same_target task_id repo branch) s.task_prs ≡ some p
      → Growing p.lines_added ms
      → p.lines_added + (record_all s task_id repo branch ms).1.0 ≡ final p.lines_added ms
  record_all-Growing ms s p h = (record_all-Counts ms s p h).1

  -- And in any case they are no fewer.
  pub record_all-final :
      (ms : List (ℕ × ℕ)) (s : Store) (p : TaskPr)
      → find (same_target task_id repo branch) s.task_prs ≡ some p
      → final p.lines_added ms ≤ p.lines_added + (record_all s task_id repo branch ms).1.0
  record_all-final ms s p h = (record_all-Counts ms s p h).0
