-- ===== src/Store/Streak/Longest.antt =====
-- The longest streak, and the days on which runs started.
use burnrate.Prelude.{
  ℕ, suc, ◌+◌, ◌≤◌, ◌<◌, ◌≡◌, ◌∙◌, ◌⊎◌, inl, inr, refl, sym, ap, Bool, true, false, not, ◌&&◌, ◌||◌,
  List, [], ◌∷◌, arith,
}
use burnrate.Prelude.Tests.{◌==◌, ltb, Bool-cases, either}
use burnrate.Prelude.Lists.{any}
use burnrate.Scheduling.Types.{is_zero}
use burnrate.Domain.{Run}
use burnrate.Store.Streak.Chains.{has, Ascends, Covers, InARow, Held, walk-InARow, walk-Held}
use burnrate.Store.Streak.{
  StreakData, single, insert_number, day_of, walk_days, days_of, totals, compute_streak,
}

-- A run started on that day.
abbrev pub started_on : ℕ → Run → Bool
started_on k r = not (is_zero r.started_at) && day_of r.started_at == k

has-insert_number : (k d : ℕ) (ds : List ℕ) → has k (insert_number d ds) ≡ ((d == k) || has k ds)
has-insert_number k d [] = refl
has-insert_number k d (y ∷ ys) = ground (arith, has-insert_number k d ys)

has-days_of : (k : ℕ) (rs : List Run) → has k (days_of rs) ≡ any (started_on k) rs
unfolding days_of
has-days_of k [] = refl
has-days_of k (r ∷ rs) = elim (Bool-cases (is_zero r.started_at)) [
  | inl unset ↦ rw unset (has-days_of k rs)
  | inr set ↦ rw set (
      has-insert_number k (day_of r.started_at) (days_of rs)
      ∙ ap (λ (b : Bool). (day_of r.started_at == k) || b) (has-days_of k rs))
]

Ascends-insert_number :
    (p d : ℕ) (ds : List ℕ) → p < d → Ascends p ds → Ascends p (insert_number d ds)
Ascends-insert_number p d [] l h = (l, tt)
Ascends-insert_number p d (y ∷ ys) l h = elim (Bool-cases (ltb d y)) [
  | inl below ↦ rw below (l, (ground arith, h.1))
  | inr above ↦ elim (Bool-cases (d == y)) [
    | inl same ↦ rw (above, same) h
    | inr other ↦ rw (above, other) (h.0, Ascends-insert_number y d ys (ground arith) h.1)
  ]
]

abbrev Strict : List ℕ → Type 0
Strict [] = Unit
Strict (d ∷ ds) = Ascends d ds

Strict-insert_number : (d : ℕ) (ds : List ℕ) → Strict ds → Strict (insert_number d ds)
Strict-insert_number d [] h = tt
Strict-insert_number d (y ∷ ys) h = elim (Bool-cases (ltb d y)) [
  | inl below ↦ rw below (ground arith, h)
  | inr above ↦ elim (Bool-cases (d == y)) [
    | inl same ↦ rw (above, same) h
    | inr other ↦ rw (above, other) (Ascends-insert_number y d ys (ground arith) h)
  ]
]

Strict-days_of : (rs : List Run) → Strict (days_of rs)
unfolding days_of
Strict-days_of [] = tt
Strict-days_of (r ∷ rs) =
    either Strict (is_zero r.started_at) _ _ (Strict-days_of rs)
      (Strict-insert_number (day_of r.started_at) (days_of rs) (Strict-days_of rs))

Covers-days : (d : ℕ) (ds : List ℕ) (k : ℕ) → has k (d ∷ ds) ≡ true → Covers (single d) ds k
Covers-days d ds k h = elim (Bool-cases (d == k)) [
  | inl same ↦ inl (ground arith)
  | inr other ↦ inr (ground arith)
]

abbrev HasDay : List ℕ → ℕ → Type 0
HasDay ds k = has k ds ≡ true

walk_days-InARow :
    (today : ℕ) (s : StreakData) (ds : List ℕ) (n d : ℕ)
    → Strict ds
    → InARow today (HasDay ds) n d
    → suc n ≤ (walk_days today s ds).longest_streak
walk_days-InARow today s [] n d h row =
    let e : false ≡ true = row d (omega arith) (omega arith) in cc
walk_days-InARow today s (x ∷ xs) n d h row =
    walk-InARow today (record s { first_day = x }) (single x) xs n d (omega arith, omega arith) h
      (λ k p q. Covers-days x xs k (row k p q))

walk_days-Held :
    (today : ℕ) (s : StreakData) (ds : List ℕ)
    → s.longest_streak ≡ 0
    → Held today (HasDay ds) (walk_days today s ds)
walk_days-Held today s [] z = (λ k p q. absurd (omega arith), inl z)
walk_days-Held today s (x ∷ xs) z =
    walk-Held today (HasDay (x ∷ xs)) (record s { first_day = x }) (single x) xs
      (omega arith, omega arith) (λ k p. ground arith) (λ k e. ground arith)
      (λ k p q. absurd (omega arith), inl z)

totals-longest : (rs : List Run) → (totals rs).longest_streak ≡ 0
unfolding totals
totals-longest [] = refl
totals-longest (r ∷ rs) =
    either (λ (x : StreakData). x.longest_streak ≡ 0) (is_zero r.started_at) _ _ (totals-longest rs)
      (totals-longest rs)

-- A run started on each day of the longest streak.
abbrev pub Kept : List Run → StreakData → Type 0
Kept runs s =
    ((k : ℕ)
      → s.longest_start ≤ k
      → k < s.longest_start + s.longest_streak
      → any (started_on k) runs ≡ true)
    × ((s.longest_streak ≡ 0) ⊎ (s.longest_end + 1 ≡ s.longest_start + s.longest_streak))

-- Where runs started on each of `n + 1` days in a row, the longest streak is no shorter; and runs did
-- start on every day of the longest streak, which lies between its two ends.
pub compute_streak-longest :
    (runs : List Run) (today n d : ℕ)
    → ((k : ℕ) → d ≤ k → k ≤ d + n → any (started_on k) runs ≡ true)
    → (suc n ≤ (compute_streak runs today).longest_streak) × Kept runs (compute_streak runs today)
unfolding compute_streak
compute_streak-longest runs today n d row =
    let held = walk_days-Held today _ (days_of runs) (totals-longest runs) in
    (
      walk_days-InARow today _ (days_of runs) n d (Strict-days_of runs)
          (λ k p q. has-days_of k runs ∙ row k p q),
      (λ k p q. sym (has-days_of k runs) ∙ held.0 k p q, held.1),
    )
