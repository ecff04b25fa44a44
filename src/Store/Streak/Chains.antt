-- ===== src/Store/Streak/Chains.antt =====
-- What the walk over the days finds: no chain of days is longer than the longest streak.
use burnrate.Prelude.{
  ℕ, suc, ◌+◌, ◌≤◌, ◌<◌, ◌≡◌, ◌⊎◌, inl, inr, Bool, true, false, ◌||◌, List, [], ◌∷◌, arith,
}
use burnrate.Prelude.Tests.{◌==◌, leb, if◌then◌else◌, Bool-cases, either, ==_iff, leb→le}
use burnrate.Prelude.Lists.{any}
use burnrate.Store.Streak.{StreakData, Chain, single, extended, end_chain, walk}

abbrev pub has : ℕ → List ℕ → Bool
has k ds = any (λ (y : ℕ). y == k) ds

-- Strictly ascending, and above `p`.
abbrev pub Ascends : ℕ → List ℕ → Type 0
Ascends p [] = Unit
Ascends p (d ∷ ds) = (p < d) × Ascends d ds

Ascends-has : (p k : ℕ) (ds : List ℕ) → Ascends p ds → has k ds ≡ true → p < k
Ascends-has p k [] h e = cc
Ascends-has p k (d ∷ ds) h e = elim (Bool-cases (d == k)) [
  | inl same ↦ ground arith
  | inr other ↦ ground (arith, Ascends-has d k ds)
]

-- The chain is its days, from its start to `prev`.
abbrev pub IsChain : Chain → Type 0
IsChain c = (c.start + c.len ≡ c.prev + 1) × (1 ≤ c.len)

abbrev pub Within : Chain → ℕ → Type 0
Within c k = (c.start ≤ k) × (k ≤ c.prev)

abbrev pub Covers : Chain → List ℕ → ℕ → Type 0
Covers c ds k = Within c k ⊎ (has k ds ≡ true)

module _ (today : ℕ) where
  end_chain-le :
      (s : StreakData) (c : Chain) → s.longest_streak ≤ (end_chain today s c).longest_streak
  unfolding end_chain
  end_chain-le s c = ground arith

  end_chain-len : (s : StreakData) (c : Chain) → c.len ≤ (end_chain today s c).longest_streak
  unfolding end_chain
  end_chain-len s c = ground arith

  walk-le :
      (s : StreakData) (c : Chain) (ds : List ℕ)
      → s.longest_streak ≤ (walk today s c ds).longest_streak
  unfolding walk
  walk-le s c [] = end_chain-le s c
  walk-le s c (d ∷ ds) =
      either (λ (x : StreakData). s.longest_streak ≤ x.longest_streak) (d == c.prev + 1) _ _
        (walk-le s (extended c d) ds)
        (omega (arith, end_chain-le s c, walk-le (end_chain today s c) (single d) ds))

  walk-len : (s : StreakData) (c : Chain) (ds : List ℕ) → c.len ≤ (walk today s c ds).longest_streak
  unfolding walk
  walk-len s c [] = end_chain-len s c
  walk-len s c (d ∷ ds) =
      either (λ (x : StreakData). c.len ≤ x.longest_streak) (d == c.prev + 1) _ _
        (omega (arith, walk-len s (extended c d) ds))
        (omega (arith, end_chain-len s c, walk-le (end_chain today s c) (single d) ds))

  -- `n + 1` days in a row from `d` on
  abbrev pub InARow : (ℕ → Type 0) → ℕ → ℕ → Type 0
  InARow P n d = (k : ℕ) → d ≤ k → k ≤ d + n → P k

  Covers-nil : (c : Chain) (k : ℕ) → Covers c [] k → Within c k
  Covers-nil c k (inl h) = h
  Covers-nil c k (inr h) = cc

  Covers-extended :
      (c : Chain) (x : ℕ) (xs : List ℕ) (k : ℕ)
      → x ≡ c.prev + 1
      → IsChain c
      → Covers c (x ∷ xs) k
      → Covers (extended c x) xs k
  Covers-extended c x xs k e i (inl h) = inl (omega arith)
  Covers-extended c x xs k e i (inr h) = elim (Bool-cases (x == k)) [
    | inl same ↦ inl (ground arith)
    | inr other ↦ inr (ground arith)
  ]

  Covers-single :
      (c : Chain) (x : ℕ) (xs : List ℕ) (k : ℕ)
      → c.prev < k
      → Covers c (x ∷ xs) k
      → Covers (single x) xs k
  Covers-single c x xs k l (inl h) = absurd (omega arith)
  Covers-single c x xs k l (inr h) = elim (Bool-cases (x == k)) [
    | inl same ↦ inl (ground arith)
    | inr other ↦ inr (ground arith)
  ]

  -- Of a chain with a gap after it: a day of it, or one beyond the gap.
  Covers-split :
      (c : Chain) (x : ℕ) (xs : List ℕ) (k : ℕ)
      → Ascends c.prev (x ∷ xs)
      → Covers c (x ∷ xs) k
      → Within c k ⊎ (x ≤ k)
  Covers-split c x xs k h (inl w) = inl w
  Covers-split c x xs k h (inr m) = elim (Bool-cases (x == k)) [
    | inl same ↦ inr (ground arith)
    | inr other ↦ inr (ground (arith, Ascends-has x k xs))
  ]

  row-len : (c : Chain) (n d : ℕ) → IsChain c → Within c d → Within c (d + n) → suc n ≤ c.len
  row-len c n d i h k = omega arith

  gap-closed :
      (c : Chain) (x : ℕ)
      → (x == c.prev + 1) ≡ false
      → c.prev < x
      → Within c (c.prev + 1) ⊎ (x ≤ c.prev + 1)
      → ⊥
  gap-closed c x gap l (inl h) = omega arith
  gap-closed c x gap l (inr h) = ground arith

  InARow-before :
      (c : Chain) (x : ℕ) (xs : List ℕ) (n d : ℕ)
      → IsChain c
      → Ascends c.prev (x ∷ xs)
      → (x == c.prev + 1) ≡ false
      → leb d c.prev ≡ true
      → InARow (Covers c (x ∷ xs)) n d
      → suc n ≤ c.len
  InARow-before c x xs n d i a gap early row =
      elim (Covers-split c x xs d a (row d (omega arith) (omega arith))) [
        | inr beyond ↦ absurd (omega (arith, a.0, leb→le d c.prev early))
        | inl first ↦ elim (Bool-cases (leb (d + n) c.prev)) [
          | inl all ↦ row-len c n d i first (omega arith, leb→le (d + n) c.prev all)
          | inr over ↦ absurd (
              gap-closed c x gap a.0 (
                Covers-split c x xs (c.prev + 1) a
                  (row (c.prev + 1) (omega (arith, leb→le d c.prev early)) (ground arith))))
        ]
      ]

  pub walk-InARow :
      (s : StreakData) (c : Chain) (ds : List ℕ) (n d : ℕ)
      → IsChain c
      → Ascends c.prev ds
      → InARow (Covers c ds) n d
      → suc n ≤ (walk today s c ds).longest_streak
  unfolding walk
  walk-InARow s c [] n d i a row = omega (
    arith,
    walk-len s c [],
    row-len c n d i (Covers-nil c d (row d (omega arith) (omega arith)))
        (Covers-nil c (d + n) (row (d + n) (omega arith) (omega arith))),
  )
  walk-InARow s c (x ∷ xs) n d i a row = elim (Bool-cases (x == c.prev + 1)) [
    | inl next ↦ rw next (
        walk-InARow s (extended c x) xs n d
          (let e = (==_iff x (c.prev + 1)).0 next in omega arith, omega arith) a.1
          (λ k p q. Covers-extended c x xs k ((==_iff x (c.prev + 1)).0 next) i (row k p q)))
    | inr gap ↦ elim (Bool-cases (leb d c.prev)) [
      | inl early ↦ omega (arith, walk-len s c (x ∷ xs), InARow-before c x xs n d i a gap early row)
      | inr late ↦ rw gap (
          walk-InARow (end_chain today s c) (single x) xs n d (omega arith, omega arith) a.1
            (λ k p q. Covers-single c x xs k (ground arith) (row k p q)))
    ]
  ]

  -- The days of the longest streak, as far as it is known.
  abbrev pub Held : (ℕ → Type 0) → StreakData → Type 0
  Held M s =
      ((k : ℕ) → s.longest_start ≤ k → k < s.longest_start + s.longest_streak → M k)
      × ((s.longest_streak ≡ 0) ⊎ (s.longest_end + 1 ≡ s.longest_start + s.longest_streak))

  module _ (M : ℕ → Type 0) where
    end_chain-Held :
        (s : StreakData) (c : Chain)
        → IsChain c
        → ((k : ℕ) → Within c k → M k)
        → Held M s
        → Held M (end_chain today s c)
    unfolding end_chain
    end_chain-Held s c i w h =
        let kept : Held M (
            if leb s.longest_streak c.len
            then record s { longest_streak = c.len; longest_start = c.start; longest_end = c.prev }
            else s) =
          either (Held M) (leb s.longest_streak c.len) _ _
            (λ k p q. w k (p, omega (arith, i.0)), inr (omega (arith, i.0))) h in
        either (Held M) (c.prev == today || c.prev + 1 == today) _ _ kept kept

    in_extended :
        (c : Chain) (d : ℕ) (ds : List ℕ) (k : ℕ)
        → d ≡ c.prev + 1
        → ((k : ℕ) → Within c k → M k)
        → ((k : ℕ) → has k (d ∷ ds) ≡ true → M k)
        → Within (extended c d) k
        → M k
    in_extended c d ds k e w m p = elim (Bool-cases (leb k c.prev)) [
      | inl old ↦ w k (p.0, leb→le k c.prev old)
      | inr new ↦ m k (ground arith)
    ]

    pub walk-Held :
        (s : StreakData) (c : Chain) (ds : List ℕ)
        → IsChain c
        → ((k : ℕ) → Within c k → M k)
        → ((k : ℕ) → has k ds ≡ true → M k)
        → Held M s
        → Held M (walk today s c ds)
    unfolding walk
    walk-Held s c [] i w m h = end_chain-Held s c i w h
    walk-Held s c (d ∷ ds) i w m h = elim (Bool-cases (d == c.prev + 1)) [
      | inl next ↦ rw next (
          walk-Held s (extended c d) ds
            (let e = (==_iff d (c.prev + 1)).0 next in omega (arith, i.0), omega arith)
            (λ k p. in_extended c d ds k ((==_iff d (c.prev + 1)).0 next) w m p)
            (λ k e. m k (ground arith)) h)
      | inr gap ↦ rw gap (
          walk-Held (end_chain today s c) (single d) ds (omega arith, omega arith)
            (λ k p. m k (ground arith)) (λ k e. m k (ground arith)) (end_chain-Held s c i w h))
    ]
