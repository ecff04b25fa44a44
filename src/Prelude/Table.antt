-- ===== src/Prelude/Table.antt =====
-- A database table: a list of rows found by a number. `SELECT … WHERE id = ?` is `row`, and
-- `UPDATE … WHERE p` is `modify`.
use Prim.Native.Nat.{ℕ}
use mathlib.Core.Path.{◌≡◌, refl, ap}
use mathlib.Core.Bool.{Bool, true, false}
use mathlib.Core.List.{List, [], ◌∷◌}
use mathlib.Core.Option.{Option, none, some}
use native.Mathlib.Omega.{arith}
use burnrate.Prelude.Tests.{◌==◌, leb, if◌then◌else◌}
use burnrate.Prelude.Lists.{All, length}

module _ {ℓ} {A : Type ℓ} (key : A → ℕ) where
  unfoldable pub row : ℕ → List A → Option A
  row i [] = none
  row i (x ∷ xs) = if key x == i then some x else row i xs

  -- `SELECT … ORDER BY key DESC LIMIT 1` over the rows given.
  unfoldable pub newest : List A → Option A
  newest [] = none
  newest (x ∷ xs) =
      let rest = newest xs in
      elim rest [ none ↦ some x | some y ↦ if leb (key y) (key x) then some x else some y ]

abbrev pub on_some {ℓ} : {A : Type ℓ} → (A → A) → Option A → Option A
on_some f none = none
on_some f (some x) = some (f x)

module _ {ℓ} {A : Type ℓ} where
  unfoldable pub modify : (A → Bool) → (A → A) → List A → List A
  modify p f [] = []
  modify p f (x ∷ xs) = (if p x then f x else x) ∷ modify p f xs

  pub length-modify : (p : A → Bool) (f : A → A) (xs : List A) → length (modify p f xs) ≡ length xs
  unfolding modify
  length-modify p f [] = refl
  length-modify p f (x ∷ xs) = ap (λ (n : ℕ). ℕ.suc n) (length-modify p f xs)

  pub modify-none :
      (p : A → Bool) (f : A → A) (xs : List A) → All (λ x. p x ≡ false) xs → modify p f xs ≡ xs
  unfolding modify
  modify-none p f [] h = refl
  modify-none p f (x ∷ xs) h = rw h.0 (ap (λ ys. x ∷ ys) (modify-none p f xs h.1))

  -- A stable insertion sort, for `ORDER BY key ASC`.
  abbrev insert_by : (A → ℕ) → A → List A → List A
  insert_by key x [] = x ∷ []
  insert_by key x (y ∷ ys) =
      let rest = insert_by key x ys in if leb (key x) (key y) then x ∷ y ∷ ys else y ∷ rest

  unfoldable pub sort_by : (A → ℕ) → List A → List A
  sort_by key [] = []
  sort_by key (x ∷ xs) = insert_by key x (sort_by key xs)

-- The rows whose key is `i`, when an update keeps every key, are found updated.
pub row-modify {ℓ} :
    {A : Type ℓ} (key : A → ℕ) (i j : ℕ) (f : A → A) (xs : List A)
    → ((x : A) → key (f x) ≡ key x)
    → row key j (modify (λ x. key x == i) f xs)
      ≡ (if i == j then on_some f (row key j xs) else row key j xs)
unfolding row modify
row-modify key i j f [] h = ground arith
row-modify key i j f (x ∷ xs) h = ground (arith, h x, row-modify key i j f xs h)

pub modify-All {ℓ κ} :
    {A : Type ℓ} (P : A → Type κ) (p : A → Bool) (f : A → A) (xs : List A)
    → ((x : A) → P x → P (f x))
    → All P xs
    → All P (modify p f xs)
unfolding modify
modify-All P p f [] k h = tt
modify-All P p f (x ∷ xs) k h = (pick (p x) h.0, modify-All P p f xs k h.1)
  where
    pick : (b : Bool) → P x → P (if b then f x else x)
    pick true px = k x px
    pick false px = px
