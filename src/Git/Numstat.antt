-- ===== src/Git/Numstat.antt =====
-- The count of a diff that is printed in parts.
use burnrate.Prelude.{ℕ, ◌≡◌, refl, inl, inr, ap, ◌∙◌, List, [], ◌∷◌, ◌++◌, arith}
use burnrate.Prelude.Tests.{◌==◌, Bool-cases}
use burnrate.Prelude.Text.{Text}
use burnrate.Git.{
  DiffStat, onto, split, fields_from, of_fields, count_lines, parse_numstat, no_stat,
}

onto-onto-append :
    (x y : ℕ) (rest ts : List Text) → onto x (onto y rest ++ ts) ≡ onto x (onto y rest) ++ ts
onto-onto-append x y [] ts = refl
onto-onto-append x y (s ∷ rest) ts = refl

onto-split-append :
    (c x : ℕ) (xs : Text) (ts : List Text) → onto x (split c xs ++ ts) ≡ onto x (split c xs) ++ ts
unfolding split
onto-split-append c x [] ts = refl
onto-split-append c x (y ∷ ys) ts = elim (Bool-cases (y == c)) [
  | inl end ↦ rw end refl
  | inr more ↦ rw more (onto-onto-append x y (split c ys) ts)
]

split-append : (c : ℕ) (xs ys : Text) → split c (xs ++ c ∷ ys) ≡ split c xs ++ split c ys
unfolding split
split-append c [] ys = ground arith
split-append c (x ∷ xs) ys = elim (Bool-cases (x == c)) [
  | inl end ↦ rw end (ap (λ (l : List Text). [] ∷ l) (split-append c xs ys))
  | inr more ↦ rw more (ap (onto x) (split-append c xs ys) ∙ onto-split-append c x xs (split c ys))
]

count_lines-append :
    (ls ms : List Text) (st : DiffStat)
    → count_lines (ls ++ ms) st ≡ count_lines ms (count_lines ls st)
unfolding count_lines
count_lines-append [] ms st = refl
count_lines-append (l ∷ ls) ms st = count_lines-append ls ms (of_fields (fields_from [] l) st)

-- A diff that is printed in two parts is counted as the second part, from the count of the first.
pub parse_numstat-append :
    (xs ys : Text) → parse_numstat (xs ++ 10 ∷ ys) ≡ count_lines (split 10 ys) (parse_numstat xs)
unfolding parse_numstat
parse_numstat-append xs ys =
    rw (split-append 10 xs ys) (count_lines-append (split 10 xs) (split 10 ys) no_stat)
