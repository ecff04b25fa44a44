-- ===== src/Git.antt =====
-- internal/git/diffstat.go: the lines that a branch has added and removed. What git prints is given.
pub mod Numstat
use burnrate.Prelude.{
  ℕ, ◌+◌, ◌≡◌, refl, Bool, true, false, not, ◌||◌, Option, none, some, List, [], ◌∷◌, ◌++◌,
}
use burnrate.Prelude.Tests.{◌==◌, if◌then◌else◌}
use burnrate.Prelude.Int.{ℤ, pos, ◌-ℤ◌, neg_part, pos_part, sub_ℕ}
use burnrate.Prelude.Lists.{any}
use burnrate.Prelude.Number.{atoi}
use burnrate.Prelude.Text.{Text, codes, no_text, is_space}

pub record DiffStat : Type 0 where
  pub files_changed : ℕ
  pub added : ℤ
  pub removed : ℤ

abbrev pub no_stat : DiffStat
no_stat = record { files_changed = 0; added = pos 0; removed = pos 0 }

infixl 65 ◌+ℤ◌
abbrev pub ◌+ℤ◌ : ℤ → ℤ → ℤ
a +ℤ b = sub_ℕ (pos_part a + pos_part b) (neg_part a + neg_part b)

-- `Changed`
unfoldable pub changed : DiffStat → ℤ
changed d = d.added +ℤ d.removed

-- `strings.Split` at a character.
abbrev pub onto : ℕ → List Text → List Text
onto c [] = (c ∷ []) ∷ []
onto c (s ∷ ss) = (c ∷ s) ∷ ss

unfoldable pub split : ℕ → Text → List Text
split sep [] = [] ∷ []
split sep (c ∷ cs) = let rest = split sep cs in if c == sep then [] ∷ rest else onto c rest

-- `strings.Fields`, with the field that is being read.
abbrev close_field : Text → List Text → List Text
close_field [] fs = fs
close_field (c ∷ cs) fs = (c ∷ cs) ∷ fs

unfoldable pub fields_from : Text → Text → List Text
fields_from word [] = close_field word []
fields_from word (c ∷ cs) =
    let gap = close_field word (fields_from [] cs) in
    let on = fields_from (word ++ c ∷ []) cs in if is_space c then gap else on

-- `if n, err := strconv.Atoi(…); err == nil { … += n }`
abbrev or_zero : Option ℤ → ℤ
or_zero none = pos 0
or_zero (some n) = n

abbrev pub of_fields : List Text → DiffStat → DiffStat
of_fields (added ∷ removed ∷ path ∷ rest) st = record {
  files_changed = st.files_changed + 1;
  added = st.added +ℤ or_zero (atoi added);
  removed = st.removed +ℤ or_zero (atoi removed);
}
of_fields (added ∷ removed ∷ []) st = st
of_fields (added ∷ []) st = st
of_fields [] st = st

-- The loop over the lines.
unfoldable pub count_lines : List Text → DiffStat → DiffStat
unfolding fields_from atoi
count_lines [] st = st
count_lines (l ∷ ls) st = count_lines ls (of_fields (fields_from [] l) st)

-- `parseNumstat`
unfoldable pub parse_numstat : Text → DiffStat
unfolding split count_lines
parse_numstat out = count_lines (split 10 out) no_stat

pub record Git : Type 0 where
  -- `DefaultBranch`, none for its error, and whether `git rev-parse --verify` finds a commit
  pub default_branch : Option Text
  pub verifies : Text → Bool
  -- the output of `git diff --numstat ref...HEAD`, none for its error
  pub diff : Text → Option Text

abbrev first_ref : Git → List Text → Option Text
first_ref g [] = none
first_ref g (ref ∷ refs) = if g.verifies ref then some ref else first_ref g refs

abbrev of_base : Git → Text → Option Text
of_base g base =
    if any (λ (c : ℕ). c == b'/') base
    then some base
    else first_ref g ((codes "origin/" ++ base) ∷ base ∷ [])

abbrev resolved_base : Git → Option Text → Option Text
resolved_base g none = none
resolved_base g (some base) = of_base g base

-- `diffBaseRef`: none for its error.
unfoldable pub diff_base_ref : Git → Text → Option Text
diff_base_ref g base = resolved_base g (if no_text base then g.default_branch else some base)

abbrev of_diff : Option Text → Option DiffStat
of_diff none = none
of_diff (some out) = some (parse_numstat out)

-- `BranchDiffStat`
unfoldable pub branch_diff_stat : Git → Text → Option DiffStat
unfolding diff_base_ref parse_numstat
branch_diff_stat g base = elim (diff_base_ref g base) [
  | none ↦ none
  | some ref ↦ of_diff (g.diff ref)
]
