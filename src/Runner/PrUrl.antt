-- ===== src/Runner/PrUrl.antt =====
-- `extractPRURL`: the last match of `https://github\.com/[^\s]+/pull/\d+`.
use burnrate.Prelude.{ℕ, zero, suc, ◌-◌, Bool, ◌&&◌, ◌||◌, Option, none, some, [], ◌∷◌, ◌++◌}
use burnrate.Prelude.Tests.{◌==◌, leb, if◌then◌else◌}
use burnrate.Prelude.Lists.{length}
use burnrate.Prelude.Text.{Text, codes, strip_prefix}

-- `\s` and `\d`
abbrev is_white : ℕ → Bool
is_white c = c == 32 || c == 9 || c == 10 || c == 12 || c == 13

abbrev is_digit : ℕ → Bool
is_digit c = leb 48 c && leb c 57

abbrev digits : Text → Text
digits [] = []
digits (c ∷ cs) = let rest = digits cs in if is_digit c then c ∷ rest else []

abbrev numbered : Option Text → Option Text
numbered none = none
numbered (some []) = none
numbered (some (c ∷ cs)) = if is_digit c then some (codes "/pull/" ++ c ∷ digits cs) else none

abbrev or_shorter : ℕ → Option Text → Option Text → Option Text
or_shorter c (some m) shorter = some (c ∷ m)
or_shorter c none (some m) = some (c ∷ m)
or_shorter c none none = none

-- `[^\s]+/pull/\d+` at the start of a text, the longest first.
unfoldable pub greedy : Text → Option Text
unfolding strip_prefix
greedy [] = none
greedy (c ∷ cs) =
    let longer = greedy cs in
    if is_white c then none else or_shorter c longer (numbered (strip_prefix (codes "/pull/") cs))

abbrev pub host : Text
host = codes "https://github.com/"

abbrev hosted : Option Text → Option Text
hosted none = none
hosted (some rest) = elim (greedy rest) [ none ↦ none | some m ↦ some (host ++ m) ]

abbrev pub match_at : Text → Option Text
match_at s = hosted (strip_prefix host s)

-- The last match, from left to right; `skip` characters belong to the match before.
unfoldable pub last_match : ℕ → Text → Text → Text
last_match skip found [] = found
last_match (suc skip) found (c ∷ cs) = last_match skip found cs
last_match zero found (c ∷ cs) = elim (match_at (c ∷ cs)) [
  | none ↦ last_match zero found cs
  | some m ↦ last_match (length m - 1) m cs
]

unfoldable pub extract_pr_url : Text → Text
unfolding last_match
extract_pr_url text = last_match 0 [] text
