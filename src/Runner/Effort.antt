-- ===== src/Runner/Effort.antt =====
-- internal/runner/effort.go: the level of effort that a run works at. The arguments of the directives
-- in a text, the first group of each match of `effortDirective`, and unicode.ToLower are given.
use burnrate.Prelude.{
  ℕ, ◌-◌, ◌≡◌, refl, Bool, true, false, ◌&&◌, Option, none, some, List, [], ◌∷◌, ◌++◌, map,
}
use burnrate.Prelude.Tests.{leb, if◌then◌else◌}
use burnrate.Prelude.Lists.{any, All}
use burnrate.Prelude.Text.{Text, codes, text_eq, trim_space, before}
use burnrate.Domain.{Comment}

abbrev pub investigate : ℕ
investigate = 1

abbrev pub implement : ℕ
implement = 2

abbrev pub verify : ℕ
verify = 3

abbrev pub validate : ℕ
validate = 4

abbrev pub default_effort_level : ℕ
default_effort_level = verify

abbrev is_word : List Text → Text → Bool
is_word words word = any (text_eq word) words

-- `effortNames`
unfoldable pub effort_names : Text → Option ℕ
effort_names word =
    if is_word (codes "investigate" ∷ codes "investigation" ∷ codes "research" ∷ []) word
    then some investigate
    else if is_word (codes "implement" ∷ codes "implementation" ∷ codes "write" ∷ codes "code" ∷ [])
        word
    then some implement
    else if is_word (codes "verify" ∷ codes "verified" ∷ codes "verification" ∷ codes "test" ∷ [])
        word
    then some verify
    else if is_word
        (codes "validate" ∷ codes "validation" ∷ codes "integration" ∷ codes "integrate" ∷ []) word
    then some validate
    else none

abbrev of_digits : ℕ → Text → Option ℕ
of_digits c [] = if leb b'1' c && leb c b'4' then some (c - b'0') else none
of_digits c (d ∷ ds) = none

abbrev of_argument : Text → Option ℕ
of_argument [] = none
of_argument (c ∷ cs) =
    if leb b'0' c && leb c b'9' then of_digits c cs else effort_names (before b' ' (c ∷ cs))

-- The level that is asked for, or that of `older` where there is none.
abbrev or_older : Option ℕ → Option ℕ → Option ℕ
or_older none older = older
or_older (some level) older = some level

module _ (arguments : Text → List Text) (lower : ℕ → ℕ) where
  -- `effortValue`
  unfoldable pub effort_value : Text → Option ℕ
  unfolding effort_names trim_space before
  effort_value arg = of_argument (map lower (trim_space arg))

  -- The last argument that names a level.
  abbrev last_value : List Text → Option ℕ
  last_value [] = none
  last_value (a ∷ rest) = or_older (last_value rest) (effort_value a)

  -- `parseEffortLevel`
  unfoldable pub parse_effort_level : Text → Option ℕ
  unfolding effort_value
  parse_effort_level text = last_value (arguments text)

  -- The loop over the comments, from the newest.
  unfoldable pub latest_level : List Comment → Option ℕ
  unfolding parse_effort_level
  latest_level [] = none
  latest_level (c ∷ cs) = or_older (latest_level cs) (parse_effort_level c.body)

  abbrev or_default : Option ℕ → ℕ × Bool
  or_default none = (default_effort_level, false)
  or_default (some level) = (level, true)

  -- `resolveEffortLevel`: the level, and whether it was asked for.
  unfoldable pub resolve_effort_level : Text → List Comment → ℕ × Bool
  unfolding latest_level parse_effort_level
  resolve_effort_level task_prompt comments =
      or_default (or_older (latest_level comments) (parse_effort_level task_prompt))

  latest_level-none :
      (cs : List Comment)
      → All (λ (c : Comment). parse_effort_level c.body ≡ none) cs
      → latest_level cs ≡ none
  unfolding latest_level
  latest_level-none [] h = refl
  latest_level-none (c ∷ cs) h = rw (latest_level-none cs h.1) h.0

  latest_level-append :
      (older newer : List Comment) (c : Comment) (level : ℕ)
      → parse_effort_level c.body ≡ some level
      → All (λ (d : Comment). parse_effort_level d.body ≡ none) newer
      → latest_level (older ++ c ∷ newer) ≡ some level
  unfolding latest_level
  latest_level-append [] newer c level h k = rw (latest_level-none newer k) h
  latest_level-append (d ∷ older) newer c level h k =
      rw (latest_level-append older newer c level h k) refl

  -- The newest comment that names a level decides it, whatever older comments and the description
  -- say, and the level counts as asked for.
  pub resolve_effort_level-latest :
      (task_prompt : Text) (older newer : List Comment) (c : Comment) (level : ℕ)
      → parse_effort_level c.body ≡ some level
      → All (λ (d : Comment). parse_effort_level d.body ≡ none) newer
      → resolve_effort_level task_prompt (older ++ c ∷ newer) ≡ (level, true)
  unfolding resolve_effort_level
  resolve_effort_level-latest task_prompt older newer c level h k =
      rw (latest_level-append older newer c level h k) refl
