-- ===== src/Runner/Results.antt =====
-- What a run reports in the lines of its last message (internal/runner/runner.go). A pattern of the
-- source that starts with `(?m)^` and stays within its line is a test of each line.
use burnrate.Prelude.{
  ℕ, zero, suc, Bool, true, false, not, ◌&&◌, ◌||◌, Option, none, some, List, [], ◌∷◌, ◌++◌,
}
use burnrate.Prelude.Tests.{◌==◌, leb, if◌then◌else◌}
use burnrate.Prelude.Lists.{any, find}
use burnrate.Prelude.Text.{Text, codes, no_text, text_eq, starts_with, strip_prefix, trim_space}

pub record AgentResult : Type 0 where
  pub repo : Text
  pub branch : Text
  pub pr_url : Text
  pub worked_in : Text

-- `strings.Split(s, c)` for one character.
unfoldable pub split_on : ℕ → Text → List Text
split_on c [] = [] ∷ []
split_on c (d ∷ ds) =
    let rest = split_on c ds in
    if d == c then [] ∷ rest else elim rest [ [] ↦ (d ∷ []) ∷ [] | f ∷ fs ↦ (d ∷ f) ∷ fs ]

abbrev pub is_blank_char : ℕ → Bool
is_blank_char c = c == 32 || c == 9

unfoldable pub drop_while : (ℕ → Bool) → Text → Text
drop_while p [] = []
drop_while p (c ∷ cs) = if p c then drop_while p cs else c ∷ cs

abbrev cons_unless : (ℕ → Bool) → ℕ → Text → Text
cons_unless p c [] = if p c then [] else c ∷ []
cons_unless p c (d ∷ ds) = c ∷ d ∷ ds

unfoldable pub drop_end : (ℕ → Bool) → Text → Text
drop_end p [] = []
drop_end p (c ∷ cs) = cons_unless p c (drop_end p cs)

abbrev last : ℕ → Text → ℕ
last c [] = c
last c (d ∷ ds) = last d ds

-- `[ \t]*(.+?)[ \t]*$`: of a line of blanks alone the group gets the last one.
unfoldable pub group : Text → Option Text
unfolding drop_while drop_end
group [] = none
group (c ∷ cs) =
    let kept = drop_end is_blank_char (drop_while is_blank_char (c ∷ cs)) in
    some (if no_text kept then last c cs ∷ [] else kept)

abbrev pub captured : Text → Text → Option Text
captured key line = elim (strip_prefix key line) [ none ↦ none | some rest ↦ group rest ]

-- The group of each line that the pattern `(?m)^KEY:[ \t]*(.+?)[ \t]*$` matches.
unfoldable pub captures : Text → List Text → List Text
captures key [] = []
captures key (line ∷ lines) =
    let rest = captures key lines in elim (captured key line) [ none ↦ rest | some m ↦ m ∷ rest ]

abbrev pub lines_of : Text → List Text
lines_of text = split_on 10 text

abbrev last_or_empty : List Text → Text
last_or_empty [] = []
last_or_empty (m ∷ []) = m
last_or_empty (m ∷ n ∷ ms) = last_or_empty (n ∷ ms)

unfoldable pub last_trailer : Text → Text → Text
unfolding captures split_on
last_trailer key text = last_or_empty (captures key (lines_of text))

abbrev none_dropped : Text → Text
none_dropped v = if text_eq v (codes "none") then [] else v

-- `parseTrailers`, as the result that `parseResults` makes of it.
unfoldable pub parse_trailers : Text → AgentResult
parse_trailers text = record {
  repo = none_dropped (last_trailer (codes "REPO:") text);
  branch = none_dropped (last_trailer (codes "BRANCH:") text);
  pr_url = none_dropped (last_trailer (codes "PR:") text);
  worked_in = none_dropped (last_trailer (codes "WORKED_IN:") text);
}

abbrev nth : List Text → ℕ → Text
nth [] i = []
nth (f ∷ fs) zero = f
nth (f ∷ fs) (suc i) = nth fs i

abbrev is_tick : ℕ → Bool
is_tick c = c == 96

abbrev ends_in : ℕ → Text → Bool
ends_in d [] = false
ends_in d (c ∷ cs) = last c cs == d

-- What is left of a field: not a placeholder such as "<branch>", nor a mark for none.
unfoldable pub filled : Text → Text
filled v =
    if text_eq v (codes "none")
      || text_eq v (codes "-")
      || (starts_with (codes "<") v && ends_in 62 v)
    then []
    else v

-- `resultField`
unfoldable pub result_field : List Text → ℕ → Text
unfolding filled drop_while drop_end
result_field fields i = filled (drop_end is_tick (drop_while is_tick (trim_space (nth fields i))))

abbrev pub result_of : List Text → AgentResult
result_of fields = record {
  repo = result_field fields 0;
  branch = result_field fields 1;
  pr_url = result_field fields 2;
  worked_in = result_field fields 3;
}

-- `r.Repo + "\x00" + r.Branch + "\x00" + r.PRURL`
abbrev pub result_key : AgentResult → Text
result_key r = r.repo ++ 0 ∷ (r.branch ++ 0 ∷ r.pr_url)

abbrev pub is_empty_result : AgentResult → Bool
is_empty_result r = no_text r.repo && no_text r.branch && no_text r.pr_url

-- The loop of `parseResults`.
unfoldable pub collect : List Text → List Text → List AgentResult
collect seen [] = []
collect seen (m ∷ ms) =
    let r = result_of (split_on 124 m) in
    let passed = collect seen ms in
    let taken = collect (result_key r ∷ seen) ms in
    if is_empty_result r
    then passed
    else if any (text_eq (result_key r)) seen
    then passed
    else r ∷ taken

abbrev or_trailers : AgentResult → List AgentResult → List AgentResult
or_trailers t (r ∷ rs) = r ∷ rs
or_trailers t [] = if is_empty_result t && no_text t.worked_in then [] else t ∷ []

unfoldable pub parse_results : Text → List AgentResult
unfolding collect captures split_on parse_trailers
parse_results text =
    or_trailers (parse_trailers text) (collect [] (captures (codes "RESULT:") (lines_of text)))

abbrev pub no_result : AgentResult
no_result = record { repo = []; branch = []; pr_url = []; worked_in = [] }

abbrev first_or_none : List AgentResult → AgentResult
first_or_none [] = no_result
first_or_none (r ∷ rs) = r

-- `primaryResult`
unfoldable pub primary_result : List AgentResult → AgentResult
primary_result results = elim (find (λ (r : AgentResult). not (no_text r.pr_url)) results) [
  | none ↦ first_or_none results
  | some r ↦ r
]

-- `\b` after a word: no ASCII letter, digit or underscore follows.
abbrev word_ends : Text → Bool
word_ends [] = true
word_ends (c ∷ cs) =
    not ((leb 48 c && leb c 57) || (leb 65 c && leb c 90) || (leb 97 c && leb c 122) || c == 95)

abbrev waiting_word : Option Text → Bool
waiting_word none = false
waiting_word (some rest) = word_ends rest

abbrev waiting_rest : Option Text → Bool
waiting_rest none = false
waiting_rest (some rest) =
    waiting_word (strip_prefix (codes "WAITING_HUMAN") (drop_while is_blank_char rest))

-- `isWaitingHuman`
unfoldable pub is_waiting_human : Text → Bool
unfolding split_on drop_while strip_prefix
is_waiting_human text =
    any (λ line. waiting_rest (strip_prefix (codes "RESULT:") line)) (lines_of text)
