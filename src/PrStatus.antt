-- ===== src/PrStatus.antt =====
-- internal/prstatus/prstatus.go: which pull requests are looked up again, and when. What `gh`
-- answers on a pull request is a parameter. A time of check is 0 where the source has no text.
pub mod Pace
use burnrate.Prelude.{
  ℕ, zero, suc, ◌+◌, ◌-◌, ◌*◌, ◌%◌, min, Bool, true, false, not, ◌&&◌, ◌||◌, Option, none, some,
  List, [], ◌∷◌, String,
}
use burnrate.Prelude.Tests.{◌==◌, leb, ltb, if◌then◌else◌}
use burnrate.Prelude.Int.{ℤ, pos, pos_part, leb_ℤ}
use burnrate.Prelude.Text.{Text, no_text}
use burnrate.Domain.{PrState, TaskPr}
use burnrate.Scheduling.Types.{Time, Duration, minute, is_zero, sub_time}

-- `Terminal`
abbrev pub terminal : PrState → Bool
terminal PrState.merged = true
terminal PrState.closed = true
terminal _ = false

abbrev pub is_gone : PrState → Bool
is_gone PrState.gone = true
is_gone _ = false

abbrev pub same_state : PrState → PrState → Bool
same_state PrState.unprobed PrState.unprobed = true
same_state PrState.open_ PrState.open_ = true
same_state PrState.merged PrState.merged = true
same_state PrState.closed PrState.closed = true
same_state PrState.gone PrState.gone = true
same_state _ _ = false

abbrev pub same_bool : Bool → Bool → Bool
same_bool true b = b
same_bool false b = not b

abbrev pub max_probe_backoff : ℕ
max_probe_backoff = 24 * 60 * minute

-- The loop of `probeBackoff`, for a positive `minAge`.
unfoldable pub doubled : ℕ → ℕ → ℕ
doubled backoff zero = backoff
doubled backoff (suc n) =
    let rest = doubled (backoff * 2) n in if leb max_probe_backoff backoff then backoff else rest

unfoldable pub probe_backoff : ℕ → ℕ → ℕ
unfolding doubled
probe_backoff min_age failures = min (doubled min_age failures) max_probe_backoff

unfoldable pub should_probe : TaskPr → Time → Duration → Bool → Bool
unfolding probe_backoff
should_probe pr now min_age force =
    if no_text pr.pr_url || terminal pr.pr_state
    then false
    else if is_gone pr.pr_state && not force
    then false
    else if force || leb_ℤ min_age (pos 0) || is_zero pr.pr_checked_at
    then true
    else leb_ℤ (pos (probe_backoff (pos_part min_age) pr.pr_probe_failures))
        (sub_time now pr.pr_checked_at)

pub data Probe : Type 0 where
  -- the state, and whether the pull request is a draft
  found : PrState → Bool → Probe
  -- `git.ErrPRNotFound`
  no_such_pr : Probe
  failed : Probe

-- `Format(time.RFC3339)` cuts an instant off to the second.
abbrev pub to_second : Time → Time
to_second now = now - now % 1000000000

-- `SetTaskPRState`, which also forgets the failures.
abbrev pub set_state : TaskPr → PrState → Bool → Time → TaskPr
set_state pr state is_draft now = record pr {
  pr_state = state;
  pr_is_draft = is_draft;
  pr_checked_at = to_second now;
  pr_probe_failures = 0;
}

-- One pull request that is probed: its row, and whether that counts as a change.
unfoldable pub probed : Time → TaskPr → Probe → TaskPr × Bool
probed now pr no_such_pr = (set_state pr PrState.gone false now, not (is_gone pr.pr_state))
probed now pr failed = (
  record pr { pr_checked_at = to_second now; pr_probe_failures = pr.pr_probe_failures + 1 },
  false,
)
probed now pr (found state is_draft) = (
  set_state pr state is_draft now,
  not (same_state state pr.pr_state && same_bool is_draft pr.pr_is_draft),
)

abbrev counted : Bool → ℕ
counted true = 1
counted false = 0

-- `refresh`, while its context lives: the rows, and how many changed.
unfoldable pub refresh : (Text → Probe) → Time → Duration → Bool → List TaskPr → List TaskPr × ℕ
refresh probe now min_age force [] = ([], 0)
refresh probe now min_age force (pr ∷ prs) =
    let (rest, n) = refresh probe now min_age force prs in
    let (pr', changed) = probed now pr (probe pr.pr_url) in
    if should_probe pr now min_age force then (pr' ∷ rest, counted changed + n) else (pr ∷ rest, n)
