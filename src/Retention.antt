-- ===== src/Retention.antt =====
-- internal/retention/retention.go: the sweep that deletes old capture videos. What the file system and
-- path/filepath answer, whether a row can be written, and when the context is done, are given.
pub mod Window
use burnrate.Prelude.{
  ℕ, ◌+◌, ◌-◌, ◌*◌, ◌%◌, Bool, true, false, ◌||◌, Option, none, some, List, [], ◌∷◌, ◌++◌,
}
use burnrate.Prelude.Tests.{◌==◌, ltb, if◌then◌else◌}
use burnrate.Prelude.Int.{ℤ, pos, pos_part, neg_part, leb_ℤ}
use burnrate.Prelude.Number.{atoi}
use burnrate.Prelude.Text.{Text, codes, no_text, text_eq, trim_space, starts_with}
use burnrate.Prelude.Wrap.{wrap_int64}
use burnrate.Scheduling.Types.{Time, Duration}

-- The columns of a capture that the sweep reads; `created_at` is none if its text is no time.
pub record Capture : Type 0 where
  pub id : ℕ
  pub video_path : Text
  pub created_at : Option Time

pub data Stat : Type 0 where
  regular missing failed irregular : Stat

pub record Files : Type 0 where
  -- `filepath.Abs(filepath.Clean(path))` and `filepath.Rel`
  pub abs : Text → Option Text
  pub rel : Text → Text → Option Text
  pub stat : Text → Stat
  pub removes : Text → Bool
  -- `SetCaptureVideoPath` of a row succeeds
  pub clears : ℕ → Bool
  -- the context is done when the sweep gets to a row
  pub is_done : ℕ → Bool

abbrev pub default_retention_days : ℤ
default_retention_days = pos 30

abbrev or_default : Option ℤ → ℤ
or_default none = default_retention_days
or_default (some n) = n

-- `retentionDays`, of the setting if there is one.
unfoldable pub retention_days : Option Text → ℤ
unfolding atoi trim_space
retention_days none = default_retention_days
retention_days (some v) = or_default (atoi (trim_space v))

-- Of a path relative to the root: that it leads out of it, or is it.
unfoldable pub escapes : Text → Bool
escapes rel = text_eq rel (codes ".") || text_eq rel (codes "..") || starts_with (codes "../") rel

abbrev pub within : Text → Option Text → Option Text
within abs none = none
within abs (some rel) = if escapes rel then none else some abs

abbrev pub resolved : Files → Text → Option Text → Option Text
resolved f root none = none
resolved f root (some abs) = within abs (f.rel root abs)

-- `withinRoot`
unfoldable pub within_root : Files → Text → Text → Option Text
unfolding trim_space
within_root f root path = if no_text (trim_space path) then none else resolved f root (f.abs path)

abbrev pub day : ℕ
day = 86400000000000

abbrev pub two_64 : ℕ
two_64 = 18446744073709551616

-- `-time.Duration(days) * 24 * time.Hour` for a positive number of days, in an int64.
unfoldable pub back : ℕ → Duration
unfolding wrap_int64
back days = wrap_int64 (two_64 - days * day % two_64)

-- `created.Before(now.Add(d))`
unfoldable pub is_before : Time → Time → Duration → Bool
is_before created now d = ltb (created + neg_part d) (now + pos_part d)

-- What a sweep does to one row: the row, and the file that it deletes.
abbrev cleared : Files → Capture → Capture
cleared f c = if f.clears c.id then record c { video_path = [] } else c

abbrev pub by_stat : Files → Capture → Text → Stat → Capture × Option Text
by_stat f c abs Stat.regular = if f.removes abs then (cleared f c, some abs) else (c, none)
by_stat f c abs Stat.missing = (cleared f c, none)
by_stat f c abs Stat.failed = (c, none)
by_stat f c abs Stat.irregular = (c, none)

abbrev pub of_path : Files → Capture → Option Text → Capture × Option Text
of_path f c none = (c, none)
of_path f c (some abs) = by_stat f c abs (f.stat abs)

abbrev pub of_age : Files → Text → Capture → Bool → Capture × Option Text
of_age f root c true = of_path f c (within_root f root c.video_path)
of_age f root c false = (c, none)

abbrev pub of_created :
    Files → Text → Time → Duration → Capture → Option Time → Capture × Option Text
of_created f root now d c none = (c, none)
of_created f root now d c (some created) = of_age f root c (is_before created now d)

unfoldable pub prune : Files → Text → Time → Duration → Capture → Capture × Option Text
unfolding is_before within_root
prune f root now d c =
    if no_text c.video_path then (c, none) else of_created f root now d c c.created_at

abbrev pub with_deleted : Capture → Option Text → List (Capture × Text) → List (Capture × Text)
with_deleted c none rest = rest
with_deleted c (some abs) rest = (c, abs) ∷ rest

-- The loop: the rows, and what was deleted for which of them.
unfoldable pub sweep_each :
    Files → Text → Time → Duration → List Capture → List Capture × List (Capture × Text)
unfolding prune
sweep_each f root now d [] = ([], [])
sweep_each f root now d (c ∷ cs) =
    let (c', deleted) = prune f root now d c in
    let (cs', rest) = sweep_each f root now d cs in
    if f.is_done c.id then (c ∷ cs, []) else (c' ∷ cs', with_deleted c deleted rest)

-- `SweepOnce`
unfoldable pub sweep_once :
    Files → Text → Time → Option Text → List Capture → List Capture × List (Capture × Text)
unfolding sweep_each retention_days back
sweep_once f root now setting captures =
    let days = retention_days setting in
    if leb_ℤ days (pos 0)
    then (captures, [])
    else sweep_each f root now (back (pos_part days)) captures
