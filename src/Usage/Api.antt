-- ===== src/Usage/Api.antt =====
-- internal/usage/types.go. The decoding of the answer's JSON and `time.Parse` are given.
use burnrate.Prelude.{ℕ, ◌≡◌, ap, sym, ◌∙◌, Bool, Option, none, some, List, [], ◌∷◌, ◌++◌, map}
use mathlib.Core.List.{append_assoc, append-nil}
use burnrate.Prelude.Tests.{if◌then◌else◌}
use burnrate.Prelude.Text.{Text, codes, text_eq}
use burnrate.Scheduling.Types.{Time, is_zero}

pub record Window : Type 0 where
  pub utilization : ℕ
  pub resets_at : Time

pub record Limit : Type 0 where
  pub kind : Text
  pub group : Text
  pub percent : ℕ
  pub severity : Text
  pub is_active : Bool
  pub resets_at : Text
  pub scope_model : Text

pub record ScopedWeekly : Type 0 where
  pub model : Text
  pub percent : ℕ

pub record UsageSnapshot : Type 0 where
  pub five_hour : Window
  pub seven_day : Window
  pub seven_day_opus : Option Window
  pub scoped_weekly : List ScopedWeekly
  pub limits : List Limit
  pub raw : Text
  pub captured_at : Time

pub record ApiWindow : Type 0 where
  pub utilization : ℕ
  pub resets_at : Text

-- `scope` is the display name of the scope's model, none if there is no scope or no model.
pub record ApiLimit : Type 0 where
  pub kind : Text
  pub group : Text
  pub percent : ℕ
  pub severity : Text
  pub is_active : Bool
  pub resets_at : Text
  pub scope : Option Text

pub record ApiResponse : Type 0 where
  pub five_hour : Option ApiWindow
  pub seven_day : Option ApiWindow
  pub seven_day_opus : Option ApiWindow
  pub limits : List ApiLimit

pub record Formats : Type 0 where
  pub decode : Text → Option ApiResponse
  -- `time.Parse` of a layout
  pub parse : Text → Text → Option Time

abbrev pub rfc3339 : Text
rfc3339 = codes "2006-01-02T15:04:05Z07:00"

abbrev pub rfc3339_nano : Text
rfc3339_nano = codes "2006-01-02T15:04:05.999999999Z07:00"

abbrev or_zero : Option Time → Time
or_zero none = 0
or_zero (some t) = t

abbrev pub no_window : Window
no_window = record { utilization = 0; resets_at = 0 }

abbrev pub model_or_empty : Option Text → Text
model_or_empty none = []
model_or_empty (some model) = model

abbrev pub limit_of : ApiLimit → Limit
limit_of l = record {
  kind = l.kind;
  group = l.group;
  percent = l.percent;
  severity = l.severity;
  is_active = l.is_active;
  resets_at = l.resets_at;
  scope_model = model_or_empty l.scope;
}

abbrev pub is_kind : Text → ApiLimit → Bool
is_kind kind l = text_eq l.kind kind

abbrev pub session : Text
session = codes "session"

abbrev pub weekly_all : Text
weekly_all = codes "weekly_all"

abbrev pub weekly_scoped : Text
weekly_scoped = codes "weekly_scoped"

abbrev scoped : ApiLimit → Option Text → List ScopedWeekly
scoped l none = []
scoped l (some model) = record { model = model; percent = l.percent } ∷ []

abbrev pub scoped_of : ApiLimit → List ScopedWeekly
scoped_of l = if is_kind weekly_scoped l then scoped l l.scope else []

module _ (f : Formats) where
  abbrev first_format : Text → List Text → Option Time
  first_format s [] = none
  first_format s (layout ∷ layouts) = elim (f.parse layout s) [
    | none ↦ first_format s layouts
    | some t ↦ some t
  ]

  unfoldable pub parse_flex_time : Text → Time
  parse_flex_time s = or_zero (first_format s (rfc3339_nano ∷ rfc3339 ∷ rfc3339_nano ∷ []))

  -- `time.Parse(time.RFC3339, …)`, and the other formats where it gives the zero time
  unfoldable pub reset_time : Text → Time
  unfolding parse_flex_time
  reset_time s = let t = or_zero (f.parse rfc3339 s) in if is_zero t then parse_flex_time s else t

  unfoldable pub parse_window : ApiWindow → Window
  unfolding reset_time
  parse_window w = record { utilization = w.utilization; resets_at = reset_time w.resets_at }

  abbrev pub window_of : ApiLimit → Window
  window_of l = record { utilization = l.percent; resets_at = reset_time l.resets_at }

  -- The second loop over the limits.
  unfoldable pub read_limits : List ApiLimit → UsageSnapshot → UsageSnapshot
  unfolding reset_time
  read_limits [] s = s
  read_limits (l ∷ ls) s = read_limits ls (record s {
    five_hour = if is_kind session l then window_of l else s.five_hour;
    seven_day = if is_kind weekly_all l then window_of l else s.seven_day;
    scoped_weekly = s.scoped_weekly ++ scoped_of l;
  })

  abbrev pub window_or : Window → Option ApiWindow → Window
  window_or d none = d
  window_or d (some w) = parse_window w

  abbrev opus : Option ApiWindow → Option Window
  opus none = none
  opus (some w) = some (parse_window w)

  abbrev fill : ApiResponse → List ApiLimit → UsageSnapshot → UsageSnapshot
  fill resp [] s = record s {
    five_hour = window_or s.five_hour resp.five_hour;
    seven_day = window_or s.seven_day resp.seven_day;
  }
  fill resp (l ∷ ls) s = read_limits (l ∷ ls) (record s { limits = map limit_of (l ∷ ls) })

  abbrev blank : Time → Text → Option Window → UsageSnapshot
  blank now raw seven_day_opus = record {
    five_hour = no_window;
    seven_day = no_window;
    seven_day_opus = seven_day_opus;
    scoped_weekly = [];
    limits = [];
    raw = raw;
    captured_at = now;
  }

  -- `parseAPIResponse`
  unfoldable pub parse_api_response : Time → Text → Option UsageSnapshot
  unfolding read_limits parse_window
  parse_api_response now raw = elim (f.decode raw) [
    | none ↦ none
    | some resp ↦ some (fill resp resp.limits (blank now raw (opus resp.seven_day_opus)))
  ]

  -- The window of the last limit of a kind.
  abbrev pub last_of : Text → List ApiLimit → Window → Window
  last_of kind [] w = w
  last_of kind (l ∷ ls) w = last_of kind ls (if is_kind kind l then window_of l else w)

  abbrev pub all_scoped : List ApiLimit → List ScopedWeekly
  all_scoped [] = []
  all_scoped (l ∷ ls) = scoped_of l ++ all_scoped ls

  read_limits_lem :
      (ls : List ApiLimit) (s : UsageSnapshot)
      → read_limits ls s ≡ record s {
        five_hour = last_of session ls s.five_hour;
        seven_day = last_of weekly_all ls s.seven_day;
        scoped_weekly = s.scoped_weekly ++ all_scoped ls;
      }
  unfolding read_limits
  read_limits_lem [] s =
      ap (λ (ys : List ScopedWeekly). record s { scoped_weekly = ys })
        (sym (append-nil s.scoped_weekly))
  read_limits_lem (l ∷ ls) s =
      read_limits_lem ls _
      ∙ ap
          (λ (ys : List ScopedWeekly). record s {
            five_hour = last_of session (l ∷ ls) s.five_hour;
            seven_day = last_of weekly_all (l ∷ ls) s.seven_day;
            scoped_weekly = ys;
          })
          (append_assoc s.scoped_weekly (scoped_of l) (all_scoped ls))

  -- An answer that lists limits gives the windows of its last `session` and `weekly_all` limits, or
  -- none, whatever its older fields hold; the scoped limits of all its `weekly_scoped` ones that name
  -- a model, in order; and every limit as it was listed.
  pub parse_api_response-limits :
      (now : Time) (raw : Text) (resp : ApiResponse) (l : ApiLimit) (ls : List ApiLimit)
      → f.decode raw ≡ some resp
      → resp.limits ≡ l ∷ ls
      → parse_api_response now raw
        ≡ some (record {
          five_hour = last_of session (l ∷ ls) no_window;
          seven_day = last_of weekly_all (l ∷ ls) no_window;
          seven_day_opus = opus resp.seven_day_opus;
          scoped_weekly = all_scoped (l ∷ ls);
          limits = map limit_of (l ∷ ls);
          raw = raw;
          captured_at = now;
        })
  unfolding parse_api_response
  parse_api_response-limits now raw resp l ls h i =
      rw (h, parse_api_response)
        (rw i (
          ap (λ (s : UsageSnapshot). some s)
            (read_limits_lem (l ∷ ls) (record (blank now raw (opus resp.seven_day_opus)) {
              limits = map limit_of (l ∷ ls);
            }))))
