-- ===== src/Service/Await.antt =====
-- The waiting half of internal/service/request_service.go. What other calls do while a call waits
-- is not part of it: the poll is given the tables as it finds them at each event.
pub mod Budget
use burnrate.Prelude.{
  ℕ, ◌&&◌, not, Bool, true, false, Option, none, some, List, [], ◌∷◌, ◌++◌, String,
}
use burnrate.Prelude.Tests.{◌==◌, if◌then◌else◌}
use burnrate.Prelude.Lists.{find}
use burnrate.Prelude.Int.{ℤ, pos, ltb_ℤ, leb_ℤ}
use burnrate.Prelude.Number.{atoi}
use burnrate.Prelude.Text.{Text, codes, str_eq, trim_space}
use burnrate.Scheduling.Types.{Time}
use burnrate.Domain.{HumanRequest, Comment, is_pending, is_answered}
use burnrate.Store.Tables.{Store}
use burnrate.Store.Comments.{get_comment}
use burnrate.Store.Requests.{get_human_request, set_human_request_live}
use burnrate.Service.Base.{Entity, ServiceError, Result, ok, err}
use burnrate.Service.Tasks.{in_store}
use burnrate.Service.Requests.{RequestEnv, expire}
use burnrate.Service.Requests.Marker.{parse_result_marker}

abbrev pub min_wait_sec : ℤ
min_wait_sec = pos 5

abbrev get_setting : Store → String → Option (String × String)
get_setting s key = find (λ (p : String × String). str_eq p.0 key) s.settings

abbrev positive_or : ℤ → Option ℤ → ℤ
positive_or def none = def
positive_or def (some n) = if leb_ℤ n (pos 0) then def else n

-- `settingInt`
unfoldable pub setting_int : Store → String → ℤ → ℤ
unfolding atoi trim_space
setting_int s key def = elim (get_setting s key) [
  | none ↦ def
  | some (_, v) ↦ positive_or def (atoi (trim_space (codes v)))
]

unfoldable pub human_request_wait_sec : Store → ℤ
unfolding setting_int
human_request_wait_sec s = setting_int s "human_request_wait_sec" (pos 600)

unfoldable pub capture_approval_wait_sec : Store → ℤ
unfolding setting_int
capture_approval_wait_sec s = setting_int s "capture_approval_wait_sec" (pos 120)

unfoldable pub clamp_wait : ℤ → ℤ → ℤ
clamp_wait requested configured =
    let configured' = if ltb_ℤ configured min_wait_sec then min_wait_sec else configured in
    if leb_ℤ requested (pos 0)
    then configured'
    else if ltb_ℤ configured' requested
    then configured'
    else if ltb_ℤ requested min_wait_sec
    then min_wait_sec
    else requested

-- The budget of `AwaitResponse`, and that of `AwaitApproval`, which calls it.
unfoldable pub await_budget : Store → ℤ → ℤ
unfolding clamp_wait
await_budget s timeout = clamp_wait timeout (human_request_wait_sec s)

unfoldable pub approval_budget : Store → ℤ → ℤ
unfolding clamp_wait
approval_budget s timeout = await_budget s (clamp_wait timeout (capture_approval_wait_sec s))

pub record AwaitOutcome : Type 0 where
  pub request : HumanRequest
  pub reply : Text
  pub result : Text
  pub timed_out : Bool

abbrev pub with_reply : HumanRequest → Bool → Option Comment → AwaitOutcome
with_reply req timed_out none = record {
  request = req;
  reply = [];
  result = [];
  timed_out = timed_out;
}
with_reply req timed_out (some c) = record {
  request = req;
  reply = c.body;
  result = parse_result_marker c.body;
  timed_out = timed_out;
}

unfoldable pub outcome : Store → HumanRequest → Bool → AwaitOutcome
outcome s req timed_out = with_reply req timed_out (
    if is_answered req.status && not (req.response_comment_id == 0)
    then get_comment s req.response_comment_id
    else none)

pub data AwaitEvent : Type 0 where
  ctx_done deadline tick : AwaitEvent

abbrev is_tick : AwaitEvent → Bool
is_tick tick = true
is_tick _ = false

-- One event of the `select`: `none` goes on waiting. The deferred call clears the live flag.
abbrev pub on_event : ℕ → AwaitEvent → Store → Option (Store × Result AwaitOutcome)
on_event id ev s = elim (get_human_request s id) [
  | none ↦ some (set_human_request_live s id false, err (ServiceError.store_error))
  | some latest ↦
      if is_tick ev && is_pending latest.status
      then none
      else some
          (set_human_request_live s id false, ok (outcome s latest (is_pending latest.status)))
]

-- The loop, over the events in the order they come; it is still waiting after the last.
unfoldable pub await_loop : ℕ → List (AwaitEvent × Store) → Option (Store × Result AwaitOutcome)
await_loop id [] = none
await_loop id ((ev, s) ∷ rest) =
    let later = await_loop id rest in
    elim (on_event id ev s) [ none ↦ later | some done ↦ some done ]

-- `AwaitResponse`: an unknown request is refused and a settled one reported, both before anything
-- is written.
unfoldable pub await_response :
    Store → ℕ → List (AwaitEvent × Store) → Option (Store × Result AwaitOutcome)
unfolding await_loop
await_response s id events = elim (get_human_request s id) [
  | none ↦ some (s, err (ServiceError.not_found_error Entity.request_entity id))
  | some req ↦
      if is_pending req.status then await_loop id events else some (s, ok (outcome s req false))
]

-- The tables while the call waits.
unfoldable pub await_started : Store → ℕ → Store
await_started s id = set_human_request_live s id true

abbrev requested_again : Store → ℕ → AwaitOutcome → AwaitOutcome
requested_again s id out = elim (get_human_request s id) [
  | none ↦ out
  | some req ↦ record out { request = req }
]

-- `AwaitApproval`, once `AwaitResponse` has ended: what timed out is retired.
unfoldable pub settle_approval :
    RequestEnv → Time → ℕ → Result AwaitOutcome → RequestEnv × Result AwaitOutcome
settle_approval r now id (err x) = (r, err x)
settle_approval r now id (ok out) =
    if not out.timed_out
    then (r, ok out)
    else let r' = (expire r now id).0 in
      elim (expire r now id).1 [
        | err _ ↦ (r', ok out)
        | ok _ ↦ (r', ok (requested_again r'.env.store id out))
      ]
