-- ===== src/Service/Replies.antt =====
-- The way of a reply from the human to the agent that waits for it.
use burnrate.Prelude.{
  ℕ, ◌+◌, ◌≡◌, refl, ap, ◌∙◌, true, false, Option, none, some, List, [], ◌∷◌, ◌++◌, arith,
}
use burnrate.Prelude.Tests.{◌==◌, if◌then◌else◌, either}
use burnrate.Prelude.Lists.{All}
use burnrate.Prelude.Table.{row, modify, on_some, row-modify}
use burnrate.Prelude.Text.{Text}
use burnrate.Scheduling.Types.{Time}
use burnrate.Domain.{HumanRequest, RequestStatus, Comment, Consumer, Author, is_pending}
use burnrate.Store.Tables.{Store, request_key, comment_key}
use burnrate.Store.Tasks
use burnrate.Store.Comments
use burnrate.Store.Comments.{get_comment}
use burnrate.Store.Requests
use burnrate.Store.Requests.{get_human_request}
use burnrate.Service.Base.{Result, ok}
use burnrate.Service.Requests.{RequestEnv, respond, respond_to, replied, unpark, pending_request}
use burnrate.Service.Requests.Marker.{with_result, parse_result_marker}
use burnrate.Service.Await.{AwaitEvent, AwaitOutcome, on_event, await_loop, outcome, with_reply}

pub row-key :
    (id : ℕ) (rs : List HumanRequest) (q : HumanRequest)
    → row request_key id rs ≡ some q
    → q.id ≡ id
unfolding row
row-key id [] q h = cc
row-key id (r ∷ rs) q h = ground (arith, row-key id rs q)

row-last :
    (id : ℕ) (cs : List Comment) (c : Comment)
    → All (λ (d : Comment). (d.id == id) ≡ false) cs
    → c.id ≡ id
    → row comment_key id (cs ++ c ∷ []) ≡ some c
unfolding row
row-last id [] c h e = ground (arith, e)
row-last id (d ∷ ds) c (h, hs) e = rw h (row-last id ds c hs e)

pub requests-unpark : (s : Store) (now : Time) (id : ℕ) → (unpark s now id).requests ≡ s.requests
unfolding Tasks.reset_task_attempts Tasks.set_task_status Tasks.update_task_row
requests-unpark s now id = ground arith

comments-unpark : (s : Store) (now : Time) (id : ℕ) → (unpark s now id).comments ≡ s.comments
unfolding Tasks.reset_task_attempts Tasks.set_task_status Tasks.update_task_row
comments-unpark s now id = ground arith

abbrev pub answer : HumanRequest → Time → ℕ → HumanRequest
answer q now comment_id = record q {
  status = RequestStatus.answered;
  answered_at = now;
  response_comment_id = comment_id;
}

abbrev body_of : Option Comment → Option Text
body_of none = none
body_of (some c) = some c.body

abbrev delivered : ℕ → Comment → Comment
delivered run_id d = record d {
  consumed_by_run = if run_id == 0 then Consumer.by_no_run else Consumer.by_run run_id;
}

body_of-delivered :
    (run_id : ℕ) (o : Option Comment) → body_of (on_some (delivered run_id) o) ≡ body_of o
body_of-delivered run_id none = refl
body_of-delivered run_id (some d) = refl

module _ (s : Store) (now : Time) (q : HumanRequest) (c : Comment) where
  pub requests-replied :
      (replied s now q c).requests
      ≡ modify (λ r. request_key r == q.id) (λ r. answer r now c.id) s.requests
  unfolding replied Requests.set_human_request_response Requests.update_request_row
      Comments.mark_comment_consumed
  requests-replied = ground arith

  request-replied :
      (id : ℕ)
      → get_human_request s id ≡ some q
      → get_human_request (unpark (replied s now q c) now q.task_id) id ≡ some (answer q now c.id)
  unfolding get_human_request
  request-replied id p =
      ap (row request_key id) (requests-unpark (replied s now q c) now q.task_id ∙ requests-replied)
      ∙ row-modify request_key q.id id (λ r. answer r now c.id) s.requests (λ r. refl)
      ∙ rw p (ground (arith, row-key id s.requests q p))

  comments-replied : (replied s now q c).comments ≡ (
      if q.live
      then modify (λ d. comment_key d == c.id) (λ d. delivered q.run_id d) s.comments
      else s.comments)
  unfolding replied Requests.set_human_request_response Requests.update_request_row
      Comments.mark_comment_consumed
  comments-replied = ground arith

  body-replied :
      body_of (get_comment (unpark (replied s now q c) now q.task_id) c.id)
      ≡ body_of (get_comment s c.id)
  unfolding get_comment
  body-replied =
      ap (λ cs. body_of (row comment_key c.id cs))
        (comments-unpark (replied s now q c) now q.task_id ∙ comments-replied)
      ∙ either (λ cs. body_of (row comment_key c.id cs) ≡ body_of (row comment_key c.id s.comments))
          q.live (modify (λ d. comment_key d == c.id) (λ d. delivered q.run_id d) s.comments)
          s.comments
          (ap body_of
              (row-modify comment_key c.id c.id (λ d. delivered q.run_id d) s.comments (λ d. refl))
            ∙ ground (arith, body_of-delivered q.run_id (row comment_key c.id s.comments)))
          refl

abbrev reply_of : HumanRequest → Option Text → AwaitOutcome
reply_of q none = record { request = q; reply = []; result = []; timed_out = false }
reply_of q (some b) = record {
  request = q;
  reply = b;
  result = parse_result_marker b;
  timed_out = false;
}

with_reply-body :
    (q : HumanRequest) (o : Option Comment) (b : Text)
    → body_of o ≡ some b
    → with_reply q false o
      ≡ record { request = q; reply = b; result = parse_result_marker b; timed_out = false }
with_reply-body q none b h = cc
with_reply-body q (some c) b h = ap (λ (t : Option Text). reply_of q t) h

on_event-settled :
    (id : ℕ) (ev : AwaitEvent) (s : Store) (a : HumanRequest)
    → get_human_request s id ≡ some a
    → is_pending a.status ≡ false
    → on_event id ev s ≡ some (Requests.set_human_request_live s id false, ok (outcome s a false))
on_event-settled id AwaitEvent.ctx_done s a g k = rw (g, on_event) (rw k refl)
on_event-settled id AwaitEvent.deadline s a g k = rw (g, on_event) (rw k refl)
on_event-settled id AwaitEvent.tick s a g k = rw (g, on_event) (rw k refl)

event-settled :
    (id : ℕ) (ev : AwaitEvent) (s : Store) (later : List (AwaitEvent × Store)) (a : HumanRequest)
    → get_human_request s id ≡ some a
    → is_pending a.status ≡ false
    → await_loop id ((ev, s) ∷ later)
      ≡ some (Requests.set_human_request_live s id false, ok (outcome s a false))
unfolding await_loop
event-settled id ev s later a g k = rw (on_event-settled id ev s a g k, await_loop) refl

next_not_none : (n : ℕ) → ((n + 1) == 0) ≡ false
next_not_none n = ground arith

outcome-answer :
    (s : Store) (q : HumanRequest) (now : Time) (n : ℕ) (b : Text)
    → body_of (get_comment s (n + 1)) ≡ some b
    → outcome s (answer q now (n + 1)) false ≡ record {
      request = answer q now (n + 1);
      reply = b;
      result = parse_result_marker b;
      timed_out = false;
    }
unfolding outcome
outcome-answer s q now n b h =
    rw (next_not_none n, outcome)
      (with_reply-body (answer q now (n + 1)) (get_comment s (n + 1)) b h)

pending-ok :
    (r : RequestEnv) (id : ℕ) (q : HumanRequest)
    → get_human_request r.env.store id ≡ some q
    → is_pending q.status ≡ true
    → pending_request r id ≡ ok q
pending-ok r id q p k = rw (p, pending_request) (rw k refl)

-- The tables that a reply leaves.
respond-store :
    (r : RequestEnv) (now : Time) (id : ℕ) (body result : Text) (q : HumanRequest)
    → get_human_request r.env.store id ≡ some q
    → is_pending q.status ≡ true
    → (respond r now id body result).0.env.store ≡ (respond_to r now body result (ok q)).0.env.store
unfolding respond
respond-store r now id body result q p k =
    ap (λ (m : Result HumanRequest). (respond_to r now body result m).0.env.store)
      (pending-ok r id q p k)

-- What a waiting call finds at its next event, once a reply to its pending request has been written:
-- the wait ends, with the reply, the verdict read back from it, and no time-out. (No comment has
-- the next id yet.)
pub respond-await :
    (r : RequestEnv) (now : Time) (id : ℕ) (body result : Text) (q : HumanRequest) (ev : AwaitEvent)
    (later : List (AwaitEvent × Store))
    → get_human_request r.env.store id ≡ some q
    → is_pending q.status ≡ true
    → All (λ (c : Comment). (c.id == (r.env.store.last_comment + 1)) ≡ false) r.env.store.comments
    → await_loop id ((ev, (respond r now id body result).0.env.store) ∷ later)
      ≡ some (
        Requests.set_human_request_live (respond r now id body result).0.env.store id false,
        ok (record {
          request = answer q now (r.env.store.last_comment + 1);
          reply = with_result result body;
          result = parse_result_marker (with_result result body);
          timed_out = false;
        }),
      )
unfolding Comments.add_comment get_human_request get_comment
respond-await r now id body result q ev later p k h =
    let s = r.env.store in
    let written = Comments.add_comment s now q.task_id (with_result result body) Author.user in
    let s' = unpark (replied written.0 now q written.1) now q.task_id in
    let a = answer q now (s.last_comment + 1) in
    rw (respond-store r now id body result q p k) (
      event-settled id ev s' later a (request-replied written.0 now q written.1 id p) refl
      ∙ ap (λ out. some (Requests.set_human_request_live s' id false, ok out))
          (outcome-answer s' q now s.last_comment (with_result result body) (
            body-replied written.0 now q written.1
            ∙ ap body_of (row-last (s.last_comment + 1) s.comments written.1 h refl))))
