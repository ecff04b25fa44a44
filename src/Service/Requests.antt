-- ===== src/Service/Requests.antt =====
-- internal/service/request_service.go: the questions that agents ask a human. The state is the
-- tables with what was asked of the rest of the program, and the standing grants of this process.
pub mod Marker
use Marker.{with_result}
use burnrate.Prelude.{
  ℕ, ◌&&◌, not, Bool, true, false, Option, none, some, List, [], ◌∷◌, ◌++◌, String,
}
use burnrate.Prelude.Tests.{◌==◌, if◌then◌else◌}
use burnrate.Prelude.Lists.{keep}
use burnrate.Prelude.Text.{Text, is_set}
use burnrate.Scheduling.Types.{Time}
use burnrate.Scheduling.Decide.{contains}
use burnrate.Domain.{
  TaskStatus, RequestKind, RequestStatus, HumanRequest, Comment, Author, is_pending,
  is_awaiting_human,
}
use burnrate.Store.Tables.{Store}
use burnrate.Store.Tasks
use burnrate.Store.Tasks.{get_task, reset_task_attempts}
use burnrate.Store.Runs.{latest_run_for_task}
use burnrate.Store.Comments
use burnrate.Store.Requests
use burnrate.Store.Requests.{get_human_request}
use burnrate.Service.Base.{
  Field, Entity, Conflict, ServiceError, Result, ok, err, Effect, requests_changed,
  notify_capture_approval, notify_request_created, Env, emit,
}
use burnrate.Service.Tasks.{in_store, has_session}

pub record RequestEnv : Type 0 where
  pub env : Env
  pub run_grants : List ℕ

abbrev pub set_env : RequestEnv → Env → RequestEnv
set_env r e = record r { env = e }

-- The new tables, and the broadcast.
abbrev changed : RequestEnv → Store → RequestEnv
changed r s = set_env r (emit (in_store r.env s) (requests_changed ∷ []))

unfoldable pub has_run_grant : RequestEnv → ℕ → Bool
has_run_grant r run_id = if run_id == 0 then false else contains r.run_grants run_id

unfoldable pub grant_run : RequestEnv → ℕ → RequestEnv
grant_run r run_id = record r { run_grants = run_id ∷ r.run_grants }

unfoldable pub release_run_grant : RequestEnv → ℕ → RequestEnv
release_run_grant r run_id = record r { run_grants = keep (λ id. not (id == run_id)) r.run_grants }

abbrev is_known_kind : RequestKind → Bool
is_known_kind (RequestKind.unnamed_kind k) = false
is_known_kind _ = true

abbrev pub is_capture_approval : RequestKind → Bool
is_capture_approval RequestKind.capture_approval = true
is_capture_approval _ = false

-- `Create`: a capture approval that a grant of the run covers is answered at once, with no
-- broadcast and no notification.
unfoldable pub create :
    RequestEnv → Time → ℕ → ℕ → RequestKind → String → String → RequestEnv × Result HumanRequest
unfolding has_run_grant
create r now task_id run_id kind title body =
    if not (is_known_kind kind)
    then (r, err (ServiceError.validation_error Field.kind_field))
    else elim (get_task r.env.store task_id) [
      | none ↦ (r, err (ServiceError.not_found_error Entity.task_entity task_id))
      | some _ ↦
          let (s, req) =
            Requests.create_human_request r.env.store now task_id run_id kind title body in
          if is_capture_approval kind && has_run_grant r run_id
          then (
            set_env r (
                in_store r.env
                  (Requests.set_human_request_status s now req.id RequestStatus.answered)),
            ok (record req { status = RequestStatus.answered }),
          )
          else (
            set_env r (
                emit (in_store r.env s) (
                  requests_changed
                  ∷ (if is_capture_approval kind
                      then notify_capture_approval task_id req.id title
                      else notify_request_created task_id req.id title)
                  ∷ [])),
            ok req,
          )
    ]

-- The guard of `Respond`, `Approve` and `Deny`: the request, if it is pending.
abbrev pub pending_request : RequestEnv → ℕ → Result HumanRequest
pending_request r id = elim (get_human_request r.env.store id) [
  | none ↦ err (ServiceError.not_found_error Entity.request_entity id)
  | some req ↦
      if is_pending req.status
      then ok req
      else err (ServiceError.conflict_error Conflict.not_pending)
]

-- What a reply does to the task of a request: one that is parked goes back to the queue.
abbrev pub unpark : Store → Time → ℕ → Store
unpark s now task_id = elim (get_task s task_id) [
  | none ↦ s
  | some task ↦
      if is_awaiting_human task.status
      then (reset_task_attempts
          (Tasks.set_task_status s now task_id (
            if has_session (latest_run_for_task s task_id)
            then TaskStatus.resumable
            else TaskStatus.queued))
          task_id).0
      else s
]

-- What `Respond` writes of a request and its reply: a live request's reply is handed over by the
-- poll, so its comment counts as consumed.
unfoldable pub replied : Store → Time → HumanRequest → Comment → Store
replied s now req comment =
    let s' = Requests.set_human_request_response s now req.id comment.id in
    if req.live then Comments.mark_comment_consumed s' comment.id req.run_id else s'

-- `Respond`, once its guard has looked the request up.
abbrev pub respond_to :
    RequestEnv → Time → Text → Text → Result HumanRequest → RequestEnv × Result Comment
respond_to r now body result (err x) = (r, err x)
respond_to r now body result (ok req) =
    let (s1, comment) =
      Comments.add_comment r.env.store now req.task_id (with_result result body) Author.user in
    (changed r (unpark (replied s1 now req comment) now req.task_id), ok comment)

unfoldable pub respond : RequestEnv → Time → ℕ → Text → Text → RequestEnv × Result Comment
respond r now id body result = respond_to r now body result (pending_request r id)

-- `Approve`: `for_run` is the scope "run".
unfoldable pub approve : RequestEnv → Time → ℕ → Bool → RequestEnv × Result (Unit {0})
unfolding grant_run
approve r now id for_run = elim (pending_request r id) [
  | err x ↦ (r, err x)
  | ok req ↦
      let r' = if for_run && not (req.run_id == 0) then grant_run r req.run_id else r in
      (
        changed r' (Requests.set_human_request_status r'.env.store now id RequestStatus.answered),
        ok tt,
      )
]

unfoldable pub deny : RequestEnv → Time → ℕ → RequestEnv × Result (Unit {0})
deny r now id = elim (pending_request r id) [
  | err x ↦ (r, err x)
  | ok req ↦
      (changed r (Requests.set_human_request_status r.env.store now id RequestStatus.denied), ok tt)
]

-- `Expire`: of a request that is settled already it is no error.
unfoldable pub expire : RequestEnv → Time → ℕ → RequestEnv × Result (Unit {0})
expire r now id = elim (get_human_request r.env.store id) [
  | none ↦ (r, err (ServiceError.not_found_error Entity.request_entity id))
  | some req ↦
      if is_pending req.status
      then (
        changed r (Requests.set_human_request_status r.env.store now id RequestStatus.expired),
        ok tt,
      )
      else (r, ok tt)
]

unfoldable pub cancel_task_requests : RequestEnv → ℕ → RequestEnv
cancel_task_requests r task_id = changed r (Requests.cancel_task_requests r.env.store task_id)
