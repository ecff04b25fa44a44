-- ===== src/Service/UserSteps.antt =====
-- The statuses that belong to the scheduler and the runner, under any sequence of calls.
use burnrate.Prelude.{ℕ, ◌≡◌, refl, ◌∙◌, inl, inr, Bool, false, some, List, [], ◌∷◌, String, arith}
use burnrate.Prelude.Tests.{Option-cases}
use burnrate.Prelude.Text.{Text}
use burnrate.Scheduling.Types.{Time}
use burnrate.Domain.{TaskStatus, Task, HumanRequest, Comment, Author, RequestKind, is_running}
use burnrate.Store.Tables.{Store}
use burnrate.Store.Tasks.{get_task}
use burnrate.Store.Comments
use burnrate.Store.Requests
use burnrate.Store.Laws.{owned}
use burnrate.Service.Base.{Env, Result, ok, err}
use burnrate.Service.Tasks.{complete_task, dismiss_task, in_store}
use burnrate.Service.Runs.{add_comment, requeue}
use burnrate.Service.Requests.{
  cancel_task_requests, release_run_grant, RequestEnv, create, respond, respond_to, approve, deny,
  expire, unpark, replied, pending_request,
}
use burnrate.Service.Requests.Marker.{with_result}
use burnrate.Service.Ownership.{
  KeepsOwned, owned-requeue, owned-not_running, pause-KeepsOwned, resume-KeepsOwned,
  set_status-KeepsOwned, retire-KeepsOwned, delete-KeepsOwned, owned-create as owned-create_task,
  owned-update, owned-reorder,
}
use burnrate.Service.UserCalls.{UserCall, perform, perform_all}
use burnrate.Service.CancelSteps.{
  Cancels, CancelsIn, Keeps, Keeps-uncancelled, Keeps-after, cancel_run-Keeps,
}

owned-add_comment :
    (s : Store) (now : Time) (id : ℕ) (body : Text) (j : ℕ)
    → owned (Comments.add_comment s now id body Author.user).0 j ≡ owned s j
unfolding owned get_task Comments.add_comment
owned-add_comment s now id body j = refl

requeue-KeepsOwned :
    (e : Env) (now : Time) (id j : ℕ) (task : Task)
    → get_task e.store id ≡ some task
    → is_running task.status ≡ false
    → KeepsOwned e.store (requeue e now id task.status).0.store j
unfolding requeue
requeue-KeepsOwned e now id j task p r = ground (
  arith,
  owned-requeue e.store now id j TaskStatus.queued,
  owned-requeue e.store now id j TaskStatus.resumable,
  owned-not_running e.store id j task p r,
)

get_task-add_comment :
    (s : Store) (now : Time) (id : ℕ) (body : Text) (j : ℕ)
    → get_task (Comments.add_comment s now id body Author.user).0 j ≡ get_task s j
unfolding get_task Comments.add_comment
get_task-add_comment s now id body j = refl

comment-KeepsOwned :
    (e : Env) (now : Time) (id j : ℕ) (inflight : List ℕ) (body : Text)
    → KeepsOwned e.store (add_comment inflight e now id body).0.store j
unfolding add_comment
comment-KeepsOwned e now id j inflight body =
    let s = (Comments.add_comment e.store now id body Author.user).0 in
    elim (Option-cases (get_task e.store id)) [
      | inl p ↦ ground arith
      | inr (task, p) ↦ ground (
        arith,
        owned-add_comment e.store now id body j,
        requeue-KeepsOwned (in_store e s) now id j task,
        get_task-add_comment e.store now id body id,
      )
    ]

unpark-KeepsOwned : (s : Store) (now : Time) (id j : ℕ) → KeepsOwned s (unpark s now id) j
unpark-KeepsOwned s now id j = elim (Option-cases (get_task s id)) [
  | inl p ↦ ground arith
  | inr (task, p) ↦ ground (
    arith,
    owned-requeue s now id j TaskStatus.queued,
    owned-requeue s now id j TaskStatus.resumable,
    owned-not_running s id j task p,
  )
]

owned-replied :
    (s : Store) (now : Time) (req : HumanRequest) (c : Comment) (j : ℕ)
    → owned (replied s now req c) j ≡ owned s j
unfolding owned get_task replied Requests.set_human_request_response Comments.mark_comment_consumed
owned-replied s now req c j = ground arith

KeepsOwned-after :
    (s t u : Store) (j : ℕ) → owned t j ≡ owned s j → KeepsOwned t u j → KeepsOwned s u j
KeepsOwned-after s t u j e k = ground arith

respond_to-KeepsOwned :
    (r : RequestEnv) (now : Time) (body result : Text) (m : Result HumanRequest) (j : ℕ)
    → KeepsOwned r.env.store (respond_to r now body result m).0.env.store j
respond_to-KeepsOwned r now body result (err x) j = inl refl
respond_to-KeepsOwned r now body result (ok req) j =
    let written =
      Comments.add_comment r.env.store now req.task_id (with_result result body) Author.user in
    KeepsOwned-after r.env.store (replied written.0 now req written.1) _ j
      (owned-replied written.0 now req written.1 j
        ∙ owned-add_comment r.env.store now req.task_id (with_result result body) j)
      (unpark-KeepsOwned (replied written.0 now req written.1) now req.task_id j)

respond-KeepsOwned :
    (r : RequestEnv) (now : Time) (id j : ℕ) (body result : Text)
    → KeepsOwned r.env.store (respond r now id body result).0.env.store j
unfolding respond
respond-KeepsOwned r now id j body result =
    respond_to-KeepsOwned r now body result (pending_request r id) j

module _ (r : RequestEnv) (now : Time) (id j : ℕ) where
  owned-create :
      (run_id : ℕ) (kind : RequestKind) (title body : String)
      → owned (create r now id run_id kind title body).0.env.store j ≡ owned r.env.store j
  unfolding create owned get_task Requests.create_human_request Requests.set_human_request_status
  owned-create run_id kind title body = ground arith

  owned-approve :
      (for_run : Bool) → owned (approve r now id for_run).0.env.store j ≡ owned r.env.store j
  unfolding approve owned get_task Requests.set_human_request_status
  owned-approve for_run = ground arith

  owned-deny : owned (deny r now id).0.env.store j ≡ owned r.env.store j
  unfolding deny owned get_task Requests.set_human_request_status
  owned-deny = ground arith

  owned-expire : owned (expire r now id).0.env.store j ≡ owned r.env.store j
  unfolding expire owned get_task Requests.set_human_request_status
  owned-expire = ground arith

-- One call leaves a task the runner-owned status it had, or takes one that is not `running`.
owned-withdrawn :
    (r : RequestEnv) (task_id j : ℕ)
    → owned (cancel_task_requests r task_id).env.store j ≡ owned r.env.store j
unfolding owned cancel_task_requests get_task Requests.cancel_task_requests
owned-withdrawn r task_id j = refl

owned-released :
    (r : RequestEnv) (run_id j : ℕ)
    → owned (release_run_grant r run_id).env.store j ≡ owned r.env.store j
unfolding release_run_grant
owned-released r run_id j = refl

perform-KeepsOwned :
    (c : UserCall) (r : RequestEnv) (j : ℕ)
    → Keeps (Cancels j c r) r.env.store (perform c r).env.store j
unfolding perform complete_task dismiss_task
perform-KeepsOwned (UserCall.creates now title prompt path model st) r j =
    Keeps-uncancelled _ _ _ j (inl (owned-create_task r.env now 0 j title prompt path model st))
perform-KeepsOwned (UserCall.updates now id title prompt model path) r j =
    Keeps-uncancelled _ _ _ j (inl (owned-update r.env now id j title prompt model path))
perform-KeepsOwned (UserCall.deletes inflight id) r j =
    Keeps-uncancelled _ _ _ j (delete-KeepsOwned r.env 0 id j inflight)
perform-KeepsOwned (UserCall.reorders now ids) r j =
    Keeps-uncancelled _ _ _ j (inl (owned-reorder r.env now 0 j ids))
perform-KeepsOwned (UserCall.pauses now id) r j =
    Keeps-uncancelled _ _ _ j (pause-KeepsOwned r.env now id j)
perform-KeepsOwned (UserCall.restarts now id) r j =
    Keeps-uncancelled _ _ _ j (resume-KeepsOwned r.env now id j)
perform-KeepsOwned (UserCall.completes inflight now id) r j =
    Keeps-uncancelled _ _ _ j (retire-KeepsOwned r.env now id j inflight TaskStatus.done refl)
perform-KeepsOwned (UserCall.dismisses inflight now id) r j =
    Keeps-uncancelled _ _ _ j (retire-KeepsOwned r.env now id j inflight TaskStatus.dismissed refl)
perform-KeepsOwned (UserCall.sets_status inflight now id st) r j =
    Keeps-uncancelled _ _ _ j (set_status-KeepsOwned r.env now id j inflight st)
perform-KeepsOwned (UserCall.comments inflight now id body) r j =
    Keeps-uncancelled _ _ _ j (comment-KeepsOwned r.env now id j inflight body)
perform-KeepsOwned (UserCall.asks now id run_id kind title body) r j =
    Keeps-uncancelled _ _ _ j (inl (owned-create r now id j run_id kind title body))
perform-KeepsOwned (UserCall.responds now id body result) r j =
    Keeps-uncancelled _ _ _ j (respond-KeepsOwned r now id j body result)
perform-KeepsOwned (UserCall.approves now id for_run) r j =
    Keeps-uncancelled _ _ _ j (inl (owned-approve r now id j for_run))
perform-KeepsOwned (UserCall.denies now id) r j =
    Keeps-uncancelled _ _ _ j (inl (owned-deny r now id j))
perform-KeepsOwned (UserCall.expires now id) r j =
    Keeps-uncancelled _ _ _ j (inl (owned-expire r now id j))
perform-KeepsOwned (UserCall.cancels_run inflight now run_id) r j =
    cancel_run-Keeps inflight r now run_id j
perform-KeepsOwned (UserCall.withdraws task_id) r j =
    Keeps-uncancelled _ _ _ j (inl (owned-withdrawn r task_id j))
perform-KeepsOwned (UserCall.releases run_id) r j =
    Keeps-uncancelled _ _ _ j (inl (owned-released r run_id j))

-- No sequence of calls of the services for tasks, runs, comments and requests puts a task in `running`,
-- `pr_created` or `awaiting_human`: afterwards each task has the runner-owned status that it had, or
-- none. A task that is running stays so, unless one of the calls cancels an active run of it for which
-- the daemon has no process. The run-now of the scheduler is not one of these calls, nor is a wait for
-- an answer.
pub perform_all-KeepsOwned :
    (cs : List UserCall) (r : RequestEnv) (j : ℕ)
    → Keeps (CancelsIn j cs r) r.env.store (perform_all cs r).env.store j
unfolding perform_all
perform_all-KeepsOwned [] r j = inl refl
perform_all-KeepsOwned (c ∷ cs) r j =
    Keeps-after (Cancels j c r) _ _ _ _ j (perform-KeepsOwned c r j)
      (perform_all-KeepsOwned cs (perform c r) j)
