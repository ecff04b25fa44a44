-- ===== src/Service/UserCalls.antt =====
-- What a user or an agent can ask of the services of tasks, runs, comments and requests, as one step:
-- internal/service/task_service.go, run_service.go, comment_service.go and request_service.go.
-- `RunNow`, which hands a task to the scheduler, is not among these calls, and neither are the waits
-- for an answer.
use burnrate.Prelude.{ℕ, Bool, Option, List, [], ◌∷◌, String}
use burnrate.Prelude.Text.{Text}
use burnrate.Scheduling.Types.{Time}
use burnrate.Domain.{TaskStatus, RequestKind}
use burnrate.Service.Tasks.{
  create_task, update_task, delete_task, reorder_tasks, pause_task, resume_task, complete_task,
  dismiss_task, set_task_status,
}
use burnrate.Service.Runs.{add_comment, cancel_run}
use burnrate.Service.Requests.{
  cancel_task_requests, release_run_grant, RequestEnv, create, respond, approve, deny, expire,
  set_env,
}

-- One call of a service. A leading list is the tasks with a run in this daemon then.
pub data UserCall : Type 0 where
  creates : Time → String → String → String → String → TaskStatus → UserCall
  updates : Time → ℕ → String → String → String → Option String → UserCall
  deletes : List ℕ → ℕ → UserCall
  reorders : Time → List ℕ → UserCall
  pauses restarts : Time → ℕ → UserCall
  completes dismisses : List ℕ → Time → ℕ → UserCall
  sets_status : List ℕ → Time → ℕ → TaskStatus → UserCall
  comments : List ℕ → Time → ℕ → Text → UserCall
  asks : Time → ℕ → ℕ → RequestKind → String → String → UserCall
  responds : Time → ℕ → Text → Text → UserCall
  approves : Time → ℕ → Bool → UserCall
  denies expires : Time → ℕ → UserCall
  cancels_run : List ℕ → Time → ℕ → UserCall
  withdraws releases : ℕ → UserCall

unfoldable pub perform : UserCall → RequestEnv → RequestEnv
perform (UserCall.creates now title prompt path model st) r =
    set_env r (create_task r.env now title prompt path model st).0
perform (UserCall.updates now id title prompt model path) r =
    set_env r (update_task r.env now id title prompt model path).0
perform (UserCall.deletes inflight id) r = set_env r (delete_task inflight r.env id).0
perform (UserCall.reorders now ids) r = set_env r (reorder_tasks r.env now ids).0
perform (UserCall.pauses now id) r = set_env r (pause_task r.env now id).0
perform (UserCall.restarts now id) r = set_env r (resume_task r.env now id).0
perform (UserCall.completes inflight now id) r = set_env r (complete_task inflight r.env now id).0
perform (UserCall.dismisses inflight now id) r = set_env r (dismiss_task inflight r.env now id).0
perform (UserCall.sets_status inflight now id st) r =
    set_env r (set_task_status inflight r.env now id st).0
perform (UserCall.comments inflight now id body) r =
    set_env r (add_comment inflight r.env now id body).0
perform (UserCall.asks now id run_id kind title body) r = (create r now id run_id kind title body).0
perform (UserCall.responds now id body result) r = (respond r now id body result).0
perform (UserCall.approves now id for_run) r = (approve r now id for_run).0
perform (UserCall.denies now id) r = (deny r now id).0
perform (UserCall.expires now id) r = (expire r now id).0
perform (UserCall.cancels_run inflight now run_id) r =
    set_env r (cancel_run inflight r.env now run_id).0
perform (UserCall.withdraws task_id) r = cancel_task_requests r task_id
perform (UserCall.releases run_id) r = release_run_grant r run_id

unfoldable pub perform_all : List UserCall → RequestEnv → RequestEnv
perform_all [] r = r
perform_all (c ∷ cs) r = perform_all cs (perform c r)
