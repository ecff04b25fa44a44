-- ===== src/Examples/Service.antt =====
-- Tests of the services, and their theorems at concrete inputs.
use burnrate.Prelude.{◌≡◌, refl, true, false, some, List, [], ◌∷◌}
use burnrate.Prelude.Table.{row, newest}
use burnrate.Prelude.Int.{pos}
use burnrate.Prelude.Text.{codes, trim_space, is_space}
use burnrate.Domain.{TaskStatus}
use burnrate.Store.Tasks.{get_task}
use burnrate.Store.Requests.{get_human_request, set_human_request_live}
use burnrate.Store.Runs.{latest_run_for_task}
use burnrate.Service.Base.{ok}
use burnrate.Scheduling.Decide.{contains}
use burnrate.Service.Transitions
use burnrate.Service.Tasks.{resume_task, set_task_status, apply_status}
use burnrate.Service.Requests.{respond}
use burnrate.Service.Requests.Marker.{
  with_result, parse_result_marker, parse_result_marker-with_result,
}
use burnrate.Service.Await.{
  AwaitEvent, await_loop, setting_int, human_request_wait_sec, capture_approval_wait_sec,
}
use burnrate.Service.UserCalls.{UserCall, perform_all}
use burnrate.Service.CancelSteps.{CancelsIn, Keeps}
use burnrate.Service.UserSteps.{perform_all-KeepsOwned}
use burnrate.Service.Attempts.{Fresh, set_task_status-Fresh}
use burnrate.Service.Replies.{answer, respond-await}
use burnrate.Service.Settled.{Answer, give_all, settled-final}
use burnrate.Examples.Data.{question, noon, desk, env, office, office_settled, answered}

abbrev calls : List UserCall
calls =
    UserCall.sets_status [] noon 2 TaskStatus.done
    ∷ UserCall.restarts noon 1
    ∷ UserCall.comments [] noon 1 (codes "go on")
    ∷ UserCall.responds noon 1 (codes "left") []
    ∷ UserCall.cancels_run [] noon 1
    ∷ []

perform_all-KeepsOwned_example :
    Keeps (CancelsIn 2 calls office) office.env.store (perform_all calls office).env.store 2
perform_all-KeepsOwned_example = perform_all-KeepsOwned calls office 2

resume_task_runs : (resume_task env noon 1).1 ≡ ok TaskStatus.resumable
unfolding resume_task get_task row latest_run_for_task newest
resume_task_runs = refl

set_task_status-Fresh_example : Fresh (set_task_status [] env noon 1 TaskStatus.queued).0.store 1
unfolding set_task_status get_task row contains Transitions.validate_status_transition apply_status
set_task_status-Fresh_example =
    set_task_status-Fresh [] env noon 1 TaskStatus.queued TaskStatus.queued refl refl

abbrev late_answers : List Answer
late_answers =
    Answer.responds noon 1 (codes "left") []
    ∷ Answer.denies noon 1
    ∷ Answer.approves noon 2 true
    ∷ Answer.expires noon 1
    ∷ []

settled-final_example :
    get_human_request (give_all late_answers office_settled).env.store 1 ≡ some answered
unfolding get_human_request row
settled-final_example = settled-final late_answers office_settled 1 answered refl refl

parse_result_marker-with_result_example :
    parse_result_marker (with_result (codes "ok ") (codes "ship it")) ≡ trim_space (codes "ok ")
parse_result_marker-with_result_example =
    parse_result_marker-with_result 111 (107 ∷ 32 ∷ []) (codes "ship it") (refl, (refl, (refl, tt)))

default_wait : human_request_wait_sec desk ≡ pos 600
unfolding human_request_wait_sec setting_int
default_wait = refl

configured_wait : capture_approval_wait_sec desk ≡ pos 900
unfolding capture_approval_wait_sec setting_int is_space
configured_wait = refl

respond-await_example :
    await_loop 1
      ((AwaitEvent.tick, (respond office noon 1 (codes "left") (codes "ok")).0.env.store) ∷ [])
    ≡ some (
      set_human_request_live
          (respond office noon 1 (codes "left") (codes "ok")).0.env.store
          1
          false,
      ok (record {
        request = answer question noon 1;
        reply = with_result (codes "ok") (codes "left");
        result = parse_result_marker (with_result (codes "ok") (codes "left"));
        timed_out = false;
      }),
    )
unfolding get_human_request row
respond-await_example =
    respond-await office noon 1 (codes "left") (codes "ok") question AwaitEvent.tick [] refl refl tt
