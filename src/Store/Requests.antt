-- ===== src/Store/Requests.antt =====
-- internal/store/requests.go
use burnrate.Prelude.{ℕ, ◌+◌, Bool, false, ◌&&◌, Option, [], ◌∷◌, ◌++◌, String}
use burnrate.Prelude.Tests.{◌==◌}
use burnrate.Prelude.Lists.{keep, length}
use burnrate.Prelude.Table.{row, modify}
use burnrate.Scheduling.Types.{Time}
use burnrate.Domain.{RequestKind, RequestStatus, HumanRequest, is_pending}
use burnrate.Store.Tables.{Store, request_key}

unfoldable pub get_human_request : Store → ℕ → Option HumanRequest
get_human_request s id = row request_key id s.requests

-- `UPDATE human_requests SET … WHERE id = ?`
unfoldable pub update_request_row : Store → ℕ → (HumanRequest → HumanRequest) → Store
update_request_row s id f = record s { requests = modify (λ r. request_key r == id) f s.requests }

-- `CreateHumanRequest`: the tables, and the new row.
unfoldable pub create_human_request :
    Store → Time → ℕ → ℕ → RequestKind → String → String → Store × HumanRequest
create_human_request s now task_id run_id kind title body =
    let r : HumanRequest = record {
      id = s.last_request + 1;
      task_id = task_id;
      run_id = run_id;
      kind = kind;
      title = title;
      body = body;
      status = RequestStatus.pending;
      live = false;
      created_at = now;
      answered_at = 0;
      response_comment_id = 0;
    } in
    (record s { requests = s.requests ++ r ∷ []; last_request = s.last_request + 1 }, r)

unfoldable pub set_human_request_status : Store → Time → ℕ → RequestStatus → Store
unfolding update_request_row
set_human_request_status s now id status =
    update_request_row s id (λ r. record r { status = status; answered_at = now })

unfoldable pub set_human_request_live : Store → ℕ → Bool → Store
unfolding update_request_row
set_human_request_live s id live = update_request_row s id (λ r. record r { live = live })

-- `ClearHumanRequestLive`: the tables, and how many rows it touched.
unfoldable pub clear_human_request_live : Store → Store × ℕ
clear_human_request_live s = (
  record s { requests = modify (λ r. r.live) (λ r. record r { live = false }) s.requests },
  length (keep (λ (r : HumanRequest). r.live) s.requests),
)

unfoldable pub set_human_request_response : Store → Time → ℕ → ℕ → Store
unfolding update_request_row
set_human_request_response s now id comment_id = update_request_row s id (λ r. record r {
  status = RequestStatus.answered;
  answered_at = now;
  response_comment_id = comment_id;
})

unfoldable pub pending_request_count : Store → ℕ
pending_request_count s = length (keep (λ (r : HumanRequest). is_pending r.status) s.requests)

-- `RequestCountsForRun`: how many requests the run raised, and how many are pending.
unfoldable pub request_counts_for_run : Store → ℕ → ℕ × ℕ
request_counts_for_run s run_id =
    let raised = keep (λ (r : HumanRequest). r.run_id == run_id) s.requests in
    (length raised, length (keep (λ (r : HumanRequest). is_pending r.status) raised))

unfoldable pub cancel_task_requests : Store → ℕ → Store
cancel_task_requests s task_id = record s {
  requests =
      modify (λ r. r.task_id == task_id && is_pending r.status)
        (λ r. record r { status = RequestStatus.canceled }) s.requests;
}
