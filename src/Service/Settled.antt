-- ===== src/Service/Settled.antt =====
-- A request is settled once.
use burnrate.Prelude.{
  ℕ, ◌≡◌, refl, ap, ◌∙◌, inl, inr, Bool, true, false, some, List, [], ◌∷◌, arith,
}
use burnrate.Prelude.Tests.{◌==◌, ==_iff, Bool-cases}
use burnrate.Prelude.Table.{row, row-modify}
use burnrate.Prelude.Text.{Text}
use burnrate.Scheduling.Types.{Time}
use burnrate.Domain.{HumanRequest, RequestStatus, Comment, Author, is_pending}
use burnrate.Store.Tables.{Store, request_key}
use burnrate.Store.Comments
use burnrate.Store.Requests
use burnrate.Store.Requests.{get_human_request, set_human_request_status}
use burnrate.Service.Base.{Result, ok, err, ServiceError, Conflict}
use burnrate.Service.Requests.{
  RequestEnv, respond, approve, deny, expire, pending_request, replied, unpark, respond_to,
}
use burnrate.Service.Requests.Marker.{with_result}
use burnrate.Service.Replies.{requests-replied, requests-unpark, row-key, answer}

-- One of the calls that settle a request, at a time, for a request: a reply with its result, an
-- approval, a denial, or the end of the wait for it.
pub data Answer : Type 0 where
  responds : Time → ℕ → Text → Text → Answer
  approves : Time → ℕ → Bool → Answer
  denies expires : Time → ℕ → Answer

unfoldable pub give : Answer → RequestEnv → RequestEnv
give (Answer.responds now i body result) r = (respond r now i body result).0
give (Answer.approves now i for_run) r = (approve r now i for_run).0
give (Answer.denies now i) r = (deny r now i).0
give (Answer.expires now i) r = (expire r now i).0

unfoldable pub give_all : List Answer → RequestEnv → RequestEnv
give_all [] r = r
give_all (a ∷ as') r = give_all as' (give a r)

set_status-other :
    (s : Store) (now : Time) (i id : ℕ) (st : RequestStatus)
    → (i == id) ≡ false
    → get_human_request (set_human_request_status s now i st) id ≡ get_human_request s id
unfolding get_human_request set_human_request_status Requests.update_request_row
set_status-other s now i id st other =
    row-modify request_key i id (λ (r : HumanRequest). record r { status = st; answered_at = now })
      s.requests (λ r. refl)
    ∙ rw other refl

reply-other :
    (s : Store) (now : Time) (i id : ℕ) (req : HumanRequest) (c : Comment)
    → get_human_request s i ≡ some req
    → (i == id) ≡ false
    → get_human_request (unpark (replied s now req c) now req.task_id) id ≡ get_human_request s id
unfolding get_human_request
reply-other s now i id req c p other =
    let its = row-key i s.requests req p in
    ap (row request_key id)
      (requests-unpark (replied s now req c) now req.task_id ∙ requests-replied s now req c)
    ∙ row-modify request_key req.id id (λ r. answer r now c.id) s.requests (λ r. refl)
    ∙ rw (ap (λ (n : ℕ). n == id) its ∙ other) refl

module _ (r : RequestEnv) (id : ℕ) (q : HumanRequest) where
  module _ (p : get_human_request r.env.store id ≡ some q) (n : is_pending q.status ≡ false) where
    refused :
        (i : ℕ)
        → (i == id) ≡ true
        → pending_request r i ≡ err (ServiceError.conflict_error Conflict.not_pending)
    refused i same =
        rw (ap (get_human_request r.env.store) ((==_iff i id).0 same) ∙ p, pending_request)
          (rw n refl)

    pending-found :
        (i : ℕ) (req : HumanRequest)
        → pending_request r i ≡ ok req
        → get_human_request r.env.store i ≡ some req
    pending-found i req h = ground (arith, h)

    respond_to-kept :
        (now : Time) (i : ℕ) (body result : Text) (m : Result HumanRequest)
        → ((req : HumanRequest) → m ≡ ok req → get_human_request r.env.store i ≡ some req)
        → (i == id) ≡ false
        → get_human_request (respond_to r now body result m).0.env.store id ≡ some q
    unfolding get_human_request Comments.add_comment
    respond_to-kept now i body result (err x) found other = p
    respond_to-kept now i body result (ok req) found other =
        let written =
          Comments.add_comment r.env.store now req.task_id (with_result result body) Author.user in
        reply-other written.0 now i id req written.1 (found req refl) other ∙ p

    respond-kept :
        (now : Time) (i : ℕ) (body result : Text)
        → get_human_request (respond r now i body result).0.env.store id ≡ some q
    unfolding respond
    respond-kept now i body result = elim (Bool-cases (i == id)) [
      | inl same ↦ rw (refused i same) p
      | inr other ↦ respond_to-kept now i body result (pending_request r i) (pending-found i) other
    ]

    approve-kept :
        (now : Time) (i : ℕ) (for_run : Bool)
        → get_human_request (approve r now i for_run).0.env.store id ≡ some q
    unfolding approve
    approve-kept now i for_run = elim (Bool-cases (i == id)) [
      | inl same ↦ rw (approve, refused i same) p
      | inr other ↦
          ground (arith, p, set_status-other r.env.store now i id RequestStatus.answered other)
    ]

    deny-kept : (now : Time) (i : ℕ) → get_human_request (deny r now i).0.env.store id ≡ some q
    unfolding deny
    deny-kept now i = elim (Bool-cases (i == id)) [
      | inl same ↦ rw (deny, refused i same) p
      | inr other ↦
          ground (arith, p, set_status-other r.env.store now i id RequestStatus.denied other)
    ]

    expire-kept : (now : Time) (i : ℕ) → get_human_request (expire r now i).0.env.store id ≡ some q
    unfolding expire
    expire-kept now i = elim (Bool-cases (i == id)) [
      | inl same ↦
          rw (expire, ap (get_human_request r.env.store) ((==_iff i id).0 same) ∙ p) (rw n p)
      | inr other ↦
          ground (arith, p, set_status-other r.env.store now i id RequestStatus.expired other)
    ]

    give-kept : (a : Answer) → get_human_request (give a r).env.store id ≡ some q
    unfolding give
    give-kept (Answer.responds now i body result) = respond-kept now i body result
    give-kept (Answer.approves now i for_run) = approve-kept now i for_run
    give-kept (Answer.denies now i) = deny-kept now i
    give-kept (Answer.expires now i) = expire-kept now i

-- A request that is no longer pending is final: whatever replies, approvals, denials and expiries
-- follow, of this request and of others, its row stays as it is.
pub settled-final :
    (as' : List Answer) (r : RequestEnv) (id : ℕ) (q : HumanRequest)
    → get_human_request r.env.store id ≡ some q
    → is_pending q.status ≡ false
    → get_human_request (give_all as' r).env.store id ≡ some q
unfolding give_all
settled-final [] r id q p n = p
settled-final (a ∷ as') r id q p n = settled-final as' (give a r) id q (give-kept r id q p n a) n
