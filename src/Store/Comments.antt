-- ===== src/Store/Comments.antt =====
-- internal/store/comments.go
use burnrate.Prelude.{ℕ, ◌+◌, ◌&&◌, Option, List, [], ◌∷◌, ◌++◌}
use burnrate.Prelude.Tests.{◌==◌, if◌then◌else◌}
use burnrate.Prelude.Lists.{keep}
use burnrate.Prelude.Table.{row, modify, sort_by}
use burnrate.Prelude.Text.{Text}
use burnrate.Scheduling.Types.{Time}
use burnrate.Domain.{Author, Comment, Consumer, is_unconsumed}
use burnrate.Store.Tables.{Store, comment_key}

unfoldable pub get_comment : Store → ℕ → Option Comment
get_comment s id = row comment_key id s.comments

-- `AddComment`: the tables, and the new row.
unfoldable pub add_comment : Store → Time → ℕ → Text → Author → Store × Comment
add_comment s now task_id body author =
    let c : Comment = record {
      id = s.last_comment + 1;
      task_id = task_id;
      author = author;
      body = body;
      created_at = now;
      consumed_by_run = Consumer.unconsumed;
    } in
    (record s { comments = s.comments ++ c ∷ []; last_comment = s.last_comment + 1 }, c)

unfoldable pub comments_for_task : Store → ℕ → List Comment
comments_for_task s task_id =
    sort_by (λ c. c.created_at) (keep (λ c. c.task_id == task_id) s.comments)

unfoldable pub unconsumed_comments : Store → ℕ → List Comment
unconsumed_comments s task_id =
    sort_by (λ c. c.created_at)
      (keep (λ c. c.task_id == task_id && is_unconsumed c.consumed_by_run) s.comments)

abbrev consumer : ℕ → Consumer
consumer run_id = if run_id == 0 then Consumer.unconsumed else Consumer.by_run run_id

-- `MarkCommentsConsumed`: a run id of 0 would leave them unconsumed.
unfoldable pub mark_comments_consumed : Store → ℕ → ℕ → Store
mark_comments_consumed s task_id run_id = record s {
  comments =
      modify (λ c. c.task_id == task_id && is_unconsumed c.consumed_by_run)
        (λ c. record c { consumed_by_run = consumer run_id }) s.comments;
}

-- `MarkCommentConsumed`: a run id of 0 is written as -1.
unfoldable pub mark_comment_consumed : Store → ℕ → ℕ → Store
mark_comment_consumed s comment_id run_id = record s {
  comments =
      modify (λ c. comment_key c == comment_id)
        (λ c. record c {
          consumed_by_run = if run_id == 0 then Consumer.by_no_run else Consumer.by_run run_id;
        })
        s.comments;
}
