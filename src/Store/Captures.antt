-- ===== src/Store/Captures.antt =====
-- internal/store/captures.go: the table of captures.
use burnrate.Prelude.{ℕ, ◌+◌, ◌≡◌, Option, List, [], ◌∷◌, ◌++◌}
use burnrate.Prelude.Tests.{◌==◌, ltb, leb, if◌then◌else◌}
use burnrate.Prelude.Lists.{keep}
use burnrate.Prelude.Table.{row, modify, on_some, row-modify}
use burnrate.Prelude.Text.{Text}
use burnrate.Scheduling.Types.{Time}

pub data CaptureStatus : Type 0 where
  processing ready failed : CaptureStatus

-- A duration is in milliseconds.
pub record CaptureRow : Type 0 where
  pub id : ℕ
  pub task_id : ℕ
  pub request_id : ℕ
  pub initiator : Text
  pub target_desc : Text
  pub mode : Text
  pub status : CaptureStatus
  pub video_path : Text
  pub transcript : Text
  pub notes : Text
  pub duration : ℕ
  pub created_at : Time

pub record CaptureTable : Type 0 where
  pub rows : List CaptureRow
  pub last : ℕ

abbrev pub capture_key : CaptureRow → ℕ
capture_key c = c.id

abbrev pub new_capture : ℕ → Time → ℕ → ℕ → Text → Text → Text → CaptureRow
new_capture id now task_id request_id initiator target_desc mode = record {
  id = id;
  task_id = task_id;
  request_id = request_id;
  initiator = initiator;
  target_desc = target_desc;
  mode = mode;
  status = CaptureStatus.processing;
  video_path = [];
  transcript = [];
  notes = [];
  duration = 0;
  created_at = now;
}

unfoldable pub create_capture :
    CaptureTable → Time → ℕ → ℕ → Text → Text → Text → CaptureTable × CaptureRow
create_capture s now task_id request_id initiator target_desc mode =
    let c = new_capture (s.last + 1) now task_id request_id initiator target_desc mode in
    (record { rows = s.rows ++ c ∷ []; last = s.last + 1 }, c)

unfoldable pub get_capture : CaptureTable → ℕ → Option CaptureRow
get_capture s id = row capture_key id s.rows

-- Newest first, for `ORDER BY created_at DESC`.
abbrev insert_newer : CaptureRow → List CaptureRow → List CaptureRow
insert_newer c [] = c ∷ []
insert_newer c (d ∷ ds) =
    let rest = insert_newer c ds in if leb d.created_at c.created_at then c ∷ d ∷ ds else d ∷ rest

abbrev newest_captures : List CaptureRow → List CaptureRow
newest_captures [] = []
newest_captures (c ∷ cs) = insert_newer c (newest_captures cs)

-- A task id of 0 lists the captures of every task.
unfoldable pub list_captures : CaptureTable → ℕ → List CaptureRow
list_captures s task_id =
    newest_captures
      (if ltb 0 task_id then keep (λ (c : CaptureRow). c.task_id == task_id) s.rows else s.rows)

-- `UPDATE captures SET … WHERE id = ?`
unfoldable pub update_capture_row : CaptureTable → ℕ → (CaptureRow → CaptureRow) → CaptureTable
update_capture_row s id f = record s { rows = modify (λ c. capture_key c == id) f s.rows }

unfoldable pub set_capture_status : CaptureTable → ℕ → CaptureStatus → CaptureTable
unfolding update_capture_row
set_capture_status s id status = update_capture_row s id (λ c. record c { status = status })

unfoldable pub set_capture_video_path : CaptureTable → ℕ → Text → CaptureTable
unfolding update_capture_row
set_capture_video_path s id path = update_capture_row s id (λ c. record c { video_path = path })

unfoldable pub set_capture_transcript : CaptureTable → ℕ → Text → CaptureTable
unfolding update_capture_row
set_capture_transcript s id text = update_capture_row s id (λ c. record c { transcript = text })

unfoldable pub set_capture_notes : CaptureTable → ℕ → Text → CaptureTable
unfolding update_capture_row
set_capture_notes s id notes = update_capture_row s id (λ c. record c { notes = notes })

unfoldable pub set_capture_duration : CaptureTable → ℕ → ℕ → CaptureTable
unfolding update_capture_row
set_capture_duration s id duration = update_capture_row s id (λ c. record c { duration = duration })

abbrev pub finished_capture : Text → Text → ℕ → CaptureRow → CaptureRow
finished_capture video_path transcript duration c = record c {
  status = CaptureStatus.ready;
  video_path = video_path;
  transcript = transcript;
  duration = duration;
}

unfoldable pub finish_capture : CaptureTable → ℕ → Text → Text → ℕ → CaptureTable
unfolding update_capture_row
finish_capture s id video_path transcript duration =
    update_capture_row s id (finished_capture video_path transcript duration)

-- An update that keeps the ids is read back.
pub get_capture-update_capture_row :
    (s : CaptureTable) (id j : ℕ) (f : CaptureRow → CaptureRow)
    → ((c : CaptureRow) → capture_key (f c) ≡ capture_key c)
    → get_capture (update_capture_row s id f) j
      ≡ (if id == j then on_some f (get_capture s j) else get_capture s j)
unfolding get_capture update_capture_row
get_capture-update_capture_row s id j f h = row-modify capture_key id j f s.rows h
