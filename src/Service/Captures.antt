-- ===== src/Service/Captures.antt =====
-- internal/service/capture_service.go. What the directory of a capture holds is given.
use burnrate.Prelude.{
  ℕ, Bool, false, not, ◌&&◌, ◌||◌, Option, none, some, List, [], ◌∷◌, map, String,
}
use burnrate.Prelude.Tests.{if◌then◌else◌}
use burnrate.Prelude.Lists.{any, keep}
use burnrate.Prelude.Text.{Text, codes, text_eq, str_eq}
use burnrate.Scheduling.Types.{Time}
use burnrate.Store.Tables.{Store}
use burnrate.Store.Tasks.{get_task}
use burnrate.Store.Settings.{get_setting}
use burnrate.Store.Captures.{
  CaptureTable, CaptureRow, CaptureStatus, create_capture, get_capture, list_captures,
  finish_capture, set_capture_notes, set_capture_status,
}

pub data CaptureError : Type 0 where
  invalid_initiator invalid_mode : CaptureError
  task_not_found capture_not_found : ℕ → CaptureError

-- The tables, and the directories that were made for the captures of tasks.
pub record CaptureDesk : Type 0 where
  pub store : Store
  pub captures : CaptureTable
  pub directories : List ℕ

pub record Entry : Type 0 where
  pub name : Text
  pub extension : Text
  pub is_dir : Bool

pub record Listing : Type 0 where
  -- the entries of the directory of a task's capture, none if it can not be read, and the path of one
  pub read_dir : ℕ → ℕ → Option (List Entry)
  pub path : ℕ → ℕ → Text → Text

abbrev is_image : Text → Bool
is_image ext = any (text_eq ext) (codes ".png" ∷ codes ".jpg" ∷ codes ".jpeg" ∷ codes ".webp" ∷ [])

abbrev frames : Listing → ℕ → ℕ → Option (List Entry) → List Text
frames l task_id id none = []
frames l task_id id (some entries) =
    map (λ (e : Entry). l.path task_id id e.name)
      (keep (λ (e : Entry). not e.is_dir && is_image e.extension) entries)

unfoldable pub find_keyframes : Listing → ℕ → ℕ → List Text
find_keyframes l task_id id = frames l task_id id (l.read_dir task_id id)

abbrev is_one_of : Text → Text → Text → Bool
is_one_of a b s = text_eq s a || text_eq s b

module _ (d : CaptureDesk) where
  abbrev created : CaptureTable × CaptureRow → ℕ → CaptureDesk × Option CaptureError
  created (s, c) task_id = (record d { captures = s; directories = task_id ∷ d.directories }, none)

  unfoldable pub create : Time → ℕ → ℕ → Text → Text → Text → CaptureDesk × Option CaptureError
  unfolding create_capture
  create now task_id request_id initiator target_desc mode =
      if not (is_one_of (codes "human") (codes "agent") initiator)
      then (d, some CaptureError.invalid_initiator)
      else if not (is_one_of (codes "screenshot") (codes "video") mode)
      then (d, some CaptureError.invalid_mode)
      else elim (get_task d.store task_id) [
        | none ↦ (d, some (CaptureError.task_not_found task_id))
        | some t ↦
            created (create_capture d.captures now task_id request_id initiator target_desc mode)
              task_id
      ]

  unfoldable pub get : Listing → ℕ → Option (CaptureRow × List Text)
  unfolding find_keyframes
  get l id = elim (get_capture d.captures id) [
    | none ↦ none
    | some c ↦ some (c, find_keyframes l c.task_id c.id)
  ]

  unfoldable pub list : Listing → ℕ → List (CaptureRow × List Text)
  unfolding list_captures find_keyframes
  list l task_id =
      map (λ (c : CaptureRow). (c, find_keyframes l c.task_id c.id))
        (list_captures d.captures task_id)

  abbrev if_found : ℕ → CaptureTable → Option CaptureRow → CaptureDesk × Option CaptureError
  if_found id s none = (d, some (CaptureError.capture_not_found id))
  if_found id s (some c) = (record d { captures = s }, none)

  unfoldable pub finish : ℕ → Text → Text → ℕ → CaptureDesk × Option CaptureError
  unfolding finish_capture
  finish id video_path transcript duration =
      if_found id (finish_capture d.captures id video_path transcript duration)
        (get_capture d.captures id)

  unfoldable pub set_notes : ℕ → Text → CaptureDesk × Option CaptureError
  unfolding set_capture_notes
  set_notes id notes =
      if_found id (set_capture_notes d.captures id notes) (get_capture d.captures id)

  unfoldable pub fail : ℕ → CaptureDesk
  unfolding set_capture_status
  fail id = record d { captures = set_capture_status d.captures id CaptureStatus.failed }

abbrev is_yes : Option String → Bool
is_yes none = false
is_yes (some v) = str_eq v "true" || str_eq v "1"

unfoldable pub auto_approve_enabled : Store → Bool
auto_approve_enabled s = is_yes (get_setting s "agent_capture_auto_approve")
