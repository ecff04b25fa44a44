-- ===== src/Ble/Recording.antt =====
-- The recording of a voice task. A stop takes the recording under the lock, and ends it later, while
-- others may start; the process of a recording and its file have the recording's number.
use burnrate.Prelude.{ℕ, ◌+◌, Bool, true, false, not, ◌&&◌, Option, none, some, List, [], ◌∷◌, ◌++◌}
use burnrate.Prelude.Tests.{◌==◌, if◌then◌else◌}
use burnrate.Prelude.Lists.{keep, any}
use burnrate.Prelude.Text.{Text, codes, no_text, text_eq, trim_space}

-- A recording that was taken: whether a task is made of it, or it is aborted.
pub record Taken : Type 0 where
  pub recording : ℕ
  pub makes_task : Bool

pub record Recorder : Type 0 where
  -- `recCmd` and `recFile`
  pub rec_cmd : Option ℕ
  pub rec_file : Option ℕ
  pub ending : List Taken
  -- the temporary files that are there, and the watchdogs that still wait
  pub files : List ℕ
  pub watchdogs : List ℕ
  pub next : ℕ
  -- the texts that were posted to the voice/task endpoint with success
  pub created : List Text

abbrev pub idle : Recorder
idle = record {
  rec_cmd = none;
  rec_file = none;
  ending = [];
  files = [];
  watchdogs = [];
  next = 0;
  created = [];
}

-- What `startRecording` meets: whether a temporary file can be made, a recorder is installed, and it
-- starts.
pub record Setup : Type 0 where
  pub makes_file : Bool
  pub has_recorder : Bool
  pub starts : Bool

abbrev pub started : Recorder → Recorder
started b = record b {
  rec_cmd = some b.next;
  rec_file = some b.next;
  files = b.next ∷ b.files;
  watchdogs = b.next ∷ b.watchdogs;
  next = b.next + 1;
}

-- `startRecording`; a file that no recorder writes to is removed at once.
unfoldable pub start_recording : Setup → Recorder → Recorder
start_recording u b = elim b.rec_cmd [
  | some n ↦ b
  | none ↦
      if u.makes_file
      then (if u.has_recorder && u.starts then started b else record b { rec_file = none })
      else b
]

abbrev pub taken : Bool → Recorder → ℕ → Recorder
taken makes_task b n = record b {
  rec_cmd = none;
  rec_file = none;
  ending = record { recording = n; makes_task = makes_task } ∷ b.ending;
}

abbrev nothing_taken : Recorder → Recorder
nothing_taken b = record b { rec_cmd = none; rec_file = none }

-- The beginning of `abortRecording`, which ends the process first, and of `stopAndCreateTask`.
unfoldable pub abort_recording : Recorder → Recorder
abort_recording b = elim b.rec_cmd [ none ↦ nothing_taken b | some n ↦ taken false b n ]

unfoldable pub stop_recording : Recorder → Recorder
stop_recording b = elim b.rec_cmd [
  | none ↦ nothing_taken b
  | some n ↦ elim b.rec_file [ none ↦ nothing_taken b | some file ↦ taken true b n ]
]

abbrev pub is_of : ℕ → Taken → Bool
is_of n t = t.recording == n

abbrev of_text : List Text → Bool → Option Text → List Text
of_text created posts none = created
of_text created posts (some text) =
    if no_text (trim_space text)
    then created
    else if posts
    then created ++ trim_space text ∷ []
    else created

-- Their ends: the process has ended, the text is transcribed and posted, and the file is removed.
unfoldable pub end_recording : ℕ → Option Text → Bool → Recorder → Recorder
unfolding trim_space
end_recording n text posts b =
    if any (is_of n) b.ending
    then record b {
      ending = keep (λ (t : Taken). not (is_of n t)) b.ending;
      files = keep (λ (f : ℕ). not (f == n)) b.files;
      created =
          if any (λ (t : Taken). is_of n t && t.makes_task) b.ending
          then of_text b.created posts text
          else b.created;
    }
    else b

pub data Notice : Type 0 where
  -- a text from the button; the watchdog of a recording, at its limit or as the bridge ends; and the
  -- end of a recording, with its transcription, if that succeeds, and the success of the post
  notified : Setup → Text → Notice
  limit_reached canceled : ℕ → Notice
  ended : ℕ → Option Text → Bool → Notice

abbrev pub without : ℕ → Recorder → Recorder
without n b = record b { watchdogs = keep (λ (k : ℕ). not (k == n)) b.watchdogs }

module _ (upper : ℕ → ℕ) where
  abbrev pub to_upper : Text → Text
  to_upper [] = []
  to_upper (c ∷ cs) = upper c ∷ to_upper cs

  -- `handleMicNotification`; the window and the voice recorder of the app are not the recorder's.
  unfoldable pub handle_mic_notification : Setup → Text → Recorder → Recorder
  unfolding start_recording stop_recording
  handle_mic_notification u msg b =
      if text_eq (to_upper msg) (codes "START")
      then start_recording u b
      else if text_eq (to_upper msg) (codes "STOP")
      then stop_recording b
      else b

  unfoldable pub handle : Recorder → Notice → Recorder
  unfolding handle_mic_notification abort_recording stop_recording end_recording
  handle b (Notice.notified u msg) = handle_mic_notification u msg b
  handle b (Notice.limit_reached n) =
      if any (λ (k : ℕ). k == n) b.watchdogs then stop_recording (without n b) else b
  handle b (Notice.canceled n) =
      if any (λ (k : ℕ). k == n) b.watchdogs then abort_recording (without n b) else b
  handle b (Notice.ended n text posts) = end_recording n text posts b

  unfoldable pub handle_all : Recorder → List Notice → Recorder
  unfolding handle
  handle_all b [] = b
  handle_all b (e ∷ es) = handle_all (handle b e) es
