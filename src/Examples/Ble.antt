-- ===== src/Examples/Ble.antt =====
-- The bridge to the display at concrete inputs.
use burnrate.Prelude.{ℕ, ◌+◌, ◌*◌, ◌-◌, ◌≡◌, ◌≤◌, ◌⊎◌, refl, true, false, none, some, [], ◌∷◌, List}
use burnrate.Prelude.Tests.{leb, if◌then◌else◌}
use burnrate.Prelude.Lists.{length}
use burnrate.Prelude.Text.{Text, codes, is_space}
use burnrate.Ble.Recording.{Recorder, Setup, Notice, idle, handle_all}
use burnrate.Ble.Tidy.{Tidy, handle_all-Tidy}
use burnrate.Ble.Payload.{
  BlePayload, Bridge, ShownTask, base_payload, tickets_of, push_payload, payload_max,
}
use burnrate.Ble.Fit.{Longest, push_payload-Longest}

abbrev upper : ℕ → ℕ
upper c = if leb 97 c then c - 32 else c

abbrev works : Setup
works = record { makes_file = true; has_recorder = true; starts = true }

abbrev presses : List Notice
presses =
    Notice.notified works (codes "START")
    ∷ Notice.notified works (codes "STOP")
    ∷ Notice.notified works (codes "START")
    ∷ Notice.ended 0 (some (codes "buy milk")) true
    ∷ []

handle_all-Tidy_example : Tidy (handle_all upper idle presses)
handle_all-Tidy_example = handle_all-Tidy upper presses

-- The second recording is in progress, and the watchdog of the first still waits.
abbrev second_recording : Recorder
second_recording = record idle {
  rec_cmd = some 1;
  rec_file = some 1;
  files = 1 ∷ [];
  watchdogs = 1 ∷ 0 ∷ [];
  next = 2;
  created = codes "buy milk" ∷ [];
}

reaches_second : handle_all upper idle presses ≡ second_recording
unfolding handle_all is_space
reaches_second = refl

abbrev size : BlePayload → ℕ
size p = 200 + 150 * length p.tickets + length p.hist

abbrev shown : Text → ShownTask
shown title = record {
  display_id = codes "T-1";
  status = codes "running";
  title = title;
  pr_urls = [];
}

abbrev shown_tasks : List ShownTask
shown_tasks = shown (codes "one") ∷ shown (codes "two") ∷ shown (codes "three") ∷ []

abbrev bridge : Bridge
bridge = record { lat = []; lon = []; loc_name = codes "Atlanta, GA"; loc_sent = false }

push_payload-Longest_example :
    Longest size
      (base_payload bridge shown_tasks none 0)
      (tickets_of shown_tasks)
      (push_payload size bridge shown_tasks none 0 none (λ p. true)).1.tickets
    × (((push_payload size bridge shown_tasks none 0 none (λ p. true)).1.tickets ≡ [])
        ⊎ (size (push_payload size bridge shown_tasks none 0 none (λ p. true)).1 ≤ payload_max))
push_payload-Longest_example = push_payload-Longest size bridge shown_tasks none 0 none (λ p. true)
