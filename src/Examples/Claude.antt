-- ===== src/Examples/Claude.antt =====
-- The lines of claude's output, and the command to resume a session, at concrete inputs.
use burnrate.Prelude.{ℕ, ◌≡◌, refl, true, false, none, some, Option, List, [], ◌∷◌}
use burnrate.Prelude.Lists.{any}
use burnrate.Prelude.Text.{Text, codes}
use burnrate.Claude.{Event, ContentBlock}
use burnrate.Claude.Tail.{
  log_ended_interrupted, is_sign, since_work, decoded, last_lines, log_tail_lines, nonblank,
  log_ended_interrupted-since_work,
}
use burnrate.Claude.{contains_text}
use burnrate.Claude.Stream.{Line, opened, scan, check_rate_limit, is_rate_limit_message}
use burnrate.Claude.Scan.{Once, Idle, scan-Once-Idle}
use burnrate.Claude.Resume.{
  ResumeTarget, resume_command, words, Mode, cd_words, config_words, words-resume_command,
}

abbrev unset_event : Event
unset_event = record {
  type = codes "user";
  subtype = [];
  message = none;
  system_message_text = [];
  tool_use_result = [];
  tool_result_meta = [];
  tool_name = [];
  tool_use_id = [];
  decision_reason_type = [];
  decision_reason = [];
  result = [];
  duration_ms = 0;
  num_turns = 0;
  total_cost = 0;
  session_id = "";
  model = "";
  errors = [];
}

abbrev block : ContentBlock
block = record {
  type = codes "tool_result";
  text = [];
  tool_use_id = [];
  content = codes "The user doesn't want to proceed with this tool use.";
  is_error = true;
}

-- Two lines: `d` for a denial, and any other text for a tool at work.
abbrev decode : Text → Option Event
decode [] = none
decode (c ∷ []) = some (record unset_event { message = some (block ∷ []) })
decode (c ∷ d ∷ cs) =
    some (record unset_event { message = some (record block { is_error = false } ∷ []) })

abbrev lower : ℕ → ℕ
lower c = c

log_ended_interrupted-since_work_example :
    (log_ended_interrupted lower decode (codes "ok" ∷ codes "d" ∷ [])).0
    ≡ any (is_sign lower) (
        since_work lower
          (decoded decode (last_lines log_tail_lines (nonblank (codes "ok" ∷ codes "d" ∷ [])))))
log_ended_interrupted-since_work_example =
    log_ended_interrupted-since_work lower decode (codes "ok" ∷ codes "d" ∷ [])

abbrev target : ResumeTarget
target = record {
  session_id = codes "a1b2";
  work_dir = codes "/home/o'neil/my work";
  config_dir = codes "/home/x/.claude";
  token_command = [];
}

words-resume_command_example :
    words Mode.bare (resume_command target)
    ≡ cd_words (codes "/home/o'neil/my work") (
        config_words
          (codes "/home/x/.claude")
          (codes "claude" ∷ codes "--resume" ∷ codes "a1b2" ∷ []))
words-resume_command_example = words-resume_command target refl refl

abbrev opening : Event
opening = record unset_event { type = codes "system"; session_id = "a1b2" }

abbrev output : List Line
output = Line.out (some opening) ∷ Line.err (codes "warning") ∷ Line.out (some opening) ∷ []

scan-Once-Idle_example :
    Once (scan lower false opened output) × Idle (scan lower false opened output)
scan-Once-Idle_example = scan-Once-Idle lower false output

-- A text that quotes the message of a rate limit counts as one.
quoted_limit :
    check_rate_limit (record unset_event {
      type = codes "assistant";
      message = some (
          record block { type = codes "text"; text = codes "the log says: You've hit your limit" }
          ∷ []);
    })
    ≡ codes "the log says: You've hit your limit"
unfolding check_rate_limit is_rate_limit_message contains_text
quoted_limit = refl
