-- ===== src/Claude/Stream.antt =====
-- What `Invoke` of internal/claude/invoke.go makes of the output of the process, and ratelimit.go. The
-- lines of both pipes come one after another, as the mutexes make them; whether and why the process
-- was killed, and how it exited, are given.
use burnrate.Prelude.{
  ℕ, ◌+◌, Bool, true, false, not, ◌&&◌, ◌||◌, Option, none, some, List, [], ◌∷◌, ◌++◌, String,
}
use burnrate.Prelude.Tests.{◌==◌, leb, if◌then◌else◌}
use burnrate.Prelude.Lists.{any, find}
use burnrate.Prelude.Text.{Text, codes, no_text, text_eq, is_set, trim_space}
use burnrate.Runner.State.{ClaudeResult}
use burnrate.Claude.{
  Event, ContentBlock, Denial, contains_text, to_lower, denial_from, is_tool_result_event,
  is_tool_use_event, is_type, blocks_of,
}

abbrev pub max_idle_cycles : ℕ
max_idle_cycles = 5

-- `IsRateLimitMessage`
unfoldable pub is_rate_limit_message : Text → Bool
unfolding contains_text
is_rate_limit_message s =
    contains_text (codes "You've hit your limit") s
    || contains_text (codes "You’ve hit your limit") s

abbrev text_of : Option ContentBlock → Text
text_of none = []
text_of (some b) = b.text

-- `checkRateLimit`
unfoldable pub check_rate_limit : Event → Text
unfolding is_rate_limit_message
check_rate_limit evt =
    if text_eq evt.type (codes "result") && is_rate_limit_message evt.result
    then evt.result
    else if text_eq evt.type (codes "assistant")
    then text_of (
        find (λ (b : ContentBlock). is_type (codes "text") b && is_rate_limit_message b.text)
          (blocks_of evt.message))
    else []

unfoldable pub is_idle_cycle : Event → Bool
is_idle_cycle evt = text_eq evt.type (codes "result") && leb evt.num_turns 1 && evt.duration_ms == 0

-- The variables of the loop. `reported` are the calls of `OnSessionID`.
pub record Stream : Type 0 where
  pub rate_limit_msg : Text
  pub denial_pending : Bool
  pub denial_msg : Text
  pub denial_count : ℕ
  pub seen_denials : List Text
  pub result : ClaudeResult
  pub session_id_fired : Bool
  pub reported : List String
  pub session_missing : Bool
  pub idle_cycles : ℕ
  pub idle_killed : Bool

abbrev pub opened : Stream
opened = record {
  rate_limit_msg = [];
  denial_pending = false;
  denial_msg = [];
  denial_count = 0;
  seen_denials = [];
  result = record {
    session_id = "";
    model = "";
    result_text = [];
    cost_usd = 0;
    num_turns = 0;
    duration_ms = 0;
  };
  session_id_fired = false;
  reported = [];
  session_missing = false;
  idle_cycles = 0;
  idle_killed = false;
}

abbrev pub first_message : Text → Text → Text
first_message [] new = new
first_message (c ∷ cs) new = c ∷ cs

abbrev pub warned : Stream → Text → Stream
warned s message = record s { rate_limit_msg = first_message s.rate_limit_msg message }

abbrev pub limited : Stream → Event → Stream
limited s evt = warned s (check_rate_limit evt)

abbrev with_seen : Text → List Text → List Text
with_seen [] seen = seen
with_seen (c ∷ cs) seen = (c ∷ cs) ∷ seen

-- The denial of a line; one call is counted once.
unfoldable pub on_denial : Stream → Denial → Stream
on_denial s d =
    if no_text d.tool_use_id || not (any (text_eq d.tool_use_id) s.seen_denials)
    then record s {
      denial_pending = true;
      denial_msg = d.message;
      denial_count = s.denial_count + 1;
      seen_denials = with_seen d.tool_use_id s.seen_denials;
    }
    else record s { denial_pending = true }

-- The first system event with a session id.
unfoldable pub on_session : Stream → Event → Stream
on_session s evt =
    if not s.session_id_fired && text_eq evt.type (codes "system") && is_set evt.session_id
    then record s {
      result = record s.result { session_id = evt.session_id };
      session_id_fired = true;
      reported = s.reported ++ evt.session_id ∷ [];
    }
    else s

abbrev pub on_model : Stream → Event → Stream
on_model s evt =
    if is_set evt.model then record s { result = record s.result { model = evt.model } } else s

abbrev pub idled : Stream → Stream
idled s = record s {
  idle_cycles = s.idle_cycles + 1;
  idle_killed = leb max_idle_cycles (s.idle_cycles + 1);
}

abbrev pub busy : Stream → Stream
busy s = record s { idle_cycles = 0 }

unfoldable pub on_idle : Stream → Event → Stream
unfolding is_idle_cycle
on_idle s evt =
    if is_idle_cycle evt
    then idled s
    else if not (text_eq evt.type (codes "system")) && not (no_text evt.type)
    then busy s
    else s

pub data Line : Type 0 where
  -- of the standard output, decoded, and of the standard error
  out : Option Event → Line
  err : Text → Line

module _ (lower : ℕ → ℕ) (resumes : Bool) where
  -- `mentionsMissingSession`
  unfoldable pub mentions_missing_session : List Text → Bool
  unfolding contains_text
  mentions_missing_session errs =
      any (λ s. contains_text (codes "no conversation found") (to_lower lower s)) errs

  abbrev pub after_denial : Stream → Event → Option Denial → Stream
  after_denial s evt (some d) = on_denial s d
  after_denial s evt none =
      if is_tool_result_event evt || is_tool_use_event evt
      then record s { denial_pending = false }
      else s

  unfoldable pub on_result : Stream → Event → Stream
  unfolding mentions_missing_session
  on_result s evt =
      if text_eq evt.type (codes "result")
      then record s {
        result = record s.result {
          result_text = evt.result;
          cost_usd = evt.total_cost;
          num_turns = evt.num_turns;
          duration_ms = evt.duration_ms;
        };
        session_missing = s.session_missing || (resumes && mentions_missing_session evt.errors);
      }
      else s

  -- One line of the standard output; one that is no event changes nothing.
  unfoldable pub on_line : Stream → Option Event → Stream
  unfolding check_rate_limit on_denial on_session on_result on_idle denial_from is_tool_result_event
      is_tool_use_event
  on_line s none = s
  on_line s (some evt) =
      on_idle
        (on_result
          (on_model (on_session (after_denial (limited s evt) evt (denial_from lower evt)) evt) evt)
          evt)
        evt

  -- The scan, until the process is killed for idling; the standard error is read on.
  unfoldable pub scan : Stream → List Line → Stream
  unfolding on_line is_rate_limit_message trim_space
  scan s [] = s
  scan s (Line.out l ∷ ls) = scan (if s.idle_killed then s else on_line s l) ls
  scan s (Line.err l ∷ ls) =
      let message = trim_space l in
      scan (if is_rate_limit_message message then warned s message else s) ls

-- How the process ended.
pub record Exit : Type 0 where
  pub timed_out : Bool
  pub context_done : Bool
  pub denial_killed : Bool
  pub failed : Bool

pub data Verdict : Type 0 where
  rate_limited : Text → Verdict
  idle_loop : ℕ → Verdict
  timeout context_error session_not_found exit_error success : Verdict
  tool_denied : Text → ℕ → Verdict

abbrev unlimited : Stream → Exit → Verdict
unlimited s x =
    if s.idle_killed
    then Verdict.idle_loop s.idle_cycles
    else if x.timed_out
    then Verdict.timeout
    else if x.context_done
    then Verdict.context_error
    else if s.session_missing
    then Verdict.session_not_found
    else if (s.denial_pending || x.denial_killed) && leb 1 s.denial_count
    then Verdict.tool_denied s.denial_msg s.denial_count
    else if x.failed
    then Verdict.exit_error
    else Verdict.success

-- The error that `Invoke` returns.
unfoldable pub verdict : Stream → Exit → Verdict
verdict s x =
    if no_text s.rate_limit_msg then unlimited s x else Verdict.rate_limited s.rate_limit_msg
