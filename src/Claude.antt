-- ===== src/Claude.antt =====
-- internal/claude/denial.go: whether a line of claude's output records a denied tool call. A line is
-- taken as its JSON decoder reads it; `lower` is unicode.ToLower.
pub mod Tail
pub mod Resume
pub mod Stream
pub mod Scan
use burnrate.Prelude.{
  ℕ, ◌+◌, Bool, true, false, not, ◌&&◌, ◌||◌, Option, none, some, List, [], ◌∷◌, ◌++◌, map, String,
}
use burnrate.Prelude.Tests.{if◌then◌else◌}
use burnrate.Prelude.Lists.{any, find}
use burnrate.Prelude.Text.{Text, codes, no_text, text_eq, starts_with, trim_space}

-- `ContentBlock`; `content` as `contentText` reads it.
pub record ContentBlock : Type 0 where
  pub type : Text
  pub text : Text
  pub tool_use_id : Text
  pub content : Text
  pub is_error : Bool

pub record ToolResultMeta : Type 0 where
  pub id : Text
  pub non_execution_kind : Text

-- `Event`. Its message is read in two ways: as a message, none where that fails, and as a text, empty
-- where that fails. `tool_use_result` is the raw text.
pub record Event : Type 0 where
  pub type : Text
  pub subtype : Text
  pub message : Option (List ContentBlock)
  pub system_message_text : Text
  pub tool_use_result : Text
  pub tool_result_meta : List ToolResultMeta
  pub tool_name : Text
  pub tool_use_id : Text
  pub decision_reason_type : Text
  pub decision_reason : Text
  pub result : Text
  pub duration_ms : ℕ
  pub num_turns : ℕ
  pub total_cost : ℕ
  pub session_id : String
  pub model : String
  pub errors : List Text

pub record Denial : Type 0 where
  pub message : Text
  pub tool_use_id : Text

abbrev pub denied_tool_message : Text
denied_tool_message = codes "tool use was auto-denied by the permission layer"

abbrev pub is_type : Text → ContentBlock → Bool
is_type name b = text_eq b.type name

-- `strings.Contains`
unfoldable pub contains_text : Text → Text → Bool
contains_text part [] = no_text part
contains_text part (c ∷ cs) = starts_with part (c ∷ cs) || contains_text part cs

abbrev or_message : Text → Text
or_message [] = denied_tool_message
or_message (c ∷ cs) = c ∷ cs

abbrev pub blocks_of : Option (List ContentBlock) → List ContentBlock
blocks_of none = []
blocks_of (some bs) = bs

-- A denial with a message that is not empty, or what comes next.
abbrev pub denial_or : Text → Text → Option Denial → Option Denial
denial_or [] id next = next
denial_or (c ∷ cs) id next = some (record { message = c ∷ cs; tool_use_id = id })

module _ (lower : ℕ → ℕ) where
  abbrev pub to_lower : Text → Text
  to_lower s = map lower s

  -- `hasDenialPrefix`
  unfoldable pub has_denial_prefix : Text → Bool
  unfolding trim_space
  has_denial_prefix text =
      let lowered = to_lower (trim_space text) in
      starts_with (codes "the user doesn't want to proceed with this tool use") lowered
      || starts_with (codes "the user doesn't want to take this action right now") lowered

  abbrev is_denied : ContentBlock → Bool
  is_denied b =
      is_type (codes "tool_result") b && b.is_error && has_denial_prefix (trim_space b.content)

  abbrev text_of_denied : Option ContentBlock → Text
  text_of_denied none = []
  text_of_denied (some b) = trim_space b.content

  -- `denialTextFromBlocks`
  unfoldable pub denial_text_from_blocks : Option (List ContentBlock) → Text
  unfolding has_denial_prefix
  denial_text_from_blocks message = text_of_denied (find is_denied (blocks_of message))

  abbrev is_one_of : Text → List Text → Bool
  is_one_of k ks = any (text_eq k) ks

  -- `isRejectedKind`
  unfoldable pub is_rejected_kind : Text → Bool
  unfolding trim_space contains_text
  is_rejected_kind kind =
      let k = to_lower (trim_space kind) in
      if is_one_of k (
        codes "user-rejected"
        ∷ codes "permission-rule"
        ∷ codes "automode-blocked"
        ∷ codes "automode-unavailable"
        ∷ codes "automode-parsing-error"
        ∷ [])
      then true
      else if is_one_of k (codes "interrupted" ∷ codes "cancelled" ∷ codes "canceled" ∷ [])
      then false
      else contains_text (codes "reject") k
        || contains_text (codes "denied") k
        || contains_text (codes "deny") k

  abbrev is_vetoed : Event → Bool
  is_vetoed evt =
      any (λ (m : ToolResultMeta). is_rejected_kind m.non_execution_kind) evt.tool_result_meta
      || (let lowered = to_lower evt.tool_use_result in
          contains_text (codes "rejected tool use") lowered
          || contains_text (codes "denied tool use") lowered)

  -- `DenialFromEvent`
  unfoldable pub denial_from_event : Event → Text
  unfolding denial_text_from_blocks is_rejected_kind contains_text
  denial_from_event evt =
      let block_text = denial_text_from_blocks evt.message in
      if not (text_eq evt.type (codes "user"))
      then []
      else if is_vetoed evt
      then or_message block_text
      else block_text

  abbrev joined : Text → Text → Text
  joined [] [] = []
  joined [] (d ∷ ds) = d ∷ ds
  joined (c ∷ cs) [] = c ∷ cs
  joined (c ∷ cs) (d ∷ ds) = (c ∷ cs) ++ codes ": " ++ d ∷ ds

  abbrev annotated : Text → Text → Text
  annotated msg [] = msg
  annotated msg (c ∷ cs) = msg ++ codes " (" ++ (c ∷ cs) ++ codes ")"

  abbrev reason_or_type : Text → Text → Text
  reason_or_type [] kind = kind
  reason_or_type (c ∷ cs) kind = c ∷ cs

  -- `PermissionDeniedFromEvent`
  unfoldable pub permission_denied_from_event : Event → Text
  unfolding trim_space
  permission_denied_from_event evt =
      if text_eq evt.type (codes "system") && text_eq evt.subtype (codes "permission_denied")
      then annotated (or_message (trim_space evt.system_message_text)) (
          joined evt.tool_name
            (reason_or_type (trim_space evt.decision_reason) evt.decision_reason_type))
      else []

  abbrev first_id : List Text → Text
  first_id [] = []
  first_id ([] ∷ ids) = first_id ids
  first_id ((c ∷ cs) ∷ ids) = c ∷ cs

  abbrev tool_result_id : ContentBlock → Text
  tool_result_id b = if is_type (codes "tool_result") b then b.tool_use_id else []

  -- `deniedToolUseID`
  unfoldable pub denied_tool_use_id : Event → Text
  denied_tool_use_id evt = first_id (
      map (λ (m : ToolResultMeta). m.id) evt.tool_result_meta
      ++ map tool_result_id (blocks_of evt.message))

  -- `DenialFrom`
  unfoldable pub denial_from : Event → Option Denial
  unfolding permission_denied_from_event denial_from_event denied_tool_use_id
  denial_from evt =
      denial_or (permission_denied_from_event evt) evt.tool_use_id
        (denial_or (denial_from_event evt) (denied_tool_use_id evt) none)

  abbrev is_interrupt : ContentBlock → Bool
  is_interrupt b =
      is_type (codes "text") b
      && (let trimmed = to_lower (trim_space b.text) in
          starts_with (codes "[request interrupted by user for tool use]") trimmed
          || starts_with (codes "[request interrupted by user]") trimmed)

  abbrev text_of_block : Option ContentBlock → Text
  text_of_block none = []
  text_of_block (some b) = trim_space b.text

  -- `InterruptFromEvent`
  unfoldable pub interrupt_from_event : Event → Text
  unfolding trim_space
  interrupt_from_event evt =
      if text_eq evt.type (codes "user")
      then text_of_block (find is_interrupt (blocks_of evt.message))
      else []

-- `IsToolResultEvent` and `IsToolUseEvent`
unfoldable pub is_tool_result_event : Event → Bool
is_tool_result_event evt =
    text_eq evt.type (codes "user") && any (is_type (codes "tool_result")) (blocks_of evt.message)

unfoldable pub is_tool_use_event : Event → Bool
is_tool_use_event evt =
    text_eq evt.type (codes "assistant") && any (is_type (codes "tool_use")) (blocks_of evt.message)
