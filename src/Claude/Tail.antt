-- ===== src/Claude/Tail.antt =====
-- `LogEndedInterrupted` of internal/claude/denial.go: how the log of a run ended.
use burnrate.Prelude.{
  ℕ, ◌≡◌, refl, Bool, true, false, not, ◌&&◌, ◌||◌, Option, none, some, List, [], ◌∷◌, arith,
}
use burnrate.Prelude.Tests.{if◌then◌else◌, ltb}
use burnrate.Prelude.Lists.{any, length}
use burnrate.Prelude.Text.{Text, no_text, trim_space}
use burnrate.Claude.{
  Event, Denial, denial_from, denial_or, denial_from_event, denied_tool_use_id,
  permission_denied_from_event, interrupt_from_event, is_tool_result_event,
}

abbrev pub log_tail_lines : ℕ
log_tail_lines = 40

-- The last `n` of a list, as `tail = tail[1:]` keeps them.
unfoldable pub last_lines : ℕ → List Text → List Text
last_lines n [] = []
last_lines n (x ∷ xs) = let rest = last_lines n xs in if ltb (length xs) n then x ∷ xs else rest

-- What is noted after a line: a denial, else the first interruption, else nothing after a tool's result.
abbrev pub noted : Text → Option Denial → Text → Bool → Text
noted msg (some d) interrupt worked = d.message
noted msg none (c ∷ cs) worked = if no_text msg then c ∷ cs else msg
noted msg none [] true = []
noted msg none [] false = msg

abbrev pub decoded : (Text → Option Event) → List Text → List (Option Event)
decoded decode [] = []
decoded decode (l ∷ ls) = decode l ∷ decoded decode ls

abbrev pub nonblank : List Text → List Text
nonblank [] = []
nonblank (l ∷ ls) =
    let rest = nonblank ls in if no_text (trim_space l) then rest else trim_space l ∷ rest

module _ (lower : ℕ → ℕ) where
  -- A line that is no JSON event counts for nothing.
  unfoldable pub on_line : Text → Option Event → Text
  unfolding denial_from interrupt_from_event is_tool_result_event
  on_line msg none = msg
  on_line msg (some evt) =
      noted msg (denial_from lower evt) (interrupt_from_event lower evt) (is_tool_result_event evt)

  unfoldable pub noted_last : Text → List (Option Event) → Text
  unfolding on_line
  noted_last msg [] = msg
  noted_last msg (l ∷ ls) = noted_last (on_line msg l) ls

  -- `LogEndedInterrupted`, of the lines of the file.
  unfoldable pub log_ended_interrupted : (Text → Option Event) → List Text → Bool × Text
  unfolding noted_last last_lines trim_space
  log_ended_interrupted decode lines =
      let msg = noted_last [] (decoded decode (last_lines log_tail_lines (nonblank lines))) in
      (not (no_text msg), msg)

  -- The independent description: a sign of an interruption, with no work after it.
  abbrev pub is_denial : Option Denial → Bool
  is_denial none = false
  is_denial (some d) = true

  abbrev pub is_sign : Option Event → Bool
  is_sign none = false
  is_sign (some evt) =
      is_denial (denial_from lower evt) || not (no_text (interrupt_from_event lower evt))

  abbrev pub is_work : Option Event → Bool
  is_work none = false
  is_work (some evt) = not (is_sign (some evt)) && is_tool_result_event evt

  -- The events after the last work, or all.
  unfoldable pub since_work : List (Option Event) → List (Option Event)
  since_work [] = []
  since_work (l ∷ ls) =
      let rest = since_work ls in if any is_work ls then rest else if is_work l then ls else l ∷ ls

  -- A denial has a message.
  denial_or-message :
      (m id : Text) (o : Option Denial) (d : Denial)
      → ((d : Denial) → o ≡ some d → no_text d.message ≡ false)
      → denial_or m id o ≡ some d
      → no_text d.message ≡ false
  denial_or-message [] id o d h k = h d k
  denial_or-message (c ∷ cs) id o d h k = cc

  denial_from-message :
      (evt : Event) (d : Denial) → denial_from lower evt ≡ some d → no_text d.message ≡ false
  unfolding denial_from
  denial_from-message evt d h =
      let message = denial_from_event lower evt in
      let id = denied_tool_use_id lower evt in
      denial_or-message (permission_denied_from_event lower evt) evt.tool_use_id
        (denial_or message id none) d (λ d k. denial_or-message message id none d (λ d k. cc) k) h

  noted_empty :
      (msg : Text) (o : Option Denial) (interrupt : Text) (worked : Bool)
      → ((d : Denial) → o ≡ some d → no_text d.message ≡ false)
      → no_text (noted msg o interrupt worked) ≡ (
          if is_denial o || not (no_text interrupt)
          then false
          else if worked
          then true
          else no_text msg)
  noted_empty msg (some d) interrupt worked h = h d refl
  noted_empty [] none (c ∷ cs) worked h = refl
  noted_empty (m ∷ ms) none (c ∷ cs) worked h = refl
  noted_empty msg none [] true h = refl
  noted_empty msg none [] false h = refl

  on_line-empty :
      (msg : Text) (l : Option Event)
      → no_text (on_line msg l)
        ≡ (if is_sign l then false else if is_work l then true else no_text msg)
  unfolding on_line
  on_line-empty msg none = refl
  on_line-empty msg (some evt) = ground (
    arith,
    noted_empty msg (denial_from lower evt) (interrupt_from_event lower evt)
        (is_tool_result_event evt) (denial_from-message evt),
  )

  noted_last-empty :
      (ls : List (Option Event)) (msg : Text)
      → no_text (noted_last msg ls) ≡ (
          if any is_work ls
          then not (any is_sign (since_work ls))
          else not (any is_sign ls) && no_text msg)
  unfolding noted_last since_work
  noted_last-empty [] msg = refl
  noted_last-empty (l ∷ ls) msg =
      ground (arith, noted_last-empty ls (on_line msg l), on_line-empty msg l)

  since_work-all : (ls : List (Option Event)) → any is_work ls ≡ false → since_work ls ≡ ls
  unfolding since_work
  since_work-all [] h = refl
  since_work-all (l ∷ ls) h = ground (arith, h)

  -- A log is reported as ended on an interruption just when, among its last forty lines, a denial or an
  -- interruption stands after the last line that shows a tool at work, or none of them does.
  pub log_ended_interrupted-since_work :
      (decode : Text → Option Event) (lines : List Text)
      → (log_ended_interrupted decode lines).0
        ≡ any is_sign (since_work (decoded decode (last_lines log_tail_lines (nonblank lines))))
  unfolding log_ended_interrupted
  log_ended_interrupted-since_work decode lines =
      let ls = decoded decode (last_lines log_tail_lines (nonblank lines)) in
      ground (arith, noted_last-empty ls [], since_work-all ls)
