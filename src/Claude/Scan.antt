-- ===== src/Claude/Scan.antt =====
-- What holds of the scan of claude's output at any time.
use burnrate.Prelude.{
  ℕ, ◌+◌, ◌≤◌, ◌≡◌, ◌⊎◌, inl, inr, refl, sym, ap, ◌∙◌, Bool, true, false, not, ◌&&◌, Option, none,
  some, List, [], ◌∷◌, ◌++◌, String, arith,
}
use mathlib.Core.Path.{subst}
use burnrate.Prelude.Tests.{leb, if◌then◌else◌, either, Bool-cases}
use burnrate.Prelude.Text.{Text, codes, no_text, text_eq, is_set, trim_space}
use burnrate.Claude.{Event, Denial, denial_from}
use burnrate.Claude.Stream.{
  Stream, Line, opened, on_denial, on_session, on_model, on_result, on_idle, idled, busy,
  after_denial, on_line, limited, warned, scan, max_idle_cycles, is_idle_cycle,
}

-- Of whether `OnSessionID` was called, with what, and the session of the result.
abbrev pub OnceOf : Bool → List String → String → Type 0
OnceOf fired reported session =
    ((fired ≡ false) × (reported ≡ [])) ⊎ ((fired ≡ true) × (reported ≡ session ∷ []))

abbrev pub Once : Stream → Type 0
Once s = OnceOf s.session_id_fired s.reported s.result.session_id

-- Of the idle cycles counted, and whether they killed the process.
abbrev pub Idle : Stream → Type 0
Idle s = (s.idle_cycles ≤ max_idle_cycles) × (s.idle_killed ≡ leb max_idle_cycles s.idle_cycles)

on_session-again : (s : Stream) (evt : Event) → s.session_id_fired ≡ true → on_session s evt ≡ s
unfolding on_session
on_session-again s evt h = ground (arith, h)

Once-on_session : (s : Stream) (evt : Event) → Once s → Once (on_session s evt)
unfolding on_session
Once-on_session s evt (inr h) = subst Once (sym (on_session-again s evt h.0)) (inr h)
Once-on_session s evt (inl h) =
    either Once
      (not s.session_id_fired && text_eq evt.type (codes "system") && is_set evt.session_id) _ s
      (inr (refl, ap (λ l. l ++ evt.session_id ∷ []) h.1)) (inl h)

one_more : (s : Stream) → Idle s → s.idle_killed ≡ false → s.idle_cycles + 1 ≤ max_idle_cycles
one_more s h k = ground (arith, h.0, h.1, k)

Both : Stream → Type 0
Both s = Once s × Idle s

module _ (lower : ℕ → ℕ) (resumes : Bool) where
  Both-on_denial : (s : Stream) (d : Denial) → Both s → Both (on_denial s d)
  unfolding on_denial Both
  Both-on_denial s d h = either Both _ _ _ h h

  Both-after_denial :
      (s : Stream) (evt : Event) (o : Option Denial)
      → Both s
      → Both (after_denial lower resumes s evt o)
  unfolding Both
  Both-after_denial s evt (some d) h = Both-on_denial s d h
  Both-after_denial s evt none h = either Both _ _ s h h

  Both-on_model : (s : Stream) (evt : Event) → Both s → Both (on_model s evt)
  unfolding Both
  Both-on_model s evt h = either Both _ _ s h h

  Both-on_result : (s : Stream) (evt : Event) → Both s → Both (on_result lower resumes s evt)
  unfolding on_result Both
  Both-on_result s evt h = either Both _ _ s h h

  Both-on_session : (s : Stream) (evt : Event) → Both s → Both (on_session s evt)
  unfolding on_session Both
  Both-on_session s evt h = (Once-on_session s evt h.0, either Idle _ _ s h.1 h.1)

  Both-on_idle : (s : Stream) (evt : Event) → s.idle_killed ≡ false → Both s → Both (on_idle s evt)
  unfolding on_idle Both
  Both-on_idle s evt k h =
      let rests = not (text_eq evt.type (codes "system")) && not (no_text evt.type) in
      either Both (is_idle_cycle evt) (idled s) (if rests then busy s else s)
        (h.0, (one_more s h.1 k, refl)) (either Both rests (busy s) s (h.0, (omega arith, k)) h)

  Both-limited : (s : Stream) (evt : Event) → Both s → Both (limited s evt)
  unfolding Both
  Both-limited s evt h = h

  Both-warned : (s : Stream) (message : Text) → Both s → Both (warned s message)
  unfolding Both
  Both-warned s message h = h

  killed-on_model : (s : Stream) (evt : Event) → (on_model s evt).idle_killed ≡ s.idle_killed
  killed-on_model s evt = either (λ (t : Stream). t.idle_killed ≡ s.idle_killed) _ _ s refl refl

  killed-on_result :
      (s : Stream) (evt : Event) → (on_result lower resumes s evt).idle_killed ≡ s.idle_killed
  unfolding on_result
  killed-on_result s evt = either (λ (t : Stream). t.idle_killed ≡ s.idle_killed) _ _ s refl refl

  killed-on_session : (s : Stream) (evt : Event) → (on_session s evt).idle_killed ≡ s.idle_killed
  unfolding on_session
  killed-on_session s evt = either (λ (t : Stream). t.idle_killed ≡ s.idle_killed) _ _ s refl refl

  killed-after_denial :
      (s : Stream) (evt : Event) (o : Option Denial)
      → (after_denial lower resumes s evt o).idle_killed ≡ s.idle_killed
  unfolding on_denial
  killed-after_denial s evt (some d) =
      either (λ (t : Stream). t.idle_killed ≡ s.idle_killed) _ _ _ refl refl
  killed-after_denial s evt none =
      either (λ (t : Stream). t.idle_killed ≡ s.idle_killed) _ _ s refl refl

  Both-on_line :
      (s : Stream) (l : Option Event)
      → s.idle_killed ≡ false
      → Both s
      → Both (on_line lower resumes s l)
  unfolding on_line
  Both-on_line s none k h = h
  Both-on_line s (some evt) k h =
      let s0 = limited s evt in
      let s1 = after_denial lower resumes s0 evt (denial_from lower evt) in
      let s2 = on_session s1 evt in
      let s3 = on_model s2 evt in
      Both-on_idle (on_result lower resumes s3 evt) evt
        (killed-on_result s3 evt
          ∙ killed-on_model s2 evt
          ∙ killed-on_session s1 evt
          ∙ killed-after_denial s0 evt (denial_from lower evt)
          ∙ k)
        (Both-on_result s3 evt (
          Both-on_model s2 evt (
            Both-on_session s1 evt
              (Both-after_denial s0 evt (denial_from lower evt) (Both-limited s evt h)))))

  Both-scan : (ls : List Line) (s : Stream) → Both s → Both (scan lower resumes s ls)
  unfolding scan
  Both-scan [] s h = h
  Both-scan (Line.out l ∷ ls) s h = Both-scan ls _ (elim (Bool-cases s.idle_killed) [
    | inl k ↦ subst Both (sym (rest k)) h
    | inr k ↦ subst Both (sym (read k)) (Both-on_line s l k h)
  ])
    where
      rest : s.idle_killed ≡ true → (if s.idle_killed then s else on_line lower resumes s l) ≡ s
      rest k = ground (arith, k)

      read :
          s.idle_killed ≡ false
          → (if s.idle_killed then s else on_line lower resumes s l) ≡ on_line lower resumes s l
      read k = ground (arith, k)
  Both-scan (Line.err l ∷ ls) s h =
      Both-scan ls _ (either Both _ _ s (Both-warned s (trim_space l) h) h)

  -- However the lines of both pipes come, the scan reports a session at most once, and then the one of
  -- its result; it never counts more idle cycles in a row than the limit, and it has killed the process
  -- for idling just when it has counted that many.
  pub scan-Once-Idle :
      (ls : List Line) → Once (scan lower resumes opened ls) × Idle (scan lower resumes opened ls)
  unfolding Both
  scan-Once-Idle ls = Both-scan ls opened (inl (refl, refl), (omega arith, refl))
