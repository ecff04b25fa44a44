-- ===== src/Ble/Tidy.antt =====
-- The files of the recordings, and the watchdogs.
use burnrate.Prelude.{
  ℕ, ◌≡◌, ◌<◌, inl, inr, refl, ap, ◌∙◌, Bool, true, not, ◌&&◌, Option, none, some, List, [], ◌∷◌,
  map, arith,
}
use burnrate.Prelude.Tests.{◌==◌, either, Bool-cases}
use burnrate.Prelude.Lists.{keep, any, All}
use burnrate.Prelude.Text.{Text, codes, text_eq}
use burnrate.Ble.Recording.{
  Taken, Recorder, Setup, Notice, idle, is_of, without, start_recording, abort_recording,
  stop_recording, end_recording, handle_mic_notification, handle, handle_all, to_upper, started,
}

abbrev number : Taken → ℕ
number t = t.recording

-- The files, by the recording in progress.
abbrev pub Held : Option ℕ → Recorder → Type 0
Held none b = (b.files ≡ map number b.ending) × All (λ (t : Taken). t.recording < b.next) b.ending
Held (some n) b =
    (b.files ≡ n ∷ map number b.ending)
    × All (λ (t : Taken). t.recording < n) b.ending
    × (n < b.next)

abbrev pub Tidy : Recorder → Type 0
Tidy b = (b.rec_file ≡ b.rec_cmd) × Held b.rec_cmd b

Below-le :
    (k n : ℕ) (ts : List Taken)
    → k < n
    → All (λ (t : Taken). t.recording < k) ts
    → All (λ (t : Taken). t.recording < n) ts
Below-le k n [] h p = tt
Below-le k n (t ∷ ts) h p = (omega (arith, p.0), Below-le k n ts h p.1)

Below-keep :
    (n : ℕ) (p : Taken → Bool) (ts : List Taken)
    → All (λ (t : Taken). t.recording < n) ts
    → All (λ (t : Taken). t.recording < n) (keep p ts)
Below-keep n p [] h = tt
Below-keep n p (t ∷ ts) h =
    either (All (λ (t : Taken). t.recording < n)) (p t) _ _ (h.0, Below-keep n p ts h.1)
      (Below-keep n p ts h.1)

Below-any :
    (k n : ℕ) (ts : List Taken)
    → All (λ (t : Taken). t.recording < n) ts
    → any (is_of k) ts ≡ true
    → k < n
Below-any k n [] h e = cc
Below-any k n (t ∷ ts) h e = ground (arith, Below-any k n ts)

keep-map :
    (n : ℕ) (ts : List Taken)
    → keep (λ (f : ℕ). not (f == n)) (map number ts)
      ≡ map number (keep (λ (t : Taken). not (is_of n t)) ts)
keep-map n [] = refl
keep-map n (t ∷ ts) = ground (arith, keep-map n ts)

keep-current :
    (n k : ℕ) (ts : List Taken)
    → n < k
    → keep (λ (f : ℕ). not (f == n)) (k ∷ map number ts)
      ≡ k ∷ map number (keep (λ (t : Taken). not (is_of n t)) ts)
keep-current n k ts h = ground (arith, keep-map n ts)

module _ (b : Recorder) where
  abbrev held_by : Option ℕ → Recorder
  held_by o = record b { rec_cmd = o }

  Tidy-start : (u : Setup) (o : Option ℕ) → Tidy (held_by o) → Tidy (start_recording u (held_by o))
  unfolding start_recording
  Tidy-start u none h =
      either Tidy u.makes_file _ _
        (either Tidy (u.has_recorder && u.starts) (started (held_by none))
          (record b { rec_cmd = none; rec_file = none })
          (refl, (ap (λ (l : List ℕ). b.next ∷ l) h.1.0, h.1.1, omega arith)) (refl, h.1))
        h
  Tidy-start u (some n) h = h

  abbrev filed : ℕ → Option ℕ → Recorder
  filed n f = record b { rec_cmd = some n; rec_file = f }

  Tidy-stop_filed : (n : ℕ) (f : Option ℕ) → Tidy (filed n f) → Tidy (stop_recording (filed n f))
  unfolding stop_recording
  Tidy-stop_filed n none h = let e : none ≡ some n = h.0 in cc
  Tidy-stop_filed n (some m) h = (refl, (h.1.0, (h.1.2, Below-le n b.next b.ending h.1.2 h.1.1)))

  Tidy-stop : (o : Option ℕ) → Tidy (held_by o) → Tidy (stop_recording (held_by o))
  unfolding stop_recording
  Tidy-stop none h = (refl, h.1)
  Tidy-stop (some n) h = Tidy-stop_filed n b.rec_file h

  Tidy-abort : (o : Option ℕ) → Tidy (held_by o) → Tidy (abort_recording (held_by o))
  unfolding abort_recording
  Tidy-abort none h = (refl, h.1)
  Tidy-abort (some n) h = (refl, (h.1.0, (h.1.2, Below-le n b.next b.ending h.1.2 h.1.1)))

  Tidy-end :
      (n : ℕ) (text : Option Text) (posts : Bool) (o : Option ℕ)
      → Tidy (held_by o)
      → Tidy (end_recording n text posts (held_by o))
  unfolding end_recording
  Tidy-end n text posts none h =
      either Tidy (any (is_of n) b.ending) _ _
        (
          h.0,
          (
            ap (keep (λ (f : ℕ). not (f == n))) h.1.0 ∙ keep-map n b.ending,
            Below-keep b.next (λ (t : Taken). not (is_of n t)) b.ending h.1.1,
          ),
        )
        h
  Tidy-end n text posts (some k) h = elim (Bool-cases (any (is_of n) b.ending)) [
    | inl e ↦ rw e (
      h.0,
      (
        ap (keep (λ (f : ℕ). not (f == n))) h.1.0
            ∙ keep-current n k b.ending (Below-any n k b.ending h.1.1 e),
        Below-keep k (λ (t : Taken). not (is_of n t)) b.ending h.1.1,
        h.1.2,
      ),
    )
    | inr e ↦ rw e h
  ]

Held-without : (n : ℕ) (b : Recorder) (o : Option ℕ) → Held o b → Held o (without n b)
Held-without n b none h = h
Held-without n b (some k) h = h

Tidy-without : (n : ℕ) (b : Recorder) → Tidy b → Tidy (without n b)
Tidy-without n b h = (h.0, Held-without n b b.rec_cmd h.1)

module _ (upper : ℕ → ℕ) where
  Tidy-handle_mic_notification :
      (u : Setup) (msg : Text) (b : Recorder)
      → Tidy b
      → Tidy (handle_mic_notification upper u msg b)
  unfolding handle_mic_notification
  Tidy-handle_mic_notification u msg b h =
      either Tidy (text_eq (to_upper upper msg) (codes "START")) _ _ (Tidy-start b u b.rec_cmd h)
        (either Tidy (text_eq (to_upper upper msg) (codes "STOP")) _ _ (Tidy-stop b b.rec_cmd h) h)

  Tidy-handle : (b : Recorder) (e : Notice) → Tidy b → Tidy (handle upper b e)
  unfolding handle
  Tidy-handle b (Notice.notified u msg) h = Tidy-handle_mic_notification u msg b h
  Tidy-handle b (Notice.limit_reached n) h =
      either Tidy (any (λ (k : ℕ). k == n) b.watchdogs) _ _
        (Tidy-stop (without n b) b.rec_cmd (Tidy-without n b h)) h
  Tidy-handle b (Notice.canceled n) h =
      either Tidy (any (λ (k : ℕ). k == n) b.watchdogs) _ _
        (Tidy-abort (without n b) b.rec_cmd (Tidy-without n b h)) h
  Tidy-handle b (Notice.ended n text posts) h = Tidy-end b n text posts b.rec_cmd h

  Tidy-handle_all : (b : Recorder) (es : List Notice) → Tidy b → Tidy (handle_all upper b es)
  unfolding handle_all
  Tidy-handle_all b [] h = h
  Tidy-handle_all b (e ∷ es) h = Tidy-handle_all (handle upper b e) es (Tidy-handle b e h)

  -- Whatever the button, the watchdogs and the ends of recordings do, in whatever order, the temporary
  -- files are those of the recording in progress, if there is one, and of the recordings that are
  -- still to be ended, each of another number: none is left over.
  pub handle_all-Tidy : (es : List Notice) → Tidy (handle_all upper idle es)
  handle_all-Tidy es = Tidy-handle_all idle es (refl, (refl, tt))
