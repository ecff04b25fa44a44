-- ===== src/Scheduling/Sessions.antt =====
-- When the detector reports a new session.
use burnrate.Prelude.{
  ℕ, ◌+◌, ◌≤◌, ◌<◌, ◌≡◌, ◌≢◌, ◌⊎◌, ◌↔◌, Bool, true, false, ◌||◌, List, [], ◌∷◌, refl, arith,
}
use burnrate.Prelude.Lists.{All}
use burnrate.Scheduling.Types.{Time, Snapshot}
use burnrate.Scheduling.Reset.{ResetDetector, observe, reset_util_drop, reset_advance_epsilon}

-- A reading starts a session exactly when its reset time is known and lies more than two minutes
-- behind the last one known, or its utilization is more than forty points under the last.
pub observe_iff :
    (d : ResetDetector) (snap : Snapshot)
    → ((observe d snap).1 ≡ true) ↔ (
        (d.last_reset ≢ 0)
          × (snap.session_resets_at ≢ 0)
          × (d.last_reset + reset_advance_epsilon < snap.session_resets_at)
        ⊎ (snap.session_util + reset_util_drop < d.last_util))
unfolding observe
observe_iff d snap = ground arith

-- One reading is one session: seen again, it starts none.
pub observe_again :
    (d : ResetDetector) (snap : Snapshot) → (observe (observe d snap).0 snap).1 ≡ false
unfolding observe
observe_again d snap = ground arith

-- Whether any of the readings, observed in turn, starts a session.
pub any_reset : ResetDetector → List Snapshot → Bool
any_reset d [] = false
any_reset d (s ∷ ss) = let rest = any_reset (observe d s).0 ss in (observe d s).1 || rest

-- A reading within forty points of utilization and two minutes of reset time.
abbrev pub InBand : ℕ → Time → Snapshot → Type 0
InBand util reset s =
    (util ≤ s.session_util)
    × (s.session_util ≤ util + reset_util_drop)
    × (reset ≤ s.session_resets_at)
    × (s.session_resets_at ≤ reset + reset_advance_epsilon)

band_step :
    (util : ℕ) (reset : Time) (d : ResetDetector) (s : Snapshot)
    → d.last_util ≤ util + reset_util_drop
    → reset ≤ d.last_reset
    → InBand util reset s
    → ((observe d s).1 ≡ false)
      × ((observe d s).0.last_util ≤ util + reset_util_drop)
      × (reset ≤ (observe d s).0.last_reset)
unfolding observe
band_step util reset d s u r b = ground arith

-- Readings that jitter within a band of forty points and two minutes start no session, however many
-- they are, if the detector's last reading is not above the band and its last reset not before it.
pub any_reset-InBand :
    (util : ℕ) (reset : Time) (d : ResetDetector) (ss : List Snapshot)
    → d.last_util ≤ util + reset_util_drop
    → reset ≤ d.last_reset
    → All (InBand util reset) ss
    → any_reset d ss ≡ false
unfolding any_reset
any_reset-InBand util reset d [] u r bs = refl
any_reset-InBand util reset d (s ∷ ss) u r (b, bs) =
    let (quiet, u', r') = band_step util reset d s u r b in
    rw quiet (any_reset-InBand util reset (observe d s).0 ss u' r' bs)
