-- ===== src/Scheduling/Gate.antt =====
-- `globalGate` and `WindowStateFor` of internal/scheduling/scheduling.go.
use burnrate.Prelude.{ℕ, Bool, not, ◌&&◌, ◌||◌, Option, none, some}
use burnrate.Prelude.Tests.{leb, ltb, if◌then◌else◌}
use burnrate.Prelude.Int.{pos, ltb_ℤ}
use burnrate.Scheduling.Types.{
  is_zero, sub_time, Reason, ReasonCode, ReasonText, reasonf, WindowState, Snapshot, Input,
}

abbrev stale : Input → Snapshot → Bool
stale input snap =
    ltb_ℤ (pos 0) input.policy.max_snapshot_age
    && ltb_ℤ input.policy.max_snapshot_age (sub_time input.now snap.captured_at)

abbrev session_reason : Input → Snapshot → Reason
session_reason input snap =
    if not (is_zero snap.session_resets_at) && ltb input.now snap.session_resets_at
    then reasonf ReasonCode.session_exhausted (
        ReasonText.session_spent_until snap.session_util
          (sub_time snap.session_resets_at input.now))
    else reasonf ReasonCode.session_exhausted (ReasonText.session_spent snap.session_util)

gate_of_snapshot : Input → Snapshot → Reason
gate_of_snapshot input snap =
    if stale input snap
    then reasonf ReasonCode.stale_usage_data
        (ReasonText.reading_old (sub_time input.now snap.captured_at))
    else if leb input.policy.session_threshold snap.session_util
    then session_reason input snap
    else if leb input.policy.weekly_threshold snap.weekly_util
    then reasonf ReasonCode.weekly_exhausted (ReasonText.weekly_spent snap.weekly_util)
    else if not (is_zero input.weekly_backoff_until) && ltb input.now input.weekly_backoff_until
    then reasonf ReasonCode.weekly_backoff
        (ReasonText.weekly_backoff_left (sub_time input.weekly_backoff_until input.now))
    else reasonf ReasonCode.ready ReasonText.ready_text

unfoldable pub global_gate : Input → Reason
unfolding gate_of_snapshot
global_gate input = elim input.snapshot [
  | none ↦ reasonf ReasonCode.no_usage_data ReasonText.waiting_first_reading
  | some snap ↦ gate_of_snapshot input snap
]

unfoldable pub window_state_for : Option Snapshot → ℕ → WindowState
window_state_for none threshold = WindowState.idle
window_state_for (some snap) threshold =
    if leb threshold snap.session_util
    then WindowState.saturated
    else if ltb 0 snap.session_util || not (is_zero snap.session_resets_at)
    then WindowState.open_
    else WindowState.idle
