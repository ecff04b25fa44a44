-- ===== src/Scheduling/Reset.antt =====
-- internal/scheduling/reset.go: the detector of the edge into a new session.
use burnrate.Prelude.{ℕ, ◌-◌, ◌*◌, Bool, not, ◌&&◌, ◌||◌}
use burnrate.Prelude.Tests.{ltb, if◌then◌else◌}
use burnrate.Prelude.Int.{pos, ltb_ℤ}
use burnrate.Scheduling.Types.{Time, is_zero, sub_time, minute, percent, Snapshot}

abbrev pub reset_util_drop : ℕ
reset_util_drop = 40 * percent

abbrev pub reset_advance_epsilon : ℕ
reset_advance_epsilon = 2 * minute

pub record ResetDetector : Type 0 where
  pub last_util : ℕ
  pub last_reset : Time

-- `lastUtil - resetUtilDrop` is negative below 40%, where no utilization is under it: the
-- subtraction that stops at 0 gives the same test.
unfoldable pub observe : ResetDetector → Snapshot → ResetDetector × Bool
observe d snap =
    let advanced =
      not (is_zero d.last_reset)
      && not (is_zero snap.session_resets_at)
      && ltb_ℤ (pos reset_advance_epsilon) (sub_time snap.session_resets_at d.last_reset) in
    let dropped = ltb 0 d.last_util && ltb snap.session_util (d.last_util - reset_util_drop) in
    (
      record {
        last_util = snap.session_util;
        last_reset =
            if is_zero snap.session_resets_at then d.last_reset else snap.session_resets_at;
      },
      advanced || dropped,
    )
