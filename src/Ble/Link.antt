-- ===== src/Ble/Link.antt =====
-- The connection to the display: `runLoop`, a round of which scans, connects and serves. How a round
-- ends is given; while the context lives.
use burnrate.Prelude.{ℕ, ◌+◌, ◌*◌, ◌≤◌, ◌<◌, Bool, true, false, List, [], ◌∷◌, min, arith}
use burnrate.Prelude.Tests.{leb, if◌then◌else◌}
use burnrate.Scheduler.State.{second}

abbrev pub serial_reset_after_scans : ℕ
serial_reset_after_scans = 3

abbrev pub max_backoff : ℕ
max_backoff = 60 * second

-- The loop's variables, the wait before the next round, and how often the device was reset.
pub record Link : Type 0 where
  pub backoff : ℕ
  pub failed_scans : ℕ
  pub waited : ℕ
  pub resets : ℕ

abbrev pub fresh_link : Link
fresh_link = record { backoff = second; failed_scans = 0; waited = 0; resets = 0 }

abbrev after_round : Bool → Link → Link
after_round true l = record l { backoff = second; failed_scans = 0 }
after_round false l =
    if leb serial_reset_after_scans (l.failed_scans + 1)
    then record l { failed_scans = 0; resets = l.resets + 1 }
    else record l { failed_scans = l.failed_scans + 1 }

abbrev backed_off : Link → Link
backed_off l = record l { waited = l.backoff; backoff = min (l.backoff * 2) max_backoff }

-- A round, which was connected or not, and the wait after it.
unfoldable pub round : Link → Bool → Link
round l was_connected = backed_off (after_round was_connected l)

unfoldable pub run_loop : Link → List Bool → Link
unfolding round
run_loop l [] = l
run_loop l (b ∷ bs) = run_loop (round l b) bs

-- The waits stay between a second and a minute.
pub record IsPaced (l : Link) : Type 0 where
  pub least : second ≤ l.backoff
  pub most : l.backoff ≤ max_backoff
  pub below : l.failed_scans < serial_reset_after_scans

round-IsPaced : (l : Link) (b : Bool) → IsPaced l → IsPaced (round l b)
unfolding round
round-IsPaced l true h = ground arith
round-IsPaced l false h = ground arith

pub run_loop-IsPaced : (l : Link) (bs : List Bool) → IsPaced l → IsPaced (run_loop l bs)
unfolding run_loop
run_loop-IsPaced l [] h = h
run_loop-IsPaced l (b ∷ bs) h = run_loop-IsPaced (round l b) bs (round-IsPaced l b h)
