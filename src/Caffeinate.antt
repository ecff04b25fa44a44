-- ===== src/Caffeinate.antt =====
-- internal/caffeinate/caffeinate.go: the process that keeps the machine awake. Whether a process
-- starts, and as which pid, is a parameter of the calls that may start one.
pub mod Hold
use burnrate.Prelude.{
  ℕ, Bool, true, false, not, ◌&&◌, ◌||◌, Option, none, some, List, [], ◌∷◌, String,
}
use burnrate.Prelude.Tests.{◌==◌, ltb, if◌then◌else◌}
use burnrate.Scheduling.Types.{Time}

pub record Manager : Type 0 where
  pub cmd : Option ℕ
  pub started_at : Time
  pub manual : Bool
  pub reason : String

abbrev pub active : Manager → Bool
active m = elim m.cmd [ none ↦ false | some _ ↦ true ]

unfoldable pub spawn : Option ℕ → Time → String → Bool → Manager → Manager
spawn none now reason manual m = m
spawn (some pid) now reason manual m = record {
  cmd = some pid;
  started_at = now;
  manual = manual;
  reason = reason;
}

unfoldable pub kill : Manager → Manager
kill m = record m { cmd = none; manual = false; reason = "" }

unfoldable pub start : Option ℕ → Time → String → Bool → Manager → Manager
unfolding spawn
start pid now reason manual m =
    if active m
    then record m { reason = reason; manual = m.manual || manual }
    else spawn pid now reason manual m

unfoldable pub stop : Bool → Manager → Manager
unfolding kill
stop force m = if not (active m) then m else if m.manual && not force then m else kill m

unfoldable pub set_automatic : Option ℕ → Time → ℕ → Manager → Manager
unfolding spawn kill
set_automatic pid now running m =
    if ltb 0 running && not (active m)
    then spawn pid now "tasks running" false m
    else if running == 0 && active m && not m.manual
    then kill m
    else m

unfoldable pub toggle : Option ℕ → Time → Manager → Manager × Bool
unfolding spawn kill
toggle pid now m = if active m then (kill m, false) else (spawn pid now "manual" true m, true)

unfoldable pub shutdown : Manager → Manager
unfolding kill
shutdown m = if active m then kill m else m

-- The goroutine that waits for the process: it has ended by itself.
unfoldable pub exited : ℕ → Manager → Manager
exited pid m = elim m.cmd [ none ↦ m | some p ↦ if p == pid then record m { cmd = none } else m ]

-- What may be asked with no user behind it while the daemon serves: that the number of running tasks
-- be followed, and, though nothing calls them so far, a start and a stop without force. `Shutdown`,
-- which serve.go defers to the end of the daemon, is not among these.
pub data Automatic : Type 0 where
  starts : Option ℕ → Time → String → Bool → Automatic
  stops : Automatic
  follows : Option ℕ → Time → ℕ → Automatic

unfoldable pub react : Automatic → Manager → Manager
react (Automatic.starts pid now reason manual) m = start pid now reason manual m
react Automatic.stops m = stop false m
react (Automatic.follows pid now running) m = set_automatic pid now running m

unfoldable pub react_all : List Automatic → Manager → Manager
react_all [] m = m
react_all (a ∷ later) m = react_all later (react a m)
