-- ===== src/Caffeinate/Hold.antt =====
-- What the daemon may do to a process that a user has asked for.
use burnrate.Prelude.{ℕ, ◌<◌, ◌≡◌, ◌↔◌, ◌⊎◌, true, some, List, [], ◌∷◌, arith}
use burnrate.Scheduling.Types.{Time}
use burnrate.Caffeinate.{Manager, Automatic, active, start, stop, set_automatic, react, react_all}

react-manual :
    (a : Automatic) (m : Manager) (pid : ℕ)
    → m.cmd ≡ some pid
    → m.manual ≡ true
    → ((react a m).cmd ≡ some pid) × ((react a m).manual ≡ true)
unfolding react start stop set_automatic
react-manual (Automatic.starts p now reason manual) m pid c h = ground arith
react-manual Automatic.stops m pid c h = ground arith
react-manual (Automatic.follows p now running) m pid c h = ground arith

-- A process that a user has asked for outlives everything that the daemon does by itself before it
-- shuts down: it is the same process afterwards, and still the user's.
pub react_all-manual :
    (later : List Automatic) (m : Manager) (pid : ℕ)
    → m.cmd ≡ some pid
    → m.manual ≡ true
    → ((react_all later m).cmd ≡ some pid) × ((react_all later m).manual ≡ true)
unfolding react_all
react_all-manual [] m pid c h = (c, h)
react_all-manual (a ∷ later) m pid c h =
    let (c', h') = react-manual a m pid c h in react_all-manual later (react a m) pid c' h'

-- Told of the number of running tasks, a daemon that can start a process holds one exactly if
-- there are such tasks or a user has asked for the process that is there.
pub set_automatic-active :
    (pid : ℕ) (now : Time) (running : ℕ) (m : Manager)
    → (active (set_automatic (some pid) now running m) ≡ true)
      ↔ ((0 < running) ⊎ ((active m ≡ true) × (m.manual ≡ true)))
unfolding set_automatic
set_automatic-active pid now running m = ground arith
