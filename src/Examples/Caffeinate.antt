-- ===== src/Examples/Caffeinate.antt =====
-- The process that keeps the machine awake, at concrete inputs.
use burnrate.Prelude.{◌≡◌, refl, true, none, some, List, [], ◌∷◌}
use burnrate.Caffeinate.{Manager, Automatic, react_all}
use burnrate.Caffeinate.Hold.{react_all-manual}
use burnrate.Examples.Data.{noon}

abbrev by_hand : Manager
by_hand = record { cmd = some 77; started_at = noon; manual = true; reason = "manual" }

abbrev evening : List Automatic
evening = Automatic.follows (some 78) noon 2 ∷ Automatic.follows none noon 0 ∷ Automatic.stops ∷ []

react_all-manual_example :
    ((react_all evening by_hand).cmd ≡ some 77) × ((react_all evening by_hand).manual ≡ true)
react_all-manual_example = react_all-manual evening by_hand 77 refl refl
