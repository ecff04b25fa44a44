-- ===== src/Examples/Recovery.antt =====
-- The sweep after a restart, at a concrete store.
use burnrate.Prelude.{ℕ, ◌≡◌, refl, true, some, [], ◌∷◌}
use burnrate.Prelude.Lists.{All}
use burnrate.Prelude.Text.{codes, is_space}
use burnrate.Prelude.Table.{row}
use burnrate.Store.Tasks.{get_task}
use burnrate.Domain.{Run, RunStatus}
use burnrate.Store.Tables.{Store}
use burnrate.Store.Runs.{get_run}
use burnrate.Store.Statuses.{Same, run_status}
use burnrate.Recovery.{Checkouts, sweep}
use burnrate.Recovery.Kept.{Ours, sweep-Sound}
use burnrate.Examples.Data.{desk, run_of, noon}

abbrev checkouts : Checkouts
checkouts = record {
  stat = λ path. true;
  default_branch = λ repo. [];
  has_unpushed = λ path base. some true;
  pushes = λ path branch. true;
  viewed = λ path branch. [];
  created = λ path branch base title. some (codes "https://example.org/7");
}

abbrev interrupted : Run
interrupted = record (run_of 1 1 RunStatus.errored) {
  worktree_path = "/w/1";
  branch = codes "burnrate/1";
}

abbrev left : Store
left = record desk { runs = interrupted ∷ run_of 2 2 RunStatus.running ∷ [] }

sweep-Sound_example :
    ((id run_id : ℕ) → Same id run_id left (sweep checkouts noon left).store)
    × All Ours (sweep checkouts noon left).pushed
unfolding run_status get_run row
sweep-Sound_example = sweep-Sound checkouts noon left (refl, (refl, tt))

pushed_branch : (sweep checkouts noon left).pushed ≡ interrupted ∷ []
unfolding sweep get_task row is_space
pushed_branch = refl
