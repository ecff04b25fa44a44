-- ===== src/Examples/PrStatus.antt =====
-- The pacing of pull request lookups at concrete inputs.
use burnrate.Prelude.{◌+◌, ◌*◌, ◌^◌, min, ◌≡◌, false, [], arith}
use burnrate.Prelude.Int.{pos}
use burnrate.Scheduling.Types.{minute}
use burnrate.Domain.{TaskPr, PrState}
use burnrate.Prelude.Text.{codes}
use burnrate.PrStatus.{Probe, probe_backoff, max_probe_backoff, should_probe, probed}
use burnrate.PrStatus.Pace.{probe_backoff-closed, probed-paced}
use burnrate.Examples.Data.{noon}

abbrev open_pr : TaskPr
open_pr = record {
  id = 1;
  task_id = 1;
  run_id = 1;
  repo = codes "o/r";
  branch = codes "b";
  pr_url = codes "https://github.com/o/r/pull/1";
  worked_in = [];
  created_at = 0;
  lines_added = 0;
  lines_removed = 0;
  pr_state = PrState.open_;
  pr_is_draft = false;
  pr_checked_at = 0;
  pr_probe_failures = 0;
}

abbrev merged_pr : TaskPr
merged_pr = record open_pr { pr_state = PrState.merged }

probe_backoff-closed_example :
    probe_backoff (4 * minute) 3 ≡ min (4 * minute * 2 ^ 3) max_probe_backoff
probe_backoff-closed_example = probe_backoff-closed (4 * minute) 3

probed-paced_example :
    should_probe (probed noon open_pr Probe.failed).0 (noon + minute) (pos (4 * minute)) false
    ≡ false
probed-paced_example =
    probed-paced open_pr Probe.failed noon (noon + minute) (4 * minute) (ground arith)
      (ground arith) (ground arith) (ground arith) (ground arith)
