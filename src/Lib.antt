-- ===== src/Lib.antt =====
-- burnrate runs queued coding tasks through Claude Code while the account's usage allows it. This
-- library models the Go daemon's core (internal/) and proves what it keeps to.
--
-- The parts and how they interact. A daemon keeps its rows in SQLite (internal/store). The HTTP API
-- and the agents' tools change them through the services (internal/service). The scheduler
-- (internal/scheduler) polls the usage API, settles the runs of an earlier daemon, hands what it
-- sees to a pure policy (internal/scheduling) and carries out the plan: runs are started, suspended
-- or given up. A run belongs to the runner (internal/runner): it makes a workspace, calls claude until
-- it is done or may not go on, and records what the run and its task come to.
--
-- Files:
--   Prelude            library names passed on; Prelude/Tests (Boolean tests), Lists, Int (ℤ over the
--                      native numbers), Table (rows and updates), Text, Number (strconv.Atoi),
--                      Wrap (int64)
--   Scheduling         internal/scheduling/scheduling.go and reset.go: Types, Gate (globalGate,
--                      WindowStateFor), Decide, Reset (ResetDetector.Observe), Interruption; proofs
--                      in Capacity, Verdicts, Explain, Sessions
--   Domain             internal/domain/models.go: the rows, statuses and EffectiveAttempt
--   Store              internal/store: Tables, Tasks, Runs, Comments, Requests, TaskPrs, Settings,
--                      Captures (one function for each method) and Streak (streak.go); lemmas in Laws
--                      and Statuses, proofs in Growth, Streak/Chains and
--                      Streak/Longest
--   Service            internal/service: Base (errors.go, the state), Transitions
--                      (ValidateStatusTransition), Tasks (task_service.go), Runs (run_service.go,
--                      comment_service.go), Requests with Requests/Marker and Await
--                      (request_service.go), Accounts (account_service.go), Captures
--                      (capture_service.go); the calls of these in UserCalls; proofs in Ownership,
--                      CancelSteps, UserSteps, Attempts, Replies,
--                      Settled, Await/Budget, Selection
--   Scheduler          internal/scheduler: State, Plan (plan.go, evaluate, fetchCandidates),
--                      Reconcile, Poll (tick, nextRateLimitDelay), Control (RunNow, the loop as
--                      events); proofs in Frames, Backoff, Limits, Orphans, Flights, Life, Manual
--   Runner             internal/runner/runner.go: State, Workspace and Launch (Run), Preflight
--                      (preflightError), Continue (invokeWithAutoContinue), Results and PrUrl (what
--                      a run reports), Recovery (recoverSingleWorktree, CheckpointAndRemove),
--                      Classify (classify and what it calls); Outcome is the table that classify
--                      keeps to; proofs in Frames, Settled, Replies, Budget, Cap, Started
--                      Effort is effort.go, with its proof
--   Git                internal/git/diffstat.go; lemmas in Git/Numstat
--   Server             internal/server/origin.go; the proof in Server/CrossSite
--   Config             internal/config/config.go: Load
--   Claude             internal/claude: denial.go, with its end of a log in Claude/Tail; resume.go in
--                      Claude/Resume; the loop of Invoke in Claude/Stream, its proof in Claude/Scan
--   Usage              internal/usage: Names and Keychain (keychain.go), Json and Refresh
--                      (refresh.go), Api (types.go), Client (client.go); proofs in Sources, Renewed
--   Recovery           internal/recovery/recovery.go: Sweep, CleanupStale; the proof in Recovery/Kept
--   Ble                internal/ble/ble.go: Recording (the voice recorder), Payload (what the display
--                      is sent), Link (runLoop); proofs in Tidy and Fit
--   Retention          internal/retention/retention.go: SweepOnce; the proof in Retention/Window
--   PrStatus           internal/prstatus/prstatus.go: shouldProbe, probeBackoff, refresh; proofs in
--                      PrStatus/Pace
--   Caffeinate         internal/caffeinate/caffeinate.go: the manager; proofs in Caffeinate/Hold
--   Examples           tests, and the theorems at concrete inputs
--
-- How code corresponds to definitions. A function keeps its name in the spelling of this library
-- (SetTaskStatus is set_task_status) and is a function from the state to the state and its result.
-- A SQL statement is an update of a table, which is a list of rows. What a call starts beside
-- itself (the cleanup of a worktree, a broadcast, a notification, the start of a run) is recorded
-- in the list `effects` or `acts` of the state. `inflight` in a service stands for the answers of
-- SchedulerGate.IsInflight. The loop of the scheduler is a sequence of events, and a waiting call a
-- sequence of events with the tables that each finds.
--
-- Numbers. An instant is a count of nanoseconds since Go's zero time, so IsZero is a test for 0. A
-- time.Duration is a signed count of nanoseconds, and Sub saturates as in Go. A utilization is a
-- whole number of millionths of a percent. Ids, counts and costs are natural numbers, and an id of
-- 0 is none. A sort_order, a float64 that the code only ever sets to whole numbers, is a natural
-- number. The product in pollInterval wraps around at 64 bits, as those of a retry delay and of the
-- retention window do; nowhere else do the numbers that occur come near the bounds. A fifth of a
-- delay, which the code takes in float64, is a division. Only PrStatus cuts stored times off to the
-- second, as RFC 3339 does.
--
-- Texts. One that the program only compares is a native string; one that it takes apart is a list
-- of code points. A status column is an enumeration, with a constructor for any other text; the
-- message of a reason or an error has one constructor for each format string.
--
-- Time and interleaving. A call reads the clock once. Calls happen one after another, as the
-- database and the mutex of the scheduler make them; what other calls do while one waits appears
-- in the tables that the wait finds. The loops are recursions on a list, and that of
-- invokeWithAutoContinue on the continuations left.
--
-- Machines. The `security` command, the files, git, `gh`, HTTP, the radio and encoding/json are
-- records of functions that stand for their answers; the state of the machine that holds credentials
-- is a type of that record, passed through the calls.
--
-- Not modelled. Failures of the SQLite driver; the columns that GetTask joins for display and the
-- task's size; the table of usage readings and the scheduler's Status; the process probes; the
-- texts of prompts and attachments of a run; the matches of its effort directives and the summary
-- that ParseRunOutput finds, which are parameters; JSON decoding and unicode.ToLower, which are
-- too; the commands that git runs; the radio, the location and the serial reset of the display's
-- bridge; and the statistics, the HTTP handlers, whisper, MCP and the command line.
pub mod Prelude
pub mod Scheduling
pub mod Domain
pub mod Store
pub mod Service
pub mod Scheduler
pub mod PrStatus
pub mod Runner
pub mod Config
pub mod Claude
pub mod Usage
pub mod Recovery
pub mod Ble
pub mod Server
pub mod Git
pub mod Retention
pub mod Caffeinate
mod Examples
