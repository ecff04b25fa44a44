-- ===== src/Service/Base.antt =====
-- internal/service/errors.go, and the state that the services act on: the tables, and what they
-- have asked of the rest of the program.
use burnrate.Prelude.{ℕ, Option, none, some, List, [], ◌∷◌, ◌++◌, String}
use burnrate.Prelude.Tests.{if◌then◌else◌}
use burnrate.Prelude.Text.{is_set}
use burnrate.Domain.{Run}
use burnrate.Store.Tables.{Store}
use burnrate.Store.Tasks.{Refusal}

pub data Field : Type 0 where
  title status_field ordered_ids kind_field body_field config_dir_field : Field

pub data Entity : Type 0 where
  task_entity request_entity run_entity : Entity

-- The messages of the source's `ConflictError`s.
pub data Conflict : Type 0 where
  running_task : Conflict
  only_pause_schedulable only_resume_paused no_session not_pending not_active : Conflict
  transition : Refusal → Conflict

pub data ServiceError : Type 0 where
  validation_error : Field → ServiceError
  not_found_error : Entity → ℕ → ServiceError
  conflict_error : Conflict → ServiceError
  -- an error of the store, handed on
  store_error : ServiceError

pub data Result (A : Type 0) : Type 0 where
  ok : A → Result A
  err : ServiceError → Result A

-- What runs beside the call: `go s.cleaner.CheckpointAndRemove(…)`, the broadcast of the pending
-- requests, and the notifications.
pub data Effect : Type 0 where
  cleanup : String → String → ℕ → Effect
  requests_changed : Effect
  notify_capture_approval notify_request_created : ℕ → ℕ → String → Effect

pub record Env : Type 0 where
  pub store : Store
  pub effects : List Effect

abbrev pub emit : Env → List Effect → Env
emit e fx = record e { effects = e.effects ++ fx }

-- `if latestRun != nil && latestRun.WorktreePath != "" { go …CheckpointAndRemove(…) }`
unfoldable pub cleanup_of : Option Run → List Effect
cleanup_of none = []
cleanup_of (some r) =
    if is_set r.worktree_path then cleanup r.worktree_path r.repo_path r.id ∷ [] else []
