-- ===== src/Config.antt =====
-- internal/config/config.go: the configuration that `Load` makes of the settings and the environment.
-- The environment, strconv.ParseFloat and the file system are parameters; a threshold is a whole
-- number of millionths of a percent.
use burnrate.Prelude.{ℕ, ◌*◌, Bool, false, ◌&&◌, ◌||◌, Option, none, some, String}
use burnrate.Prelude.Tests.{if◌then◌else◌}
use burnrate.Prelude.Int.{ℤ, pos}
use burnrate.Prelude.Number.{atoi}
use burnrate.Prelude.Text.{codes, str_eq, is_set, is_blank}
use burnrate.Store.Tables.{Store}
use burnrate.Store.Settings.{get_setting}

pub record Loaded : Type 0 where
  pub parallel_n : ℤ
  pub util_threshold : ℕ
  pub seven_day_threshold : ℕ
  pub model : String
  pub poll_interval_sec : ℤ
  pub max_attempts : ℤ
  pub max_auto_continue : ℤ
  pub base_code_dir : String
  pub worktree_root : String
  pub port : ℤ
  pub usage_url : String
  pub dry_run : Bool
  pub claude_config_dir : String
  pub sandbox_keychain : String
  pub sandbox_keychain_password_file : String

pub record Host : Type 0 where
  pub getenv : String → String
  pub parse_float : String → Option ℕ
  pub expand_home : String → String
  pub default_worktree_root : String
  pub file_exists : String → Bool
  -- the keychain and its password file beside a config directory
  pub sandbox_keychain_of : String → String
  pub sandbox_password_of : String → String

-- A variable that is set to a text that is not empty.
abbrev pub env_of : Host → String → Option String
env_of h name = if is_set (h.getenv name) then some (h.getenv name) else none

abbrev or_parsed {ℓ} : {A : Type ℓ} → A → Option A → A
or_parsed old none = old
or_parsed old (some n) = n

-- `if n, err := strconv.Atoi(v); err == nil { … }`, and the like, of a text that may be missing.
abbrev int_or : ℤ → Option String → ℤ
int_or old none = old
int_or old (some v) = or_parsed old (atoi (codes v))

abbrev float_or : Host → ℕ → Option String → ℕ
float_or h old none = old
float_or h old (some v) = or_parsed old (h.parse_float v)

abbrev pub text_or : String → Option String → String
text_or old none = old
text_or old (some v) = v

abbrev path_or : Host → String → Option String → String
path_or h old none = old
path_or h old (some v) = h.expand_home v

abbrev bool_or : Bool → Option String → Bool
bool_or old none = old
bool_or old (some v) = str_eq v "true" || str_eq v "1"

abbrev pub defaults : Host → Loaded
defaults h = record {
  parallel_n = pos 6;
  util_threshold = 100 * 1000000;
  seven_day_threshold = 95 * 1000000;
  model = "claude-opus-4-6";
  poll_interval_sec = pos 5;
  max_attempts = pos 20;
  max_auto_continue = pos 3;
  base_code_dir = h.expand_home "~/code";
  worktree_root = h.default_worktree_root;
  port = pos 9112;
  usage_url = "https://api.anthropic.com/api/oauth/usage";
  dry_run = false;
  claude_config_dir = "";
  sandbox_keychain = "";
  sandbox_keychain_password_file = "";
}

-- `applySettings`
unfoldable pub apply_settings : Host → Store → Loaded → Loaded
unfolding get_setting atoi
apply_settings h st cfg = record {
  parallel_n = int_or cfg.parallel_n (get_setting st "parallel_n");
  util_threshold = float_or h cfg.util_threshold (get_setting st "util_threshold");
  seven_day_threshold = float_or h cfg.seven_day_threshold (get_setting st "sevenday_threshold");
  model = text_or cfg.model (get_setting st "model");
  poll_interval_sec = int_or cfg.poll_interval_sec (get_setting st "poll_interval_sec");
  max_attempts = int_or cfg.max_attempts (get_setting st "max_attempts");
  max_auto_continue = int_or cfg.max_auto_continue (get_setting st "max_auto_continue");
  base_code_dir = path_or h cfg.base_code_dir (get_setting st "base_code_dir");
  worktree_root = path_or h cfg.worktree_root (get_setting st "worktree_root");
  port = int_or cfg.port (get_setting st "port");
  usage_url = text_or cfg.usage_url (get_setting st "usage_url");
  dry_run = bool_or cfg.dry_run (get_setting st "dry_run");
  claude_config_dir = text_or cfg.claude_config_dir (get_setting st "claude_config_dir");
  sandbox_keychain = text_or cfg.sandbox_keychain (get_setting st "sandbox_keychain");
  sandbox_keychain_password_file =
      text_or cfg.sandbox_keychain_password_file (get_setting st "sandbox_keychain_password_file");
}

-- A key of the account: the environment counts only where the database has no such setting.
abbrev pub account_or : String → Option String → Option String → String
account_or old none env = text_or old env
account_or old (some v) env = old

-- `applyEnv`; which account keys the database gave is read off the tables.
unfoldable pub apply_env : Host → Store → Loaded → Loaded
unfolding get_setting atoi
apply_env h st cfg = record {
  parallel_n = int_or cfg.parallel_n (env_of h "BURNRATE_PARALLEL_N");
  util_threshold = float_or h cfg.util_threshold (env_of h "BURNRATE_UTIL_THRESHOLD");
  seven_day_threshold = float_or h cfg.seven_day_threshold (env_of h "BURNRATE_SEVENDAY_THRESHOLD");
  model = text_or cfg.model (env_of h "BURNRATE_MODEL");
  poll_interval_sec = int_or cfg.poll_interval_sec (env_of h "BURNRATE_POLL_INTERVAL_SEC");
  max_attempts = int_or cfg.max_attempts (env_of h "BURNRATE_MAX_ATTEMPTS");
  max_auto_continue = int_or cfg.max_auto_continue (env_of h "BURNRATE_MAX_AUTO_CONTINUE");
  base_code_dir = path_or h cfg.base_code_dir (env_of h "BURNRATE_BASE_CODE_DIR");
  worktree_root = path_or h cfg.worktree_root (env_of h "BURNRATE_WORKTREE_ROOT");
  port = int_or cfg.port (env_of h "BURNRATE_PORT");
  usage_url = text_or cfg.usage_url (env_of h "BURNRATE_USAGE_URL");
  dry_run = bool_or cfg.dry_run (env_of h "BURNRATE_DRYRUN");
  claude_config_dir =
      account_or cfg.claude_config_dir (get_setting st "claude_config_dir")
        (env_of h "BURNRATE_CLAUDE_CONFIG_DIR");
  sandbox_keychain =
      account_or cfg.sandbox_keychain (get_setting st "sandbox_keychain")
        (env_of h "BURNRATE_SANDBOX_KEYCHAIN");
  sandbox_keychain_password_file =
      account_or cfg.sandbox_keychain_password_file
        (get_setting st "sandbox_keychain_password_file")
        (env_of h "BURNRATE_SANDBOX_KEYCHAIN_PASSWORD_FILE");
}

-- `autoDeriveSandbox`
unfoldable pub auto_derive_sandbox : Host → Loaded → Loaded
auto_derive_sandbox h cfg =
    let kc = h.sandbox_keychain_of cfg.claude_config_dir in
    let pw = h.sandbox_password_of cfg.claude_config_dir in
    if is_blank cfg.claude_config_dir || is_set cfg.sandbox_keychain
    then cfg
    else if h.file_exists kc && h.file_exists pw
    then record cfg { sandbox_keychain = kc; sandbox_keychain_password_file = pw }
    else cfg

-- `Load`
unfoldable pub load : Host → Store → Loaded
unfolding apply_settings apply_env auto_derive_sandbox
load h st = auto_derive_sandbox h (apply_env h st (apply_settings h st (defaults h)))
