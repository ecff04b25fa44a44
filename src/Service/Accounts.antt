-- ===== src/Service/Accounts.antt =====
-- internal/service/account_service.go. The accounts that discovery finds are given.
use burnrate.Prelude.{Bool, true, ◌||◌, Option, none, some, List, [], ◌∷◌, ◌++◌, String}
use burnrate.Prelude.Tests.{if◌then◌else◌}
use burnrate.Prelude.Lists.{find, any}
use burnrate.Prelude.Text.{str_eq, is_blank}
use burnrate.Store.Tables.{Store}
use burnrate.Store.Settings.{set_setting}
use burnrate.Service.Base.{Result, ok, err, ServiceError, Field}
use burnrate.Scheduler.State.{Account, Scheduler, set_account}

pub record AccountInfo : Type 0 where
  pub config_dir : String
  pub label : String
  pub source : String
  pub sandbox_keychain : String
  pub sandbox_password_file : String
  pub keychain_suffix : String

pub record AccountView : Type 0 where
  pub config_dir : String
  pub label : String
  pub source : String
  pub sandbox_keychain : String
  pub keychain_suffix : String
  pub active : Bool

abbrev view_of : String → AccountInfo → AccountView
view_of active a = record {
  config_dir = a.config_dir;
  label = a.label;
  source = a.source;
  sandbox_keychain = a.sandbox_keychain;
  keychain_suffix = a.keychain_suffix;
  active = str_eq a.config_dir active;
}

abbrev views : String → List AccountInfo → List AccountView
views active [] = []
views active (a ∷ rest) = view_of active a ∷ views active rest

abbrev inherited : String → AccountView
inherited active = record {
  config_dir = "";
  label = "inherited environment";
  source = "inherited";
  sandbox_keychain = "";
  keychain_suffix = "";
  active = is_blank active;
}

-- `label` is the directory with " (pinned)" after it.
abbrev pinned : (String → String) → String → AccountView
pinned label active = record {
  config_dir = active;
  label = label active;
  source = "custom";
  sandbox_keychain = "";
  keychain_suffix = "";
  active = true;
}

-- `ListAccounts`
unfoldable pub list_accounts :
    (String → String) → Scheduler → List AccountInfo → String × List AccountView
list_accounts label s discovered =
    let active = s.cfg.account.claude_config_dir in
    let known =
      is_blank active || any (λ (a : AccountInfo). str_eq a.config_dir active) discovered in
    (
      active,
      inherited active ∷ views active discovered
          ++ (if known then [] else pinned label active ∷ []),
    )

abbrev pub no_account : Account
no_account = record {
  claude_config_dir = "";
  sandbox_keychain = "";
  sandbox_keychain_password_file = "";
}

abbrev pub account_of : AccountInfo → Account
account_of a = record {
  claude_config_dir = a.config_dir;
  sandbox_keychain = a.sandbox_keychain;
  sandbox_keychain_password_file = a.sandbox_password_file;
}

-- The three settings; the order in which they are written does not matter.
unfoldable pub write_account : Store → Account → Store
unfolding set_setting
write_account st a =
    set_setting
      (set_setting (set_setting st "claude_config_dir" a.claude_config_dir) "sandbox_keychain"
        a.sandbox_keychain)
      "sandbox_keychain_password_file" a.sandbox_keychain_password_file

unfoldable pub switch : Scheduler → Account → Scheduler
unfolding write_account set_account
switch s a = set_account (record s { st = write_account s.st a }) a

abbrev pub account_found : Scheduler → Option AccountInfo → Scheduler × Result Unit
account_found s none = (s, err (ServiceError.validation_error Field.config_dir_field))
account_found s (some a) = (switch s (account_of a), ok tt)

-- `SelectAccount`
unfoldable pub select_account : Scheduler → List AccountInfo → String → Scheduler × Result Unit
unfolding switch
select_account s discovered config_dir =
    if is_blank config_dir
    then (switch s no_account, ok tt)
    else account_found s (find (λ (a : AccountInfo). str_eq a.config_dir config_dir) discovered)
