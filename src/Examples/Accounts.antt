-- ===== src/Examples/Accounts.antt =====
-- The selection of an account at a concrete input.
use burnrate.Prelude.{◌≡◌, refl, false, none, [], ◌∷◌}
use burnrate.Config.{Host}
use burnrate.Service.Base.{ok}
use burnrate.Service.Accounts.{AccountInfo, select_account}
use burnrate.Service.Selection.{Selected, select_account-Selected}
use burnrate.Examples.Data.{daemon, desk}

abbrev host : Host
host = record {
  getenv = λ name. "/from/the/environment";
  parse_float = λ v. none;
  expand_home = λ v. v;
  default_worktree_root = "/data/worktrees";
  file_exists = λ f. false;
  sandbox_keychain_of = λ d. d;
  sandbox_password_of = λ d. d;
}

abbrev project : AccountInfo
project = record {
  config_dir = "/code/p/.local_home/.claude";
  label = "p";
  source = "project";
  sandbox_keychain = "/k";
  sandbox_password_file = "/pw";
  keychain_suffix = "";
}

select_account_succeeds :
    (select_account (daemon desk) (project ∷ []) "/code/p/.local_home/.claude").1 ≡ ok tt
unfolding select_account
select_account_succeeds = refl

select_account-Selected_example :
    Selected host
      (project ∷ [])
      "/code/p/.local_home/.claude"
      (select_account (daemon desk) (project ∷ []) "/code/p/.local_home/.claude").0
select_account-Selected_example =
    select_account-Selected host (daemon desk) (project ∷ []) "/code/p/.local_home/.claude"
      select_account_succeeds
