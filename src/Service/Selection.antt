-- ===== src/Service/Selection.antt =====
-- A selected account outlives the daemon.
use burnrate.Prelude.{
  ◌≡◌, ◌⊎◌, refl, ap, ◌∙◌, inl, inr, Bool, true, false, ◌&&◌, ◌||◌, Option, none, some, List,
  String, arith,
}
use mathlib.Core.List.{Mem}
use burnrate.Prelude.Tests.{if◌then◌else◌}
use burnrate.Prelude.Lists.{find, find-Mem}
use burnrate.Prelude.Text.{str_eq, eq_iff, is_blank, is_set}
use burnrate.Store.Tables.{Store}
use burnrate.Store.Settings.{
  get_setting, set_setting, get_setting-set_setting, get_setting-set_setting-other,
}
use burnrate.Service.Base.{Result, ok}
use burnrate.Scheduler.State.{Account, Scheduler, set_account, request_refresh}
use burnrate.Config.{
  Loaded, Host, load, defaults, apply_settings, apply_env, auto_derive_sandbox, text_or, account_or,
}
use burnrate.Service.Accounts.{
  AccountInfo, no_account, account_of, write_account, switch, account_found, select_account,
}

abbrev pub dir_key : String
dir_key = "claude_config_dir"

abbrev pub keychain_key : String
keychain_key = "sandbox_keychain"

abbrev pub password_key : String
password_key = "sandbox_keychain_password_file"

module _ (st : Store) (a : Account) where
  abbrev first : Store
  first = set_setting st dir_key a.claude_config_dir

  abbrev second : Store
  second = set_setting first keychain_key a.sandbox_keychain

  dir-write_account : get_setting (write_account st a) dir_key ≡ some a.claude_config_dir
  unfolding write_account
  dir-write_account =
      get_setting-set_setting-other second password_key a.sandbox_keychain_password_file dir_key
        refl
      ∙ get_setting-set_setting-other first keychain_key a.sandbox_keychain dir_key refl
      ∙ get_setting-set_setting st dir_key a.claude_config_dir

  keychain-write_account : get_setting (write_account st a) keychain_key ≡ some a.sandbox_keychain
  unfolding write_account
  keychain-write_account =
      get_setting-set_setting-other second password_key a.sandbox_keychain_password_file
        keychain_key refl
      ∙ get_setting-set_setting first keychain_key a.sandbox_keychain

  password-write_account :
      get_setting (write_account st a) password_key ≡ some a.sandbox_keychain_password_file
  unfolding write_account
  password-write_account =
      get_setting-set_setting second password_key a.sandbox_keychain_password_file

-- A key that the database gives is what it gives.
account_or-set :
    (old v : String) (o env : Option String) → o ≡ some v → account_or (text_or old o) o env ≡ v
account_or-set old v o env h = rw h refl

abbrev loaded_fields : String → String → String → Account
loaded_fields d k p = record {
  claude_config_dir = d;
  sandbox_keychain = k;
  sandbox_keychain_password_file = p;
}

of_fields :
    (d k p : String) (a : Account)
    → d ≡ a.claude_config_dir
    → k ≡ a.sandbox_keychain
    → p ≡ a.sandbox_keychain_password_file
    → loaded_fields d k p ≡ a
of_fields d k p a x y z = rw (x, y, z) refl

-- What a loaded configuration says of the account, and whether a keychain is looked for beside it.
abbrev pub loaded_account : Loaded → Account
loaded_account cfg = record {
  claude_config_dir = cfg.claude_config_dir;
  sandbox_keychain = cfg.sandbox_keychain;
  sandbox_keychain_password_file = cfg.sandbox_keychain_password_file;
}

-- The account with the keychain that lies beside its directory, if it has none of its own.
abbrev pub with_keychain_beside : Host → Account → Account
with_keychain_beside h a =
    let kc = h.sandbox_keychain_of a.claude_config_dir in
    let pw = h.sandbox_password_of a.claude_config_dir in
    if is_blank a.claude_config_dir || is_set a.sandbox_keychain
    then a
    else if h.file_exists kc && h.file_exists pw
    then record a { sandbox_keychain = kc; sandbox_keychain_password_file = pw }
    else a

abbrev pub Persists : Host → Store → Account → Type 0
Persists h st a = loaded_account (load h st) ≡ with_keychain_beside h a

module _ (h : Host) where
  account-auto_derive_sandbox :
      (cfg : Loaded)
      → loaded_account (auto_derive_sandbox h cfg) ≡ with_keychain_beside h (loaded_account cfg)
  unfolding auto_derive_sandbox
  account-auto_derive_sandbox cfg = ground arith

  module _ (st : Store) (a : Account) (base : Loaded) where
    abbrev applied : Loaded
    applied = apply_env h (write_account st a) (apply_settings h (write_account st a) base)

    applied-account : loaded_account applied ≡ a
    unfolding apply_env apply_settings
    applied-account =
        of_fields _ _ _ a
          (account_or-set base.claude_config_dir a.claude_config_dir _ _ (dir-write_account st a))
          (account_or-set base.sandbox_keychain a.sandbox_keychain _ _
            (keychain-write_account st a))
          (account_or-set base.sandbox_keychain_password_file a.sandbox_keychain_password_file _ _
            (password-write_account st a))

  write_account-Persists : (st : Store) (a : Account) → Persists h (write_account st a) a
  unfolding load
  write_account-Persists st a =
      account-auto_derive_sandbox (applied st a (defaults h))
      ∙ ap (with_keychain_beside h) (applied-account st a (defaults h))

  -- What is asked for, among the accounts that were found: none, or one with that directory.
  abbrev pub Requested : List AccountInfo → String → Account → Type 0
  Requested discovered config_dir a =
      ((config_dir ≡ "")
        × (a.claude_config_dir ≡ "")
        × (a.sandbox_keychain ≡ "")
        × (a.sandbox_keychain_password_file ≡ ""))
      ⊎ ((i : AccountInfo) × Mem i discovered
          × (i.config_dir ≡ config_dir)
          × (a.claude_config_dir ≡ config_dir)
          × (a.sandbox_keychain ≡ i.sandbox_keychain)
          × (a.sandbox_keychain_password_file ≡ i.sandbox_password_file))

  -- The account in force is one asked for, and it persists.
  abbrev pub Selected : List AccountInfo → String → Scheduler → Type 0
  Selected discovered config_dir s =
      Requested discovered config_dir s.cfg.account × Persists h s.st s.cfg.account

  -- Of an answer, if it is no refusal.
  abbrev Answered : List AccountInfo → String → Scheduler × Result Unit → Type 0
  Answered discovered config_dir (s, r) = r ≡ ok tt → Selected discovered config_dir s

  switch-Selected :
      (s : Scheduler) (discovered : List AccountInfo) (a : Account) (config_dir : String)
      → Requested discovered config_dir a
      → Answered discovered config_dir (switch s a, ok tt)
  unfolding switch set_account request_refresh
  switch-Selected s discovered a config_dir e k = (e, write_account-Persists s.st a)

  account_found-Selected :
      (s : Scheduler) (discovered : List AccountInfo) (config_dir : String) (o : Option AccountInfo)
      → ((a : AccountInfo)
          → o ≡ some a
          → Mem a discovered × (str_eq a.config_dir config_dir ≡ true))
      → Answered discovered config_dir (account_found s o)
  account_found-Selected s discovered config_dir none e = λ k. cc
  account_found-Selected s discovered config_dir (some a) e =
      let same = (eq_iff a.config_dir config_dir).0 (e a refl).1 in
      switch-Selected s discovered (account_of a) config_dir
        (inr (a, (e a refl).0, same, same, refl, refl))

  chosen-Selected :
      (s : Scheduler) (discovered : List AccountInfo) (config_dir : String) (b : Bool)
      → is_blank config_dir ≡ b
      → Answered discovered config_dir (
          if b
          then (switch s no_account, ok tt)
          else account_found s
              (find (λ (a : AccountInfo). str_eq a.config_dir config_dir) discovered))
  chosen-Selected s discovered config_dir true e =
      switch-Selected s discovered no_account config_dir
        (inl ((eq_iff config_dir "").0 e, refl, refl, refl))
  chosen-Selected s discovered config_dir false e =
      account_found-Selected s discovered config_dir _ (λ a k. find-Mem _ discovered a k)

  -- A selection that is not refused is in force in the scheduler at once: for no directory, no account,
  -- and else one that was found with that directory, with its keychain and password file. A daemon
  -- that starts later is pinned to it, whatever the environment says: it loads the same directory and
  -- keychain, but for an account with a directory and no keychain, for which it takes one that lies
  -- beside the directory.
  pub select_account-Selected :
      (s : Scheduler) (discovered : List AccountInfo) (config_dir : String)
      → (select_account s discovered config_dir).1 ≡ ok tt
      → Selected discovered config_dir (select_account s discovered config_dir).0
  unfolding select_account
  select_account-Selected s discovered config_dir = chosen-Selected s discovered config_dir _ refl
