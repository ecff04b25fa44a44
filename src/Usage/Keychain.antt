-- ===== src/Usage/Keychain.antt =====
-- internal/usage/keychain.go. The `security` command, the file system, the environment, SHA-256 and
-- the decoding of the credentials' JSON are a machine that the functions are given.
use burnrate.Prelude.{zero, Bool, false, ◌||◌, Option, none, some, List, [], ◌∷◌, ◌++◌}
use burnrate.Prelude.Tests.{if◌then◌else◌}
use burnrate.Prelude.Int.{ℤ}
use burnrate.Usage.Names.{default_service, find_all, extract_service_names, acct}
use burnrate.Prelude.Text.{Text, codes, no_text, text_eq, trim_space}

-- `oauthBlob`
pub record Oauth : Type 0 where
  pub access_token : Text
  pub refresh_token : Text
  pub expires_at : ℤ

pub data Source : Type 0 where
  unset keychain file : Source

pub record TokenBundle : Type 0 where
  pub access_token : Text
  pub refresh_token : Text
  -- milliseconds since 1970
  pub expires_at : ℤ
  pub source : Source
  pub keychain_item : Text
  pub keychain_path : Text
  pub keychain_pw : Text
  pub raw_json : Text

pub record Machine : Type 1 where
  pub State : Type 0
  -- `security find-generic-password`, with `-w`, of a service in a keychain or, for an empty path, in
  -- those of the user; and its output without `-w`
  pub find_password : State → Text → Text → Option Text
  pub find_item : State → Text → Text → Option Text
  pub dump_keychain : State → Option Text
  -- `unlock-keychain` with a password, and `add-generic-password -U`: service, account, value,
  -- keychain; the state it leaves, and whether it succeeded
  pub unlock : State → Text → Text → State × Bool
  pub add_password : State → Text → Text → Text → Text → State × Bool
  pub read_file : State → Text → Option Text
  pub write_file : State → Text → Text → State × Bool
  pub home : Option Text
  -- CLAUDE_CODE_OAUTH_TOKEN
  pub token_variable : Text
  -- `filepath.Join`
  pub join : Text → Text → Text
  -- the first four bytes of the SHA-256, in hexadecimal
  pub digest : Text → Text
  -- `json.Unmarshal` into `credentialsJSON`
  pub decode : Text → Option Oauth

-- The machine's state, and the service that was found before: `discoveredService`.
pub record Session (S : Type 0) : Type 0 where
  pub machine : S
  pub discovered : Text

abbrev first_or_empty : List Text → Text
first_or_empty [] = []
first_or_empty (s ∷ ss) = s

abbrev pub usable : Option TokenBundle → Option TokenBundle
usable none = none
usable (some b) = if no_text b.access_token then none else some b

abbrev pub or_else : Option TokenBundle → Option TokenBundle → Option TokenBundle
or_else none c = c
or_else (some b) c = some b

abbrev pub placed : Source → Text → Text → Text → Option TokenBundle → Option TokenBundle
placed source item path pw none = none
placed source item path pw (some b) =
    some
      (record b { source = source; keychain_item = item; keychain_path = path; keychain_pw = pw })

module _ (m : Machine) where
  -- `ConfigDirSuffix`, and the item that belongs to an account's directory
  abbrev pub config_dir_suffix : Text → Text
  config_dir_suffix dir = m.digest dir

  abbrev pub item_of : Text → Text
  item_of dir = default_service ++ b'-' ∷ config_dir_suffix dir

  abbrev bundle_of : Text → Option Oauth → Option TokenBundle
  bundle_of raw none = none
  bundle_of raw (some o) =
      if no_text o.access_token
      then none
      else some (record {
        access_token = o.access_token;
        refresh_token = o.refresh_token;
        expires_at = o.expires_at;
        source = Source.unset;
        keychain_item = [];
        keychain_path = [];
        keychain_pw = [];
        raw_json = raw;
      })

  -- `parseBundle`
  unfoldable pub parse_bundle : Text → Option TokenBundle
  parse_bundle raw = bundle_of raw (m.decode raw)

  abbrev pub parsed : Option Text → Option TokenBundle
  parsed none = none
  parsed (some raw) = parse_bundle raw

  abbrev pub trimmed : Option Text → Option Text
  trimmed none = none
  trimmed (some raw) = some (trim_space raw)

  unfoldable pub keychain_bundle : m.State → Text → Text → Option TokenBundle
  unfolding parse_bundle
  keychain_bundle s service path =
      placed Source.keychain service path [] (parsed (trimmed (m.find_password s service path)))

  unfoldable pub credentials_file_bundle_from : m.State → Text → Option TokenBundle
  unfolding parse_bundle
  credentials_file_bundle_from s dir =
      let path = m.join dir (codes ".credentials.json") in
      placed Source.file path [] [] (parsed (m.read_file s path))

  abbrev pub from_home : m.State → Option Text → Option TokenBundle
  from_home s none = none
  from_home s (some home) = credentials_file_bundle_from s (m.join home (codes ".claude"))

  -- `unlockKeychain`: the password, if it could be read and opened the keychain.
  unfoldable pub unlock_keychain : m.State → Text → Text → m.State × Option Text
  unfolding trim_space
  unlock_keychain s path pw_file = elim (m.read_file s pw_file) [
    | none ↦ (s, none)
    | some pw ↦
        let (s', opened) = m.unlock s (trim_space pw) path in
        (s', if opened then some (trim_space pw) else none)
  ]

  abbrev pub with_password : m.State → Text → Text → Option Text → Option TokenBundle
  with_password s item path none = none
  with_password s item path (some pw) =
      placed Source.keychain item path pw (parsed (trimmed (m.find_password s item path)))

  unfoldable pub sandbox_keychain_bundle :
      m.State → Text → Text → Text → m.State × Option TokenBundle
  unfolding unlock_keychain parse_bundle
  sandbox_keychain_bundle s item path pw_file =
      let (s', pw) = unlock_keychain s path pw_file in (s', with_password s' item path pw)

  abbrev pub found : m.State → Text → Option TokenBundle → Session m.State × Option TokenBundle
  found s name b = (record { machine = s; discovered = name }, b)

  -- The loop over the names: the first that has a token is remembered.
  unfoldable pub first_usable : m.State → List Text → Session m.State × Option TokenBundle
  unfolding keychain_bundle
  first_usable s [] = found s [] none
  first_usable s (name ∷ names) = elim (usable (keychain_bundle s name [])) [
    | none ↦ first_usable s names
    | some b ↦ found s name (some b)
  ]

  abbrev pub dumped : Option Text → List Text
  dumped none = []
  dumped (some dump) = extract_service_names dump

  abbrev pub remembered : m.State → Text → Option TokenBundle
  remembered s name = if no_text name then none else usable (keychain_bundle s name [])

  -- `defaultKeychainBundle`
  unfoldable pub default_keychain_bundle : Session m.State → Session m.State × Option TokenBundle
  unfolding first_usable keychain_bundle extract_service_names
  default_keychain_bundle s = elim (remembered s.machine s.discovered) [
    | some b ↦ (s, some b)
    | none ↦ first_usable s.machine (default_service ∷ dumped (m.dump_keychain s.machine))
  ]

  abbrev pub own_keychain : m.State → Text → Text → Text → m.State × Option TokenBundle
  own_keychain s item path pw_file =
      if no_text path
      then (s, keychain_bundle s item [])
      else sandbox_keychain_bundle s item path pw_file

  -- The credentials of the account's own directory.
  unfoldable pub own_bundle : m.State → Text → Text → Text → m.State × Option TokenBundle
  unfolding keychain_bundle sandbox_keychain_bundle credentials_file_bundle_from
  own_bundle s dir path pw_file =
      if no_text dir
      then (s, none)
      else let (s', b) = own_keychain s (item_of dir) path pw_file in
        (s', or_else (usable b) (usable (credentials_file_bundle_from s' dir)))

  -- And those of the user.
  unfoldable pub default_bundle : Session m.State → Session m.State × Option TokenBundle
  unfolding default_keychain_bundle credentials_file_bundle_from
  default_bundle s =
      let (s', b) = default_keychain_bundle s in
      (s', or_else (usable b) (usable (from_home s'.machine m.home)))

  -- `BundleForAccount`
  unfoldable pub bundle_for_account :
      Session m.State → Text → Text → Text → Session m.State × Option TokenBundle
  unfolding own_bundle default_bundle
  bundle_for_account s dir path pw_file =
      let (s', b) = own_bundle s.machine dir path pw_file in
      elim b [
        | some own ↦ (record s { machine = s' }, some own)
        | none ↦ default_bundle (record s { machine = s' })
      ]

  -- `TokenForAccount`
  unfoldable pub token_for_account : Session m.State → Text → Text → Text → Option Text
  unfolding bundle_for_account
  token_for_account s dir path pw_file =
      if no_text m.token_variable
      then elim (bundle_for_account s dir path pw_file).1 [
        | none ↦ none
        | some b ↦ some b.access_token
      ]
      else some m.token_variable

  -- `keychainAccountAttr`
  unfoldable pub keychain_account_attr : m.State → Text → Text → Text
  unfolding find_all
  keychain_account_attr s service path = elim (m.find_item s service path) [
    | none ↦ []
    | some out ↦ first_or_empty (find_all acct [] zero out)
  ]

  abbrev add : m.State → TokenBundle → Text → Text → m.State × Bool
  add s b account json = m.add_password s b.keychain_item account json b.keychain_path

  -- `WriteBackKeychain`, of a bundle from a keychain
  unfoldable pub write_back_keychain : m.State → TokenBundle → Text → m.State × Bool
  unfolding keychain_account_attr
  write_back_keychain s b json =
      let account = keychain_account_attr s b.keychain_item b.keychain_path in
      if no_text b.keychain_path || no_text b.keychain_pw
      then add s b account json
      else let (s', opened) = m.unlock s b.keychain_pw b.keychain_path in
        if opened then add s' b account json else (s', false)

  -- What `VerifyWriteBack` reads where the bundle came from.
  unfoldable pub read_back : m.State → TokenBundle → Source → Option Text
  unfolding trim_space
  read_back s b Source.keychain = trimmed (m.find_password s b.keychain_item b.keychain_path)
  read_back s b Source.file = m.read_file s b.keychain_item
  read_back s b Source.unset = none

  unfoldable pub verify_write_back : m.State → TokenBundle → Text → Bool
  unfolding read_back parse_bundle
  verify_write_back s b expected = elim (parsed (read_back s b b.source)) [
    | none ↦ false
    | some b' ↦ text_eq b'.access_token expected
  ]
