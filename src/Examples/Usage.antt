-- ===== src/Examples/Usage.antt =====
-- The credentials of an account and their renewal at concrete inputs. The machine has one file of
-- credentials; JSON objects are encoded as tagged pairs.
use burnrate.Prelude.{ℕ, ◌*◌, ◌≡◌, refl, ap, true, false, none, some, Option, [], ◌∷◌}
use burnrate.Prelude.Tests.{◌==◌, if◌then◌else◌}
use burnrate.Prelude.Int.{pos}
use burnrate.Prelude.Table.{on_some}
use burnrate.Prelude.Text.{Text, codes}
use burnrate.Scheduler.State.{second}
use burnrate.Usage.Keychain.{Machine, Oauth, TokenBundle, Source, Session, bundle_for_account}
use burnrate.Usage.Json.{
  Json, IsLawful, IsValid, Fields, get, build_updated_json, Updates, build_updated_json-Updates,
  oauth_key, access_key, refresh_key,
}
use burnrate.Usage.Refresh.{TokenService, Refresher, ensure_fresh}
use burnrate.Usage.Renewed.{Renewed, ensure_fresh-Renewed}
use burnrate.Usage.Sources.{Answered, bundle_for_account-Writable}
use burnrate.Usage.Api.{
  Formats, ApiLimit, ApiResponse, parse_api_response, parse_api_response-limits, session, limit_of,
  no_window,
}

abbrev Scan : Type 0
Scan = Text × Text × Fields

abbrev token : ℕ → ℕ → Scan → Scan
token tag c (k, v, fs) =
    if tag == 1 then ([], [], (k, v) ∷ fs) else if tag == 2 then (c ∷ k, v, fs) else (k, c ∷ v, fs)

scan : Text → Scan
scan [] = ([], [], [])
scan (tag ∷ []) = ([], [], [])
scan (tag ∷ c ∷ cs) = token tag c (scan cs)

tagged : ℕ → Text → Text → Text
tagged tag [] rest = rest
tagged tag (c ∷ cs) rest = tag ∷ c ∷ tagged tag cs rest

print : Fields → Text
unfolding tagged
print [] = []
print ((k, v) ∷ fs) = 1 ∷ 0 ∷ tagged 2 k (tagged 3 v (print fs))

scan-values :
    (v rest : Text) (fs : Fields) → scan rest ≡ ([], [], fs) → scan (tagged 3 v rest) ≡ ([], v, fs)
unfolding scan tagged
scan-values [] rest fs h = h
scan-values (c ∷ v) rest fs h = rw (scan-values v rest fs h)

scan-keys :
    (k rest v : Text) (fs : Fields) → scan rest ≡ ([], v, fs) → scan (tagged 2 k rest) ≡ (k, v, fs)
unfolding scan tagged
scan-keys [] rest v fs h = h
scan-keys (c ∷ k) rest v fs h = rw (scan-keys k rest v fs h)

scan-print : (fs : Fields) → scan (print fs) ≡ ([], [], fs)
unfolding scan print
scan-print [] = refl
scan-print ((k, v) ∷ fs) =
    rw (scan-keys k (tagged 3 v (print fs)) v fs (scan-values v (print fs) fs (scan-print fs)))

abbrev json : Json
json = record {
  parse = λ t. some (scan t).2;
  print = λ fs. some (print fs);
  valid = λ t. true;
  compact = λ t. t;
  quote = λ t. t;
  number = λ n. [];
}

all-IsValid : (fs : Fields) → IsValid json fs
all-IsValid [] = tt
all-IsValid (f ∷ fs) = (refl, all-IsValid fs)

on_some_id : (o : Option Text) → o ≡ on_some (λ (t : Text). t) o
on_some_id none = refl
on_some_id (some t) = refl

lawful : IsLawful json
lawful = record {
  parse-IsValid = λ text fs e. all-IsValid fs;
  valid-print = λ fs text e. refl;
  valid-quote = λ text. refl;
  valid-number = λ n. refl;
  compact-print = λ fs text e. refl;
  compact-quote = λ text. refl;
  compact-number = λ n. refl;
  parse-print = λ fs valid.
      (print fs, fs, refl, ap (λ (s : Scan). some s.2) (scan-print fs), λ k. on_some_id (get k fs));
}

abbrev or_empty : Option Text → Text
or_empty none = []
or_empty (some t) = t

abbrev tokens : Fields
tokens = (access_key, codes "a1") ∷ (refresh_key, codes "r1") ∷ (codes "scopes", codes "x") ∷ []

abbrev file_fields : Fields
file_fields = (codes "v", codes "1") ∷ (oauth_key, print tokens) ∷ []

build_updated_json-Updates_example :
    (result : Text) × (build_updated_json json (print file_fields) (codes "a2") [] (pos 5)
      ≡ some result)
    × Updates json (codes "a2") [] (pos 5) file_fields tokens result
unfolding print scan
build_updated_json-Updates_example =
    build_updated_json-Updates json lawful (print file_fields) (codes "a2") [] (pos 5) file_fields
      tokens (print tokens) refl refl refl

abbrev read_oauth : Fields → Oauth
read_oauth fs = record {
  access_token = or_empty (get access_key fs);
  refresh_token = or_empty (get refresh_key fs);
  expires_at = pos 0;
}

-- Its state is the file of credentials.
abbrev machine : Machine
machine = record {
  State = Text;
  find_password = λ s service path. none;
  find_item = λ s service path. none;
  dump_keychain = λ s. none;
  unlock = λ s pw path. (s, false);
  add_password = λ s service account value path. (s, false);
  read_file = λ s path. some s;
  write_file = λ s path text. (text, true);
  home = some (codes "/home/x");
  token_variable = [];
  join = λ dir name. name;
  digest = λ dir. codes "00";
  decode = λ raw. some (read_oauth (scan (or_empty (get oauth_key (scan raw).2))).2);
}

abbrev service : TokenService
service = record {
  post = λ t. some (record { status = 200; body = [] });
  decode =
      λ body. some (record { access_token = codes "a2"; refresh_token = []; expires_in = 3600 });
}

abbrev bundle : TokenBundle
bundle = record {
  access_token = codes "a1";
  refresh_token = codes "r1";
  expires_at = pos 0;
  source = Source.file;
  keychain_item = codes ".credentials.json";
  keychain_path = [];
  keychain_pw = [];
  raw_json = print file_fields;
}

abbrev unused : Refresher Text
unused = record { machine = print file_fields; last_refresh_at = none; last_refresh_tok = [] }

ensure_fresh-Renewed_example :
    Renewed machine json service unused bundle
      (ensure_fresh machine json service (100 * second) (101 * second) unused bundle)
ensure_fresh-Renewed_example =
    ensure_fresh-Renewed machine json service (100 * second) (101 * second) unused bundle refl

abbrev fresh_session : Session Text
fresh_session = record { machine = print file_fields; discovered = [] }

bundle_for_account-Writable_example :
    Answered machine (bundle_for_account machine fresh_session (codes "/work") [] [])
bundle_for_account-Writable_example =
    bundle_for_account-Writable machine fresh_session (codes "/work") [] []

abbrev limit : ℕ → ApiLimit
limit percent = record {
  kind = session;
  group = [];
  percent = percent;
  severity = [];
  is_active = true;
  resets_at = [];
  scope = none;
}

abbrev response : ApiResponse
response = record {
  five_hour = none;
  seven_day = none;
  seven_day_opus = none;
  limits = limit 10 ∷ limit 20 ∷ [];
}

abbrev formats : Formats
formats = record { decode = λ raw. some response; parse = λ layout s. none }

parse_api_response-limits_example :
    parse_api_response formats 5 []
    ≡ some (record {
      five_hour = record { utilization = 20; resets_at = 0 };
      seven_day = no_window;
      seven_day_opus = none;
      scoped_weekly = [];
      limits = limit_of (limit 10) ∷ limit_of (limit 20) ∷ [];
      raw = [];
      captured_at = 5;
    })
unfolding parse_api_response
parse_api_response-limits_example =
    parse_api_response-limits formats 5 [] response (limit 10) (limit 20 ∷ []) refl refl
