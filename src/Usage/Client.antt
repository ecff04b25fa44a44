-- ===== src/Usage/Client.antt =====
-- internal/usage/client.go. What the endpoint answers and `claude --version` prints is given.
use burnrate.Prelude.{ℕ, ◌-◌, ◌*◌, Bool, true, false, ◌&&◌, not, Option, none, some, []}
use burnrate.Prelude.Tests.{◌==◌, if◌then◌else◌}
use burnrate.Prelude.Int.{ℤ, pos, pos_part, leb_ℤ}
use burnrate.Prelude.Number.{atoi}
use burnrate.Prelude.Wrap.{wrap_int64}
use burnrate.Prelude.Text.{Text, codes, no_text}
use burnrate.Scheduling.Types.{Time, Duration}
use burnrate.Scheduler.State.{second}
use burnrate.Usage.Keychain.{Machine, TokenBundle, Session, bundle_for_account}
use burnrate.Usage.Json.{Json}
use burnrate.Usage.Refresh.{TokenService, Refresher, Outcome, ensure_fresh}
use burnrate.Usage.Api.{Formats, UsageSnapshot, parse_api_response}

pub record Client : Type 0 where
  pub claude_config_dir : Text
  pub sandbox_keychain : Text
  pub sandbox_keychain_password_file : Text
  pub cached_token : Text
  pub cached_version : Text
  pub version_fetched : Bool

-- The client, with `discoveredService` and the cache of the refresh.
pub record World (S : Type 0) : Type 0 where
  pub client : Client
  pub machine : S
  pub discovered : Text
  pub last_refresh_at : Option Time
  pub last_refresh_tok : Text

pub record HttpResponse : Type 0 where
  pub status : ℕ
  pub retry_after : Text
  pub body : Text

pub record Endpoint : Type 0 where
  -- the answer to the first request of a call or to the second, for a token and a version
  pub send : Bool → Text → Text → Option HttpResponse
  -- `http.ParseTime`
  pub parse_time : Text → Option Time
  -- the output of `claude --version` for an account's directory, and the first match of
  -- `(\d+\.\d+\.\d+)`, or no text
  pub version_output : Text → Option Text
  pub find_version : Text → Text

pub data FetchError : Type 0 where
  no_token request unauthorized status parse : FetchError
  rate_limited : Duration → FetchError

pub data Fetched : Type 0 where
  snapshot : UsageSnapshot → Fetched
  failed : FetchError → Fetched

abbrev by_date : Time → Option Time → Duration
by_date now none = pos 0
by_date now (some t) = pos (t - now)

abbrev by_seconds : Time → Option Time → Option ℤ → Duration
by_seconds now date none = by_date now date
by_seconds now date (some secs) =
    if leb_ℤ secs (pos 0) then by_date now date else wrap_int64 (pos_part secs * second)

-- `parseRetryAfter`
unfoldable pub parse_retry_after : Endpoint → Time → Text → Duration
unfolding atoi wrap_int64
parse_retry_after e now h = if no_text h then pos 0 else by_seconds now (e.parse_time h) (atoi h)

-- `SetAccount`
unfoldable pub set_account : Client → Text → Text → Text → Client
set_account c dir keychain pw_file = record {
  claude_config_dir = dir;
  sandbox_keychain = keychain;
  sandbox_keychain_password_file = pw_file;
  cached_token = [];
  cached_version = [];
  version_fetched = false;
}

abbrev found_version : Endpoint → Option Text → Text
found_version e none = codes "2.0.0"
found_version e (some out) = let v = e.find_version out in if no_text v then codes "2.0.0" else v

-- `claudeVersion`
unfoldable pub claude_version : Endpoint → Client → Client × Text
claude_version e c =
    if c.version_fetched
    then (c, c.cached_version)
    else let v = found_version e (e.version_output c.claude_config_dir) in
      (record c { version_fetched = true; cached_version = v }, v)

module _ (m : Machine) (json : Json) (service : TokenService) where
  abbrev pub with_session : World m.State → Session m.State → World m.State
  with_session w s = record w { machine = s.machine; discovered = s.discovered }

  abbrev pub refresher : World m.State → Refresher m.State
  refresher w = record {
    machine = w.machine;
    last_refresh_at = w.last_refresh_at;
    last_refresh_tok = w.last_refresh_tok;
  }

  abbrev pub with_refresher : World m.State → Refresher m.State → World m.State
  with_refresher w r = record w {
    machine = r.machine;
    last_refresh_at = r.last_refresh_at;
    last_refresh_tok = r.last_refresh_tok;
  }

  abbrev pub cache : World m.State → Text → World m.State
  cache w tok = record w { client = record w.client { cached_token = tok } }

  abbrev pub took : World m.State → Outcome → World m.State × Option Text
  took w (Outcome.token tok refreshed) = (cache w tok, some tok)
  took w (Outcome.failed e) = (w, none)

  abbrev pub refreshed_of :
      Time → Time → World m.State → Option TokenBundle → World m.State × Option Text
  refreshed_of now later w none = (w, none)
  refreshed_of now later w (some b) =
      let (r, b', outcome) = ensure_fresh m json service now later (refresher w) b in
      took (with_refresher w r) outcome

  -- `getToken`
  unfoldable pub get_token : Time → Time → Bool → World m.State → World m.State × Option Text
  unfolding bundle_for_account ensure_fresh
  get_token now later force w =
      if not force && not (no_text w.client.cached_token)
      then (w, some w.client.cached_token)
      else if not (no_text m.token_variable)
      then (cache w m.token_variable, some m.token_variable)
      else let (s, b) =
          bundle_for_account m (record { machine = w.machine; discovered = w.discovered })
            w.client.claude_config_dir w.client.sandbox_keychain
            w.client.sandbox_keychain_password_file in
        refreshed_of now later (with_session w s) b

  abbrev of_parsed : Option UsageSnapshot → Fetched
  of_parsed none = Fetched.failed FetchError.parse
  of_parsed (some s) = Fetched.snapshot s

  abbrev of_response : Formats → Endpoint → Time → Option HttpResponse → Fetched
  of_response f e now none = Fetched.failed FetchError.request
  of_response f e now (some r) =
      if r.status == 401
      then Fetched.failed FetchError.unauthorized
      else if r.status == 429
      then Fetched.failed (FetchError.rate_limited (parse_retry_after e now r.retry_after))
      else if r.status == 200
      then of_parsed (parse_api_response f now r.body)
      else Fetched.failed FetchError.status

  -- `doFetch`, of the first or the second request
  unfoldable pub do_fetch :
      Formats → Endpoint → Time → Bool → World m.State → Text → World m.State × Fetched
  unfolding claude_version parse_retry_after parse_api_response
  do_fetch f e now second_try w tok =
      let (c, version) = claude_version e w.client in
      (record w { client = c }, of_response f e now (e.send second_try tok version))

  abbrev pub is_unauthorized : Fetched → Bool
  is_unauthorized (Fetched.failed FetchError.unauthorized) = true
  is_unauthorized _ = false

  abbrev fetch_again :
      Formats → Endpoint → Time → Time → World m.State × Option Text → World m.State × Fetched
  fetch_again f e now later (w, none) = (w, Fetched.failed FetchError.no_token)
  fetch_again f e now later (w, some tok) = do_fetch f e later true w tok

  abbrev first_fetch :
      Formats → Endpoint → Time → Time → World m.State × Option Text → World m.State × Fetched
  first_fetch f e now later (w, none) = (w, Fetched.failed FetchError.no_token)
  first_fetch f e now later (w, some tok) =
      let (w', got) = do_fetch f e now false w tok in
      if is_unauthorized got
      then fetch_again f e now later (get_token now later true (record w' { discovered = [] }))
      else (w', got)

  -- `Fetch`
  unfoldable pub fetch : Formats → Endpoint → Time → Time → World m.State → World m.State × Fetched
  unfolding get_token do_fetch
  fetch f e now later w = first_fetch f e now later (get_token now later false w)
