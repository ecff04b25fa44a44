-- ===== src/Usage/Refresh.antt =====
-- internal/usage/refresh.go: the renewal of a token that is about to expire. The answer of the token
-- service is given; `now` is when the call starts, `later` when the answer has come.
use burnrate.Prelude.{ℕ, ◌+◌, ◌*◌, ◌/◌, Bool, true, false, ◌&&◌, ◌||◌, not, Option, none, some}
use burnrate.Prelude.Tests.{◌==◌, ltb, if◌then◌else◌}
use burnrate.Prelude.Int.{ℤ, pos, negsuc, sub_ℕ}
use burnrate.Prelude.Text.{Text, no_text}
use burnrate.Scheduling.Types.{Time}
use burnrate.Scheduler.State.{second}
use burnrate.Usage.Keychain.{Machine, TokenBundle, Source, write_back_keychain, verify_write_back}
use burnrate.Usage.Json.{Json, build_updated_json}

pub record Response : Type 0 where
  pub status : ℕ
  pub body : Text

-- `tokenResponse`; the service names a number of seconds that is not negative.
pub record TokenResponse : Type 0 where
  pub access_token : Text
  pub refresh_token : Text
  pub expires_in : ℕ

-- What the service answers to a refresh token, none if there is no answer, and how it is decoded.
pub record TokenService : Type 0 where
  pub post : Text → Option Response
  pub decode : Text → Option TokenResponse

abbrev pub refresh_margin : ℕ
refresh_margin = 300000000000

abbrev pub single_flight : ℕ
single_flight = 30000000000

abbrev pub millisecond : ℕ
millisecond = 1000000

-- 1970, in milliseconds since Go's zero time
abbrev pub unix_epoch : ℕ
unix_epoch = 62135596800000

-- `lastRefreshAt`, none for the zero time, and `lastRefreshTok`, with the machine.
pub record Refresher (S : Type 0) : Type 0 where
  pub machine : S
  pub last_refresh_at : Option Time
  pub last_refresh_tok : Text

pub data RefreshError : Type 0 where
  oauth_refresh build_updated persist verify : RefreshError

pub data Outcome : Type 0 where
  -- the token, and whether it was refreshed
  token : Text → Bool → Outcome
  failed : RefreshError → Outcome

-- `ExpiresTime`, none for the zero time.
unfoldable pub expires_time : TokenBundle → Option Time
expires_time b = elim b.expires_at [
  | pos ms ↦ if ms == 0 then none else some ((unix_epoch + ms) * millisecond)
  | negsuc n ↦ none
]

-- The token is good for longer than the margin.
abbrev pub lasts : Time → Option Time → Bool
lasts now none = false
lasts now (some exp) = ltb (now + refresh_margin) exp

abbrev pub is_recent : Time → Option Time → Bool
is_recent now none = false
is_recent now (some at) = ltb now (at + single_flight)

abbrev complete : Option TokenResponse → Option TokenResponse
complete none = none
complete (some t) = if no_text t.access_token then none else some t

abbrev answered : TokenService → Option Response → Option TokenResponse
answered service none = none
answered service (some r) = if r.status == 200 then complete (service.decode r.body) else none

-- `doRefresh`
unfoldable pub do_refresh : TokenService → Text → Option TokenResponse
do_refresh service refresh_token = answered service (service.post refresh_token)

-- `time.Now().Add(…).UnixMilli()`
unfoldable pub new_expiry : Time → ℕ → ℤ
new_expiry later expires_in = sub_ℕ ((later + expires_in * second) / millisecond) unix_epoch

module _ (m : Machine) (json : Json) (service : TokenService) where
  abbrev pub State : Type 0
  State = Refresher m.State

  -- `persistBundle`
  unfoldable pub persist_bundle : m.State → TokenBundle → Source → Text → m.State × Bool
  unfolding write_back_keychain
  persist_bundle s b Source.keychain new_json = write_back_keychain m s b new_json
  persist_bundle s b Source.file new_json = m.write_file s b.keychain_item new_json
  persist_bundle s b Source.unset new_json = (s, false)

  abbrev pub renewed_bundle : Time → TokenBundle → TokenResponse → Text → TokenBundle
  renewed_bundle later b t new_json = record b {
    access_token = t.access_token;
    refresh_token = t.refresh_token;
    expires_at = new_expiry later t.expires_in;
    raw_json = new_json;
  }

  abbrev pub Answer : Type 0
  Answer = State × TokenBundle × Outcome

  -- From `persistBundle` on.
  unfoldable pub commit : Time → State → TokenBundle → TokenResponse → Text → Answer
  unfolding persist_bundle verify_write_back new_expiry
  commit later r b t new_json =
      let (s, written) = persist_bundle r.machine b b.source new_json in
      let r' = record r { machine = s } in
      if not written
      then (r', b, Outcome.failed RefreshError.persist)
      else if not (verify_write_back m s b t.access_token)
      then (r', b, Outcome.failed RefreshError.verify)
      else (
        record r { machine = s; last_refresh_at = some later; last_refresh_tok = t.access_token },
        renewed_bundle later b t new_json,
        Outcome.token t.access_token true,
      )

  abbrev pub committed : Time → State → TokenBundle → TokenResponse → Option Text → Answer
  committed later r b t none = (r, b, Outcome.failed RefreshError.build_updated)
  committed later r b t (some new_json) = commit later r b t new_json

  abbrev pub build : Time → TokenBundle → TokenResponse → Option Text
  build later b t =
      build_updated_json json b.raw_json t.access_token t.refresh_token
        (new_expiry later t.expires_in)

  abbrev pub refresh_with : Time → State → TokenBundle → Option TokenResponse → Answer
  refresh_with later r b none = (r, b, Outcome.failed RefreshError.oauth_refresh)
  refresh_with later r b (some t) = committed later r b t (build later b t)

  -- `EnsureFresh`
  unfoldable pub ensure_fresh : Time → Time → State → TokenBundle → Answer
  unfolding expires_time do_refresh commit build_updated_json new_expiry
  ensure_fresh now later r b =
      if lasts now (expires_time b) || no_text b.refresh_token
      then (r, b, Outcome.token b.access_token false)
      else if is_recent now r.last_refresh_at && not (no_text r.last_refresh_tok)
      then (r, b, Outcome.token r.last_refresh_tok true)
      else refresh_with later r b (do_refresh service b.refresh_token)
