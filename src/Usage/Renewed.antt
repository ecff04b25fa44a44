-- ===== src/Usage/Renewed.antt =====
-- What `EnsureFresh` promises: a new token is used only once it is stored.
use burnrate.Prelude.{◌≡◌, inl, inr, refl, true, false, ◌||◌, Option, none, some}
use burnrate.Prelude.Tests.{Bool-cases, Option-cases, either}
use burnrate.Prelude.Text.{Text, no_text}
use burnrate.Scheduling.Types.{Time}
use burnrate.Usage.Keychain.{Machine, TokenBundle, parsed, read_back, verify_write_back}
use burnrate.Usage.Json.{Json, text_eq_sound}
use burnrate.Usage.Refresh.{
  TokenService, TokenResponse, Refresher, Outcome, Answer, lasts, is_recent, expires_time,
  do_refresh, persist_bundle, commit, committed, refresh_with, build, ensure_fresh,
}

module _ (m : Machine) where
  -- The place that `b` came from holds `tok`.
  abbrev pub Stored : m.State → TokenBundle → Text → Type 0
  Stored s b tok =
      (b' : TokenBundle) × (parsed m (read_back m s b b.source) ≡ some b') × (b'.access_token ≡ tok)

  verify_write_back-Stored :
      (s : m.State) (b : TokenBundle) (tok : Text)
      → verify_write_back m s b tok ≡ true
      → Stored s b tok
  unfolding verify_write_back
  verify_write_back-Stored s b tok h = elim (Option-cases (parsed m (read_back m s b b.source))) [
    | inl missing ↦ let f : false ≡ true = rw (missing, verify_write_back) at h in cc
    | inr (b', e) ↦ (b', e, text_eq_sound b'.access_token tok (rw (e, verify_write_back) at h))
  ]

module _ (m : Machine) (json : Json) (service : TokenService) where
  -- By the outcome: the cache and the bundle after it.
  abbrev pub Renews :
      Refresher m.State → TokenBundle → Refresher m.State → TokenBundle → Outcome → Type 0
  Renews r b r' b' (Outcome.failed e) =
      (b' ≡ b)
      × (r'.last_refresh_at ≡ r.last_refresh_at)
      × (r'.last_refresh_tok ≡ r.last_refresh_tok)
  Renews r b r' b' (Outcome.token tok false) = (b' ≡ b) × (r' ≡ r) × (tok ≡ b.access_token)
  Renews r b r' b' (Outcome.token tok true) =
      Stored m r'.machine b tok × (b'.access_token ≡ tok) × (r'.last_refresh_tok ≡ tok)

  abbrev pub Renewed : Refresher m.State → TokenBundle → Answer m json service → Type 0
  Renewed r b (r', b', outcome) = Renews r b r' b' outcome

  commit-Renewed :
      (later : Time) (r : Refresher m.State) (b : TokenBundle) (t : TokenResponse) (new_json : Text)
      → Renewed r b (commit m json service later r b t new_json)
  unfolding commit
  commit-Renewed later r b t new_json =
      let s = (persist_bundle m json service r.machine b b.source new_json).0 in
      elim (Bool-cases (persist_bundle m json service r.machine b b.source new_json).1) [
        | inl written ↦ elim (Bool-cases (verify_write_back m s b t.access_token)) [
          | inl same ↦
              rw (written, same) (verify_write_back-Stored m s b t.access_token same, refl, refl)
          | inr other ↦ rw (written, other) (refl, refl, refl)
        ]
        | inr lost ↦ rw lost (refl, refl, refl)
      ]

  committed-Renewed :
      (later : Time) (r : Refresher m.State) (b : TokenBundle) (t : TokenResponse) (j : Option Text)
      → Renewed r b (committed m json service later r b t j)
  committed-Renewed later r b t none = (refl, refl, refl)
  committed-Renewed later r b t (some new_json) = commit-Renewed later r b t new_json

  refresh_with-Renewed :
      (later : Time) (r : Refresher m.State) (b : TokenBundle) (t : Option TokenResponse)
      → Renewed r b (refresh_with m json service later r b t)
  refresh_with-Renewed later r b none = (refl, refl, refl)
  refresh_with-Renewed later r b (some t) =
      committed-Renewed later r b t (build m json service later b t)

  -- Unless a token was refreshed within the last 30 seconds: a token that is returned as refreshed is
  -- stored where the bundle came from, as it reads back there, and is the bundle's and the cache's;
  -- one returned as it was changes nothing; and an error leaves the bundle and the cache as they were.
  pub ensure_fresh-Renewed :
      (now later : Time) (r : Refresher m.State) (b : TokenBundle)
      → is_recent now r.last_refresh_at ≡ false
      → Renewed r b (ensure_fresh m json service now later r b)
  unfolding ensure_fresh
  ensure_fresh-Renewed now later r b h =
      either (Renewed r b) (lasts now (expires_time b) || no_text b.refresh_token) _ _
        (refl, refl, refl)
        (rw h (refresh_with-Renewed later r b (do_refresh service b.refresh_token)))
