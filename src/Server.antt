-- ===== src/Server.antt =====
-- internal/server/origin.go: which requests the API serves. A port is written in its decimal digits.
pub mod CrossSite
use burnrate.Prelude.{Bool, true, false, not, ◌||◌, Option, none, some, List, [], ◌∷◌, ◌++◌}
use burnrate.Prelude.Tests.{if◌then◌else◌}
use burnrate.Prelude.Lists.{any}
use burnrate.Prelude.Text.{Text, codes, no_text, text_eq, starts_with}

-- What the guard reads of a request; a header that is missing is no text.
pub record Request : Type 0 where
  pub path : Text
  pub method : Text
  pub origin : Text
  pub sec_fetch_site : Text

-- Refused with 403, answered with 204, or passed on; and the origin that may read the answer.
pub data Reply : Type 0 where
  refused : Reply
  no_content served : Option Text → Reply

abbrev pub with_dev : Text → List Text
with_dev [] = []
with_dev (c ∷ cs) = (c ∷ cs) ∷ []

-- `allowedOrigins`; `dev` is BURNRATE_DEV_ORIGIN.
unfoldable pub allowed_origins : Text → Text → List Text
allowed_origins port dev =
    codes "tauri://localhost"
    ∷ codes "http://tauri.localhost"
    ∷ codes "https://tauri.localhost"
    ∷ (codes "http://127.0.0.1:" ++ port)
    ∷ (codes "http://localhost:" ++ port)
    ∷ with_dev dev

-- `guarded`
unfoldable pub guarded : Text → Bool
guarded path =
    starts_with (codes "/api/") path
    || text_eq path (codes "/health")
    || text_eq path (codes "/mcp")
    || starts_with (codes "/mcp/") path

abbrev pub is_cross_site : Text → Bool
is_cross_site site = text_eq site (codes "cross-site") || text_eq site (codes "same-site")

abbrev by_method : Request → Option Text → Reply
by_method r cors =
    if text_eq r.method (codes "OPTIONS") then Reply.no_content cors else Reply.served cors

-- `originGuard`
unfoldable pub origin_guard : Text → Text → Request → Reply
origin_guard port dev r =
    if not (guarded r.path)
    then Reply.served none
    else if not (no_text r.origin)
    then (if any (text_eq r.origin) (allowed_origins port dev)
        then by_method r (some r.origin)
        else Reply.refused)
    else if is_cross_site r.sec_fetch_site
    then Reply.refused
    else by_method r none
