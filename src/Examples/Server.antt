-- ===== src/Examples/Server.antt =====
-- The guard of the API at concrete requests.
use burnrate.Prelude.{◌≡◌, ◌↔◌, refl, some, []}
use burnrate.Prelude.Text.{codes}
use burnrate.Server.{Request, Reply, origin_guard, guarded, allowed_origins}
use burnrate.Server.CrossSite.{IsProtected, IsForeign, origin_guard-refused}

abbrev forged : Request
forged = record {
  path = codes "/api/tasks/7/run-now";
  method = codes "POST";
  origin = codes "https://evil.example";
  sec_fetch_site = codes "cross-site";
}

origin_guard-refused_example :
    (origin_guard (codes "4517") [] forged ≡ Reply.refused)
    ↔ (IsProtected forged.path × IsForeign (codes "4517") [] forged)
origin_guard-refused_example = origin_guard-refused (codes "4517") [] forged

own_page :
    origin_guard (codes "4517") [] (record forged { origin = codes "http://localhost:4517" })
    ≡ Reply.served (some (codes "http://localhost:4517"))
unfolding origin_guard guarded allowed_origins
own_page = refl
