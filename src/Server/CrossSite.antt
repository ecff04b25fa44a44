-- ===== src/Server/CrossSite.antt =====
-- Which requests the guard of the API refuses.
use burnrate.Prelude.{
  ◌≡◌, ◌≢◌, ◌↔◌, ◌⊎◌, inl, inr, refl, Bool, true, false, ◌||◌, [], ◌∷◌, ◌++◌, arith,
}
use burnrate.Prelude.Lists.{any}
use burnrate.Prelude.Text.{Text, codes, no_text, text_eq, text_eq_iff, starts_with_iff}
use burnrate.Server.{
  Request, Reply, allowed_origins, guarded, origin_guard, with_dev, is_cross_site,
}

-- The paths of the API, of the health probe and of the MCP endpoint.
abbrev pub IsProtected : Text → Type 0
IsProtected path =
    ((((rest : Text) × (path ≡ codes "/api/" ++ rest)) ⊎ (path ≡ codes "/health"))
      ⊎ (path ≡ codes "/mcp"))
    ⊎ ((rest : Text) × (path ≡ codes "/mcp/" ++ rest))

-- The desktop shell, the daemon's own pages, and the server of a developer.
abbrev pub IsOwn : Text → Text → Text → Type 0
IsOwn port dev origin =
    (origin ≡ codes "tauri://localhost")
    ⊎ (origin ≡ codes "http://tauri.localhost")
    ⊎ (origin ≡ codes "https://tauri.localhost")
    ⊎ (origin ≡ codes "http://127.0.0.1:" ++ port)
    ⊎ (origin ≡ codes "http://localhost:" ++ port)
    ⊎ (origin ≡ dev)

-- A browser says of a request where it comes from: it names the page's origin, or, where it leaves
-- that out, how the page's site is related to the daemon's.
abbrev pub IsForeign : Text → Text → Request → Type 0
IsForeign port dev r =
    ((r.origin ≢ []) × ¬ IsOwn port dev r.origin)
    ⊎ ((r.origin ≡ [])
        × ((r.sec_fetch_site ≡ codes "cross-site") ⊎ (r.sec_fetch_site ≡ codes "same-site")))

or_iff : {P Q : Type 0} (a b : Bool) → (a ≡ true) ↔ P → (b ≡ true) ↔ Q → ((a || b) ≡ true) ↔ (P ⊎ Q)
or_iff true b h k = (λ e. inl (h.0 refl), λ x. refl)
or_iff false b h k =
    (λ e. inr (k.0 e), λ x. elim x [ inl p ↦ (let e = h.1 p in cc) | inr q ↦ k.1 q ])

no_text_iff : (t : Text) → (no_text t ≡ true) ↔ (t ≡ [])
no_text_iff [] = (λ e. refl, λ e. refl)
no_text_iff (c ∷ cs) = (λ e. cc, λ e. cc)

guarded-IsProtected : (path : Text) → (guarded path ≡ true) ↔ IsProtected path
unfolding guarded
guarded-IsProtected path =
    or_iff _ _
      (or_iff _ _
        (or_iff _ _ (starts_with_iff (codes "/api/") path) (text_eq_iff path (codes "/health")))
        (text_eq_iff path (codes "/mcp")))
      (starts_with_iff (codes "/mcp/") path)

with_dev_iff :
    (origin dev : Text)
    → origin ≢ []
    → (any (text_eq origin) (with_dev dev) ≡ true) ↔ (origin ≡ dev)
with_dev_iff origin [] set = (λ e. cc, λ e. absurd (set e))
with_dev_iff origin (c ∷ cs) set =
    let (sound, complete) = text_eq_iff origin (c ∷ cs) in
    (λ e. sound (ground (arith, e)), λ e. rw (complete e) refl)

allowed_origins-IsOwn :
    (port dev origin : Text)
    → origin ≢ []
    → (any (text_eq origin) (allowed_origins port dev) ≡ true) ↔ IsOwn port dev origin
unfolding allowed_origins
allowed_origins-IsOwn port dev origin set =
    or_iff _ _ (text_eq_iff origin (codes "tauri://localhost")) (
      or_iff _ _ (text_eq_iff origin (codes "http://tauri.localhost")) (
        or_iff _ _ (text_eq_iff origin (codes "https://tauri.localhost")) (
          or_iff _ _ (text_eq_iff origin (codes "http://127.0.0.1:" ++ port)) (
            or_iff _ _ (text_eq_iff origin (codes "http://localhost:" ++ port))
              (with_dev_iff origin dev set)))))

-- The tests that lead to a refusal.
abbrev ForeignTests : Text → Text → Request → Type 0
ForeignTests port dev r =
    ((no_text r.origin ≡ false) × (any (text_eq r.origin) (allowed_origins port dev) ≡ false))
    ⊎ ((no_text r.origin ≡ true) × (is_cross_site r.sec_fetch_site ≡ true))

false_iff : {P : Type 0} (b : Bool) → (b ≡ true) ↔ P → (b ≡ false) ↔ (¬ P)
false_iff true h = (λ e. cc, λ n. absurd (n (h.0 refl)))
false_iff false h = (λ e p. (let k = h.1 p in cc), λ n. refl)

is_cross_site-either :
    (site : Text)
    → (is_cross_site site ≡ true) ↔ ((site ≡ codes "cross-site") ⊎ (site ≡ codes "same-site"))
is_cross_site-either site =
    or_iff _ _ (text_eq_iff site (codes "cross-site")) (text_eq_iff site (codes "same-site"))

IsForeign-ForeignTests :
    (port dev : Text) (r : Request) → ForeignTests port dev r ↔ IsForeign port dev r
IsForeign-ForeignTests port dev r =
    let site = is_cross_site-either r.sec_fetch_site in
    let unset = no_text_iff r.origin in
    let set = false_iff (no_text r.origin) unset in
    let foreign = λ (s : r.origin ≢ []).
      false_iff (any (text_eq r.origin) (allowed_origins port dev))
        (allowed_origins-IsOwn port dev r.origin s) in
    (
      λ h. elim h [
        | inl (s, f) ↦ inl (set.0 s, (foreign (set.0 s)).0 f)
        | inr (u, c) ↦ inr (unset.0 u, site.0 c)
      ],
      λ h. elim h [
        | inl (s, f) ↦ inl (set.1 s, (foreign s).1 f)
        | inr (u, c) ↦ inr (unset.1 u, site.1 c)
      ],
    )

origin_guard-ForeignTests :
    (port dev : Text) (r : Request)
    → (origin_guard port dev r ≡ Reply.refused)
      ↔ ((guarded r.path ≡ true) × ForeignTests port dev r)
unfolding origin_guard
origin_guard-ForeignTests port dev r = ground arith

-- The guard refuses exactly the requests for the API, the health probe or the MCP endpoint that name an
-- origin other than the desktop shell's, the daemon's own on its port and the developer's, or that
-- name none and say that they come from another site or another origin of the same site.
pub origin_guard-refused :
    (port dev : Text) (r : Request)
    → (origin_guard port dev r ≡ Reply.refused) ↔ (IsProtected r.path × IsForeign port dev r)
origin_guard-refused port dev r =
    let (refused, tested) = origin_guard-ForeignTests port dev r in
    let (path_of, tests_path) = guarded-IsProtected r.path in
    (
      λ e. (let (p, f) = refused e in (path_of p, (IsForeign-ForeignTests port dev r).0 f)),
      λ h. tested (tests_path h.0, (IsForeign-ForeignTests port dev r).1 h.1),
    )
