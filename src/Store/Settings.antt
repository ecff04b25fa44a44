-- ===== src/Store/Settings.antt =====
-- internal/store/settings.go
use burnrate.Prelude.{
  ◌≡◌, refl, ap, true, false, Option, none, some, List, [], ◌∷◌, String, inl, inr, arith,
}
use burnrate.Prelude.Tests.{if◌then◌else◌, Bool-cases}
use burnrate.Prelude.Text.{str_eq, eq_iff}
use burnrate.Store.Tables.{Store}

abbrev lookup : String → List (String × String) → Option String
lookup key [] = none
lookup key ((k, v) ∷ ps) = let rest = lookup key ps in if str_eq k key then some v else rest

-- `GetSetting`
unfoldable pub get_setting : Store → String → Option String
get_setting s key = lookup key s.settings

abbrev upsert : String → String → List (String × String) → List (String × String)
upsert key value [] = (key, value) ∷ []
upsert key value ((k, v) ∷ ps) =
    let rest = upsert key value ps in if str_eq k key then (k, value) ∷ ps else (k, v) ∷ rest

-- `SetSetting`
unfoldable pub set_setting : Store → String → String → Store
set_setting s key value = record s { settings = upsert key value s.settings }

str_eq_refl : (s : String) → str_eq s s ≡ true
str_eq_refl s = (eq_iff s s).1 refl

lookup-upsert :
    (key value : String) (ps : List (String × String))
    → lookup key (upsert key value ps) ≡ some value
lookup-upsert key value [] = ground (arith, str_eq_refl key)
lookup-upsert key value ((k, v) ∷ ps) = ground (arith, lookup-upsert key value ps)

lookup-upsert-other :
    (key value other : String) (ps : List (String × String))
    → str_eq key other ≡ false
    → lookup other (upsert key value ps) ≡ lookup other ps
lookup-upsert-other key value other [] h = ground (arith, h)
lookup-upsert-other key value other ((k, v) ∷ ps) h = elim (Bool-cases (str_eq k key)) [
  | inl e ↦ ground (arith, e, ap (λ x. str_eq x other) ((eq_iff k key).0 e), h)
  | inr e ↦ ground (arith, e, lookup-upsert-other key value other ps h)
]

module _ (s : Store) (key value : String) where
  pub get_setting-set_setting : get_setting (set_setting s key value) key ≡ some value
  unfolding get_setting set_setting
  get_setting-set_setting = lookup-upsert key value s.settings

  pub get_setting-set_setting-other :
      (other : String)
      → str_eq key other ≡ false
      → get_setting (set_setting s key value) other ≡ get_setting s other
  unfolding get_setting set_setting
  get_setting-set_setting-other other h = lookup-upsert-other key value other s.settings h
