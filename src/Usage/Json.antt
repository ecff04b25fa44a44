-- ===== src/Usage/Json.antt =====
-- `buildUpdatedJSON` of internal/usage/refresh.go. The package encoding/json is given: printing a map
-- fails on a value that is not JSON, and writes every value in its compact form, with the white space
-- between tokens left out and `<`, `>` and `&` in strings escaped.
use burnrate.Prelude.{
  ◌≡◌, ◌∙◌, ap, Bool, not, ◌&&◌, refl, inl, inr, true, false, Option, none, some, List, [], ◌∷◌,
  arith,
}
use burnrate.Prelude.Tests.{if◌then◌else◌, Bool-cases, either}
use burnrate.Prelude.Lists.{All}
use burnrate.Prelude.Table.{on_some}
use burnrate.Prelude.Int.{ℤ}
use burnrate.Prelude.Text.{Text, codes, no_text, text_eq}

-- `map[string]json.RawMessage`
abbrev pub Fields : Type 0
Fields = List (Text × Text)

abbrev pub get : Text → Fields → Option Text
get k [] = none
get k ((j, v) ∷ fs) = if text_eq j k then some v else get k fs

unfoldable pub put : Text → Text → Fields → Fields
put k v [] = (k, v) ∷ []
put k v ((j, w) ∷ fs) = if text_eq j k then (k, v) ∷ fs else (j, w) ∷ put k v fs

pub record Json : Type 0 where
  -- `Unmarshal` into a map, and `Marshal` of one
  pub parse : Text → Option Fields
  pub print : Fields → Option Text
  pub valid : Text → Bool
  pub compact : Text → Text
  -- `Marshal` of a string and of an integer
  pub quote : Text → Text
  pub number : ℤ → Text

-- Every value of a map is JSON.
abbrev pub IsValid : Json → Fields → Type 0
IsValid json fs = All (λ (f : Text × Text). json.valid f.1 ≡ true) fs

pub record IsLawful (json : Json) : Type 0 where
  -- what is read is made of valid values, and what is written is valid and compact
  pub parse-IsValid : (text : Text) (fs : Fields) → json.parse text ≡ some fs → IsValid json fs
  pub valid-print : (fs : Fields) (text : Text) → json.print fs ≡ some text → json.valid text ≡ true
  pub valid-quote : (text : Text) → json.valid (json.quote text) ≡ true
  pub valid-number : (n : ℤ) → json.valid (json.number n) ≡ true
  pub compact-print :
      (fs : Fields) (text : Text) → json.print fs ≡ some text → json.compact text ≡ text
  pub compact-quote : (text : Text) → json.compact (json.quote text) ≡ json.quote text
  pub compact-number : (n : ℤ) → json.compact (json.number n) ≡ json.number n
  -- a map of valid values is written, and reads back with its values in their compact form
  pub parse-print :
      (fs : Fields)
      → IsValid json fs
      → (text : Text) × (gs : Fields) × (json.print fs ≡ some text)
        × (json.parse text ≡ some gs)
        × ((k : Text) → get k gs ≡ on_some json.compact (get k fs))

abbrev pub oauth_key : Text
oauth_key = codes "claudeAiOauth"

abbrev pub access_key : Text
access_key = codes "accessToken"

abbrev pub refresh_key : Text
refresh_key = codes "refreshToken"

abbrev pub expires_key : Text
expires_key = codes "expiresAt"

pub text_eq_sound : (s t : Text) → text_eq s t ≡ true → s ≡ t
text_eq_sound [] [] h = refl
text_eq_sound [] (d ∷ t) h = cc
text_eq_sound (c ∷ s) [] h = cc
text_eq_sound (c ∷ s) (d ∷ t) h = ground (arith, text_eq_sound s t)

text_eq_of : (i k j : Text) → text_eq i j ≡ true → text_eq k j ≡ true → text_eq i k ≡ true
text_eq_of [] [] [] h e = refl
text_eq_of (a ∷ i) (b ∷ k) (c ∷ j) h e = ground (arith, text_eq_of i k j)
text_eq_of [] (b ∷ k) [] h e = cc
text_eq_of [] (b ∷ k) (c ∷ j) h e = cc
text_eq_of [] [] (c ∷ j) h e = cc
text_eq_of (a ∷ i) [] [] h e = cc
text_eq_of (a ∷ i) (b ∷ k) [] h e = cc
text_eq_of (a ∷ i) [] (c ∷ j) h e = cc

pub get-put :
    (k v j : Text) (fs : Fields) → get j (put k v fs) ≡ (if text_eq k j then some v else get j fs)
unfolding put
get-put k v j [] = refl
get-put k v j ((i, w) ∷ fs) = elim (Bool-cases (text_eq i k)) [
  | inl same ↦ rw same (rw (text_eq_sound i k same) (ground arith))
  | inr other ↦ ground (arith, get-put k v j fs, text_eq_of i k j)
]

module _ (json : Json) where
  unfoldable pub with_tokens : Text → Text → ℤ → Fields → Fields
  unfolding put
  with_tokens access refresh expires_at oauth =
      let oauth' = put access_key (json.quote access) oauth in
      put expires_key (json.number expires_at)
        (if no_text refresh then oauth' else put refresh_key (json.quote refresh) oauth')

  abbrev updated : Text → Text → ℤ → Fields → Option Fields → Option Text
  updated access refresh expires_at raw none = none
  updated access refresh expires_at raw (some oauth) =
      elim (json.print (with_tokens access refresh expires_at oauth)) [
        | none ↦ none
        | some inner ↦ json.print (put oauth_key inner raw)
      ]

  abbrev parsed_field : Option Text → Option Fields
  parsed_field none = none
  parsed_field (some text) = json.parse text

  abbrev updated_from : Text → Text → ℤ → Option Fields → Option Text
  updated_from access refresh expires_at none = none
  updated_from access refresh expires_at (some raw) =
      updated access refresh expires_at raw (parsed_field (get oauth_key raw))

  -- `buildUpdatedJSON`
  unfoldable pub build_updated_json : Text → Text → Text → ℤ → Option Text
  unfolding with_tokens put
  build_updated_json original access refresh expires_at =
      updated_from access refresh expires_at (json.parse original)

  -- The fields of the tokens after a renewal, which are written in their compact form.
  abbrev pub expected : Text → Text → ℤ → Fields → Text → Option Text
  expected access refresh expires_at oauth k =
      if text_eq expires_key k
      then some (json.number expires_at)
      else if not (no_text refresh) && text_eq refresh_key k
      then some (json.quote refresh)
      else if text_eq access_key k
      then some (json.quote access)
      else on_some json.compact (get k oauth)

  IsValid-put :
      (k v : Text) (fs : Fields) → json.valid v ≡ true → IsValid json fs → IsValid json (put k v fs)
  unfolding put
  IsValid-put k v [] h i = (h, tt)
  IsValid-put k v ((j, w) ∷ fs) h (i, is) =
      either (IsValid json) (text_eq j k) ((k, v) ∷ fs) ((j, w) ∷ put k v fs) (h, is)
        (i, IsValid-put k v fs h is)

  module _ (law : IsLawful json) (access refresh : Text) (expires_at : ℤ) (oauth : Fields) where
    IsValid-with_tokens :
        IsValid json oauth → IsValid json (with_tokens access refresh expires_at oauth)
    unfolding with_tokens
    IsValid-with_tokens h =
        let set = IsValid-put access_key _ oauth (law.valid-quote access) h in
        IsValid-put expires_key _ _ (law.valid-number expires_at) (
          either (IsValid json) (no_text refresh) _ _ set
            (IsValid-put refresh_key _ _ (law.valid-quote refresh) set))

  on_some_set :
      (b : Bool) (v : Text) (o p : Option Text)
      → json.compact v ≡ v
      → on_some json.compact o ≡ p
      → on_some json.compact (if b then some v else o) ≡ (if b then some v else p)
  on_some_set true v o p h k = ap some h
  on_some_set false v o p h k = k

  -- Printed, the fields are the expected ones.
  get-with_tokens :
      (law : IsLawful json) (access refresh : Text) (expires_at : ℤ) (oauth : Fields) (k : Text)
      → on_some json.compact (get k (with_tokens access refresh expires_at oauth))
        ≡ expected access refresh expires_at oauth k
  unfolding with_tokens
  get-with_tokens law access [] expires_at oauth k =
      rw (get-put expires_key (json.number expires_at) k (put access_key (json.quote access) oauth))
        (rw (get-put access_key (json.quote access) k oauth) (
          on_some_set (text_eq expires_key k) _ _ _ (law.compact-number expires_at)
            (on_some_set (text_eq access_key k) _ _ _ (law.compact-quote access) refl)))
  get-with_tokens law access (c ∷ cs) expires_at oauth k =
      rw
        (get-put expires_key (json.number expires_at) k
          (put refresh_key (json.quote (c ∷ cs)) (put access_key (json.quote access) oauth)))
        (rw (get-put refresh_key (json.quote (c ∷ cs)) k (put access_key (json.quote access) oauth))
          (rw (get-put access_key (json.quote access) k oauth) (
            on_some_set (text_eq expires_key k) _ _ _ (law.compact-number expires_at) (
              on_some_set (text_eq refresh_key k) _ _ _ (law.compact-quote (c ∷ cs))
                (on_some_set (text_eq access_key k) _ _ _ (law.compact-quote access) refl)))))

  -- What a renewal makes of the credentials `original`.
  abbrev pub Updates : Text → Text → ℤ → Fields → Fields → Text → Type 0
  Updates access refresh expires_at raw oauth result =
      (raw' : Fields) × (text' : Text) × (oauth' : Fields) × (json.parse result ≡ some raw')
      × (get oauth_key raw' ≡ some text')
      × (json.parse text' ≡ some oauth')
      × ((k : Text) → text_eq oauth_key k ≡ false → get k raw' ≡ on_some json.compact (get k raw))
      × ((k : Text) → get k oauth' ≡ expected access refresh expires_at oauth k)

  build_updated_json-found :
      (original access refresh : Text) (expires_at : ℤ) (raw oauth : Fields) (text : Text)
      → json.parse original ≡ some raw
      → get oauth_key raw ≡ some text
      → json.parse text ≡ some oauth
      → build_updated_json original access refresh expires_at
        ≡ updated access refresh expires_at raw (some oauth)
  unfolding build_updated_json
  build_updated_json-found original access refresh expires_at raw oauth text h i j = rw (h, i, j)

  -- Renewing the credentials succeeds on a file with a map of tokens. It sets the access token and its
  -- expiry, and the refresh token if there is a new one; every other field of the tokens, and every
  -- other field of the file, stays as it was, in the compact form in which a map is written.
  pub build_updated_json-Updates :
      IsLawful json
      → (original access refresh : Text) (expires_at : ℤ) (raw oauth : Fields) (text : Text)
      → json.parse original ≡ some raw
      → get oauth_key raw ≡ some text
      → json.parse text ≡ some oauth
      → (result : Text) × (build_updated_json original access refresh expires_at ≡ some result)
        × Updates access refresh expires_at raw oauth result
  build_updated_json-Updates law original access refresh expires_at raw oauth text h i j =
      let (inner, oauth', e, p, q) = law.parse-print (with_tokens access refresh expires_at oauth) (
        IsValid-with_tokens law access refresh expires_at oauth (law.parse-IsValid text oauth j)) in
      let (result, raw', e', p', q') = law.parse-print (put oauth_key inner raw) (
        IsValid-put oauth_key inner raw (law.valid-print _ inner e)
          (law.parse-IsValid original raw h)) in
      (
        result,
        build_updated_json-found original access refresh expires_at raw oauth text h i j
            ∙ rw (updated, e) e',
        (
          raw',
          inner,
          oauth',
          p',
          q' oauth_key
              ∙ rw (get-put oauth_key inner oauth_key raw) (ap some (law.compact-print _ inner e)),
          p,
          λ k other. q' k ∙ rw (get-put oauth_key inner k raw) (rw other refl),
          λ k. q k ∙ get-with_tokens law access refresh expires_at oauth k,
        ),
      )
