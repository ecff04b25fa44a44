-- ===== src/Usage/Names.antt =====
-- The texts that internal/usage/keychain.go looks for in the output of `security`.
use burnrate.Prelude.{
  ℕ, zero, suc, ◌+◌, Bool, true, false, not, Option, none, some, List, [], ◌∷◌, ◌++◌,
}
use burnrate.Prelude.Tests.{◌==◌, ltb, if◌then◌else◌}
use burnrate.Prelude.Lists.{length, any, keep}
use burnrate.Prelude.Text.{Text, codes, text_eq, strip_prefix}

abbrev pub default_service : Text
default_service = codes "Claude Code-credentials"

-- The text up to the next quote, if there is one.
unfoldable to_quote : Text → Option Text
to_quote [] = none
to_quote (c ∷ cs) =
    let rest = to_quote cs in
    if c == b'"' then some [] else elim rest [ none ↦ none | some s ↦ some (c ∷ s) ]

abbrev with_stem : Text → Option Text → Option Text
with_stem stem none = none
with_stem stem (some s) = some (stem ++ s)

abbrev then_quote : Text → Option Text → Option Text
then_quote stem none = none
then_quote stem (some s) = with_stem stem (to_quote s)

-- `FindAllStringSubmatch` of `prefix(stem[^"]*)"`; the first argument counts what is left of a match.
unfoldable pub find_all : Text → Text → ℕ → Text → List Text
unfolding to_quote strip_prefix
find_all prefix stem skip [] = []
find_all prefix stem (suc skip) (c ∷ cs) = find_all prefix stem skip cs
find_all prefix stem zero (c ∷ cs) =
    elim (then_quote stem (strip_prefix (prefix ++ stem) (c ∷ cs))) [
      | none ↦ find_all prefix stem zero cs
      | some name ↦ name ∷ find_all prefix stem (length prefix + length name) cs
    ]

-- The order of Go's texts.
abbrev leb_text : Text → Text → Bool
leb_text [] t = true
leb_text (c ∷ cs) [] = false
leb_text (c ∷ cs) (d ∷ ds) = if c == d then leb_text cs ds else ltb c d

abbrev insert_text : Text → List Text → List Text
insert_text s [] = s ∷ []
insert_text s (t ∷ ts) =
    let rest = insert_text s ts in if leb_text s t then s ∷ t ∷ ts else t ∷ rest

abbrev sort_texts : List Text → List Text
sort_texts [] = []
sort_texts (s ∷ ss) = insert_text s (sort_texts ss)

unfoldable distinct : List Text → List Text → List Text
distinct seen [] = []
distinct seen (s ∷ ss) =
    if any (text_eq s) seen then distinct seen ss else s ∷ distinct (s ∷ seen) ss

abbrev pub svce : Text
svce = b'"' ∷ (codes "svce" ++ b'"' ∷ (codes "<blob>=" ++ b'"' ∷ []))

abbrev pub acct : Text
acct = b'"' ∷ (codes "acct" ++ b'"' ∷ (codes "<blob>=" ++ b'"' ∷ []))

-- `extractServiceNames`
unfoldable pub extract_service_names : Text → List Text
unfolding find_all distinct
extract_service_names dump = sort_texts (
    distinct []
      (keep (λ s. not (text_eq s default_service)) (find_all svce default_service zero dump)))
