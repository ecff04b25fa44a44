-- ===== src/Service/Requests/Marker.antt =====
-- The verdict that `Respond` folds into a reply, and `parseResultMarker` recovers.
use burnrate.Prelude.{ℕ, ◌≡◌, ap, ◌∙◌, false, Option, none, some, [], ◌∷◌, ◌++◌}
use burnrate.Prelude.Tests.{◌==◌}
use burnrate.Prelude.Lists.{All}
use burnrate.Prelude.Text.{
  Text, codes, trim_space, strip_prefix, before, strip_prefix-append, before-append,
}

abbrev pub result_prefix : Text
result_prefix = codes "**Result:** "

abbrev pub newline : ℕ
newline = 10

-- The body of the reply: `resultPrefix + in.Result + "\n\n" + body`, if there is a result.
unfoldable pub with_result : Text → Text → Text
with_result [] body = body
with_result (c ∷ cs) body = result_prefix ++ (c ∷ cs) ++ newline ∷ newline ∷ body

abbrev first_line : Option Text → Text
first_line none = []
first_line (some rest) = trim_space (before newline rest)

unfoldable pub parse_result_marker : Text → Text
parse_result_marker body = first_line (strip_prefix result_prefix body)

-- A reply's verdict, of one line, is read back from the stored text, less the white space around
-- it, whatever the rest of the reply.
pub parse_result_marker-with_result :
    (c : ℕ) (cs body : Text)
    → All (λ d. (d == newline) ≡ false) (c ∷ cs)
    → parse_result_marker (with_result (c ∷ cs) body) ≡ trim_space (c ∷ cs)
unfolding parse_result_marker with_result
parse_result_marker-with_result c cs body h =
    ap first_line (strip_prefix-append result_prefix (c ∷ cs ++ newline ∷ newline ∷ body))
    ∙ ap trim_space (before-append newline (c ∷ cs) (newline ∷ body) h)
