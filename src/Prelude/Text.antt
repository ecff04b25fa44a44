-- ===== src/Prelude/Text.antt =====
-- Texts: native ones, compared whole, and lists of code points where the program walks them.
use Prim.Native.Nat.{ℕ}
use Prim.Native.Char.{code}
use Prim.Native.String.{String}
use mathlib.Core.Path.{◌≡◌, refl, ap}
use mathlib.Core.Bool.{Bool, true, false, not, ◌&&◌, ◌||◌}
use mathlib.Core.Logic.{◌↔◌}
use mathlib.Core.Option.{Option, none, some}
use mathlib.Core.List.{List, [], ◌∷◌, ◌++◌}
use native.Mathlib.Omega.{arith}
use burnrate.Prelude.Tests.{◌==◌, leb, if◌then◌else◌}
use burnrate.Prelude.Lists.{All}
pub use text.Mathlib.Text.{◌==◌ as str_eq}
pub use text.Mathlib.TextEquality.{eq_iff}

-- `s == ""` and `s != ""`
abbrev pub is_blank : String → Bool
is_blank s = str_eq s ""

abbrev pub is_set : String → Bool
is_set s = not (str_eq s "")

-- A text that the program walks: its code points.
abbrev pub Text : Type 0
Text = List ℕ

abbrev pub codes : String → Text
codes String.[] = []
codes (String.◌∷◌ c s) = code c ∷ codes s

-- `s == ""` of such a text, and `s == t`
abbrev pub no_text : Text → Bool
no_text [] = true
no_text (c ∷ cs) = false

abbrev pub text_eq : Text → Text → Bool
text_eq [] [] = true
text_eq [] (d ∷ ds) = false
text_eq (c ∷ cs) [] = false
text_eq (c ∷ cs) (d ∷ ds) = c == d && text_eq cs ds

-- `strings.HasPrefix`
abbrev pub starts_with : Text → Text → Bool
starts_with [] s = true
starts_with (p ∷ ps) [] = false
starts_with (p ∷ ps) (c ∷ cs) = p == c && starts_with ps cs

pub text_eq_iff : (s t : Text) → (text_eq s t ≡ true) ↔ (s ≡ t)
text_eq_iff [] [] = (λ h. refl, λ e. refl)
text_eq_iff [] (d ∷ t) = (λ h. cc, λ e. cc)
text_eq_iff (c ∷ s) [] = (λ h. cc, λ e. cc)
text_eq_iff (c ∷ s) (d ∷ t) = ground (arith, text_eq_iff s t)

pub starts_with_iff : (p s : Text) → (starts_with p s ≡ true) ↔ ((rest : Text) × (s ≡ p ++ rest))
starts_with_iff [] s = (λ h. (s, refl), λ e. refl)
starts_with_iff (c ∷ p) [] = (λ h. cc, λ e. (let (rest, k) = e in cc))
starts_with_iff (c ∷ p) (d ∷ s) = (
  λ h.
      (let (rest, k) = (starts_with_iff p s).0 (ground (arith, h)) in (rest, ground (arith, h, k))),
  λ e.
      (let (rest, k) = e in
        let same : s ≡ p ++ rest = cc in ground (arith, k, (starts_with_iff p s).1 (rest, same))),
)

-- `unicode.IsSpace`
unfoldable pub is_space : ℕ → Bool
is_space c =
    (leb 9 c && leb c 13)
    || c == 32
    || c == 0x85
    || c == 0xa0
    || c == 0x1680
    || (leb 0x2000 c && leb c 0x200a)
    || c == 0x2028
    || c == 0x2029
    || c == 0x202f
    || c == 0x205f
    || c == 0x3000

-- `strings.TrimLeft` and `strings.TrimRight` of white space
unfoldable pub trim_left : Text → Text
trim_left [] = []
trim_left (c ∷ cs) = if is_space c then trim_left cs else c ∷ cs

abbrev cons_unless_end : ℕ → Text → Text
cons_unless_end c [] = if is_space c then [] else c ∷ []
cons_unless_end c (d ∷ ds) = c ∷ d ∷ ds

unfoldable pub trim_right : Text → Text
trim_right [] = []
trim_right (c ∷ cs) = cons_unless_end c (trim_right cs)

-- `strings.TrimSpace`
unfoldable pub trim_space : Text → Text
unfolding trim_left trim_right
trim_space s = trim_right (trim_left s)

-- `strings.CutPrefix`
unfoldable pub strip_prefix : Text → Text → Option Text
strip_prefix [] s = some s
strip_prefix (p ∷ ps) [] = none
strip_prefix (p ∷ ps) (c ∷ cs) = if p == c then strip_prefix ps cs else none

-- The text before the first `c`, or all of it.
unfoldable pub before : ℕ → Text → Text
before c [] = []
before c (d ∷ ds) = let rest = before c ds in if d == c then [] else d ∷ rest

pub strip_prefix-append : (p s : Text) → strip_prefix p (p ++ s) ≡ some s
unfolding strip_prefix
strip_prefix-append [] s = refl
strip_prefix-append (c ∷ p) s = ground (arith, strip_prefix-append p s)

pub before-append : (c : ℕ) (s t : Text) → All (λ d. (d == c) ≡ false) s → before c (s ++ c ∷ t) ≡ s
unfolding before
before-append c [] t h = ground arith
before-append c (d ∷ s) t h = rw (h.0) (ap (λ (l : Text). d ∷ l) (before-append c s t h.1))
