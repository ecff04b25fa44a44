-- ===== src/Prelude/Number.antt =====
-- Decimal numbers in a text: `strconv.Atoi`, of 64 bits.
use Prim.Native.Nat.{ℕ, ◌+◌, ◌-◌, ◌*◌}
use mathlib.Core.Bool.{◌&&◌}
use mathlib.Core.Option.{Option, none, some}
use mathlib.Core.List.{[], ◌∷◌}
use burnrate.Prelude.Tests.{◌==◌, leb, if◌then◌else◌}
use burnrate.Prelude.Int.{ℤ, pos, negsuc}
use burnrate.Prelude.Text.{Text}

unfoldable pub digits_from : ℕ → Text → Option ℕ
digits_from acc [] = some acc
digits_from acc (c ∷ cs) =
    let rest = digits_from (acc * 10 + (c - b'0')) cs in
    if leb b'0' c && leb c b'9' then rest else none

abbrev digits : Text → Option ℕ
digits [] = none
digits (c ∷ cs) = digits_from 0 (c ∷ cs)

abbrev positive : Option ℕ → Option ℤ
positive none = none
positive (some n) = if leb n 9223372036854775807 then some (pos n) else none

abbrev negative : Option ℕ → Option ℤ
negative none = none
negative (some n) =
    if leb n 9223372036854775808 then some (if n == 0 then pos 0 else negsuc (n - 1)) else none

unfoldable pub atoi : Text → Option ℤ
unfolding digits_from
atoi [] = none
atoi (c ∷ cs) =
    if c == b'+'
    then positive (digits cs)
    else if c == b'-'
    then negative (digits cs)
    else positive (digits (c ∷ cs))
