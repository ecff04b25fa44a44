-- ===== src/Prelude/Wrap.antt =====
-- Go's int64, which wraps around.
use Prim.Native.Nat.{ℕ, ◌-◌, ◌%◌}
use burnrate.Prelude.Tests.{ltb, if◌then◌else◌}
use burnrate.Prelude.Int.{ℤ, pos, negsuc}

-- The int64 of the low 64 bits of a number.
unfoldable pub wrap_int64 : ℕ → ℤ
wrap_int64 n =
    let m = n % 18446744073709551616 in
    if ltb m 9223372036854775808 then pos m else negsuc (18446744073709551615 - m)
