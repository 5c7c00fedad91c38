-- ===== src/Base/Decimal.antt =====
-- Numbers in decimal digits.
use Prim.Native.Nat.{ℕ, zero, suc, ◌+◌, ◌/◌, ◌%◌, ◌^◌}
use mathlib.Core.List.{[], ◌∷◌}
use anope_mods_contrib.Base.Tests.{ltb, if◌then◌else◌}
use anope_mods_contrib.Base.Text.{Str}
use anope_mods_contrib.Base.Int.{ℤ}

unfoldable pub decimal_digits : ℕ → ℕ → Str → Str
decimal_digits zero n out = out
decimal_digits (suc f) n out =
    let digits = (b'0' + n % 10) ∷ out in
    let rest = decimal_digits f (n / 10) digits in if ltb n 10 then digits else rest

-- A uint64_t, which has twenty digits at most.
unfoldable pub decimal : ℕ → Str
unfolding decimal_digits
decimal n = decimal_digits 20 (n % 2 ^ 64) []

-- An int.
abbrev pub decimal_ℤ : ℤ → Str
decimal_ℤ (ℤ.pos n) = decimal n
decimal_ℤ (ℤ.negsuc n) = b'-' ∷ decimal (suc n)
