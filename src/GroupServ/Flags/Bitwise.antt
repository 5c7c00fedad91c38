-- ===== src/GroupServ/Flags/Bitwise.antt =====
-- HasFlag and the two changes of flags, bit by bit, on numbers of any size.
use Prim.Native.Nat.{bit_and, bit_or}
use native.Mathlib.Nat.{one-le-pow}
use anope_mods_contrib.Base.{◌≢◌, ◌↔◌, ap, ℕ, ◌*◌, ◌^◌, ◌-◌, ◌≡◌, ◌&&◌, ◌||◌, ◌==◌, arith}
use anope_mods_contrib.Bits.{bit, bit-bit_and, bit-bit_or, bit_and-two_pow, bit-le-one}
use anope_mods_contrib.GroupServ.Flags.{has_flag, add_flags, remove_flags}

product : (v k : ℕ) → (bit v k * 2 ^ k ≡ 0) ↔ (bit v k ≡ 0)
product v k =
    (λ h. omega (arith, nonzero h, bit-le-one v k), λ e. omega (arith, ap (λ (t : ℕ). t * 2 ^ k) e))
  where
    nonzero : bit v k * 2 ^ k ≡ 0 → bit v k ≢ 1
    nonzero h e = omega (arith, ap (λ (t : ℕ). t * 2 ^ k) e, one-le-pow k 2)

single : (v k : ℕ) → bit v k ≡ 1 → bit v k * 2 ^ k ≡ 2 ^ k
single v k e = omega (arith, ap (λ (t : ℕ). t * 2 ^ k) e)

-- A flag of weight 2 ^ k is set exactly where bit k is.
pub has_flag-bit : (v k : ℕ) → has_flag v (2 ^ k) ≡ (bit v k == 1)
unfolding has_flag
has_flag-bit v k = ground (arith, bit_and-two_pow v k, bit-le-one v k, one-le-pow k 2, product v k)

-- `|=` sets a flag where either side has it.
pub has_flag-add_flags :
    (v m k : ℕ) → has_flag (add_flags v m) (2 ^ k) ≡ (has_flag v (2 ^ k) || has_flag m (2 ^ k))
unfolding add_flags
has_flag-add_flags v m k = ground (
  arith,
  has_flag-bit (bit_or v m) k,
  has_flag-bit v k,
  has_flag-bit m k,
  bit-bit_or v m k,
  bit-le-one v k,
  bit-le-one m k,
)

-- `&= ~m` keeps a flag where the mask leaves it.
pub has_flag-remove_flags :
    (v m k : ℕ)
    → has_flag (remove_flags v m) (2 ^ k)
      ≡ (has_flag v (2 ^ k) && has_flag (2 ^ 32 - 1 - m) (2 ^ k))
unfolding remove_flags
has_flag-remove_flags v m k = ground (
  arith,
  has_flag-bit (bit_and v (2 ^ 32 - 1 - m)) k,
  has_flag-bit v k,
  has_flag-bit (2 ^ 32 - 1 - m) k,
  bit-bit_and v (2 ^ 32 - 1 - m) k,
  bit-le-one v k,
  bit-le-one (2 ^ 32 - 1 - m) k,
)

-- `(v & f) == f` for one flag says that the flag is set.
pub test-has_flag : (v k : ℕ) → (bit_and v (2 ^ k) == 2 ^ k) ≡ has_flag v (2 ^ k)
test-has_flag v k = ground (
  arith,
  has_flag-bit v k,
  bit_and-two_pow v k,
  one-le-pow k 2,
  bit-le-one v k,
  product v k,
  single v k,
)
