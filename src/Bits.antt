-- ===== src/Bits.antt =====
-- The bits of a number: `&` and `|` of the C++ flags, bit by bit, for every width.
use Prim.Native.Nat.{bit_and, bit_or, digits, bit_and-bitwise, bit_or-bitwise}
use native.Mathlib.Nat.{pow-suc, mul_comm, mul_assoc}
use anope_mods_contrib.Base.{
  ◌⊎◌, ap, ◌∙◌, ℕ, zero, suc, ◌+◌, ◌*◌, ◌/◌, ◌%◌, ◌^◌, ◌≤◌, ◌<◌, min, max, ◌≡◌, refl, arith,
}

-- The bit of weight 2 ^ k.
abbrev pub bit : ℕ → ℕ → ℕ
bit n zero = n % 2
bit n (suc k) = bit (n / 2) k

and_fuel :
    (n m a b : ℕ) → a ≤ n → a ≤ m → digits (λ b. zero) min n a b ≡ digits (λ b. zero) min m a b
and_fuel zero zero a b p q = refl
and_fuel zero (suc m) zero b p q = refl
and_fuel zero (suc m) (suc a) b p q = absurd (omega arith)
and_fuel (suc n) zero zero b p q = refl
and_fuel (suc n) zero (suc a) b p q = absurd (omega arith)
and_fuel (suc n) (suc m) zero b p q = refl
and_fuel (suc n) (suc m) (suc a) b p q =
    omega (arith, and_fuel n m (suc a / 2) (b / 2) (omega arith) (omega arith))

pub bit_and_step : (a b : ℕ) → bit_and a b ≡ bit_and (a / 2) (b / 2) * 2 + min (a % 2) (b % 2)
bit_and_step zero b = omega (arith, bit_and-bitwise 0 b, bit_and-bitwise 0 (b / 2))
bit_and_step (suc a) b = omega (
  arith,
  bit_and-bitwise (suc a) b,
  bit_and-bitwise (suc a / 2) (b / 2),
  and_fuel a (suc a / 2) (suc a / 2) (b / 2) (omega arith) (omega arith),
)

or_fuel : (n m a b : ℕ) → a ≤ n → a ≤ m → digits (λ b. b) max n a b ≡ digits (λ b. b) max m a b
or_fuel zero zero a b p q = refl
or_fuel zero (suc m) zero b p q = refl
or_fuel zero (suc m) (suc a) b p q = absurd (omega arith)
or_fuel (suc n) zero zero b p q = refl
or_fuel (suc n) zero (suc a) b p q = absurd (omega arith)
or_fuel (suc n) (suc m) zero b p q = refl
or_fuel (suc n) (suc m) (suc a) b p q =
    omega (arith, or_fuel n m (suc a / 2) (b / 2) (omega arith) (omega arith))

pub bit_or_step : (a b : ℕ) → bit_or a b ≡ bit_or (a / 2) (b / 2) * 2 + max (a % 2) (b % 2)
bit_or_step zero b = omega (arith, bit_or-bitwise 0 b, bit_or-bitwise 0 (b / 2))
bit_or_step (suc a) b = omega (
  arith,
  bit_or-bitwise (suc a) b,
  bit_or-bitwise (suc a / 2) (b / 2),
  or_fuel a (suc a / 2) (suc a / 2) (b / 2) (omega arith) (omega arith),
)

pub bit-bit_and : (a b k : ℕ) → bit (bit_and a b) k ≡ min (bit a k) (bit b k)
bit-bit_and a b zero = omega (arith, bit_and_step a b)
bit-bit_and a b (suc k) = ap (λ n. bit n k) half ∙ bit-bit_and (a / 2) (b / 2) k
  where
    half : bit_and a b / 2 ≡ bit_and (a / 2) (b / 2)
    half = omega (arith, bit_and_step a b)

pub bit-bit_or : (a b k : ℕ) → bit (bit_or a b) k ≡ max (bit a k) (bit b k)
bit-bit_or a b zero = omega (arith, bit_or_step a b)
bit-bit_or a b (suc k) = ap (λ n. bit n k) half ∙ bit-bit_or (a / 2) (b / 2) k
  where
    half : bit_or a b / 2 ≡ bit_or (a / 2) (b / 2)
    half = omega (arith, bit_or_step a b)

pub bit-le-one : (a k : ℕ) → bit a k ≤ 1
bit-le-one a zero = omega arith
bit-le-one a (suc k) = bit-le-one (a / 2) k

zero_fuel : (n a : ℕ) → a ≤ n → bit_and a 0 ≡ 0
zero_fuel n zero h = refl
zero_fuel zero (suc a) h = absurd (omega arith)
zero_fuel (suc n) (suc a) h =
    omega (arith, bit_and_step (suc a) 0, zero_fuel n (suc a / 2) (omega arith))

pub bit_and-zero : (a : ℕ) → bit_and a 0 ≡ 0
bit_and-zero a = zero_fuel a a (omega arith)

and_double : (a b : ℕ) → bit_and a (2 * b) ≡ bit_and (a / 2) b * 2
and_double a b = bit_and_step a (2 * b) ∙ omega (arith, ap (bit_and (a / 2)) half)
  where
    half : 2 * b / 2 ≡ b
    half = omega arith

pub bit-cases : (a k : ℕ) → (bit a k ≡ 0) ⊎ (bit a k ≡ 1)
bit-cases a k = omega (arith, bit-le-one a k)

-- A test of one bit.
pub bit_and-two_pow : (a k : ℕ) → bit_and a (2 ^ k) ≡ bit a k * 2 ^ k
bit_and-two_pow a zero = omega (arith, bit_and_step a 1, bit_and-zero (a / 2))
bit_and-two_pow a (suc k) = rw (pow-suc 2 k) (
    rw (mul_comm (2 ^ k) 2) (
      rw (and_double a (2 ^ k), bit_and-two_pow (a / 2) k)
        (rw (mul_comm 2 (2 ^ k)) (mul_assoc (bit (a / 2) k) (2 ^ k) 2))))

pub bit_or-lt : (k a b : ℕ) → a < 2 ^ k → b < 2 ^ k → bit_or a b < 2 ^ k
bit_or-lt zero zero zero p q = omega arith
bit_or-lt zero zero (suc b) p q = absurd (omega arith)
bit_or-lt zero (suc a) b p q = absurd (omega arith)
bit_or-lt (suc k) a b p q = omega (
  arith,
  bit_or_step a b,
  pow-suc 2 k,
  bit_or-lt k (a / 2) (b / 2) (omega (arith, pow-suc 2 k)) (omega (arith, pow-suc 2 k)),
)

le_fuel : (n a b : ℕ) → a ≤ n → bit_and a b ≤ a
le_fuel n zero b h = omega (arith, bit_and-bitwise 0 b)
le_fuel zero (suc a) b h = absurd (omega arith)
le_fuel (suc n) (suc a) b h =
    omega (arith, bit_and_step (suc a) b, le_fuel n (suc a / 2) (b / 2) (omega arith))

pub bit_and-le : (a b : ℕ) → bit_and a b ≤ a
bit_and-le a b = le_fuel a a b (omega arith)
