-- ===== src/DiceServ/Platform.antt =====
-- What DiceServ takes from C++, from the random generator that it copies from another project, and
-- from Anope: `Double` is `double`, and `Rng` the state of the generator. All of it is a parameter.
use anope_mods_contrib.Base.{ℕ, ◌≤◌, ◌<◌, ◌^◌, ◌≡◌, Bool, Str}
use anope_mods_contrib.Base.Int.{ℤ, pos_part}

pub record Platform : Type 1 where
  pub Double : Type 0
  pub Rng : Type 0
  -- conversions: from unsigned and from int, and the two casts back
  pub of_ℕ : ℕ → Double
  pub of_ℤ : ℤ → Double
  pub to_int : Double → ℤ
  pub to_nat : Double → ℕ
  -- `<`, `==`
  pub is_lt : Double → Double → Bool
  pub is_eq : Double → Double → Bool
  pub is_le : Double → Double → Bool
  -- `std::isinf`, `std::isnan`
  pub is_infinite : Double → Bool
  pub is_nan : Double → Bool
  -- `quiet_NaN()`
  pub nan : Double
  -- the operators, `std::fmod` and `std::pow`
  pub neg : Double → Double
  pub add : Double → Double → Double
  pub sub : Double → Double → Double
  pub mul : Double → Double → Double
  pub div : Double → Double → Double
  pub fmod : Double → Double → Double
  pub pow : Double → Double → Double
  -- the functions of <cmath>
  pub abs : Double → Double
  pub acos : Double → Double
  pub acosh : Double → Double
  pub asin : Double → Double
  pub asinh : Double → Double
  pub atan : Double → Double
  pub atan2 : Double → Double → Double
  pub atanh : Double → Double
  pub cbrt : Double → Double
  pub ceil : Double → Double
  pub cos : Double → Double
  pub cosh : Double → Double
  pub exp : Double → Double
  pub floor : Double → Double
  pub log : Double → Double
  pub log10 : Double → Double
  pub sin : Double → Double
  pub sinh : Double → Double
  pub sqrt : Double → Double
  pub tan : Double → Double
  pub tanh : Double → Double
  -- `Anope::Convert<double>(s, NaN)`, `Anope::Convert<int>(s, 0)`
  pub convert_double : Str → Double
  pub convert_int : Str → ℤ
  -- a double written with all its digits, and as a stream writes it by default
  pub show : Double → Str
  pub show_short : Double → Str
  -- `sfmtRNG.Random(min, max)`
  pub random : Rng → ℤ → ℤ → ℤ × Rng

-- What DiceServ relies on: a conversion to int is an int, and a random number is in its range.
pub record IsPlatform (p : Platform) : Type 0 where
  pub convert_int_fits : (s : Str) → pos_part (p.convert_int s) < 2 ^ 31
  pub random_within :
      (g : p.Rng) (low high : ℕ)
      → 1 ≤ low
      → low ≤ high
      → high < 2 ^ 31
      → (r : ℕ) × ((p.random g (ℤ.pos low) (ℤ.pos high)).0 ≡ ℤ.pos r) × (low ≤ r) × (r ≤ high)
