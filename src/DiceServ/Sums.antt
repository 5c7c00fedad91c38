-- ===== src/DiceServ/Sums.antt =====
-- Dice and DiceResult::Sum: how large a throw is.
use anope_mods_contrib.Base.{
  ℕ, zero, suc, ◌+◌, ◌*◌, ◌%◌, ◌^◌, ◌≤◌, ◌<◌, ◌≡◌, ◌∙◌, refl, sym, subst, List, [], ◌∷◌, length,
  All, arith,
}
use anope_mods_contrib.Base.Int.{ℤ, to_unsigned}
use anope_mods_contrib.DiceServ.Platform.{Platform, IsPlatform}
use anope_mods_contrib.DiceServ.Results.{DiceResult, sum_from, sum, throws, throw_dice}

-- The sum without the limit of an unsigned int.
abbrev pub total : List ℕ → ℕ
total [] = 0
total (r ∷ rs) = r + total rs

sum_from-mod : (acc : ℕ) (rs : List ℕ) → acc < 2 ^ 32 → sum_from acc rs ≡ (acc + total rs) % 2 ^ 32
unfolding sum_from
sum_from-mod acc [] h = omega (arith, h)
sum_from-mod acc (r ∷ rs) h = sum_from-mod ((acc + r) % 2 ^ 32) rs (omega arith) ∙ omega arith

-- Every die shows a number between 1 and its number of sides.
abbrev pub InRange : ℕ → ℕ → Type 0
InRange sides r = (1 ≤ r) × (r ≤ sides)

total-InRange :
    (sides : ℕ) (rs : List ℕ)
    → All (InRange sides) rs
    → (length rs ≤ total rs) × (total rs ≤ length rs * sides)
total-InRange sides [] h = (omega arith, omega arith)
total-InRange sides (r ∷ rs) h =
    let k = total-InRange sides rs h.1 in (omega (arith, h.0.0, k.0), grind (arith, h.0.1, k.1))

module _ ⦃p : Platform⦄ where
  throws-InRange :
      (n sides : ℕ) (g : p.Rng)
      → IsPlatform p
      → 1 ≤ sides
      → sides < 2 ^ 31
      → All (InRange sides) (throws n sides g).0 × (length (throws n sides g).0 ≡ n)
  unfolding throws
  throws-InRange zero sides g law h k = (tt, refl)
  throws-InRange (suc n) sides g law h k =
      let (r, e, low, high) = law.random_within g 1 sides (omega arith) h k in
      let rest = throws-InRange n sides (p.random g (ℤ.pos 1) (ℤ.pos sides)).1 law h k in
      (
        (
          subst (λ z. InRange sides (to_unsigned z)) (sym e)
              (omega (arith, low, high, k), omega (arith, low, high, k)),
          rest.0,
        ),
        omega (arith, rest.1),
      )

  -- The numbers of a throw and their sum, as large as they have to be.
  abbrev pub IsThrow : ℕ → ℕ → DiceResult → Type 0
  IsThrow num sides d =
      (length d.results ≡ num)
      × All (InRange sides) d.results
      × (sum d ≡ total d.results)
      × (num ≤ sum d)
      × (sum d ≤ num * sides)

  -- A throw of dice shows as many numbers as there are dice, each between 1 and the number of sides,
  -- and `Sum` is their sum, between the number of dice and that times the number of sides, where the
  -- largest sum fits an unsigned int and the number of sides an int.
  pub throw_dice-IsThrow :
      (num sides : ℕ) (g : p.Rng)
      → IsPlatform p
      → 1 ≤ sides
      → sides < 2 ^ 31
      → num * sides < 2 ^ 32
      → IsThrow num sides (throw_dice (ℤ.pos num) sides g).0
  unfolding throw_dice sum
  throw_dice-IsThrow num sides g law h k f =
      let rs = (throws num sides g).0 in
      let (ranged, counted) = throws-InRange num sides g law h k in
      let (low, high) = total-InRange sides rs ranged in
      let bounded : total rs ≤ num * sides = subst (λ n. total rs ≤ n * sides) counted high in
      let exact : sum_from 0 rs ≡ total rs =
        sum_from-mod 0 rs (omega arith) ∙ omega (arith, bounded, f) in
      (counted, ranged, exact, omega (arith, exact, low, counted), omega (arith, exact, bounded))
