-- ===== src/DiceServ/Results.antt =====
-- Dice, and the results of operators: DiceResult, FunctionResult and OperatorResults.
use anope_mods_contrib.Base.{ℕ, zero, suc, ◌+◌, ◌%◌, ◌^◌, List, [], ◌∷◌, ◌++◌, Str, codes}
use anope_mods_contrib.Base.Int.{ℤ, pos_part, to_unsigned}
use anope_mods_contrib.Base.Decimal.{decimal, decimal_ℤ}
use anope_mods_contrib.DiceServ.Platform.{Platform}

pub record DiceResult : Type 0 where
  pub num : ℤ
  pub sides : ℕ
  pub results : List ℕ

pub record FunctionResult (T : Type 0) : Type 0 where
  pub name : Str
  pub arguments : List T
  pub result : T

pub data OperatorResult (T : Type 0) : Type 0 where
  dice : DiceResult → OperatorResult T
  function : FunctionResult T → OperatorResult T

-- `std::accumulate(..., 0u)`: an unsigned int.
unfoldable pub sum_from : ℕ → List ℕ → ℕ
sum_from acc [] = acc
sum_from acc (r ∷ rs) = sum_from ((acc + r) % 2 ^ 32) rs

unfoldable pub sum : DiceResult → ℕ
unfolding sum_from
sum d = sum_from 0 d.results

unfoldable pub dice_string : DiceResult → Str
dice_string d = decimal_ℤ d.num ++ b'd' ∷ decimal d.sides

-- Texts with a separator between them.
abbrev pub joined : Str → List Str → Str
joined sep [] = []
joined sep (s ∷ []) = s
joined sep (s ∷ t ∷ ts) = s ++ (sep ++ joined sep (t ∷ ts))

abbrev pub map_list {ℓ κ} : {A : Type ℓ} {B : Type κ} → (A → B) → List A → List B
map_list f [] = []
map_list f (x ∷ xs) = f x ∷ map_list f xs

unfoldable pub dice_long_string : DiceResult → Str
unfolding dice_string
dice_long_string d =
    dice_string d ++ (codes "=(" ++ (joined (codes " ") (map_list decimal d.results) ++ codes ")"))

unfoldable pub dice_short_string : DiceResult → Str
unfolding dice_string sum
dice_short_string d = dice_string d ++ (codes "=(" ++ (decimal (sum d) ++ codes ")"))

module _ ⦃p : Platform⦄ where
  unfoldable pub function_long_string : FunctionResult p.Double → Str
  function_long_string f =
      f.name
      ++ (codes "("
          ++ (joined (codes ",") (map_list p.show f.arguments)
              ++ (codes ")=" ++ p.show_short f.result)))

  unfoldable pub long_string : OperatorResult p.Double → Str
  unfolding dice_long_string function_long_string
  long_string (OperatorResult.dice d) = dice_long_string d
  long_string (OperatorResult.function f) = function_long_string f

  unfoldable pub short_string : OperatorResult p.Double → Str
  unfolding dice_short_string function_long_string
  short_string (OperatorResult.dice d) = dice_short_string d
  short_string (OperatorResult.function f) = function_long_string f

  -- The loop of Dice: `n` throws.
  unfoldable pub throws : ℕ → ℕ → p.Rng → List ℕ × p.Rng
  throws zero sides g = ([], g)
  throws (suc n) sides g =
      let (r, g') = p.random g (ℤ.pos 1) (ℤ.pos sides) in
      let (rs, g'') = throws n sides g' in (to_unsigned r ∷ rs, g'')

  unfoldable pub throw_dice : ℤ → ℕ → p.Rng → DiceResult × p.Rng
  unfolding throws
  throw_dice num sides g =
      let (rs, g') = throws (pos_part num) sides g in
      (record { num = num; sides = sides; results = rs }, g')
