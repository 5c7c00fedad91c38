-- ===== src/DiceServ/Value.antt =====
-- What an expression is worth, without a stack: the specification that EvaluatePostfix is measured
-- by.
use anope_mods_contrib.Base.{ℕ, ◌||◌, none, some, List, [], ◌∷◌, ◌++◌, Str, if◌then◌else◌}
use anope_mods_contrib.Anope.{Anope}
use anope_mods_contrib.DiceServ.Types.{DiceError, Attempt, then_do, fault}
use anope_mods_contrib.DiceServ.Platform.{Platform}
use anope_mods_contrib.DiceServ.Results.{OperatorResult, sum, throw_dice}
use anope_mods_contrib.DiceServ.Functions.{call_unary}
use anope_mods_contrib.DiceServ.Evaluate.{dice_max_dice, dice_max_sides, eval_power}
use anope_mods_contrib.DiceServ.Expr.{BinOp, Expr}

-- The value that was computed last, the generator, and the results that are shown.
pub record World (T G : Type 0) : Type 0 where
  pub last : T
  pub rng : G
  pub op_results : List (OperatorResult T)

module _ ⦃lib : Anope⦄ ⦃p : Platform⦄ where
  abbrev pub Valued : Type 0
  Valued = Attempt (p.Double × World p.Double p.Rng)

  -- A value has to be finite.
  abbrev pub finite : p.Double → World p.Double p.Rng → Valued
  finite v w =
      if p.is_infinite v
      then Attempt.failed (fault DiceError.overunderflow)
      else if p.is_nan v
      then Attempt.failed (fault DiceError.undefined)
      else Attempt.done (v, record w { last = v })

  abbrev limited : DiceError → p.Double → ℕ → Valued → Valued
  limited code v limit next =
      if p.is_lt v (p.of_ℕ 1) || p.is_lt (p.of_ℕ limit) v
      then Attempt.failed
          (record { code = code; detail = none; place = none; num = some (p.to_int v) })
      else next

  abbrev unless_zero : p.Double → Valued → Valued
  unless_zero v next = if p.is_eq v (p.of_ℕ 0) then Attempt.failed (fault DiceError.div0) else next

  abbrev pub operate : BinOp → p.Double → p.Double → World p.Double p.Rng → Valued
  operate BinOp.plus a b w = finite (p.add a b) w
  operate BinOp.minus a b w = finite (p.sub a b) w
  operate BinOp.times a b w = finite (p.mul a b) w
  operate BinOp.over a b w = unless_zero b (finite (p.div a b) w)
  operate BinOp.modulo a b w = unless_zero b (finite (p.fmod a b) w)
  operate BinOp.power a b w = then_do (eval_power a b) (λ v. finite v w)
  operate BinOp.dice a b w =
      let (d, g) = throw_dice (p.to_int a) (p.to_nat b) w.rng in
      limited DiceError.unacceptable_dice a dice_max_dice (
        limited DiceError.unacceptable_sides b dice_max_sides (
          finite (p.of_ℕ (sum d))
            (record w { rng = g; op_results = w.op_results ++ OperatorResult.dice d ∷ [] })))

  abbrev pub apply_to : Str → p.Double → World p.Double p.Rng → Valued
  apply_to f v w = then_do (call_unary f w.last v) (λ r. then_do (finite r.result w) (λ (u, w').
      Attempt.done (u, record w' { op_results = w'.op_results ++ OperatorResult.function r ∷ [] })))

  -- The left operand first, then the right one.
  unfoldable pub value : Expr → World p.Double p.Rng → Valued
  value (Expr.number s) w = Attempt.done (p.convert_double s, w)
  value (Expr.binary o a b) w =
      then_do (value a w) (λ (x, w1). then_do (value b w1) (λ (y, w2). operate o x y w2))
  value (Expr.call f a) w = then_do (value a w) (λ (x, w1). apply_to f x w1)
