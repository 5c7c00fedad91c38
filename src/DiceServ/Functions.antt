-- ===== src/DiceServ/Functions.antt =====
-- The functions of EvaluatePostfix, and my_round.
use anope_mods_contrib.Base.{ℕ, zero, suc, ◌-◌, List, [], ◌∷◌, Str, codes, if◌then◌else◌}
use anope_mods_contrib.Base.Int.{ℤ, ltb_ℤ}
use anope_mods_contrib.Anope.{Anope}
use anope_mods_contrib.DiceServ.Types.{DiceError, Attempt, then_do, fault}
use anope_mods_contrib.DiceServ.Platform.{Platform}
use anope_mods_contrib.DiceServ.Results.{FunctionResult}

-- What a function call leaves: its result, the stack of numbers, the generator.
pub record Applied (T G : Type 0) : Type 0 where
  pub result : FunctionResult T
  pub num_stack : List T
  pub rng : G

abbrev pub negated : ℕ → ℤ
negated zero = ℤ.pos zero
negated (suc n) = ℤ.negsuc n

module _ ⦃p : Platform⦄ where
  unfoldable pub my_round : p.Double → ℕ → p.Double
  my_round val decimals =
      let sign = p.div (p.abs val) val in
      let shifted = p.abs (p.mul val (p.pow (p.of_ℕ 10) (p.of_ℕ decimals))) in
      let decimalpart = p.sub shifted (p.of_ℕ (p.to_nat shifted)) in
      let whole =
        if p.is_le (p.div (p.of_ℕ 1) (p.of_ℕ 2)) decimalpart
        then p.ceil shifted
        else p.floor shifted in
      if p.is_eq val (p.of_ℕ 0)
      then p.of_ℕ 0
      else p.mul (p.mul whole (p.pow (p.of_ℕ 10) (p.of_ℤ (negated decimals)))) sign

  -- `val *= n` for `n` from there on, a number of times.
  unfoldable pub times_from : ℕ → ℕ → p.Double → p.Double
  times_from zero n val = val
  times_from (suc k) n val = times_from k (suc n) (p.mul val (p.of_ℕ n))

  -- `std::max` and `std::min`
  abbrev pub max_double : p.Double → p.Double → p.Double
  max_double a b = if p.is_lt a b then b else a

  abbrev pub min_double : p.Double → p.Double → p.Double
  min_double a b = if p.is_lt b a then b else a

  abbrev called : Str → p.Double → p.Double → Attempt (FunctionResult p.Double)
  called name val arg = Attempt.done (record { name = name; arguments = arg ∷ []; result = val })

  abbrev refused : DiceError → Attempt (FunctionResult p.Double)
  refused code = Attempt.failed (fault code)

  unfoldable pub factorial : p.Double → Attempt (FunctionResult p.Double)
  unfolding times_from
  factorial v =
      if ltb_ℤ (p.to_int v) (ℤ.pos 0)
      then refused DiceError.undefined
      else if p.is_lt (p.of_ℕ 12) v
      then refused DiceError.overunderflow
      else called (codes "fac") (times_from (p.to_nat v - 1) 2 (p.of_ℕ 1)) (p.of_ℕ (p.to_nat v))

module _ ⦃lib : Anope⦄ ⦃p : Platform⦄ where
  -- The rungs of the ladder of `equals_ci` for functions of one argument, in the source's order;
  -- the last argument is the rest of the ladder.
  unfoldable pub call_abs_to_atan :
      Str → p.Double → Attempt (FunctionResult p.Double) → Attempt (FunctionResult p.Double)
  call_abs_to_atan token v rest =
      let outside = p.is_lt (p.of_ℕ 1) (p.abs v) in
      if lib.equals_ci token (codes "abs")
      then called (codes "abs") (p.abs v) v
      else if lib.equals_ci token (codes "acos")
      then (if outside then refused DiceError.undefined else called (codes "acos") (p.acos v) v)
      else if lib.equals_ci token (codes "acosh")
      then (if p.is_lt v (p.of_ℕ 1)
          then refused DiceError.undefined
          else called (codes "acosh") (p.acosh v) v)
      else if lib.equals_ci token (codes "asin")
      then (if outside then refused DiceError.undefined else called (codes "asin") (p.asin v) v)
      else if lib.equals_ci token (codes "asinh")
      then called (codes "asinh") (p.asinh v) v
      else if lib.equals_ci token (codes "atan")
      then called (codes "atan") (p.atan v) v
      else rest

  unfoldable pub call_exp_to_log10 :
      Str → p.Double → Attempt (FunctionResult p.Double) → Attempt (FunctionResult p.Double)
  unfolding factorial
  call_exp_to_log10 token v rest =
      let no_log = p.is_le v (p.of_ℕ 0) in
      if lib.equals_ci token (codes "exp")
      then called (codes "exp") (p.exp v) v
      else if lib.equals_ci token (codes "fac")
      then factorial v
      else if lib.equals_ci token (codes "floor")
      then called (codes "floor") (p.floor v) v
      else if lib.equals_ci token (codes "log")
      then (if no_log then refused DiceError.div0 else called (codes "log") (p.log v) v)
      else if lib.equals_ci token (codes "log10")
      then (if no_log then refused DiceError.div0 else called (codes "log10") (p.log10 v) v)
      else rest

  unfoldable pub call_atanh_to_deg :
      Str → p.Double → Attempt (FunctionResult p.Double) → Attempt (FunctionResult p.Double)
  call_atanh_to_deg token v rest =
      let size = p.abs v in
      let code = if p.is_eq size (p.of_ℕ 1) then DiceError.div0 else DiceError.undefined in
      let degrees = p.div (p.mul v (p.of_ℕ 45)) (p.atan (p.of_ℕ 1)) in
      if lib.equals_ci token (codes "atanh")
      then (if p.is_le (p.of_ℕ 1) size then refused code else called (codes "atanh") (p.atanh v) v)
      else if lib.equals_ci token (codes "cbrt")
      then called (codes "cbrt") (p.cbrt v) v
      else if lib.equals_ci token (codes "ceil")
      then called (codes "ceil") (p.ceil v) v
      else if lib.equals_ci token (codes "cos")
      then called (codes "cos") (p.cos v) v
      else if lib.equals_ci token (codes "cosh")
      then called (codes "cosh") (p.cosh v) v
      else if lib.equals_ci token (codes "deg")
      then called (codes "deg") degrees v
      else rest

  unfoldable pub call_round_to_trunc :
      Str → p.Double → Attempt (FunctionResult p.Double) → Attempt (FunctionResult p.Double)
  unfolding my_round
  call_round_to_trunc token v rest =
      let quarter = p.atan (p.of_ℕ 1) in
      let no_tan =
        p.is_eq (p.fmod (p.add v (p.mul (p.of_ℕ 2) quarter)) (p.mul quarter (p.of_ℕ 4)))
          (p.of_ℕ 0) in
      if lib.equals_ci token (codes "round")
      then called (codes "round") (my_round v 0) v
      else if lib.equals_ci token (codes "sin")
      then called (codes "sin") (p.sin v) v
      else if lib.equals_ci token (codes "sinh")
      then called (codes "sinh") (p.sinh v) v
      else if lib.equals_ci token (codes "sqrt")
      then (if p.is_lt v (p.of_ℕ 0)
          then refused DiceError.undefined
          else called (codes "sqrt") (p.sqrt v) v)
      else if lib.equals_ci token (codes "tan")
      then (if no_tan then refused DiceError.undefined else called (codes "tan") (p.tan v) v)
      else if lib.equals_ci token (codes "tanh")
      then called (codes "tanh") (p.tanh v) v
      else if lib.equals_ci token (codes "trunc")
      then called (codes "trunc") (p.of_ℤ (p.to_int v)) v
      else rest

  abbrev radians : p.Double → p.Double
  radians v = p.div (p.mul v (p.atan (p.of_ℕ 1))) (p.of_ℕ 45)

  -- All of them; a text that is no function's leaves `val` and the empty result.
  unfoldable pub call_unary : Str → p.Double → p.Double → Attempt (FunctionResult p.Double)
  unfolding call_abs_to_atan call_atanh_to_deg call_exp_to_log10 call_round_to_trunc
  call_unary token val v =
      let nothing : Attempt (FunctionResult p.Double) =
        Attempt.done (record { name = []; arguments = []; result = val }) in
      let late = call_round_to_trunc token v nothing in
      let rest =
        if lib.equals_ci token (codes "rad") then called (codes "rad") (radians v) v else late in
      call_abs_to_atan token v (call_atanh_to_deg token v (call_exp_to_log10 token v rest))

  -- The loop of max and min over the stack: the value, and the arguments in order.
  unfoldable pub fold_stack :
      (p.Double → p.Double → p.Double)
      → ℕ
      → p.Double
      → List p.Double
      → List p.Double
      → Attempt (p.Double × List p.Double × List p.Double)
  fold_stack pick zero v args stack = Attempt.done (v, args, stack)
  fold_stack pick (suc k) v args [] = Attempt.out_of_bounds
  fold_stack pick (suc k) v args (w ∷ stack) = fold_stack pick k (pick w v) (w ∷ args) stack

  unfoldable pub call_fold :
      (p.Double → p.Double → p.Double)
      → Str
      → ℕ
      → p.Double
      → List p.Double
      → p.Rng
      → Attempt (Applied p.Double p.Rng)
  unfolding fold_stack
  call_fold pick name arguments v stack rng =
      then_do (fold_stack pick (arguments - 1) v (v ∷ []) stack) (λ (val, args, left).
        Attempt.done (record {
          result = record { name = name; arguments = args; result = val };
          num_stack = left;
          rng = rng;
        }))

  unfoldable pub call_atan2 : p.Double → List p.Double → p.Rng → Attempt (Applied p.Double p.Rng)
  call_atan2 v2 [] rng = Attempt.out_of_bounds
  call_atan2 v2 (v1 ∷ stack) rng = Attempt.done (record {
    result = record { name = codes "atan2"; arguments = v1 ∷ v2 ∷ []; result = p.atan2 v1 v2 };
    num_stack = stack;
    rng = rng;
  })

  unfoldable pub call_rand : p.Double → List p.Double → p.Rng → Attempt (Applied p.Double p.Rng)
  call_rand v2 [] rng = Attempt.out_of_bounds
  call_rand v2 (v1 ∷ stack) rng =
      let low = p.to_int (if p.is_lt v2 v1 then v2 else v1) in
      let high = p.to_int (if p.is_lt v2 v1 then v1 else v2) in
      let (r, rng') = p.random rng low high in
      Attempt.done (record {
        result = record {
          name = codes "rand";
          arguments = p.of_ℤ low ∷ p.of_ℤ high ∷ [];
          result = p.of_ℤ r;
        };
        num_stack = stack;
        rng = rng';
      })

  -- The ladder, on the top `v` of the stack and what is under it.
  unfoldable pub call_function :
      Str → ℕ → p.Double → p.Double → List p.Double → p.Rng → Attempt (Applied p.Double p.Rng)
  unfolding call_unary call_fold call_atan2 call_rand
  call_function token arguments val v stack rng =
      let unary =
        then_do (call_unary token val v)
          (λ result. Attempt.done (record { result = result; num_stack = stack; rng = rng })) in
      if lib.equals_ci token (codes "atan2")
      then call_atan2 v stack rng
      else if lib.equals_ci token (codes "max")
      then call_fold max_double (codes "max") arguments v stack rng
      else if lib.equals_ci token (codes "min")
      then call_fold min_double (codes "min") arguments v stack rng
      else if lib.equals_ci token (codes "rand")
      then call_rand v stack rng
      else unary
