-- ===== src/DiceServ/Evaluate.antt =====
-- EvaluatePostfix and DoEvaluate.
use anope_mods_contrib.Base.{
  ℕ, suc, Bool, true, false, not, ◌&&◌, ◌||◌, none, some, List, [], ◌∷◌, ◌++◌, Str, ltb, ◌==◌,
  if◌then◌else◌, length,
}
use anope_mods_contrib.Base.Int.{ℤ, ltb_ℤ, to_unsigned}
use anope_mods_contrib.Anope.{Anope}
use anope_mods_contrib.GroupServ.Text.{is_empty, split_first}
use anope_mods_contrib.DiceServ.Types.{DiceError, Detail, Fault, Attempt, then_do, fault}
use anope_mods_contrib.DiceServ.Chars.{is_operator, first, is_function, function_argument_count}
use anope_mods_contrib.DiceServ.Platform.{Platform}
use anope_mods_contrib.DiceServ.Results.{OperatorResult, sum, throw_dice}
use anope_mods_contrib.DiceServ.Postfix.{PostfixValue}
use anope_mods_contrib.DiceServ.Functions.{call_function}

abbrev pub dice_max_times : ℕ
dice_max_times = 25

abbrev pub dice_max_dice : ℕ
dice_max_dice = 99999

abbrev pub dice_max_sides : ℕ
dice_max_sides = 99999

-- The variables of the loop: `val`, the stack with its top first, the generator, and the results
-- that were added.
pub record Eval (T G : Type 0) : Type 0 where
  pub val : T
  pub num_stack : List T
  pub rng : G
  pub op_results : List (OperatorResult T)

abbrev pub stack_fault : Detail → Fault
stack_fault detail = record {
  code = DiceError.stack;
  detail = some detail;
  place = none;
  num = none;
}

module _ ⦃lib : Anope⦄ ⦃p : Platform⦄ where
  abbrev State : Type 0
  State = Eval p.Double p.Rng

  -- The last check of a round, and the push of `val`.
  unfoldable pub push_value : p.Double → State → Attempt State
  push_value val s =
      if p.is_infinite val
      then Attempt.failed (fault DiceError.overunderflow)
      else if p.is_nan val
      then Attempt.failed (fault DiceError.undefined)
      else Attempt.done (record s { val = val; num_stack = val ∷ s.num_stack })

  -- The name and the number of arguments of a function's token, by the count for its name.
  unfoldable pub name_and_arity : Str → ℤ → Attempt (Str × ℕ)
  unfolding split_first
  name_and_arity token (ℤ.pos n) = Attempt.done (token, n)
  name_and_arity token (ℤ.negsuc n) =
      let parts : Str × Str = elim (split_first b'_' token) [
        | none ↦ (token, token)
        | some q ↦ q
      ] in
      let real = p.convert_int parts.1 in
      if ltb_ℤ real (ℤ.pos (suc n))
      then Attempt.failed (stack_fault (Detail.too_few_arguments (suc n) real))
      else Attempt.done (parts.0, to_unsigned real)

  unfoldable pub split_arity : Str → Attempt (Str × ℕ)
  unfolding function_argument_count name_and_arity
  split_arity token = name_and_arity token (function_argument_count lib.equals_ci token)

  unfoldable pub apply_function : Str → ℕ → State → Attempt State
  unfolding call_function push_value
  apply_function token arguments s = elim s.num_stack [
    | [] ↦ Attempt.failed (stack_fault Detail.function_operands)
    | v ∷ under ↦
        let called = then_do (call_function token arguments s.val v under s.rng) (λ a.
          then_do (push_value a.result.result (record s { num_stack = a.num_stack; rng = a.rng }))
            (λ s'. Attempt.done (record s' {
              op_results = s'.op_results ++ OperatorResult.function a.result ∷ [];
            }))) in
        if ltb (length s.num_stack) arguments
        then Attempt.failed (stack_fault Detail.function_operands)
        else called
  ]

  unfoldable pub eval_power : p.Double → p.Double → Attempt p.Double
  eval_power v1 v2 =
      let zero1 = p.is_eq v1 (p.of_ℕ 0) in
      let fraction = not (p.is_eq (p.of_ℤ (p.to_int v2)) v2) in
      if p.is_lt v1 (p.of_ℕ 0) && fraction
      then Attempt.failed (fault DiceError.undefined)
      else if zero1 && p.is_eq v2 (p.of_ℕ 0)
      then Attempt.failed (fault DiceError.div0)
      else if zero1 && p.is_lt v2 (p.of_ℕ 0)
      then Attempt.failed (fault DiceError.overunderflow)
      else Attempt.done (p.pow v1 v2)

  abbrev range_fault : DiceError → p.Double → Attempt State
  range_fault code v =
      Attempt.failed (record { code = code; detail = none; place = none; num = some (p.to_int v) })

  -- `v < 1 || v > limit`
  abbrev out_of_range : p.Double → ℕ → Bool
  out_of_range v limit = p.is_lt v (p.of_ℕ 1) || p.is_lt (p.of_ℕ limit) v

  unfoldable pub eval_dice : p.Double → p.Double → State → Attempt State
  unfolding throw_dice sum push_value
  eval_dice v1 v2 s =
      let (result, rng) = throw_dice (p.to_int v1) (p.to_nat v2) s.rng in
      let rolled =
        push_value (p.of_ℕ (sum result))
          (record s { rng = rng; op_results = s.op_results ++ OperatorResult.dice result ∷ [] }) in
      if out_of_range v1 dice_max_dice
      then range_fault DiceError.unacceptable_dice v1
      else if out_of_range v2 dice_max_sides
      then range_fault DiceError.unacceptable_sides v2
      else rolled

  -- The switch on an operator, whose operands are popped.
  unfoldable pub apply_operator : ℕ → p.Double → p.Double → State → Attempt State
  unfolding push_value eval_power eval_dice
  apply_operator c v1 v2 s =
      let by_zero = p.is_eq v2 (p.of_ℕ 0) in
      let div0 : Attempt State = Attempt.failed (fault DiceError.div0) in
      if c == b'+'
      then push_value (p.add v1 v2) s
      else if c == b'-'
      then push_value (p.sub v1 v2) s
      else if c == b'*'
      then push_value (p.mul v1 v2) s
      else if c == b'/'
      then (if by_zero then div0 else push_value (p.div v1 v2) s)
      else if c == b'%'
      then (if by_zero then div0 else push_value (p.fmod v1 v2) s)
      else if c == b'^'
      then then_do (eval_power v1 v2) (λ val. push_value val s)
      else if c == b'd'
      then eval_dice v1 v2 s
      else push_value s.val s

  unfoldable pub eval_operator : Str → State → Attempt State
  unfolding apply_operator
  eval_operator token s = elim s.num_stack [
    | [] ↦ Attempt.failed (stack_fault Detail.operator_operands)
    | v2 ∷ under ↦ elim under [
      | [] ↦ Attempt.failed (stack_fault Detail.operator_operands)
      | v1 ∷ left ↦ apply_operator (first token) v1 v2 (record s { num_stack = left })
    ]
  ]

  -- One round of the loop.
  unfoldable pub eval_value : PostfixValue p.Double → State → Attempt State
  unfolding is_function split_arity apply_function eval_operator
  eval_value (PostfixValue.number v) s = Attempt.done (record s { num_stack = v ∷ s.num_stack })
  eval_value (PostfixValue.text token) s =
      if is_empty token
      then Attempt.failed (stack_fault Detail.empty_token)
      else if not (is_function lib.equals_ci token == 0)
      then then_do (split_arity token) (λ (name, arguments). apply_function name arguments s)
      else if is_operator (first token) && length token == 1
      then eval_operator token s
      else Attempt.done s

  unfoldable pub eval_values : List (PostfixValue p.Double) → State → Attempt State
  unfolding eval_value
  eval_values [] s = Attempt.done s
  eval_values (v ∷ vs) s = then_do (eval_value v s) (eval_values vs)

  -- Behind the loop: the one number that is left.
  unfoldable pub last_value : State → Attempt (p.Double × State)
  last_value s = elim s.num_stack [
    | [] ↦ Attempt.out_of_bounds
    | v ∷ under ↦
        if is_empty_stack under
        then Attempt.done (v, s)
        else Attempt.failed (stack_fault Detail.too_many_numbers)
  ]
    where
      is_empty_stack : List p.Double → Bool
      is_empty_stack [] = true
      is_empty_stack (v ∷ vs) = false

  unfoldable pub evaluate_postfix :
      List (PostfixValue p.Double) → p.Rng → Attempt (p.Double × State)
  unfolding eval_values last_value
  evaluate_postfix postfix rng =
      then_do
        (eval_values postfix
          (record { val = p.of_ℕ 0; num_stack = []; rng = rng; op_results = [] }))
        last_value

  -- The result has to fit an int.
  unfoldable pub do_evaluate : List (PostfixValue p.Double) → p.Rng → Attempt (p.Double × State)
  unfolding evaluate_postfix
  do_evaluate postfix rng = then_do (evaluate_postfix postfix rng) (λ (ret, s).
      if p.is_lt (p.of_ℤ (ℤ.pos 2147483647)) ret || p.is_lt ret (p.of_ℤ (ℤ.negsuc 2147483647))
      then Attempt.failed (fault DiceError.overunderflow)
      else Attempt.done (ret, s))
