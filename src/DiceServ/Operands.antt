-- ===== src/DiceServ/Operands.antt =====
-- EvaluatePostfix: how far its rounds reach into the stack of numbers.
use anope_mods_contrib.Base.{
  Bool-cases, subst, sym, inl, inr, ℕ, suc, ◌^◌, ◌≤◌, ◌<◌, ◌≡◌, take, some, none, refl, Bool, true,
  false, not, ◌&&◌, ◌||◌, List, [], ◌∷◌, Str, length, ◌==◌, ltb, if-keeps, if-keeps_given, codes,
  arith,
}
use anope_mods_contrib.Base.Int.{ℤ, ltb_ℤ, to_unsigned, pos_part}
use anope_mods_contrib.Anope.{Anope}
use anope_mods_contrib.GroupServ.Text.{is_empty, split_first}
use anope_mods_contrib.DiceServ.Types.{Attempt, then_do}
use anope_mods_contrib.DiceServ.Chars.{is_function, first, is_operator}
use anope_mods_contrib.DiceServ.Platform.{Platform, IsPlatform}
use anope_mods_contrib.DiceServ.Postfix.{PostfixValue}
use anope_mods_contrib.DiceServ.Functions.{call_function}
use anope_mods_contrib.DiceServ.Evaluate.{
  Eval, push_value, split_arity, name_and_arity, apply_function, apply_operator, eval_operator,
  eval_value, eval_values, last_value, evaluate_postfix, eval_dice,
}
use anope_mods_contrib.DiceServ.Calls.{call_function-Safe}
use anope_mods_contrib.DiceServ.Stacks.{Safe, Safe-then_do, Anything}

module _ ⦃lib : Anope⦄ ⦃p : Platform⦄ where
  abbrev State : Type 0
  State = Eval p.Double p.Rng

  -- A number is on the stack.
  abbrev HasNumber : State → Type 0
  HasNumber s = 1 ≤ length s.num_stack

  push_value-Safe : (val : p.Double) (s : State) → Safe HasNumber (push_value val s)
  unfolding push_value
  push_value-Safe val s =
      if-keeps (Safe HasNumber) (p.is_infinite val) _ _ tt
        (if-keeps (Safe HasNumber) (p.is_nan val) _ _ tt (omega arith))

  -- A function with two or more arguments by its name gets two or more.
  abbrev TakesTwo : Str × ℕ → Type 0
  TakesTwo (name, arguments) =
      (lib.equals_ci name (codes "atan2") ≡ true → 2 ≤ arguments)
      × (lib.equals_ci name (codes "rand") ≡ true → 2 ≤ arguments)

  name_and_arity-Safe :
      (token : Str) (n : ℕ) → IsPlatform p → Safe TakesTwo (name_and_arity token (ℤ.negsuc (suc n)))
  unfolding name_and_arity
  name_and_arity-Safe token n law =
      let parts : Str × Str = elim (split_first b'_' token) [
        | none ↦ (token, token)
        | some q ↦ q
      ] in
      if-keeps_given (Safe TakesTwo) (ltb_ℤ (p.convert_int parts.1) (ℤ.pos (suc (suc n)))) _ _
        (λ e. tt)
        (λ e. (
          λ k. enough n (p.convert_int parts.1) (law.convert_int_fits parts.1) e,
          λ k. enough n (p.convert_int parts.1) (law.convert_int_fits parts.1) e,
        ))
    where
      enough :
          (n : ℕ) (real : ℤ)
          → pos_part real < 2 ^ 31
          → ltb_ℤ real (ℤ.pos (suc (suc n))) ≡ false
          → 2 ≤ to_unsigned real
      enough n (ℤ.pos r) h e = ground (arith, h, e)
      enough n (ℤ.negsuc r) h e = ground (arith, h, e)

  split_arity-Safe : (token : Str) → IsPlatform p → Safe TakesTwo (split_arity token)
  unfolding split_arity name_and_arity
  split_arity-Safe token law =
      if-keeps (λ z. Safe TakesTwo (name_and_arity token z))
        (lib.equals_ci (take 3 token) (codes "max") || lib.equals_ci (take 3 token) (codes "min")) _
        _ (name_and_arity-Safe token 0 law)
        (if-keeps_given (λ z. Safe TakesTwo (name_and_arity token z))
          (lib.equals_ci token (codes "atan2") || lib.equals_ci token (codes "rand")) _ _
          (λ e. (λ k. omega arith, λ k. omega arith))
          (λ e. (λ k. absurd (ground (arith, e, k)), λ k. absurd (ground (arith, e, k)))))

  module _ (s : State) where
    apply_function-Safe_on :
        (token : Str) (arguments : ℕ) (stack : List p.Double)
        → TakesTwo (token, arguments)
        → Safe HasNumber (apply_function token arguments (record s { num_stack = stack }))
    unfolding apply_function
    apply_function-Safe_on token arguments [] h = tt
    apply_function-Safe_on token arguments (v ∷ under) h =
        if-keeps_given (Safe HasNumber) (ltb (suc (length under)) arguments) _ _ (λ e. tt)
          (λ e.
            Safe-then_do Anything HasNumber (call_function token arguments s.val v under s.rng) _
              (call_function-Safe token arguments s.val v under s.rng (ground (arith, e)) h.0 h.1)
              (λ a g.
                let left = record s { num_stack = a.num_stack; rng = a.rng } in
                Safe-then_do HasNumber HasNumber (push_value a.result.result left) _
                  (push_value-Safe a.result.result left) (λ s' k. k)))

    eval_dice-Safe : (v1 v2 : p.Double) → Safe HasNumber (eval_dice v1 v2 s)
    unfolding eval_dice
    eval_dice-Safe v1 v2 = ground arith

  apply_operator-Safe :
      (c : ℕ) (v1 v2 : p.Double) (s : State) → Safe HasNumber (apply_operator c v1 v2 s)
  unfolding apply_operator
  apply_operator-Safe c v1 v2 s = ground (arith, eval_dice-Safe s v1 v2)

  module _ (s : State) where
    eval_operator-Safe_on :
        (token : Str) (stack : List p.Double)
        → Safe HasNumber (eval_operator token (record s { num_stack = stack }))
    unfolding eval_operator
    eval_operator-Safe_on token [] = tt
    eval_operator-Safe_on token (v ∷ []) = tt
    eval_operator-Safe_on token (v2 ∷ v1 ∷ left) =
        apply_operator-Safe (first token) v1 v2 (record s { num_stack = left })

  -- A value that does something: a number, a function, an operator of one character, or an empty
  -- text, which is refused.
  abbrev pub acts : PostfixValue p.Double → Bool
  acts (PostfixValue.number v) = true
  acts (PostfixValue.text token) =
      is_empty token
      || not (is_function lib.equals_ci token == 0)
      || (is_operator (first token) && length token == 1)

  abbrev pub any_acts : List (PostfixValue p.Double) → Bool
  any_acts [] = false
  any_acts (v ∷ vs) = acts v || any_acts vs

  eval_value-Safe :
      (v : PostfixValue p.Double) (s : State)
      → IsPlatform p
      → (acts v ≡ false → HasNumber s)
      → Safe HasNumber (eval_value v s)
  unfolding eval_value
  eval_value-Safe (PostfixValue.number v) s law h = omega arith
  eval_value-Safe (PostfixValue.text token) s law h =
      if-keeps_given (Safe HasNumber) (is_empty token) _ _ (λ e. tt)
        (λ e.
          if-keeps_given (Safe HasNumber) (not (is_function lib.equals_ci token == 0)) _ _
            (λ f.
              Safe-then_do TakesTwo HasNumber (split_arity token) _ (split_arity-Safe token law)
                (λ (name, arguments) g. apply_function-Safe_on s name arguments s.num_stack g))
            (λ f.
              if-keeps_given (Safe HasNumber) (is_operator (first token) && length token == 1) _ _
                (λ o. eval_operator-Safe_on s token s.num_stack)
                (λ o. h (ground (arith, e, f, o)))))

  eval_value_idle :
      (v : PostfixValue p.Double) (s : State) → acts v ≡ false → eval_value v s ≡ Attempt.done s
  unfolding eval_value
  eval_value_idle (PostfixValue.number v) s h = absurd (ground (arith, h))
  eval_value_idle (PostfixValue.text token) s h =
      if-keeps_given Idle (is_empty token) _ _ (λ e. absurd (ground (arith, h, e)))
        (λ e.
          if-keeps_given Idle (not (is_function lib.equals_ci token == 0)) _ _
            (λ f. absurd (ground (arith, h, f)))
            (λ f.
              if-keeps_given Idle (is_operator (first token) && length token == 1) _ _
                (λ o. absurd (ground (arith, h, o))) (λ o. refl)))
    where
      Idle : Attempt State → Type 0
      Idle x = x ≡ Attempt.done s

  eval_values-Safe :
      (vs : List (PostfixValue p.Double)) (s : State)
      → IsPlatform p
      → (any_acts vs ≡ false → HasNumber s)
      → Safe HasNumber (eval_values vs s)
  unfolding eval_values
  eval_values-Safe [] s law h = h refl
  eval_values-Safe (v ∷ vs) s law h = elim (Bool-cases (acts v)) [
    | inl a ↦
        Safe-then_do HasNumber HasNumber (eval_value v s) _
          (eval_value-Safe v s law (λ n. absurd (ground (arith, a, n))))
          (λ s' g. eval_values-Safe vs s' law (λ n. g))
    | inr a ↦
        subst (λ x. Safe HasNumber (then_do x (eval_values vs))) (sym (eval_value_idle v s a))
          (eval_values-Safe vs s law (λ n. h (ground (arith, a, n))))
  ]

  last_value-Safe : (s : State) → HasNumber s → Safe Anything (last_value s)
  unfolding last_value
  last_value-Safe s h = ground (arith, h)

  -- EvaluatePostfix never calls `top` or `pop` on an empty stack of numbers, where some value of the
  -- expression is a number, a function, an operator or an empty text.
  pub evaluate_postfix-Safe :
      (postfix : List (PostfixValue p.Double)) (rng : p.Rng)
      → IsPlatform p
      → any_acts postfix ≡ true
      → Safe Anything (evaluate_postfix postfix rng)
  unfolding evaluate_postfix
  evaluate_postfix-Safe postfix rng law h =
      let start : State = record { val = p.of_ℕ 0; num_stack = []; rng = rng; op_results = [] } in
      Safe-then_do HasNumber Anything (eval_values postfix start) _
        (eval_values-Safe postfix start law (λ n. absurd (ground (arith, h, n)))) last_value-Safe
