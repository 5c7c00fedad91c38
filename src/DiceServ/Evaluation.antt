-- ===== src/DiceServ/Evaluation.antt =====
-- EvaluatePostfix on the postfix form of an expression.
use anope_mods_contrib.Base.{◌≡◌, ◌∙◌, refl, sym, ap, List, [], ◌∷◌, ◌++◌, Str}
use anope_mods_contrib.Base.Order.{text_order}
use anope_mods_contrib.Anope.{Anope, IsTextual}
use anope_mods_contrib.DiceServ.Types.{Attempt, then_do}
use anope_mods_contrib.DiceServ.Platform.{Platform}
use anope_mods_contrib.DiceServ.Postfix.{PostfixValue}
use anope_mods_contrib.DiceServ.Evaluate.{
  Eval, eval_value, eval_values, last_value, evaluate_postfix,
}
use anope_mods_contrib.DiceServ.Expr.{symbol, Expr, rpn, IsWellFormed}
use anope_mods_contrib.DiceServ.Rounds.{
  then_do_assoc, then_do_done, then_do-ap, with_stack, push_on, eval_value-symbol, eval_value-call,
}
use anope_mods_contrib.DiceServ.Value.{World, Valued, operate, value}

module _ ⦃lib : Anope⦄ ⦃p : Platform⦄ where
  eval_values-append :
      (xs ys : List (PostfixValue p.Double)) (s : Eval p.Double p.Rng)
      → eval_values (xs ++ ys) s ≡ then_do (eval_values xs s) (eval_values ys)
  unfolding eval_values
  eval_values-append [] ys s = refl
  eval_values-append (x ∷ xs) ys s =
      then_do-ap (eval_value x s) _ _ (λ s'. eval_values-append xs ys s')
      ∙ sym (then_do_assoc (eval_value x s) (eval_values xs) (eval_values ys))

  eval_value-number :
      (s : Str) (w : World p.Double p.Rng) (stack : List p.Double)
      → eval_value (PostfixValue.number (p.convert_double s)) (with_stack w stack)
        ≡ push_on stack (p.convert_double s, w)
  unfolding eval_value
  eval_value-number s w stack = refl

  eval_values-one :
      (v : PostfixValue p.Double) (s : Eval p.Double p.Rng)
      → eval_values (v ∷ []) s ≡ eval_value v s
  unfolding eval_values
  eval_values-one v s = then_do_done (eval_value v s)

  -- Behind an operand, whose value is on the stack.
  after_operand :
      (xs ys : List (PostfixValue p.Double)) (w : World p.Double p.Rng) (stack : List p.Double)
      (v : Valued)
      → eval_values xs (with_stack w stack) ≡ then_do v (push_on stack)
      → eval_values (xs ++ ys) (with_stack w stack)
        ≡ then_do v (λ (x, w'). eval_values ys (with_stack w' (x ∷ stack)))
  after_operand xs ys w stack v h =
      eval_values-append xs ys (with_stack w stack)
      ∙ (ap (λ r. then_do r (eval_values ys)) h ∙ then_do_assoc v (push_on stack) (eval_values ys))

  eval_values-rpn :
      (t : Expr) (w : World p.Double p.Rng) (stack : List p.Double)
      → IsTextual lib
      → IsWellFormed t
      → eval_values (rpn t) (with_stack w stack) ≡ then_do (value t w) (push_on stack)
  unfolding rpn value
  eval_values-rpn (Expr.number s) w stack text h =
      eval_values-one _ (with_stack w stack) ∙ eval_value-number s w stack
  eval_values-rpn (Expr.call f a) w stack text h =
      after_operand (rpn a) (PostfixValue.text f ∷ []) w stack (value a w)
        (eval_values-rpn a w stack text h.1)
      ∙ (then_do-ap (value a w) _ _ (λ (x, w1).
            eval_values-one (PostfixValue.text f) (with_stack w1 (x ∷ stack))
            ∙ eval_value-call f h.0 text x w1 stack)
          ∙ sym (then_do_assoc (value a w) _ (push_on stack)))
  eval_values-rpn (Expr.binary o a b) w stack text h =
      after_operand (rpn a) (rpn b ++ PostfixValue.text (symbol o) ∷ []) w stack (value a w)
        (eval_values-rpn a w stack text h.0)
      ∙ (then_do-ap (value a w) _ _
            (λ (x, w1). right x w1 (eval_values-rpn b w1 (x ∷ stack) text h.1))
          ∙ sym (then_do_assoc (value a w) _ (push_on stack)))
    where
      right :
          (x : p.Double) (w1 : World p.Double p.Rng)
          → eval_values (rpn b) (with_stack w1 (x ∷ stack))
            ≡ then_do (value b w1) (push_on (x ∷ stack))
          → eval_values (rpn b ++ PostfixValue.text (symbol o) ∷ []) (with_stack w1 (x ∷ stack))
            ≡ then_do (then_do (value b w1) (λ (y, w2). operate o x y w2)) (push_on stack)
      right x w1 ih =
          after_operand (rpn b) (PostfixValue.text (symbol o) ∷ []) w1 (x ∷ stack) (value b w1) ih
          ∙ (then_do-ap (value b w1) _ _ (λ (y, w2).
                eval_values-one (PostfixValue.text (symbol o)) (with_stack w2 (y ∷ x ∷ stack))
                ∙ eval_value-symbol o x y w2 stack text)
              ∙ sym (then_do_assoc (value b w1) _ (push_on stack)))

  -- Before the loop.
  abbrev pub start : p.Rng → World p.Double p.Rng
  start rng = record { last = p.of_ℕ 0; rng = rng; op_results = [] }

  -- EvaluatePostfix gives an expression in postfix form the value that the expression has by itself,
  -- operand by operand, with the same throws, the same results in the same order and the same
  -- failures, and with no other number left on the stack.
  pub evaluate_postfix-value :
      (t : Expr) (rng : p.Rng)
      → IsTextual lib
      → IsWellFormed t
      → evaluate_postfix (rpn t) rng
        ≡ then_do (value t (start rng)) (λ (v, w). Attempt.done (v, with_stack w (v ∷ [])))
  unfolding evaluate_postfix last_value
  evaluate_postfix-value t rng text h =
      ap (λ r. then_do r last_value) (eval_values-rpn t (start rng) [] text h)
      ∙ then_do_assoc (value t (start rng)) (push_on []) last_value
