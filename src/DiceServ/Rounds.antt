-- ===== src/DiceServ/Rounds.antt =====
-- One round of EvaluatePostfix, on a symbol or a function of one argument.
use anope_mods_contrib.Base.{
  ℕ, ◌≡◌, ◌∙◌, refl, sym, ap, true, false, List, [], ◌∷◌, ◌++◌, Str, codes, ◌==◌, if-keeps_given,
  not, suc, ltb, length, take, map, arith,
}
use anope_mods_contrib.Base.Order.{text_order, ◌=?◌}
use anope_mods_contrib.Anope.{Anope, IsTextual, ascii_upper}
use anope_mods_contrib.GroupServ.Text.{is_empty}
use anope_mods_contrib.DiceServ.Types.{Attempt, then_do}
use anope_mods_contrib.DiceServ.Chars.{first, is_function, function_argument_count}
use anope_mods_contrib.DiceServ.Platform.{Platform}
use anope_mods_contrib.DiceServ.Results.{FunctionResult, OperatorResult}
use anope_mods_contrib.DiceServ.Postfix.{PostfixValue}
use anope_mods_contrib.DiceServ.Functions.{Applied, call_function, call_unary}
use anope_mods_contrib.DiceServ.Evaluate.{
  Eval, push_value, name_and_arity, split_arity, apply_function, apply_operator, eval_power,
  eval_operator, eval_value,
}
use anope_mods_contrib.DiceServ.Expr.{BinOp, symbol, IsUnary}
use anope_mods_contrib.DiceServ.Precedence.{is_function-symbol, is_function-nil}
use anope_mods_contrib.DiceServ.Value.{World, finite, operate, apply_to}

pub then_do_assoc {ℓ κ μ} :
    {A : Type ℓ} {B : Type κ} {C : Type μ} (x : Attempt A) (f : A → Attempt B) (g : B → Attempt C)
    → then_do (then_do x f) g ≡ then_do x (λ a. then_do (f a) g)
then_do_assoc (Attempt.done a) f g = refl
then_do_assoc (Attempt.failed e) f g = refl
then_do_assoc Attempt.out_of_bounds f g = refl

pub then_do_done {ℓ} : {A : Type ℓ} (x : Attempt A) → then_do x Attempt.done ≡ x
then_do_done (Attempt.done a) = refl
then_do_done (Attempt.failed e) = refl
then_do_done Attempt.out_of_bounds = refl

pub then_do-ap {ℓ κ} :
    {A : Type ℓ} {B : Type κ} (x : Attempt A) (f g : A → Attempt B)
    → ((a : A) → f a ≡ g a)
    → then_do x f ≡ then_do x g
then_do-ap (Attempt.done a) f g h = h a
then_do-ap (Attempt.failed e) f g h = refl
then_do-ap Attempt.out_of_bounds f g h = refl

take_three :
    (f : Str) (x y z : ℕ)
    → (map ascii_upper f =? map ascii_upper (x ∷ y ∷ z ∷ [])) ≡ true
    → take 3 f ≡ f
take_three [] x y z h = refl
take_three (a ∷ []) x y z h = refl
take_three (a ∷ b ∷ []) x y z h = refl
take_three (a ∷ b ∷ c ∷ []) x y z h = refl
take_three (a ∷ b ∷ c ∷ d ∷ f) x y z h = absurd (ground (arith, h))

module _ ⦃lib : Anope⦄ ⦃p : Platform⦄ where
  -- The variables of the loop, for a world and a stack.
  abbrev pub with_stack : World p.Double p.Rng → List p.Double → Eval p.Double p.Rng
  with_stack w stack = record {
    val = w.last;
    num_stack = stack;
    rng = w.rng;
    op_results = w.op_results;
  }

  abbrev pub push_on :
      List p.Double → p.Double × World p.Double p.Rng → Attempt (Eval p.Double p.Rng)
  push_on stack (v, w) = Attempt.done (with_stack w (v ∷ stack))

  push_value-finite :
      (v : p.Double) (w : World p.Double p.Rng) (stack : List p.Double)
      → push_value v (with_stack w stack) ≡ then_do (finite v w) (push_on stack)
  unfolding push_value
  push_value-finite v w stack = ground arith

  apply_operator-operate :
      (o : BinOp) (x y : p.Double) (w : World p.Double p.Rng) (stack : List p.Double)
      → apply_operator (first (symbol o)) x y (with_stack w stack)
        ≡ then_do (operate o x y w) (push_on stack)
  unfolding apply_operator
  apply_operator-operate BinOp.plus x y w stack = push_value-finite _ w stack
  apply_operator-operate BinOp.minus x y w stack = push_value-finite _ w stack
  apply_operator-operate BinOp.times x y w stack = push_value-finite _ w stack
  apply_operator-operate BinOp.over x y w stack =
      ground (arith, push_value-finite (p.div x y) w stack)
  apply_operator-operate BinOp.modulo x y w stack =
      ground (arith, push_value-finite (p.fmod x y) w stack)
  apply_operator-operate BinOp.power x y w stack =
      then_do-ap (eval_power x y) _ _ (λ v. push_value-finite v w stack)
      ∙ sym (then_do_assoc (eval_power x y) (λ v. finite v w) (push_on stack))
  apply_operator-operate BinOp.dice x y w stack = ground arith

  pub eval_value-symbol :
      (o : BinOp) (x y : p.Double) (w : World p.Double p.Rng) (stack : List p.Double)
      → IsTextual lib
      → eval_value (PostfixValue.text (symbol o)) (with_stack w (y ∷ x ∷ stack))
        ≡ then_do (operate o x y w) (push_on stack)
  unfolding eval_value eval_operator
  eval_value-symbol o x y w stack text =
      ground (arith, is_function-symbol o text, apply_operator-operate o x y w stack)

  module _ (f : Str) (u : IsUnary f) (text : IsTextual lib) where
    no_other :
        (lib.equals_ci f (codes "atan2") ≡ false)
        × (lib.equals_ci f (codes "rand") ≡ false)
        × (lib.equals_ci f (codes "max") ≡ false)
        × (lib.equals_ci f (codes "min") ≡ false)
    unfolding function_argument_count
    no_other = ground (
      arith,
      u.1,
      take_three f b'm' b'a' b'x',
      take_three f b'm' b'i' b'n',
      text.equals_ascii f (codes "max"),
      text.equals_ascii f (codes "min"),
    )

    split_arity-unary : split_arity f ≡ Attempt.done (f, 1)
    unfolding split_arity name_and_arity
    split_arity-unary = ap (name_and_arity f) u.1

    call_function-unary :
        (val v : p.Double) (stack : List p.Double) (rng : p.Rng)
        → call_function f 1 val v stack rng
          ≡ then_do
              (call_unary f val v)
              (λ result. Attempt.done (record { result = result; num_stack = stack; rng = rng }))
    unfolding call_function
    call_function-unary val v stack rng = simp (no_other.0, no_other.1, no_other.2, no_other.3)

    push_value-call :
        (w : World p.Double p.Rng) (stack : List p.Double) (r : FunctionResult p.Double)
        → then_do (push_value r.result (with_stack w stack)) (λ s.
          Attempt.done (record s { op_results = s.op_results ++ OperatorResult.function r ∷ [] }))
          ≡ then_do
              (then_do (finite r.result w) (λ (v, w').
                Attempt.done
                  (v, record w' { op_results = w'.op_results ++ OperatorResult.function r ∷ [] })))
              (push_on stack)
    unfolding push_value
    push_value-call w stack r = ground arith

    apply_function-unary :
        (x : p.Double) (w : World p.Double p.Rng) (stack : List p.Double)
        → apply_function f 1 (with_stack w (x ∷ stack)) ≡ then_do (apply_to f x w) (push_on stack)
    unfolding apply_function
    apply_function-unary x w stack =
        if-keeps_given (λ z. z ≡ then_do (apply_to f x w) (push_on stack))
          (ltb (suc (length stack)) 1) _ _ (λ e. absurd (ground (arith, e)))
          (λ e.
            ap (λ r. then_do r keep) (call_function-unary w.last x stack w.rng)
            ∙ (then_do_assoc (call_unary f w.last x) _ _
                ∙ (then_do-ap (call_unary f w.last x) _ _ (push_value-call w stack)
                    ∙ sym (then_do_assoc (call_unary f w.last x) _ (push_on stack)))))
      where
        keep : Applied p.Double p.Rng → Attempt (Eval p.Double p.Rng)
        keep a =
            then_do
              (push_value a.result.result
                (record (with_stack w (x ∷ stack)) { num_stack = a.num_stack; rng = a.rng }))
              (λ s.
                Attempt.done
                  (record s { op_results = s.op_results ++ OperatorResult.function a.result ∷ [] }))

    pub eval_value-call :
        (x : p.Double) (w : World p.Double p.Rng) (stack : List p.Double)
        → eval_value (PostfixValue.text f) (with_stack w (x ∷ stack))
          ≡ then_do (apply_to f x w) (push_on stack)
    unfolding eval_value
    eval_value-call x w stack =
        if-keeps_given Goal (is_empty f) _ _
          (λ e. absurd (ground (arith, e, u.0, is_function-nil text)))
          (λ e.
            if-keeps_given Goal (not (is_function lib.equals_ci f == 0)) _ _
              (λ g.
                ap (λ r. then_do r (λ (name, n). apply_function name n (with_stack w (x ∷ stack))))
                  split_arity-unary
                ∙ apply_function-unary x w stack)
              (λ g. absurd (ground (arith, g, u.0))))
      where
        Goal : Attempt (Eval p.Double p.Rng) → Type 0
        Goal z = z ≡ then_do (apply_to f x w) (push_on stack)
