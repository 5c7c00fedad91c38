-- ===== src/DiceServ/Calls.antt =====
-- The functions of EvaluatePostfix, and the numbers that they take from the stack.
use anope_mods_contrib.Base.{
  ℕ, zero, suc, ◌-◌, ◌≤◌, ◌≡◌, true, List, [], ◌∷◌, Str, length, if-keeps, if-keeps_given, codes,
  arith,
}
use anope_mods_contrib.Anope.{Anope}
use anope_mods_contrib.DiceServ.Types.{Attempt}
use anope_mods_contrib.DiceServ.Platform.{Platform}
use anope_mods_contrib.DiceServ.Results.{FunctionResult}
use anope_mods_contrib.DiceServ.Functions.{
  fold_stack, call_fold, call_atan2, call_rand, call_unary, call_function, call_abs_to_atan,
  call_atanh_to_deg, call_exp_to_log10, call_round_to_trunc, factorial,
}
use anope_mods_contrib.DiceServ.Stacks.{Safe, Safe-then_do, Anything}

module _ ⦃lib : Anope⦄ ⦃p : Platform⦄ where
  fold_stack-Safe :
      (pick : p.Double → p.Double → p.Double) (k : ℕ) (v : p.Double) (args stack : List p.Double)
      → k ≤ length stack
      → Safe Anything (fold_stack pick k v args stack)
  unfolding fold_stack
  fold_stack-Safe pick zero v args stack h = tt
  fold_stack-Safe pick (suc k) v args [] h = absurd (omega arith)
  fold_stack-Safe pick (suc k) v args (w ∷ stack) h =
      fold_stack-Safe pick k (pick w v) (w ∷ args) stack (omega (arith, h))

  call_fold-Safe :
      (pick : p.Double → p.Double → p.Double) (name : Str) (arguments : ℕ) (v : p.Double)
      (stack : List p.Double) (rng : p.Rng)
      → arguments ≤ suc (length stack)
      → Safe Anything (call_fold pick name arguments v stack rng)
  unfolding call_fold
  call_fold-Safe pick name arguments v stack rng h =
      Safe-then_do Anything Anything (fold_stack pick (arguments - 1) v (v ∷ []) stack) _
        (fold_stack-Safe pick (arguments - 1) v (v ∷ []) stack (omega arith)) (λ r g. tt)

  call_atan2-Safe :
      (v : p.Double) (stack : List p.Double) (rng : p.Rng)
      → 1 ≤ length stack
      → Safe Anything (call_atan2 v stack rng)
  unfolding call_atan2
  call_atan2-Safe v [] rng h = absurd (omega arith)
  call_atan2-Safe v (w ∷ stack) rng h = tt

  call_rand-Safe :
      (v : p.Double) (stack : List p.Double) (rng : p.Rng)
      → 1 ≤ length stack
      → Safe Anything (call_rand v stack rng)
  unfolding call_rand
  call_rand-Safe v [] rng h = absurd (omega arith)
  call_rand-Safe v (w ∷ stack) rng h = tt

  call_abs_to_atan-Safe :
      (token : Str) (v : p.Double) (rest : Attempt (FunctionResult p.Double))
      → Safe Anything rest
      → Safe Anything (call_abs_to_atan token v rest)
  unfolding call_abs_to_atan
  call_abs_to_atan-Safe token v rest h = ground (arith, h)

  call_atanh_to_deg-Safe :
      (token : Str) (v : p.Double) (rest : Attempt (FunctionResult p.Double))
      → Safe Anything rest
      → Safe Anything (call_atanh_to_deg token v rest)
  unfolding call_atanh_to_deg
  call_atanh_to_deg-Safe token v rest h = ground (arith, h)

  call_exp_to_log10-Safe :
      (token : Str) (v : p.Double) (rest : Attempt (FunctionResult p.Double))
      → Safe Anything rest
      → Safe Anything (call_exp_to_log10 token v rest)
  unfolding call_exp_to_log10 factorial
  call_exp_to_log10-Safe token v rest h = ground (arith, h)

  call_round_to_trunc-Safe :
      (token : Str) (v : p.Double) (rest : Attempt (FunctionResult p.Double))
      → Safe Anything rest
      → Safe Anything (call_round_to_trunc token v rest)
  unfolding call_round_to_trunc
  call_round_to_trunc-Safe token v rest h = ground (arith, h)

  call_unary-Safe : (token : Str) (val v : p.Double) → Safe Anything (call_unary token val v)
  unfolding call_unary
  call_unary-Safe token val v = call_abs_to_atan-Safe token v _ (
      call_atanh_to_deg-Safe token v _ (
        call_exp_to_log10-Safe token v _ (
          if-keeps (Safe Anything) (lib.equals_ci token (codes "rad")) _ _ tt
            (call_round_to_trunc-Safe token v _ tt))))

  pub call_function-Safe :
      (token : Str) (arguments : ℕ) (val v : p.Double) (stack : List p.Double) (rng : p.Rng)
      → arguments ≤ suc (length stack)
      → (lib.equals_ci token (codes "atan2") ≡ true → 2 ≤ arguments)
      → (lib.equals_ci token (codes "rand") ≡ true → 2 ≤ arguments)
      → Safe Anything (call_function token arguments val v stack rng)
  unfolding call_function
  call_function-Safe token arguments val v stack rng h a r =
      if-keeps_given (Safe Anything) (lib.equals_ci token (codes "atan2")) _ _
        (λ e. call_atan2-Safe v stack rng (omega (arith, a e)))
        (λ e.
          if-keeps (Safe Anything) (lib.equals_ci token (codes "max")) _ _
            (call_fold-Safe _ (codes "max") arguments v stack rng h)
            (if-keeps (Safe Anything) (lib.equals_ci token (codes "min")) _ _
              (call_fold-Safe _ (codes "min") arguments v stack rng h)
              (if-keeps_given (Safe Anything) (lib.equals_ci token (codes "rand")) _ _
                (λ g. call_rand-Safe v stack rng (omega (arith, r g)))
                (λ g.
                  Safe-then_do Anything Anything (call_unary token val v) _
                    (call_unary-Safe token val v) (λ q w. tt)))))
