-- ===== src/DiceServ/Stacks.antt =====
-- The stacks of InfixToPostfix, and calls of `top` and `pop` on empty ones.
use anope_mods_contrib.Base.{
  ℕ, ◌+◌, ◌≤◌, Bool, List, [], ◌∷◌, Str, length, ◌==◌, if◌then◌else◌, arith,
}
use anope_mods_contrib.Anope.{Anope}
use anope_mods_contrib.DiceServ.Types.{Attempt, then_do}
use anope_mods_contrib.DiceServ.Chars.{is_function}
use anope_mods_contrib.DiceServ.Platform.{Platform}
use anope_mods_contrib.DiceServ.Postfix.{PostfixValue, Yard, popped_name}

-- Where the end of a step is no call on an empty stack, and a result has a property.
abbrev pub Safe {ℓ} : {A : Type ℓ} → (A → Type 0) → Attempt A → Type 0
Safe P (Attempt.done a) = P a
Safe P (Attempt.failed e) = Unit
Safe P Attempt.out_of_bounds = ⊥

abbrev pub Anything {ℓ} : {A : Type ℓ} → A → Type 0
Anything a = Unit

pub Safe-then_do {ℓ κ} :
    {A : Type ℓ} {B : Type κ} (P : A → Type 0) (Q : B → Type 0) (x : Attempt A) (f : A → Attempt B)
    → Safe P x
    → ((a : A) → P a → Safe Q (f a))
    → Safe Q (then_do x f)
Safe-then_do P Q (Attempt.done a) f h k = k a h
Safe-then_do P Q (Attempt.failed e) f h k = tt
Safe-then_do P Q Attempt.out_of_bounds f h k = absurd h

module _ (eq : Str → Str → Bool) where
  -- How many functions stand on the stack of operators.
  abbrev pub functions_on : List Str → ℕ
  functions_on [] = 0
  functions_on (o ∷ ops) = (if is_function eq o == 0 then 0 else 1) + functions_on ops

  pub popped_name-Safe :
      (o : Str) (ops : List Str) (arities : List ℕ)
      → functions_on (o ∷ ops) ≤ length arities
      → Safe (λ (p : Str × List ℕ). functions_on ops ≤ length p.1) (popped_name eq o arities)
  unfolding popped_name
  popped_name-Safe o ops [] h = ground (arith, h)
  popped_name-Safe o ops (a ∷ arities) h = ground (arith, h)

module _ {T : Type 0} (eq : Str → Str → Bool) where
  -- At most this many functions are left.
  abbrev HasFew : ℕ → List Str × List (PostfixValue T) → Type 0
  HasFew n (ops, postfix) = functions_on eq ops ≤ n

  abbrev Covered : List Str × List ℕ × List (PostfixValue T) → Type 0
  Covered (ops, arities, postfix) = functions_on eq ops ≤ length arities

  -- There are at least as many arities as functions on the stack.
  abbrev pub IsCovered : Yard T → Type 0
  IsCovered y = functions_on eq y.op_stack ≤ length y.arity_stack

module _ ⦃lib : Anope⦄ ⦃p : Platform⦄ where
  abbrev Reading : Type 0
  Reading = Yard p.Double
