-- ===== src/DiceServ/Conversion.antt =====
-- InfixToPostfix on the tokens of an expression.
use anope_mods_contrib.Base.{
  ℕ, ◌≤◌, ◌≡◌, refl, subst, true, false, ◌||◌, List, [], ◌∷◌, ◌++◌, Str, codes, length, All, arith,
}
use anope_mods_contrib.Base.Order.{text_order}
use anope_mods_contrib.Anope.{Anope, IsTextual}
use anope_mods_contrib.DiceServ.Types.{Attempt, Place}
use anope_mods_contrib.DiceServ.Platform.{Platform}
use anope_mods_contrib.DiceServ.Postfix.{PostfixValue, Yard, close_group, push_operator, read_token}
use anope_mods_contrib.DiceServ.Stacks.{functions_on, IsCovered}
use anope_mods_contrib.DiceServ.Expr.{BinOp, symbol, left_level, IsUnary, IsNumber}
use anope_mods_contrib.DiceServ.Precedence.{
  is_function-symbol, is_constant-symbol, is_function-open, is_function-close, is_constant-open,
  is_constant-close, does_pop-close_open,
}
use anope_mods_contrib.DiceServ.Pending.{
  All-map, write, Stops, functions_on-append, pop_plain-pending, pop_counted-pending, IsPending,
  IsPending-symbol, IsPending-close,
}

module _ ⦃lib : Anope⦄ ⦃p : Platform⦄ where
  abbrev pub Reading : Type 0
  Reading = Yard p.Double

  -- The state after an operand of a level: operators that wait lie on the stack `ops`, and with them
  -- the output is `target`.
  pub record Reads (l : ℕ) (ops : List Str) (target : List (PostfixValue p.Double)) (y : Reading)
      : Type 0 where
    pub waiting : List Str
    pub pending : All (IsPending l) waiting
    pub on_stack : y.op_stack ≡ waiting ++ ops
    pub written : write y.postfix waiting ≡ target
    pub covered : IsCovered lib.equals_ci y
    pub ready : (y.prev_was_number || y.prev_was_close) ≡ true

  pub read_token-number :
      (s : Str) (place : Place) (y : Reading)
      → IsNumber s
      → read_token s place y
        ≡ Attempt.done (record y {
          postfix = y.postfix ++ PostfixValue.number (p.convert_double s) ∷ [];
          prev_was_number = true;
        })
  unfolding read_token
  read_token-number s place y h = ground (arith, h.0, h.1, h.2, h.3)

  pub read_token-call :
      (f : Str) (place : Place) (y : Reading)
      → IsUnary f
      → read_token f place y
        ≡ Attempt.done (record y { op_stack = f ∷ y.op_stack; arity_stack = 1 ∷ y.arity_stack })
  unfolding read_token
  read_token-call f place y h = ground (arith, h.0, h.2, h.3)

  module _ (text : IsTextual lib) where
    pub read_token-symbol :
        (o : BinOp) (place : Place) (y : Reading)
        → (y.prev_was_number || y.prev_was_close) ≡ true
        → read_token (symbol o) place y ≡ push_operator lib.equals_ci (symbol o) y
    unfolding read_token
    read_token-symbol o place y h =
        ground (arith, h, is_function-symbol o text, is_constant-symbol o text)

    pub read_token-open :
        (place : Place) (y : Reading)
        → read_token (codes "(") place y
          ≡ Attempt.done (record y {
            op_stack = codes "(" ∷ y.op_stack;
            prev_was_close = false;
            prev_was_number = false;
          })
    unfolding read_token
    read_token-open place y = ground (arith, is_function-open text, is_constant-open text)

    pub read_token-close :
        (place : Place) (y : Reading)
        → read_token (codes ")") place y ≡ close_group lib.equals_ci place y
    unfolding read_token
    read_token-close place y = ground (arith, is_function-close text, is_constant-close text)

    -- An operator behind its left operand: the output has the operand, and the operator waits.
    pub push_operator-Reads :
        (o : BinOp) (ops : List Str) (target : List (PostfixValue p.Double)) (y : Reading)
        → Reads (left_level o) ops target y
        → Stops lib.equals_ci (symbol o) ops
        → (y' : Reading) × (push_operator lib.equals_ci (symbol o) y ≡ Attempt.done y')
          × (y'.op_stack ≡ symbol o ∷ ops)
          × (y'.postfix ≡ target)
          × IsCovered lib.equals_ci y'
    unfolding push_operator
    push_operator-Reads o ops target y r stops =
        let (left, e, n) =
          pop_counted-pending lib.equals_ci (symbol o) r.waiting ops y.arity_stack y.postfix
            (All-map r.waiting (λ x. IsPending-symbol text o (left_level o) x (omega arith))
              r.pending)
            stops
            (subst (λ s. functions_on lib.equals_ci s ≤ length y.arity_stack) r.on_stack
              r.covered) in
        (
          record {
            postfix = write y.postfix r.waiting;
            op_stack = symbol o ∷ ops;
            arity_stack = left;
            prev_was_close = false;
            prev_was_number = false;
          },
          simp (r.on_stack, e),
          refl,
          r.written,
          grind (arith, n, is_function-symbol o text),
        )

    -- A closing parenthesis behind an expression in parentheses.
    pub close_group-Reads :
        (place : Place) (l : ℕ) (ops : List Str) (target : List (PostfixValue p.Double))
        (y : Reading)
        → Reads l (codes "(" ∷ ops) target y
        → (y' : Reading) × (close_group lib.equals_ci place y ≡ Attempt.done y')
          × (y'.op_stack ≡ ops)
          × (y'.postfix ≡ target)
          × IsCovered lib.equals_ci y'
          × (y'.prev_was_close ≡ true)
    unfolding close_group
    close_group-Reads place l ops target y r =
        let e =
          pop_plain-pending lib.equals_ci (codes ")") r.waiting (codes "(" ∷ ops) y.postfix
            (All-map r.waiting (IsPending-close text l) r.pending) (does_pop-close_open text) in
        (
          record {
            postfix = write y.postfix r.waiting;
            op_stack = ops;
            arity_stack = y.arity_stack;
            prev_was_close = true;
            prev_was_number = false;
          },
          simp (r.on_stack, e),
          refl,
          r.written,
          omega (
            arith,
            functions_on-append lib.equals_ci r.waiting (codes "(" ∷ ops),
            subst (λ s. functions_on lib.equals_ci s ≤ length y.arity_stack) r.on_stack r.covered,
          ),
          refl,
        )
