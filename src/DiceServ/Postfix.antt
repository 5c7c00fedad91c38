-- ===== src/DiceServ/Postfix.antt =====
-- InfixToPostfix: the shunting yard, with a stack of arities for the functions of any number of
-- arguments.
use anope_mods_contrib.Base.{
  ℕ, suc, ◌+◌, ◌-◌, Bool, true, false, not, ◌&&◌, none, some, List, [], ◌∷◌, ◌++◌, Str, codes, ltb,
  ◌==◌, if◌then◌else◌, length, drop,
}
use anope_mods_contrib.Base.Order.{text_order, ◌=?◌}
use anope_mods_contrib.Base.Int.{ℤ}
use anope_mods_contrib.Base.Decimal.{decimal}
use anope_mods_contrib.Anope.{Anope}
use anope_mods_contrib.DiceServ.Types.{
  DiceError, Detail, Place, Attempt, then_do, fault, parse_fault, Infix, position_at,
}
use anope_mods_contrib.DiceServ.Chars.{
  is_number, is_number_str, is_operator, first, is_function, function_argument_count, is_constant,
  does_pop,
}
use anope_mods_contrib.DiceServ.Platform.{Platform}

-- `PostfixValueDouble` and `PostfixValueString`
pub data PostfixValue (T : Type 0) : Type 0 where
  number : T → PostfixValue T
  text : Str → PostfixValue T

-- The variables of the loop; the top of a stack is the head of a list.
pub record Yard (T : Type 0) : Type 0 where
  pub postfix : List (PostfixValue T)
  pub op_stack : List Str
  pub arity_stack : List ℕ
  pub prev_was_close : Bool
  pub prev_was_number : Bool

-- `op_stack.empty() ? "" : op_stack.top()`
abbrev pub top_op : List Str → Str
top_op [] = []
top_op (o ∷ ops) = o

module _ (eq : Str → Str → Bool) where
  -- What is written for a popped operator, and the arities that are left.
  unfoldable pub popped_name : Str → List ℕ → Attempt (Str × List ℕ)
  popped_name o [] = if is_function eq o == 0 then Attempt.done (o, []) else Attempt.out_of_bounds
  popped_name o (arity ∷ arities) =
      let counted : Bool = elim (function_argument_count eq o) [
        | ℤ.pos n ↦ false
        | ℤ.negsuc n ↦ true
      ] in
      let name = if counted then o ++ b'_' ∷ decimal arity else o in
      if is_function eq o == 0
      then Attempt.done (o, arity ∷ arities)
      else Attempt.done (name, arities)

module _ {T : Type 0} (eq : Str → Str → Bool) where
  -- The loop that pops at a `)` or a comma. On an empty stack the top is the empty text, and a pop
  -- would be one of the empty stack.
  unfoldable pub pop_plain :
      Str → List Str → List (PostfixValue T) → Attempt (List Str × List (PostfixValue T))
  pop_plain token [] postfix =
      if does_pop eq token [] then Attempt.out_of_bounds else Attempt.done ([], postfix)
  pop_plain token (o ∷ ops) postfix =
      let popped = pop_plain token ops (postfix ++ PostfixValue.text o ∷ []) in
      if does_pop eq token o then popped else Attempt.done (o ∷ ops, postfix)

  -- The loop that pops for an operator, and at the end.
  unfoldable pub pop_counted :
      Str
      → List Str
      → List ℕ
      → List (PostfixValue T)
      → Attempt (List Str × List ℕ × List (PostfixValue T))
  unfolding popped_name
  pop_counted token [] arities postfix =
      if does_pop eq token [] then Attempt.out_of_bounds else Attempt.done ([], arities, postfix)
  pop_counted token (o ∷ ops) arities postfix =
      let next =
        then_do (popped_name eq o arities)
          (λ (name, left). pop_counted token ops left (postfix ++ PostfixValue.text name ∷ [])) in
      if does_pop eq token o then next else Attempt.done (o ∷ ops, arities, postfix)

  abbrev stop : Detail → Place → Attempt (Yard T)
  stop detail place = Attempt.failed (parse_fault detail place)

  -- The last steps at a `)`.
  unfoldable pub close_group : Place → Yard T → Attempt (Yard T)
  unfolding pop_plain
  close_group place y = then_do (pop_plain (codes ")") y.op_stack y.postfix) (λ (ops, postfix).
      if top_op ops =? codes "("
      then Attempt.done (record y {
        postfix = postfix;
        op_stack = drop 1 ops;
        prev_was_close = true;
        prev_was_number = false;
      })
      else stop Detail.close_without_open place)

  unfoldable pub push_operator : Str → Yard T → Attempt (Yard T)
  unfolding pop_counted
  push_operator token y =
      then_do (pop_counted token y.op_stack y.arity_stack y.postfix) (λ (ops, arities, postfix).
        Attempt.done (record {
          postfix = postfix;
          op_stack = token ∷ ops;
          arity_stack = arities;
          prev_was_close = false;
          prev_was_number = false;
        }))

  unfoldable pub read_operator : Str → Place → Yard T → Attempt (Yard T)
  unfolding close_group push_operator
  read_operator token place y =
      let opened : Yard T = record y {
        op_stack = token ∷ y.op_stack;
        prev_was_close = false;
        prev_was_number = false;
      } in
      if not y.prev_was_number
        && not (token =? codes "(")
        && not (token =? codes ")")
        && not y.prev_was_close
      then stop Detail.operator_needs_number place
      else if token =? codes "("
      then Attempt.done opened
      else if token =? codes ")"
      then close_group place y
      else push_operator token y

  -- The last steps at a comma, with the stack and the output that the loop leaves.
  unfoldable pub next_argument :
      Place → List Str → List (PostfixValue T) → Yard T → Attempt (Yard T)
  next_argument place ops postfix y =
      let rest = drop 1 ops in
      let counted : Attempt (Yard T) = elim y.arity_stack [
        | [] ↦ Attempt.out_of_bounds
        | arity ∷ arities ↦ Attempt.done (record y {
          postfix = postfix;
          op_stack = codes "(" ∷ rest;
          arity_stack = suc arity ∷ arities;
        })
      ] in
      if not (top_op ops =? codes "(")
      then stop Detail.comma_outside place
      else if is_function eq (top_op rest) == 0
      then stop Detail.comma_outside place
      else counted

  unfoldable pub read_comma : Str → Place → Yard T → Attempt (Yard T)
  unfolding pop_plain next_argument
  read_comma token place y =
      then_do (pop_plain token y.op_stack y.postfix)
        (λ (ops, postfix). next_argument place ops postfix y)

-- `len < positions.size() ? positions[len] : positions[positions.size() - 1] + 1`
abbrev pub end_place : Infix → Place
end_place i =
    if ltb (length i.str) (length i.positions)
    then position_at i.positions (length i.str)
    else elim (position_at i.positions (length i.positions - 1)) [
      | none ↦ none
      | some q ↦ some (q + 1)
    ]

module _ ⦃lib : Anope⦄ ⦃p : Platform⦄ where
  -- `exp(1.0)` and `atan(1.0) * 4`; 0 for another text.
  unfoldable pub constant_value : Str → p.Double
  constant_value token =
      if lib.equals_ci token (codes "e")
      then p.exp (p.of_ℕ 1)
      else if lib.equals_ci token (codes "pi")
      then p.mul (p.atan (p.of_ℕ 1)) (p.of_ℕ 4)
      else p.of_ℕ 0

  unfoldable pub negative_value : Str → p.Double
  negative_value token =
      if not (is_constant lib.equals_ci token == 0)
      then (if lib.equals_ci token (codes "e")
          then p.neg (p.exp (p.of_ℕ 1))
          else if lib.equals_ci token (codes "pi")
          then p.mul (p.neg (p.atan (p.of_ℕ 1))) (p.of_ℕ 4)
          else p.of_ℕ 0)
      else if is_number_str token
      then p.neg (p.convert_double token)
      else p.nan

  unfoldable pub add_number : p.Double → Yard p.Double → Attempt (Yard p.Double)
  add_number v y =
      if p.is_infinite v
      then Attempt.failed (fault DiceError.overunderflow)
      else if p.is_nan v
      then Attempt.failed (fault DiceError.undefined)
      else Attempt.done
          (record y { postfix = y.postfix ++ PostfixValue.number v ∷ []; prev_was_number = true })

  -- The body of the loop on a token, whose place is for an error.
  unfoldable pub read_token : Str → Place → Yard p.Double → Attempt (Yard p.Double)
  unfolding negative_value constant_value add_number read_operator read_comma
  read_token token place y =
      let eq = lib.equals_ci in
      let named : Yard p.Double = record y {
        op_stack = token ∷ y.op_stack;
        arity_stack = 1 ∷ y.arity_stack;
      } in
      let constant : Yard p.Double = record y {
        postfix = y.postfix ++ PostfixValue.number (constant_value token) ∷ [];
        prev_was_number = true;
      } in
      let number = if is_number_str token then p.convert_double token else p.nan in
      if first token == b'_'
      then add_number (negative_value (drop 1 token)) y
      else if is_number (first token)
      then add_number number y
      else if not (is_function eq token == 0)
      then Attempt.done named
      else if not (is_constant eq token == 0)
      then Attempt.done constant
      else if is_operator (first token)
      then read_operator eq token place y
      else if first token == b','
      then read_comma eq token place y
      else Attempt.failed (parse_fault Detail.invalid_character place)

  unfoldable pub read_tokens : List Place → List Str → ℕ → Yard p.Double → Attempt (Yard p.Double)
  unfolding read_token
  read_tokens positions [] x y = Attempt.done y
  read_tokens positions (token ∷ tokens) x y =
      then_do (read_token token (position_at positions x) y)
        (λ y'. read_tokens positions tokens (x + length token + (if x == 0 then 0 else 1)) y')

  -- Behind the loop.
  unfoldable pub finish_yard : Infix → Yard p.Double → Attempt (List (PostfixValue p.Double))
  unfolding pop_counted
  finish_yard i y =
      then_do (pop_counted lib.equals_ci [] y.op_stack y.arity_stack y.postfix)
        (λ (ops, arities, postfix). elim ops [
          | [] ↦ Attempt.done postfix
          | o ∷ left ↦ Attempt.failed (parse_fault Detail.open_without_close (end_place i))
        ])

  abbrev pub empty_yard : Yard p.Double
  empty_yard = record {
    postfix = [];
    op_stack = [];
    arity_stack = [];
    prev_was_close = false;
    prev_was_number = false;
  }

  unfoldable pub infix_to_postfix : Infix → Attempt (List (PostfixValue p.Double))
  unfolding read_tokens finish_yard
  infix_to_postfix i =
      then_do (read_tokens i.positions (lib.get_tokens i.str b' ') 0 empty_yard) (finish_yard i)
