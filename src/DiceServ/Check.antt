-- ===== src/DiceServ/Check.antt =====
-- CheckInfix: what may stand next to what.
use anope_mods_contrib.Base.{
  ℕ, zero, suc, ◌+◌, ◌-◌, Bool, true, false, not, ◌&&◌, ◌||◌, Option, none, some, List, [], ◌∷◌,
  Str, ◌==◌, if◌then◌else◌, drop, length,
}
use anope_mods_contrib.GroupServ.Text.{is_empty}
use anope_mods_contrib.DiceServ.Types.{Detail, Attempt, Place, Infix, position_at, parse_fault}
use anope_mods_contrib.DiceServ.Chars.{
  is_number, is_muldiv, is_plusmin, is_op_noparen, is_operator, first, is_function, is_constant,
}

-- `is_number(p) || p == ')' || prev_was_const`, for the character before, if there is one.
abbrev ends_operand : Option ℕ → Bool → Bool
ends_operand none was_const = false
ends_operand (some p) was_const = is_number p || p == b')' || was_const

-- A position that is read, and what is done with it.
abbrev pub with_position : Place → (ℕ → Attempt (Unit {0})) → Attempt (Unit {0})
with_position none next = Attempt.out_of_bounds
with_position (some q) next = next q

-- A failure at a position, or what comes next.
abbrev pub fault_or : Option Detail → ℕ → Attempt (Unit {0}) → Attempt (Unit {0})
fault_or none position next = next
fault_or (some detail) position next = Attempt.failed (parse_fault detail (some position))

module _ (eq : Str → Str → Bool) where
  -- A number, `(`, `_`, a constant or a function begins here.
  abbrev pub starts_operand : Str → Bool
  starts_operand rest =
      not (is_empty rest)
      && (is_number (first rest)
          || first rest == b'('
          || first rest == b'_'
          || not (is_constant eq rest == 0)
          || not (is_function eq rest == 0))

  unfoldable pub check_open : Option ℕ → Bool → Str → Option Detail
  unfolding is_constant is_function
  check_open prev was_func rest =
      let may_follow : Bool = elim prev [
        | none ↦ true
        | some p ↦ is_op_noparen p || p == b'(' || p == b',' || was_func
      ] in
      if not may_follow
      then some Detail.missing_operator
      else if not (is_empty rest) && not (starts_operand rest)
      then some Detail.number_after_open
      else none

  unfoldable pub check_close : Option ℕ → Bool → Str → Option Detail
  check_close prev was_const rest =
      let may_follow : Bool = elim prev [
        | none ↦ true
        | some p ↦ ends_operand (some p) was_const
      ] in
      if not may_follow
      then some Detail.number_before_close
      else if not (is_empty rest)
          && not (is_op_noparen (first rest) || first rest == b')' || first rest == b',')
      then some Detail.operator_after_close
      else none

  -- A comma or an operator: the character before, what follows, and the two texts.
  unfoldable pub check_infix_op : Option ℕ → Bool → Str → Detail → Detail → Option Detail
  unfolding is_constant is_function
  check_infix_op prev was_const rest before after =
      if not (ends_operand prev was_const)
      then some before
      else if not (starts_operand rest)
      then some after
      else none

  unfoldable pub check_char : Option ℕ → Bool → Bool → ℕ → Str → Option Detail
  unfolding check_infix_op check_open check_close
  check_char prev was_func was_const c rest =
      if c == b','
      then check_infix_op prev was_const rest Detail.comma_before Detail.comma_after
      else if is_op_noparen c
      then check_infix_op prev was_const rest Detail.operator_before Detail.operator_after
      else if c == b'('
      then check_open prev was_func rest
      else if c == b')'
      then check_close prev was_const rest
      else if not (is_number c)
          && not (is_muldiv c)
          && not (is_plusmin c)
          && not (is_operator c)
          && not (c == b'_')
      then some Detail.invalid_character
      else none

  -- The loop from position `x` on, with the number of characters that are taken already. Each round
  -- begins with a read of `positions[x]`.
  unfoldable pub check_from : List Place → ℕ → Option ℕ → ℕ → Bool → Bool → Str → Attempt (Unit {0})
  unfolding is_function is_constant check_char
  check_from positions skip prev x was_func was_const [] = Attempt.done tt
  check_from positions (suc skip) prev x was_func was_const (c ∷ rest) =
      check_from positions skip (some c) (suc x) was_func was_const rest
  check_from positions zero prev x was_func was_const (c ∷ rest) =
      let func = is_function eq (c ∷ rest) in
      let constant = is_constant eq (c ∷ rest) in
      let behind = drop func (c ∷ rest) in
      let after_func = check_from positions (func - 1) (some c) (suc x) true was_const rest in
      let after_const = check_from positions (constant - 1) (some c) (suc x) was_func true rest in
      let after_char = check_from positions 0 (some c) (suc x) false false rest in
      let place = if is_empty behind then x + length (c ∷ rest) else x + func in
      let no_open =
        with_position (position_at positions place)
          (λ q. Attempt.failed (parse_fault Detail.function_without_open (some q))) in
      with_position (position_at positions x) (λ position.
        if not (func == 0)
        then (if first behind == b'(' then after_func else no_open)
        else if not (constant == 0)
        then after_const
        else fault_or (check_char prev was_func was_const c rest) position after_char)

  unfoldable pub check_infix : Infix → Attempt (Unit {0})
  unfolding check_from
  check_infix i = check_from i.positions 0 none 0 false false i.str
