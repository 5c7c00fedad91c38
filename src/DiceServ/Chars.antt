-- ===== src/DiceServ/Chars.antt =====
-- The tests on characters and names, and the precedence of operators. `eq` is
-- `Anope::string::equals_ci`.
use anope_mods_contrib.Base.{
  ℕ, suc, ◌+◌, Bool, true, false, not, ◌&&◌, ◌||◌, List, [], ◌∷◌, Str, codes, ltb, leb, ◌==◌,
  if◌then◌else◌, take,
}
use anope_mods_contrib.Base.Order.{text_order, ◌=?◌}
use anope_mods_contrib.Base.Int.{ℤ}
use anope_mods_contrib.GroupServ.Text.{is_empty}

abbrev pub is_number : ℕ → Bool
is_number c = (leb b'0' c && leb c b'9') || c == b'.'

abbrev all_numbers : Str → Bool
all_numbers [] = true
all_numbers (c ∷ s) = is_number c && all_numbers s

abbrev count_dots : Str → ℕ
count_dots [] = 0
count_dots (c ∷ s) = let rest = count_dots s in if c == b'.' then suc rest else rest

abbrev pub is_number_str : Str → Bool
is_number_str s = all_numbers s && ltb (count_dots s) 2

abbrev pub is_muldiv : ℕ → Bool
is_muldiv c = c == b'%' || c == b'/' || c == b'*'

abbrev pub is_plusmin : ℕ → Bool
is_plusmin c = c == b'+' || c == b'-'

abbrev pub is_op_noparen : ℕ → Bool
is_op_noparen c = is_plusmin c || is_muldiv c || c == b'^' || c == b'd'

abbrev pub is_operator : ℕ → Bool
is_operator c = c == b'(' || c == b')' || is_op_noparen c

-- `std::tolower` in the C locale.
abbrev pub to_lower : ℕ → ℕ
to_lower c = if leb b'A' c && leb c b'Z' then c + 32 else c

-- `s[0]`, which is the terminating NUL of an empty text.
abbrev pub first : Str → ℕ
first [] = 0
first (c ∷ s) = c

abbrev pub names_of_five : List Str
names_of_five =
    codes "acosh"
    ∷ codes "asinh"
    ∷ codes "atan2"
    ∷ codes "atanh"
    ∷ codes "floor"
    ∷ codes "log10"
    ∷ codes "round"
    ∷ codes "trunc"
    ∷ []

abbrev pub names_of_four : List Str
names_of_four =
    codes "acos"
    ∷ codes "asin"
    ∷ codes "atan"
    ∷ codes "cbrt"
    ∷ codes "ceil"
    ∷ codes "cosh"
    ∷ codes "rand"
    ∷ codes "sinh"
    ∷ codes "sqrt"
    ∷ codes "tanh"
    ∷ []

abbrev pub names_of_three : List Str
names_of_three =
    codes "abs"
    ∷ codes "cos"
    ∷ codes "deg"
    ∷ codes "exp"
    ∷ codes "fac"
    ∷ codes "log"
    ∷ codes "max"
    ∷ codes "min"
    ∷ codes "rad"
    ∷ codes "sin"
    ∷ codes "tan"
    ∷ []

module _ (eq : Str → Str → Bool) where
  abbrev pub is_any : Str → List Str → Bool
  is_any s [] = false
  is_any s (n ∷ ns) = eq s n || is_any s ns

  -- The length of the name of a function at the start of the text, or 0. A call at a position is a
  -- call on the text from there.
  unfoldable pub is_function : Str → ℕ
  is_function str =
      let func = take 5 str in
      if is_any (take 5 func) names_of_five
      then 5
      else if is_any (take 4 func) names_of_four
      then 4
      else if is_any (take 3 func) names_of_three
      then 3
      else 0

  -- 1 or 2, or -2 for two or more.
  unfoldable pub function_argument_count : Str → ℤ
  function_argument_count str =
      if eq (take 3 str) (codes "max") || eq (take 3 str) (codes "min")
      then ℤ.negsuc 1
      else if eq str (codes "atan2") || eq str (codes "rand")
      then ℤ.pos 2
      else ℤ.pos 1

  unfoldable pub is_constant : Str → ℕ
  is_constant str =
      let constant = take 2 str in
      if eq (take 2 constant) (codes "pi")
      then 2
      else if eq (take 1 constant) (codes "e")
      then 1
      else 0

  -- The switch of would_pop on the first character of the operator that is added.
  abbrev pops_by_char : ℕ → Str → ℤ
  pops_by_char c topstack =
      if c == b'd'
      then ℤ.pos 0
      else if c == b'^'
      then (if eq topstack (codes "d") then ℤ.pos 1 else ℤ.pos 0)
      else if is_muldiv c
      then (if topstack =? codes "^" || eq topstack (codes "d") || is_muldiv (first topstack)
          then ℤ.pos 1
          else ℤ.pos 0)
      else if is_plusmin c
      then (if is_op_noparen (first topstack) then ℤ.pos 1 else ℤ.pos 0)
      else ℤ.negsuc 0

  unfoldable pub would_pop : Str → Str → ℤ
  would_pop adding topstack =
      let at_end = is_empty topstack || topstack =? codes "(" in
      if is_empty adding
      then (if at_end then ℤ.pos 0 else ℤ.pos 1)
      else if not (is_function adding == 0)
      then ℤ.pos 0
      else if at_end
      then ℤ.pos 0
      else if not (is_function topstack == 0)
      then ℤ.pos 1
      else if topstack =? adding && not (adding =? codes "^")
      then ℤ.pos 1
      else pops_by_char (first adding) topstack

  -- `while (would_pop(...))`: every int but 0 is true, -1 included.
  unfoldable pub does_pop : Str → Str → Bool
  unfolding would_pop
  does_pop adding topstack = elim (would_pop adding topstack) [
    | ℤ.pos n ↦ not (n == 0)
    | ℤ.negsuc n ↦ true
  ]
