-- ===== src/DiceServ/Fix.antt =====
-- FixInfix: a `1` in front of a bare `d`, `100` for a `%` behind a `d`, `*` for implicit products,
-- and `_` for the minus of a number; each character with its position in the user's text.
use anope_mods_contrib.Base.{
  ℕ, zero, suc, ◌+◌, ◌-◌, Bool, true, false, not, ◌&&◌, ◌||◌, Option, none, some, List, [], ◌∷◌,
  ◌++◌, Str, codes, ◌==◌, if◌then◌else◌, take, drop,
}
use anope_mods_contrib.Base.Order.{text_order, ◌=?◌}
use anope_mods_contrib.GroupServ.Text.{is_empty}
use anope_mods_contrib.DiceServ.Types.{Infix, Place}
use anope_mods_contrib.DiceServ.Chars.{
  is_number, is_op_noparen, to_lower, first, is_function, is_constant,
}

-- What one round of the loop adds to `newinfix` and to `positions`, how many more characters it
-- takes, and `prev_was_func` and `prev_was_const` after it.
pub record Round : Type 0 where
  pub piece : Str
  pub places : List ℕ
  pub skip : ℕ
  pub was_func : Bool
  pub was_const : Bool

-- The positions of `n` characters from `x` on.
abbrev pub upward : ℕ → ℕ → List ℕ
upward x zero = []
upward x (suc n) = x ∷ upward (suc x) n

-- `x && is_number(infix[x - 1])`; the character before is `none` at 0.
abbrev pub after_number : Option ℕ → Bool
after_number none = false
after_number (some p) = is_number p

abbrev no_flags : Str → List ℕ → ℕ → Round
no_flags piece places skip = record {
  piece = piece;
  places = places;
  skip = skip;
  was_func = false;
  was_const = false;
}

-- A star, where one is put in.
abbrev pub star : Bool → Str
star b = if b then b'*' ∷ [] else []

abbrev pub star_place : Bool → ℕ → List ℕ
star_place b x = if b then x ∷ [] else []

abbrev pub some_all : List ℕ → List Place
some_all [] = []
some_all (x ∷ xs) = some x ∷ some_all xs

module _ (eq : Str → Str → Bool) where
  -- A function's name of `func` characters.
  unfoldable pub fix_function : ℕ → Option ℕ → ℕ → Bool → Str → Round
  fix_function func prev x was_const s = record {
    piece = star (after_number prev) ++ take func s;
    places = star_place (after_number prev) x ++ upward x func;
    skip = func - 1;
    was_func = true;
    was_const = was_const;
  }

  -- A constant's name of `len` characters.
  unfoldable pub fix_constant : ℕ → Option ℕ → ℕ → Bool → Str → Round
  unfolding is_constant is_function
  fix_constant len prev x was_func s =
      let rest = drop len s in
      let times =
        not (is_empty rest)
        && (is_number (first rest)
            || not (is_constant eq rest == 0)
            || not (is_function eq rest == 0)) in
      record {
        piece = star (after_number prev) ++ (take len s ++ star times);
        places = star_place (after_number prev) x ++ (upward x len ++ star_place times (x + len));
        skip = len - 1;
        was_func = was_func;
        was_const = true;
      }

  -- A `d`, behind `prev` and in front of `rest`.
  unfoldable pub fix_dice : Option ℕ → ℕ → Bool → Str → Round
  fix_dice prev x was_const rest =
      let bare : Bool = elim prev [
        | none ↦ true
        | some p ↦ not (is_number p) && not (p == b')') && not was_const
      ] in
      let head = if bare then codes "1d" else codes "d" in
      let places = if bare then x ∷ x ∷ [] else x ∷ [] in
      if first rest == b'%'
      then no_flags (head ++ codes "100") (places ++ suc x ∷ suc x ∷ []) 1
      else no_flags head places 0

  unfoldable pub fix_open : Option ℕ → ℕ → Bool → Bool → Round
  fix_open prev x was_func was_const =
      let times : Bool = elim prev [
        | none ↦ false
        | some p ↦ not was_func && (is_number p || was_const)
      ] in
      no_flags (star times ++ codes "(") (star_place times x ++ x ∷ []) 0

  unfoldable pub fix_close : ℕ → Str → Round
  unfolding is_constant
  fix_close x rest =
      let times =
        not (is_empty rest)
        && (is_number (first rest) || first rest == b'(' || not (is_constant eq rest == 0)) in
      no_flags (codes ")" ++ star times) (x ∷ star_place times x) 0

  -- A `-`, of a number where it begins the text or follows an operator, `(` or a comma.
  unfoldable pub fix_minus : Option ℕ → ℕ → Str → Round
  unfolding is_constant is_function
  fix_minus prev x rest =
      let may_sign : Bool = elim prev [
        | none ↦ true
        | some p ↦ is_op_noparen (to_lower p) || p == b'(' || p == b','
      ] in
      let signs = not (is_empty rest) && may_sign in
      if not signs
      then no_flags (codes "-") (x ∷ []) 0
      else if first rest == b'(' || not (is_function eq rest == 0)
      then no_flags (codes "0-") (x ∷ x ∷ []) 0
      else if is_number (first rest) || not (is_constant eq rest == 0)
      then no_flags (codes "_") (x ∷ []) 0
      else no_flags (codes "-") (x ∷ []) 0

  unfoldable pub fix_char : Option ℕ → ℕ → Bool → Bool → ℕ → Str → Round
  unfolding fix_dice fix_open fix_close fix_minus
  fix_char prev x was_func was_const curr rest =
      if curr == b'd'
      then fix_dice prev x was_const rest
      else if curr == b'('
      then fix_open prev x was_func was_const
      else if curr == b')'
      then fix_close x rest
      else if curr == b'-'
      then fix_minus prev x rest
      else no_flags (curr ∷ []) (x ∷ []) 0

  -- The body of the loop at the character `c`.
  unfoldable pub fix_round : Option ℕ → ℕ → Bool → Bool → ℕ → Str → Round
  unfolding is_function is_constant fix_function fix_constant fix_char
  fix_round prev x was_func was_const c rest =
      let func = is_function eq (c ∷ rest) in
      let constant = is_constant eq (c ∷ rest) in
      if not (func == 0)
      then fix_function func prev x was_const (c ∷ rest)
      else if not (constant == 0)
      then fix_constant constant prev x was_func (c ∷ rest)
      else fix_char prev x was_func was_const (to_lower c) rest

  -- The loop, with the number of characters that are taken already.
  unfoldable pub fix_from : ℕ → Option ℕ → ℕ → Bool → Bool → Str → Str × List ℕ
  unfolding fix_round
  fix_from skip prev x was_func was_const [] = ([], x ∷ [])
  fix_from (suc skip) prev x was_func was_const (c ∷ rest) =
      fix_from skip (some c) (suc x) was_func was_const rest
  fix_from zero prev x was_func was_const (c ∷ rest) =
      let r = fix_round prev x was_func was_const c rest in
      let (str, positions) = fix_from r.skip (some c) (suc x) r.was_func r.was_const rest in
      (r.piece ++ str, r.places ++ positions)

  unfoldable pub fix_infix : Str → Infix
  unfolding fix_from
  fix_infix infix_text =
      let (str, positions) = fix_from 0 none 0 false false infix_text in
      if infix_text =? codes "%"
      then record { str = codes "1d100"; positions = some_all (0 ∷ 0 ∷ 0 ∷ 0 ∷ 0 ∷ []) }
      else record { str = str; positions = some_all positions }
