-- ===== src/DiceServ/Tokens.antt =====
-- TokenizeInfix: a space between tokens.
use anope_mods_contrib.Base.{
  ℕ, zero, suc, ◌+◌, ◌-◌, Bool, false, not, ◌&&◌, ◌||◌, Option, none, some, List, [], ◌∷◌, ◌++◌,
  Str, ◌==◌, if◌then◌else◌, take,
}
use anope_mods_contrib.GroupServ.Text.{is_empty}
use anope_mods_contrib.DiceServ.Types.{Place, Infix, position_at}
use anope_mods_contrib.DiceServ.Chars.{is_operator, is_function, is_constant}

abbrev space_if : Bool → Str
space_if b = if b then b' ' ∷ [] else []

abbrev place_if : Bool → Place → List Place
place_if b p = if b then p ∷ [] else []

-- The places of `n` characters from `x` on.
abbrev places_from : List Place → ℕ → ℕ → List Place
places_from positions x zero = []
places_from positions x (suc n) = position_at positions x ∷ places_from positions (suc x) n

-- The last character of the text that is written so far.
abbrev last_char : Option ℕ → Str → Option ℕ
last_char o [] = o
last_char o (c ∷ s) = last_char (some c) s

-- `x && !newinfix.empty() && newinfix[newinfix.length() - 1] != ' '`
abbrev wants_space : ℕ → Option ℕ → Bool
wants_space x none = false
wants_space x (some l) = not (x == 0) && not (l == b' ')

abbrev is_underscore : Option ℕ → Bool
is_underscore none = false
is_underscore (some l) = l == b'_'

module _ (eq : Str → Str → Bool) where
  -- What one round adds, for the character `c` in front of `rest`: text, places, and how many more
  -- characters it takes.
  unfoldable pub token_round : List Place → Option ℕ → ℕ → ℕ → Str → Str × List Place × ℕ
  unfolding is_function is_constant
  token_round positions last x c rest =
      let func = is_function eq (c ∷ rest) in
      let constant = is_constant eq (c ∷ rest) in
      let here = position_at positions x in
      let before = wants_space x last in
      let before_const = before && not (is_underscore last) in
      let after = not (is_empty rest) in
      if not (func == 0)
      then (
        space_if before ++ (take func (c ∷ rest) ++ space_if after),
        place_if before here
            ++ (places_from positions x func ++ place_if after (position_at positions (x + func))),
        func - 1,
      )
      else if not (constant == 0)
      then (
        space_if before_const ++ (take constant (c ∷ rest) ++ space_if after),
        place_if before_const here
            ++ (places_from positions x constant
                ++ place_if after (position_at positions (x + constant))),
        constant - 1,
      )
      else if c == b',' || is_operator c
      then (
        space_if before ++ c ∷ space_if after,
        place_if before here ++ here ∷ place_if after here,
        0,
      )
      else (c ∷ [], here ∷ [], 0)

  unfoldable pub tokenize_from : List Place → ℕ → Option ℕ → ℕ → Str → Str × List Place
  unfolding token_round
  tokenize_from positions skip last x [] = ([], [])
  tokenize_from positions (suc skip) last x (c ∷ rest) =
      tokenize_from positions skip last (suc x) rest
  tokenize_from positions zero last x (c ∷ rest) =
      let (piece, places, skip) = token_round positions last x c rest in
      let (str, more) = tokenize_from positions skip (last_char last piece) (suc x) rest in
      (piece ++ str, places ++ more)

  unfoldable pub tokenize_infix : Infix → Infix
  unfolding tokenize_from
  tokenize_infix i =
      let (str, positions) = tokenize_from i.positions 0 none 0 i.str in
      record { str = str; positions = positions }
