-- ===== src/DiceServ/Expr.antt =====
-- Expressions as trees, how they are written with as few parentheses as the precedences allow, and
-- their postfix form: what InfixToPostfix is measured by.
use anope_mods_contrib.Base.{
  ℕ, ◌+◌, ◌≡◌, ◌≢◌, Bool, true, false, List, [], ◌∷◌, ◌++◌, Str, codes, leb, ◌==◌, if◌then◌else◌,
}
use anope_mods_contrib.Base.Int.{ℤ}
use anope_mods_contrib.Anope.{Anope}
use anope_mods_contrib.DiceServ.Chars.{
  is_number, is_number_str, first, is_function, function_argument_count,
}
use anope_mods_contrib.DiceServ.Platform.{Platform}
use anope_mods_contrib.DiceServ.Postfix.{PostfixValue}

pub data BinOp : Type 0 where
  plus minus times over modulo power dice : BinOp

abbrev pub symbol : BinOp → Str
symbol BinOp.plus = codes "+"
symbol BinOp.minus = codes "-"
symbol BinOp.times = codes "*"
symbol BinOp.over = codes "/"
symbol BinOp.modulo = codes "%"
symbol BinOp.power = codes "^"
symbol BinOp.dice = codes "d"

-- Dice bind closest, then powers, then products, then sums.
abbrev pub prec : BinOp → ℕ
prec BinOp.plus = 1
prec BinOp.minus = 1
prec BinOp.times = 2
prec BinOp.over = 2
prec BinOp.modulo = 2
prec BinOp.power = 3
prec BinOp.dice = 4

abbrev is_right_assoc : BinOp → Bool
is_right_assoc BinOp.power = true
is_right_assoc _ = false

-- How close an operand has to bind to stand without parentheses.
abbrev pub left_level : BinOp → ℕ
left_level o = if is_right_assoc o then prec o + 1 else prec o

abbrev pub right_level : BinOp → ℕ
right_level o = if is_right_assoc o then prec o else prec o + 1

-- A number as it is written, an operation, or a call of a function of one argument.
pub data Expr : Type 0 where
  number : Str → Expr
  binary : BinOp → Expr → Expr → Expr
  call : Str → Expr → Expr

-- The tokens of an expression in a place of a level, in front of others.
unfoldable pub tokens_onto : ℕ → Expr → List Str → List Str
tokens_onto l (Expr.number s) rest = s ∷ rest
tokens_onto l (Expr.binary o a b) rest =
    let bare = tokens_onto (left_level o) a (symbol o ∷ tokens_onto (right_level o) b rest) in
    let inside =
      tokens_onto (left_level o) a (symbol o ∷ tokens_onto (right_level o) b (codes ")" ∷ rest)) in
    if leb l (prec o) then bare else codes "(" ∷ inside
tokens_onto l (Expr.call f a) rest = f ∷ codes "(" ∷ tokens_onto 1 a (codes ")" ∷ rest)

unfoldable pub tokens : Expr → List Str
unfolding tokens_onto
tokens t = tokens_onto 1 t []

module _ ⦃lib : Anope⦄ where
  -- The name of a function with one argument.
  abbrev pub IsUnary : Str → Type 0
  IsUnary f =
      (is_function lib.equals_ci f ≢ 0)
      × (function_argument_count lib.equals_ci f ≡ ℤ.pos 1)
      × (is_number (first f) ≡ false)
      × ((first f == b'_') ≡ false)

module _ ⦃p : Platform⦄ where
  -- Operands first, then the operator.
  unfoldable pub rpn : Expr → List (PostfixValue p.Double)
  rpn (Expr.number s) = PostfixValue.number (p.convert_double s) ∷ []
  rpn (Expr.binary o a b) = rpn a ++ (rpn b ++ PostfixValue.text (symbol o) ∷ [])
  rpn (Expr.call f a) = rpn a ++ PostfixValue.text f ∷ []

  -- A number with a value that is finite.
  abbrev pub IsNumber : Str → Type 0
  IsNumber s =
      (is_number (first s) ≡ true)
      × (is_number_str s ≡ true)
      × (p.is_infinite (p.convert_double s) ≡ false)
      × (p.is_nan (p.convert_double s) ≡ false)

module _ ⦃lib : Anope⦄ ⦃p : Platform⦄ where
  abbrev pub IsWellFormed : Expr → Type 0
  IsWellFormed (Expr.number s) = IsNumber s
  IsWellFormed (Expr.binary o a b) = IsWellFormed a × IsWellFormed b
  IsWellFormed (Expr.call f a) = IsUnary f × IsWellFormed a
