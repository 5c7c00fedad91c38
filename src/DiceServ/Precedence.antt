-- ===== src/DiceServ/Precedence.antt =====
-- would_pop: which operators give way to which.
use anope_mods_contrib.Base.{
  ◌≡◌, ◌≢◌, ◌∙◌, refl, Bool, true, false, [], Str, codes, leb, map, arith,
}
use anope_mods_contrib.Base.Order.{text_order, ◌=?◌}
use anope_mods_contrib.Anope.{Anope, IsTextual, ascii_upper}
use anope_mods_contrib.GroupServ.Text.{is_empty}
use anope_mods_contrib.DiceServ.Chars.{is_function, is_constant, would_pop, does_pop}
use anope_mods_contrib.DiceServ.Expr.{BinOp, symbol, prec, left_level}

abbrev equals_upper : Str → Str → Bool
equals_upper s t = map ascii_upper s =? map ascii_upper t

-- No operator pops an empty stack.
pub does_pop-nil : (eq : Str → Str → Bool) (adding : Str) → does_pop eq adding [] ≡ false
unfolding does_pop would_pop
does_pop-nil eq adding = ground arith

module _ ⦃lib : Anope⦄ where
  is_function-ascii :
      (s : Str) → IsTextual lib → is_function lib.equals_ci s ≡ is_function equals_upper s
  unfolding is_function
  is_function-ascii s text = simp text.equals_ascii

  is_constant-ascii :
      (s : Str) → IsTextual lib → is_constant lib.equals_ci s ≡ is_constant equals_upper s
  unfolding is_constant
  is_constant-ascii s text = simp text.equals_ascii

  ascii_symbol : (o : BinOp) → is_function equals_upper (symbol o) ≡ 0
  unfolding is_function
  ascii_symbol BinOp.plus = refl
  ascii_symbol BinOp.minus = refl
  ascii_symbol BinOp.times = refl
  ascii_symbol BinOp.over = refl
  ascii_symbol BinOp.modulo = refl
  ascii_symbol BinOp.power = refl
  ascii_symbol BinOp.dice = refl

  ascii_symbol_constant : (o : BinOp) → is_constant equals_upper (symbol o) ≡ 0
  unfolding is_constant
  ascii_symbol_constant BinOp.plus = refl
  ascii_symbol_constant BinOp.minus = refl
  ascii_symbol_constant BinOp.times = refl
  ascii_symbol_constant BinOp.over = refl
  ascii_symbol_constant BinOp.modulo = refl
  ascii_symbol_constant BinOp.power = refl
  ascii_symbol_constant BinOp.dice = refl

  -- A symbol is the name of no function and of no constant.
  pub is_function-symbol : (o : BinOp) → IsTextual lib → is_function lib.equals_ci (symbol o) ≡ 0
  is_function-symbol o text = is_function-ascii (symbol o) text ∙ ascii_symbol o

  pub is_constant-symbol : (o : BinOp) → IsTextual lib → is_constant lib.equals_ci (symbol o) ≡ 0
  is_constant-symbol o text = is_constant-ascii (symbol o) text ∙ ascii_symbol_constant o

  -- Nor is the empty text, or a parenthesis.
  pub is_function-nil : IsTextual lib → is_function lib.equals_ci [] ≡ 0
  unfolding is_function
  is_function-nil text = is_function-ascii [] text

  pub is_function-open : IsTextual lib → is_function lib.equals_ci (codes "(") ≡ 0
  unfolding is_function
  is_function-open text = is_function-ascii (codes "(") text

  pub is_function-close : IsTextual lib → is_function lib.equals_ci (codes ")") ≡ 0
  unfolding is_function
  is_function-close text = is_function-ascii (codes ")") text

  pub is_constant-open : IsTextual lib → is_constant lib.equals_ci (codes "(") ≡ 0
  unfolding is_constant
  is_constant-open text = is_constant-ascii (codes "(") text

  pub is_constant-close : IsTextual lib → is_constant lib.equals_ci (codes ")") ≡ 0
  unfolding is_constant
  is_constant-close text = is_constant-ascii (codes ")") text

  -- A symbol `b` on the stack gives way to `a` where it binds as close as a left operand of `a`.
  pub does_pop-symbol :
      (a b : BinOp)
      → IsTextual lib
      → does_pop lib.equals_ci (symbol a) (symbol b) ≡ leb (left_level a) (prec b)
  unfolding does_pop would_pop
  does_pop-symbol a b text = ground (
    arith,
    is_function-symbol a text,
    is_function-symbol b text,
    text.equals_ascii (symbol b) (codes "d"),
  )

  -- An open parenthesis gives way to no symbol and to no closing parenthesis.
  pub does_pop-open :
      (a : BinOp) → IsTextual lib → does_pop lib.equals_ci (symbol a) (codes "(") ≡ false
  unfolding does_pop would_pop
  does_pop-open a text = ground (arith, is_function-symbol a text)

  pub does_pop-close_open : IsTextual lib → does_pop lib.equals_ci (codes ")") (codes "(") ≡ false
  unfolding does_pop would_pop
  does_pop-close_open text = ground (arith, is_function-close text)

  -- Any symbol gives way to a closing parenthesis, and at the end.
  pub does_pop-close :
      (b : BinOp) → IsTextual lib → does_pop lib.equals_ci (codes ")") (symbol b) ≡ true
  unfolding does_pop would_pop
  does_pop-close b text = ground (arith, is_function-close text, is_function-symbol b text)

  pub does_pop-end : (b : BinOp) → does_pop lib.equals_ci [] (symbol b) ≡ true
  unfolding does_pop would_pop
  does_pop-end b = ground arith

  -- A function gives way to a symbol, to a closing parenthesis and at the end.
  module _ (f : Str) (call : is_function lib.equals_ci f ≢ 0) (text : IsTextual lib)
      (empty : is_function lib.equals_ci [] ≡ 0) where
    not_open : ((f =? codes "(") ≡ false) × (is_empty f ≡ false)
    not_open = ground (arith, is_function-open text, empty, text_order.key_eq f (codes "("))

    pub does_pop-function_symbol : (a : BinOp) → does_pop lib.equals_ci (symbol a) f ≡ true
    unfolding does_pop would_pop
    does_pop-function_symbol a = ground (arith, is_function-symbol a text, not_open.0, not_open.1)

    pub does_pop-function_close : does_pop lib.equals_ci (codes ")") f ≡ true
    unfolding does_pop would_pop
    does_pop-function_close = ground (arith, is_function-close text, not_open.0, not_open.1)

    pub does_pop-function_end : does_pop lib.equals_ci [] f ≡ true
    unfolding does_pop would_pop
    does_pop-function_end = ground (arith, not_open.0, not_open.1)
