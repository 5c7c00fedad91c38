-- ===== src/DiceServ/Grouping.antt =====
-- InfixToPostfix on a token, and on an expression in parentheses.
use anope_mods_contrib.Base.{
  ℕ, ◌+◌, ◌≤◌, ◌≡◌, ◌∙◌, ap, true, false, List, ◌∷◌, ◌++◌, Str, codes, length, ◌==◌, if◌then◌else◌,
  arith,
}
use anope_mods_contrib.Anope.{Anope, IsTextual}
use anope_mods_contrib.DiceServ.Types.{Attempt, then_do, Place, position_at}
use anope_mods_contrib.DiceServ.Platform.{Platform}
use anope_mods_contrib.DiceServ.Postfix.{PostfixValue, read_token, read_tokens}
use anope_mods_contrib.DiceServ.Stacks.{IsCovered}
use anope_mods_contrib.DiceServ.Expr.{BinOp, symbol, prec, right_level, Expr, tokens_onto, rpn}
use anope_mods_contrib.DiceServ.Precedence.{is_function-open, does_pop-symbol, does_pop-open}
use anope_mods_contrib.DiceServ.Pending.{Stops}
use anope_mods_contrib.DiceServ.Conversion.{
  Reading, Reads, read_token-open, read_token-close, close_group-Reads,
}

module _ ⦃lib : Anope⦄ ⦃p : Platform⦄ (text : IsTextual lib) (positions : List Place) where
  -- No operator that binds as close as a level asks pops anything of the stack.
  abbrev pub StopsAll : ℕ → List Str → Type 0
  StopsAll l ops = (a : BinOp) → l ≤ prec a → Stops lib.equals_ci (symbol a) ops

  -- The tokens in front of others are read, and the state holds an expression of a level.
  abbrev pub ReadsOn : ℕ → List (PostfixValue p.Double) → List Str → List Str → ℕ → Reading → Type 0
  ReadsOn l output toks rest x y =
      (y' : Reading) × (x' : ℕ) × Reads l y.op_stack (y.postfix ++ output) y'
      × (read_tokens positions toks x y ≡ read_tokens positions rest x' y')

  -- An expression is read wherever the stack does not come in its way.
  abbrev pub Readable : Expr → Type 0
  Readable t =
      (l : ℕ) (rest : List Str) (x : ℕ) (y : Reading)
      → StopsAll l y.op_stack
      → IsCovered lib.equals_ci y
      → ReadsOn l (rpn t) (tokens_onto l t rest) rest x y

  abbrev pub next : ℕ → Str → ℕ
  next x token = x + length token + (if x == 0 then 0 else 1)

  pub read_step :
      (token : Str) (toks : List Str) (x : ℕ) (y y' : Reading)
      → read_token token (position_at positions x) y ≡ Attempt.done y'
      → read_tokens positions (token ∷ toks) x y ≡ read_tokens positions toks (next x token) y'
  unfolding read_tokens
  read_step token toks x y y' e = ap (λ r. then_do r (read_tokens positions toks (next x token))) e

  pub blocks_symbol : (o : BinOp) (ops : List Str) → StopsAll (right_level o) (symbol o ∷ ops)
  blocks_symbol o ops a h = does_pop-symbol a o text ∙ ground (arith, h)

  -- An expression in parentheses, on the stack as it was.
  pub read_group :
      (l : ℕ) (output : List (PostfixValue p.Double)) (inside rest : List Str) (x : ℕ) (y : Reading)
      → ((x' : ℕ) (y' : Reading)
          → StopsAll l y'.op_stack
          → IsCovered lib.equals_ci y'
          → ReadsOn l output inside (codes ")" ∷ rest) x' y')
      → IsCovered lib.equals_ci y
      → (y' : Reading) × (x' : ℕ) × (read_tokens positions (codes "(" ∷ inside) x y
          ≡ read_tokens positions rest x' y')
        × (y'.op_stack ≡ y.op_stack)
        × (y'.postfix ≡ y.postfix ++ output)
        × IsCovered lib.equals_ci y'
        × (y'.prev_was_close ≡ true)
  read_group l output inside rest x y read c =
      let opened : Reading = record y {
        op_stack = codes "(" ∷ y.op_stack;
        prev_was_close = false;
        prev_was_number = false;
      } in
      let e0 = read_step (codes "(") inside x y opened (read_token-open text _ y) in
      let (y1, x1, r1, e1) =
        read (next x (codes "(")) opened (λ a h. does_pop-open a text)
          (grind (arith, c, is_function-open text)) in
      let (y2, e2, s2, w2, c2, k2) =
        close_group-Reads text (position_at positions x1) l y.op_stack (y.postfix ++ output) y1
          r1 in
      let e2' = read_step (codes ")") rest x1 y1 y2 (read_token-close text _ y1 ∙ e2) in
      (y2, next x1 (codes ")"), e0 ∙ (e1 ∙ e2'), s2, w2, c2, k2)
