-- ===== src/DiceServ/ShuntingYard.antt =====
-- InfixToPostfix as a whole, on the tokens of an expression that is written with as few
-- parentheses as the precedences allow.
use anope_mods_contrib.Base.{
  ℕ, ◌≤◌, ◌≡◌, ◌∙◌, inl, inr, refl, sym, ap, subst, if-keeps_given, true, List, [], ◌∷◌, ◌++◌, Str,
  codes, length, All, leb, append_assoc, arith,
}
use anope_mods_contrib.Anope.{Anope, IsTextual}
use anope_mods_contrib.DiceServ.Types.{Attempt, then_do, Place, Infix}
use anope_mods_contrib.DiceServ.Platform.{Platform}
use anope_mods_contrib.DiceServ.Postfix.{
  PostfixValue, read_tokens, finish_yard, empty_yard, infix_to_postfix,
}
use anope_mods_contrib.DiceServ.Stacks.{functions_on, IsCovered}
use anope_mods_contrib.DiceServ.Expr.{
  BinOp, symbol, prec, left_level, right_level, Expr, tokens_onto, tokens, rpn, IsUnary,
  IsWellFormed,
}
use anope_mods_contrib.DiceServ.Pending.{
  All-map, write, write-append, pop_counted-pending, IsPending, IsPending-end,
}
use anope_mods_contrib.DiceServ.Grouping.{
  StopsAll, ReadsOn, Readable, next, read_step, blocks_symbol, read_group,
}
use anope_mods_contrib.DiceServ.Conversion.{
  Reading, Reads, read_token-number, read_token-call, read_token-symbol, push_operator-Reads,
}

All-append {ℓ κ} :
    {A : Type ℓ} (P : A → Type κ) (xs : List A) (x : A) → All P xs → P x → All P (xs ++ x ∷ [])
All-append P [] x h k = (k, tt)
All-append P (y ∷ xs) x h k = (h.0, All-append P xs x h.1 k)

stack_join :
    (waiting ops below : List Str) (s : Str)
    → below ≡ s ∷ ops
    → waiting ++ below ≡ (waiting ++ s ∷ []) ++ ops
stack_join waiting ops below s e =
    ap (λ b. waiting ++ b) e ∙ sym (append_assoc waiting (s ∷ []) ops)

output_join :
    {T : Type 0} (start left right middle last : List (PostfixValue T)) (waiting : List Str)
    (s : Str)
    → middle ≡ start ++ left
    → write last waiting ≡ middle ++ right
    → write last (waiting ++ s ∷ []) ≡ start ++ (left ++ (right ++ PostfixValue.text s ∷ []))
output_join start left right middle last waiting s m w =
    write-append last waiting (s ∷ []) ∙ simp (w, m, append_assoc)

module _ ⦃lib : Anope⦄ ⦃p : Platform⦄ (text : IsTextual lib) (positions : List Place) where
  read_binary :
      (o : BinOp) (a b : Expr) (l : ℕ) (rest : List Str) (x : ℕ) (y : Reading)
      → Readable text positions a
      → Readable text positions b
      → l ≤ prec o
      → StopsAll text positions l y.op_stack
      → IsCovered lib.equals_ci y
      → ReadsOn text positions l
          (rpn (Expr.binary o a b))
          (tokens_onto (left_level o) a (symbol o ∷ tokens_onto (right_level o) b rest))
          rest
          x
          y
  unfolding rpn
  read_binary o a b l rest x y ra rb h blocks c =
      let after = tokens_onto (right_level o) b rest in
      let (y1, x1, r1, e1) =
        ra (left_level o) (symbol o ∷ after) x y (λ s k. blocks s (ground (arith, h, k))) c in
      let (y2, e2, s2, w2, c2) =
        push_operator-Reads text o y.op_stack (y.postfix ++ rpn a) y1 r1 (blocks o h) in
      let e2' =
        read_step text positions (symbol o) after x1 y1 y2
          (read_token-symbol text o _ y1 r1.ready ∙ e2) in
      let (y3, x3, r3, e3) =
        rb (right_level o) rest (next text positions x1 (symbol o)) y2
          (subst (StopsAll text positions (right_level o)) (sym s2)
            (blocks_symbol text positions o y.op_stack))
          c2 in
      (
        y3,
        x3,
        record {
          waiting = r3.waiting ++ symbol o ∷ [];
          pending =
              All-append (IsPending l) r3.waiting (symbol o)
                (All-map r3.waiting (weaken o l h) r3.pending) (inl (o, refl, h));
          on_stack = r3.on_stack ∙ stack_join r3.waiting y.op_stack y2.op_stack (symbol o) s2;
          written =
              output_join y.postfix (rpn a) (rpn b) y2.postfix y3.postfix r3.waiting (symbol o) w2
                r3.written;
          covered = r3.covered;
          ready = r3.ready;
        },
        e1 ∙ (e2' ∙ e3),
      )
    where
      weaken :
          (o : BinOp) (l : ℕ) → l ≤ prec o → (s : Str) → IsPending (right_level o) s → IsPending l s
      weaken o l h s (inl (k, e, g)) = inl (k, e, ground (arith, h, g))
      weaken o l h s (inr u) = inr u

  read_call :
      (f : Str) (a : Expr) (l : ℕ) (rest : List Str) (x : ℕ) (y : Reading)
      → Readable text positions a
      → IsUnary f
      → IsCovered lib.equals_ci y
      → ReadsOn text positions l
          (rpn (Expr.call f a))
          (f ∷ codes "(" ∷ tokens_onto 1 a (codes ")" ∷ rest))
          rest
          x
          y
  unfolding rpn
  read_call f a l rest x y ra u c =
      let named : Reading = record y {
        op_stack = f ∷ y.op_stack;
        arity_stack = 1 ∷ y.arity_stack;
      } in
      let inside = tokens_onto 1 a (codes ")" ∷ rest) in
      let e0 =
        read_step text positions f (codes "(" ∷ inside) x y named (read_token-call f _ y u) in
      let (y1, x1, e1, s1, w1, c1, k1) =
        read_group text positions 1 (rpn a) inside rest (next text positions x f) named
          (λ x' y' b c'. ra 1 (codes ")" ∷ rest) x' y' b c') (grind (arith, c)) in
      (
        y1,
        x1,
        record {
          waiting = f ∷ [];
          pending = (inr u, tt);
          on_stack = s1;
          written = call_join y.postfix (rpn a) y1.postfix f w1;
          covered = c1;
          ready = ground (arith, k1);
        },
        e0 ∙ e1,
      )
    where
      call_join :
          {T : Type 0} (start left last : List (PostfixValue T)) (s : Str)
          → last ≡ start ++ left
          → last ++ PostfixValue.text s ∷ [] ≡ start ++ (left ++ PostfixValue.text s ∷ [])
      call_join start left last s e = simp (e, append_assoc)

  read_nested :
      (o : BinOp) (a b : Expr) (l : ℕ) (rest : List Str) (x : ℕ) (y : Reading)
      → Readable text positions a
      → Readable text positions b
      → IsCovered lib.equals_ci y
      → ReadsOn text positions l
          (rpn (Expr.binary o a b))
          (codes "("
            ∷ tokens_onto
                (left_level o)
                a
                (symbol o ∷ tokens_onto (right_level o) b (codes ")" ∷ rest)))
          rest
          x
          y
  read_nested o a b l rest x y ra rb c =
      let inside =
        tokens_onto (left_level o) a
          (symbol o ∷ tokens_onto (right_level o) b (codes ")" ∷ rest)) in
      let (y1, x1, e1, s1, w1, c1, k1) =
        read_group text positions (prec o) (rpn (Expr.binary o a b)) inside rest x y
          (λ x' y'. read_binary o a b (prec o) (codes ")" ∷ rest) x' y' ra rb (omega arith)) c in
      (
        y1,
        x1,
        record {
          waiting = [];
          pending = tt;
          on_stack = s1;
          written = w1;
          covered = c1;
          ready = ground (arith, k1);
        },
        e1,
      )

  read_expr : (t : Expr) → IsWellFormed t → Readable text positions t
  unfolding tokens_onto rpn
  read_expr (Expr.number s) w l rest x y blocks c = (
    record y {
      postfix = y.postfix ++ PostfixValue.number (p.convert_double s) ∷ [];
      prev_was_number = true;
    },
    next text positions x s,
    record {
      waiting = [];
      pending = tt;
      on_stack = refl;
      written = refl;
      covered = c;
      ready = refl;
    },
    read_step text positions s rest x y _ (read_token-number s _ y w),
  )
  read_expr (Expr.call f a) w l rest x y blocks c = read_call f a l rest x y (read_expr a w.1) w.0 c
  read_expr (Expr.binary o a b) w l rest x y blocks c =
      if-keeps_given (λ toks. ReadsOn text positions l (rpn (Expr.binary o a b)) toks rest x y)
        (leb l (prec o)) _ _
        (λ e.
          read_binary o a b l rest x y (read_expr a w.0) (read_expr b w.1) (ground (arith, e))
            blocks c)
        (λ e. read_nested o a b l rest x y (read_expr a w.0) (read_expr b w.1) c)

module _ ⦃lib : Anope⦄ ⦃p : Platform⦄ where
  finish_yard-Reads :
      (i : Infix) (l : ℕ) (output : List (PostfixValue p.Double)) (y : Reading)
      → IsTextual lib
      → Reads l [] output y
      → finish_yard i y ≡ Attempt.done output
  unfolding finish_yard
  finish_yard-Reads i l output y text r =
      let (left, e, n) =
        pop_counted-pending lib.equals_ci [] r.waiting [] y.arity_stack y.postfix
          (All-map r.waiting (IsPending-end text l) r.pending) tt
          (subst (λ s. functions_on lib.equals_ci s ≤ length y.arity_stack) r.on_stack r.covered) in
      simp (r.on_stack, e, r.written)

  read_tokens-nil :
      (i : Infix) (x : ℕ) (y : Reading)
      → then_do (read_tokens i.positions [] x y) (finish_yard i) ≡ finish_yard i y
  unfolding read_tokens
  read_tokens-nil i x y = refl

  -- InfixToPostfix turns the tokens of an expression into its postfix form: operands before their
  -- operator, with dice binding closest, then powers to the right, then products and sums to the
  -- left, and calls of functions of one argument. The numbers are finite, and the text is one that
  -- falls into the tokens of the expression.
  pub infix_to_postfix-rpn :
      (t : Expr) (i : Infix)
      → IsTextual lib
      → IsWellFormed t
      → lib.get_tokens i.str b' ' ≡ tokens t
      → infix_to_postfix i ≡ Attempt.done (rpn t)
  unfolding infix_to_postfix tokens
  infix_to_postfix-rpn t i text w h =
      let (y, x, r, e) =
        read_expr text i.positions t w 1 [] 0 empty_yard (λ a k. tt) (omega arith) in
      ap (λ toks. then_do (read_tokens i.positions toks 0 empty_yard) (finish_yard i)) h
      ∙ (ap (λ r. then_do r (finish_yard i)) e
          ∙ read_tokens-nil i x y
          ∙ finish_yard-Reads i 1 (rpn t) y text r)
