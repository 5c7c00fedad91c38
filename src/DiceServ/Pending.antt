-- ===== src/DiceServ/Pending.antt =====
-- The loops of InfixToPostfix that pop operators, on a stack whose upper part gives way.
use anope_mods_contrib.Base.{
  ℕ, ◌+◌, ◌≤◌, ◌≡◌, ◌∙◌, ◌⊎◌, inl, inr, refl, ap, Bool, true, false, List, [], ◌∷◌, ◌++◌, Str,
  codes, length, All, ◌==◌, if◌then◌else◌, arith,
}
use anope_mods_contrib.Base.Int.{ℤ}
use anope_mods_contrib.Anope.{Anope, IsTextual}
use anope_mods_contrib.DiceServ.Types.{Attempt}
use anope_mods_contrib.DiceServ.Chars.{is_function, function_argument_count, does_pop}
use anope_mods_contrib.DiceServ.Postfix.{PostfixValue, popped_name, pop_plain, pop_counted}
use anope_mods_contrib.DiceServ.Stacks.{functions_on}
use anope_mods_contrib.DiceServ.Expr.{BinOp, symbol, prec, left_level, IsUnary}
use anope_mods_contrib.DiceServ.Precedence.{
  is_function-nil, is_function-symbol, does_pop-nil, does_pop-symbol, does_pop-close, does_pop-end,
  does_pop-function_symbol, does_pop-function_close, does_pop-function_end,
}

pub All-map {ℓ κ μ} :
    {A : Type ℓ} {P : A → Type κ} {Q : A → Type μ} (xs : List A)
    → ((x : A) → P x → Q x)
    → All P xs
    → All Q xs
All-map [] f h = tt
All-map (x ∷ xs) f h = (f x h.0, All-map xs f h.1)

-- The operators of a stack, from its top, at the end of the output.
abbrev pub write : {T : Type 0} → List (PostfixValue T) → List Str → List (PostfixValue T)
write postfix [] = postfix
write postfix (x ∷ xs) = write (postfix ++ PostfixValue.text x ∷ []) xs

pub write-append :
    {T : Type 0} (postfix : List (PostfixValue T)) (xs ys : List Str)
    → write postfix (xs ++ ys) ≡ write (write postfix xs) ys
write-append postfix [] ys = refl
write-append postfix (x ∷ xs) ys = write-append (postfix ++ PostfixValue.text x ∷ []) xs ys

module _ (eq : Str → Str → Bool) where
  -- The loop for `token` ends at this stack.
  abbrev pub Stops : Str → List Str → Type 0
  Stops token [] = Unit
  Stops token (o ∷ ops) = does_pop eq token o ≡ false

  -- What gives way to `token` and is written without a number of arguments.
  abbrev pub GivesWay : Str → Str → Type 0
  GivesWay token x =
      (does_pop eq token x ≡ true)
      × ((is_function eq x ≡ 0) ⊎ (function_argument_count eq x ≡ ℤ.pos 1))

  pub functions_on-append : (xs ys : List Str) → functions_on eq ys ≤ functions_on eq (xs ++ ys)
  functions_on-append [] ys = omega arith
  functions_on-append (x ∷ xs) ys = omega (arith, functions_on-append xs ys)

  popped_name-plain :
      (x : Str) (arities : List ℕ) (n : ℕ)
      → (is_function eq x ≡ 0) ⊎ (function_argument_count eq x ≡ ℤ.pos 1)
      → (if is_function eq x == 0 then 0 else 1) + n ≤ length arities
      → (left : List ℕ) × (popped_name eq x arities ≡ Attempt.done (x, left)) × (n ≤ length left)
  unfolding popped_name
  popped_name-plain x [] n e h = ([], ground (arith, h), omega (arith, h))
  popped_name-plain x (a ∷ arities) n e h = (
    if is_function eq x == 0 then a ∷ arities else arities,
    ground (arith, e, h),
    ground (arith, h),
  )

module _ {T : Type 0} (eq : Str → Str → Bool) where
  pub pop_plain-pending :
      (token : Str) (xs ops : List Str) (postfix : List (PostfixValue T))
      → All (GivesWay eq token) xs
      → Stops eq token ops
      → pop_plain eq token (xs ++ ops) postfix ≡ Attempt.done (ops, write postfix xs)
  unfolding pop_plain
  pop_plain-pending token [] [] postfix h s = simp (does_pop-nil eq token)
  pop_plain-pending token [] (o ∷ ops) postfix h s = ground (arith, s)
  pop_plain-pending token (x ∷ xs) ops postfix h s =
      ground
        (arith, h.0.0, pop_plain-pending token xs ops (postfix ++ PostfixValue.text x ∷ []) h.1 s)

  pub pop_counted-pending :
      (token : Str) (xs ops : List Str) (arities : List ℕ) (postfix : List (PostfixValue T))
      → All (GivesWay eq token) xs
      → Stops eq token ops
      → functions_on eq (xs ++ ops) ≤ length arities
      → (left : List ℕ) × (pop_counted eq token (xs ++ ops) arities postfix
          ≡ Attempt.done (ops, left, write postfix xs))
        × (functions_on eq ops ≤ length left)
  unfolding pop_counted
  pop_counted-pending token [] [] arities postfix h s c = (arities, simp (does_pop-nil eq token), c)
  pop_counted-pending token [] (o ∷ ops) arities postfix h s c = (arities, ground (arith, s), c)
  pop_counted-pending token (x ∷ xs) ops arities postfix h s c =
      let (left, e, n) = popped_name-plain eq x arities (functions_on eq (xs ++ ops)) h.0.1 c in
      let (left', e', n') =
        pop_counted-pending token xs ops left (postfix ++ PostfixValue.text x ∷ []) h.1 s n in
      (left', simp (h.0.0, e, e'), n')

module _ ⦃lib : Anope⦄ where
  -- On the stack: a symbol that binds as close as a level asks, or a function.
  abbrev pub IsPending : ℕ → Str → Type 0
  IsPending l x = ((o : BinOp) × (x ≡ symbol o) × (l ≤ prec o)) ⊎ IsUnary x

  module _ (text : IsTextual lib) where
    plain :
        (l : ℕ) (x : Str)
        → IsPending l x
        → (is_function lib.equals_ci x ≡ 0) ⊎ (function_argument_count lib.equals_ci x ≡ ℤ.pos 1)
    plain l x (inl (o, e, h)) = inl (ap (is_function lib.equals_ci) e ∙ is_function-symbol o text)
    plain l x (inr u) = inr u.1

    pub IsPending-symbol :
        (a : BinOp) (l : ℕ) (x : Str)
        → left_level a ≤ l
        → IsPending l x
        → GivesWay lib.equals_ci (symbol a) x
    IsPending-symbol a l x h (inl (o, e, k)) = (
      ap (does_pop lib.equals_ci (symbol a)) e ∙ (does_pop-symbol a o text ∙ ground (arith, h, k)),
      plain l x (inl (o, e, k)),
    )
    IsPending-symbol a l x h (inr u) =
        (does_pop-function_symbol x u.0 text (is_function-nil text) a, inr u.1)

    pub IsPending-close : (l : ℕ) (x : Str) → IsPending l x → GivesWay lib.equals_ci (codes ")") x
    IsPending-close l x (inl (o, e, k)) = (
      ap (does_pop lib.equals_ci (codes ")")) e ∙ does_pop-close o text,
      plain l x (inl (o, e, k)),
    )
    IsPending-close l x (inr u) =
        (does_pop-function_close x u.0 text (is_function-nil text), inr u.1)

    pub IsPending-end : (l : ℕ) (x : Str) → IsPending l x → GivesWay lib.equals_ci [] x
    IsPending-end l x (inl (o, e, k)) =
        (ap (does_pop lib.equals_ci []) e ∙ does_pop-end o, plain l x (inl (o, e, k)))
    IsPending-end l x (inr u) = (does_pop-function_end x u.0 text (is_function-nil text), inr u.1)
