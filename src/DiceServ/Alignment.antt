-- ===== src/DiceServ/Alignment.antt =====
-- FixInfix: how many positions there are for how many characters.
use anope_mods_contrib.Base.{
  ℕ, zero, suc, ◌+◌, ◌≤◌, ◌≡◌, ◌∙◌, refl, ap, Bool, true, false, not, ◌&&◌, ◌||◌, Option, none,
  some, List, [], ◌∷◌, ◌++◌, Str, codes, length, length-append, take, map, ◌==◌, if-keeps,
  if-keeps_given, arith,
}
use anope_mods_contrib.Base.Order.{text_order, ◌=?◌}
use anope_mods_contrib.Anope.{Anope, IsTextual, ascii_upper}
use anope_mods_contrib.DiceServ.Types.{Infix}
use anope_mods_contrib.DiceServ.Chars.{
  is_any, is_function, is_constant, names_of_five, names_of_four, names_of_three, first, to_lower,
}
use anope_mods_contrib.DiceServ.Fix.{
  Round, upward, star, star_place, after_number, fix_function, fix_constant, fix_dice, fix_open,
  fix_close, fix_minus, fix_char, fix_round, fix_from, some_all, fix_infix,
}

length-take_le : (n : ℕ) (s : Str) → length (take n s) ≤ length s
length-take_le zero s = omega arith
length-take_le (suc n) [] = omega arith
length-take_le (suc n) (c ∷ s) = omega (arith, length-take_le n s)

length-take : (n : ℕ) (s : Str) → n ≤ length s → length (take n s) ≡ n
length-take zero s h = refl
length-take (suc n) [] h = absurd (omega arith)
length-take (suc n) (c ∷ s) h = omega (arith, length-take n s (omega (arith, h)))

length-upward : (x n : ℕ) → length (upward x n) ≡ n
length-upward x zero = refl
length-upward x (suc n) = omega (arith, length-upward (suc x) n)

length-upper : (s t : Str) → (map ascii_upper s =? map ascii_upper t) ≡ true → length s ≡ length t
length-upper [] [] h = refl
length-upper [] (d ∷ t) h = absurd (ground (arith, h))
length-upper (c ∷ s) [] h = absurd (ground (arith, h))
length-upper (c ∷ s) (d ∷ t) h = ground (arith, h, length-upper s t)

abbrev have_length : ℕ → List Str → Bool
have_length k [] = true
have_length k (n ∷ ns) = length n == k && have_length k ns

module _ ⦃lib : Anope⦄ (text : IsTextual lib) where
  is_any-length :
      (k : ℕ) (s : Str) (ns : List Str)
      → have_length k ns ≡ true
      → is_any lib.equals_ci s ns ≡ true
      → length s ≡ k
  is_any-length k s [] a h = absurd (ground (arith, h))
  is_any-length k s (n ∷ ns) a h =
      ground (arith, h, a, text.equals_ascii s n, length-upper s n, is_any-length k s ns)

  -- The name of a function is not longer than the text.
  pub is_function-le : (s : Str) → is_function lib.equals_ci s ≤ length s
  unfolding is_function
  is_function-le s =
      if-keeps_given Fits (is_any lib.equals_ci (take 5 (take 5 s)) names_of_five) _ _
        (λ e. fits 5 (is_any-length 5 (take 5 (take 5 s)) names_of_five refl e))
        (λ e.
          if-keeps_given Fits (is_any lib.equals_ci (take 4 (take 5 s)) names_of_four) _ _
            (λ f. fits 4 (is_any-length 4 (take 4 (take 5 s)) names_of_four refl f))
            (λ f.
              if-keeps_given Fits (is_any lib.equals_ci (take 3 (take 5 s)) names_of_three) _ _
                (λ g. fits 3 (is_any-length 3 (take 3 (take 5 s)) names_of_three refl g))
                (λ g. omega arith)))
    where
      Fits : ℕ → Type 0
      Fits n = n ≤ length s

      fits : (k : ℕ) → length (take k (take 5 s)) ≡ k → k ≤ length s
      fits k h = omega (arith, h, length-take_le k (take 5 s), length-take_le 5 s)

  is_constant-le : (s : Str) → is_constant lib.equals_ci s ≤ length s
  unfolding is_constant
  is_constant-le s =
      if-keeps_given Fits (lib.equals_ci (take 2 (take 2 s)) (codes "pi")) _ _
        (λ e.
          fits 2 (is_any-length 2 (take 2 (take 2 s)) (codes "pi" ∷ []) refl (ground (arith, e))))
        (λ e.
          if-keeps_given Fits (lib.equals_ci (take 1 (take 2 s)) (codes "e")) _ _
            (λ f.
              fits 1
                (is_any-length 1 (take 1 (take 2 s)) (codes "e" ∷ []) refl (ground (arith, f))))
            (λ f. omega arith))
    where
      Fits : ℕ → Type 0
      Fits n = n ≤ length s

      fits : (k : ℕ) → length (take k (take 2 s)) ≡ k → k ≤ length s
      fits k h = omega (arith, h, length-take_le k (take 2 s), length-take_le 2 s)

abbrev pub has_percent : Str → Bool
has_percent [] = false
has_percent (c ∷ s) = c == b'%' || has_percent s

-- As many positions as characters, and no more characters taken than there are.
abbrev IsAligned : Str → Round → Type 0
IsAligned rest r = (length r.places ≡ length r.piece) × (r.skip ≤ length rest)

length-star : (b : Bool) (x : ℕ) → length (star_place b x) ≡ length (star b)
length-star true x = refl
length-star false x = refl

length-star_cons :
    (b : Bool) (x c : ℕ) → length (star_place b x ++ x ∷ []) ≡ length (star b ++ c ∷ [])
length-star_cons true x c = refl
length-star_cons false x c = refl

length-starred :
    (b t : Bool) (x n : ℕ) (s : Str)
    → n ≤ length s
    → length (star_place b x ++ (upward x n ++ star_place t (x + n)))
      ≡ length (star b ++ (take n s ++ star t))
length-starred b t x n s h = omega (
  arith,
  length-append (star_place b x) (upward x n ++ star_place t (x + n)),
  length-append (upward x n) (star_place t (x + n)),
  length-append (star b) (take n s ++ star t),
  length-append (take n s) (star t),
  length-star b x,
  length-star t (x + n),
  length-take n s h,
  length-upward x n,
)

module _ (eq : Str → Str → Bool) where
  fix_function-IsAligned :
      (func : ℕ) (prev : Option ℕ) (x : ℕ) (was : Bool) (c : ℕ) (rest : Str)
      → func ≤ length (c ∷ rest)
      → IsAligned rest (fix_function eq func prev x was (c ∷ rest))
  unfolding fix_function
  fix_function-IsAligned func prev x was c rest h =
      let b = after_number prev in
      (
        omega (
          arith,
          length-append (star b) (take func (c ∷ rest)),
          length-append (star_place b x) (upward x func),
          length-star b x,
          length-take func (c ∷ rest) h,
          length-upward x func,
        ),
        omega (arith, h),
      )

  fix_constant-IsAligned :
      (len : ℕ) (prev : Option ℕ) (x : ℕ) (was : Bool) (c : ℕ) (rest : Str)
      → len ≤ length (c ∷ rest)
      → IsAligned rest (fix_constant eq len prev x was (c ∷ rest))
  unfolding fix_constant
  fix_constant-IsAligned len prev x was c rest h =
      (length-starred (after_number prev) _ x len (c ∷ rest) h, omega (arith, h))

  fix_dice-IsAligned :
      (prev : Option ℕ) (x : ℕ) (was_const : Bool) (rest : Str)
      → (first rest == b'%') ≡ false
      → IsAligned rest (fix_dice eq prev x was_const rest)
  unfolding fix_dice
  fix_dice-IsAligned prev x was_const rest h = ground (arith, h)

  fix_minus-IsAligned :
      (prev : Option ℕ) (x : ℕ) (rest : Str) → IsAligned rest (fix_minus eq prev x rest)
  unfolding fix_minus
  fix_minus-IsAligned prev x rest = ground arith

  fix_open-IsAligned :
      (prev : Option ℕ) (x : ℕ) (was_func was_const : Bool) (rest : Str)
      → IsAligned rest (fix_open eq prev x was_func was_const)
  unfolding fix_open
  fix_open-IsAligned prev x was_func was_const rest = (length-star_cons _ x b'(', omega arith)

  fix_close-IsAligned : (x : ℕ) (rest : Str) → IsAligned rest (fix_close eq x rest)
  unfolding fix_close
  fix_close-IsAligned x rest = (ap suc (length-star _ x), omega arith)

  fix_char-IsAligned :
      (prev : Option ℕ) (x : ℕ) (was_func was_const : Bool) (curr : ℕ) (rest : Str)
      → (first rest == b'%') ≡ false
      → IsAligned rest (fix_char eq prev x was_func was_const curr rest)
  unfolding fix_char
  fix_char-IsAligned prev x was_func was_const curr rest h =
      if-keeps (IsAligned rest) (curr == b'd') _ _ (fix_dice-IsAligned prev x was_const rest h) (
        if-keeps (IsAligned rest) (curr == b'(') _ _
          (fix_open-IsAligned prev x was_func was_const rest)
          (if-keeps (IsAligned rest) (curr == b')') _ _ (fix_close-IsAligned x rest) (
            if-keeps (IsAligned rest) (curr == b'-') _ _ (fix_minus-IsAligned prev x rest)
              (refl, omega arith))))

module _ ⦃lib : Anope⦄ (text : IsTextual lib) where
  fix_round-IsAligned :
      (prev : Option ℕ) (x : ℕ) (was_func was_const : Bool) (c : ℕ) (rest : Str)
      → (first rest == b'%') ≡ false
      → IsAligned rest (fix_round lib.equals_ci prev x was_func was_const c rest)
  unfolding fix_round
  fix_round-IsAligned prev x was_func was_const c rest h =
      let eq = lib.equals_ci in
      if-keeps (IsAligned rest) (not (is_function eq (c ∷ rest) == 0)) _ _
        (fix_function-IsAligned eq (is_function eq (c ∷ rest)) prev x was_const c rest
          (is_function-le text (c ∷ rest)))
        (if-keeps (IsAligned rest) (not (is_constant eq (c ∷ rest) == 0)) _ _
          (fix_constant-IsAligned eq (is_constant eq (c ∷ rest)) prev x was_func c rest
            (is_constant-le text (c ∷ rest)))
          (fix_char-IsAligned eq prev x was_func was_const (to_lower c) rest h))

  fix_from-length :
      (skip : ℕ) (prev : Option ℕ) (x : ℕ) (was_func was_const : Bool) (s : Str)
      → has_percent s ≡ false
      → skip ≤ length s
      → length (fix_from lib.equals_ci skip prev x was_func was_const s).1
        ≡ length (fix_from lib.equals_ci skip prev x was_func was_const s).0 + 1
  unfolding fix_from
  fix_from-length skip prev x was_func was_const [] h k = omega arith
  fix_from-length (suc skip) prev x was_func was_const (c ∷ s) h k =
      fix_from-length skip (some c) (suc x) was_func was_const s (ground (arith, h))
        (omega (arith, k))
  fix_from-length zero prev x was_func was_const (c ∷ s) h k =
      let r = fix_round lib.equals_ci prev x was_func was_const c s in
      let (same, fits) =
        fix_round-IsAligned prev x was_func was_const c s (not_first s (ground (arith, h))) in
      let (str, positions) =
        fix_from lib.equals_ci r.skip (some c) (suc x) r.was_func r.was_const s in
      let tail =
        fix_from-length r.skip (some c) (suc x) r.was_func r.was_const s (ground (arith, h)) fits in
      omega (arith, same, tail, length-append r.piece str, length-append r.places positions)
    where
      not_first : (s : Str) → has_percent s ≡ false → (first s == b'%') ≡ false
      not_first [] h = refl
      not_first (c ∷ s) h = ground (arith, h)

  length-some_all : (xs : List ℕ) → length (some_all xs) ≡ length xs
  length-some_all [] = refl
  length-some_all (x ∷ xs) = ap suc (length-some_all xs)

  -- FixInfix gives a position to each character that it writes, and one to the end, where the text
  -- has no `%`.
  pub fix_infix-length :
      (s : Str)
      → has_percent s ≡ false
      → length (fix_infix lib.equals_ci s).positions ≡ length (fix_infix lib.equals_ci s).str + 1
  unfolding fix_infix
  fix_infix-length s h =
      if-keeps_given (λ (i : Infix). length i.positions ≡ length i.str + 1) (s =? codes "%") _ _
        (λ e. absurd (ground (arith, h, e, text_order.key_eq s (codes "%"))))
        (λ e.
          length-some_all (fix_from lib.equals_ci 0 none 0 false false s).1
          ∙ fix_from-length 0 none 0 false false s h (omega arith))
