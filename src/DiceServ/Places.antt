-- ===== src/DiceServ/Places.antt =====
-- CheckInfix on what FixInfix gives: the positions that it reads.
use anope_mods_contrib.Base.{
  ℕ, zero, suc, ◌+◌, ◌-◌, ◌≤◌, ◌<◌, ◌≡◌, subst, sym, refl, Bool, true, false, not, Option, none,
  some, List, [], ◌∷◌, Str, codes, length, drop, ◌==◌, if-keeps, arith,
}
use anope_mods_contrib.Base.Order.{text_order, ◌=?◌}
use anope_mods_contrib.Anope.{Anope, IsTextual}
use anope_mods_contrib.GroupServ.Text.{is_empty}
use anope_mods_contrib.DiceServ.Types.{Detail, Attempt, Infix, Place, position_at}
use anope_mods_contrib.DiceServ.Chars.{first, is_function, is_constant}
use anope_mods_contrib.DiceServ.Fix.{fix_infix, fix_from, some_all}
use anope_mods_contrib.DiceServ.Check.{with_position, fault_or, check_char, check_from, check_infix}
use anope_mods_contrib.DiceServ.Alignment.{has_percent, fix_infix-length, is_function-le}

-- Every read was one inside of the positions, and a failure has a position.
abbrev pub HasPlace : Attempt (Unit {0}) → Type 0
HasPlace (Attempt.done u) = Unit
HasPlace (Attempt.failed e) = (q : ℕ) × (e.place ≡ some (some q))
HasPlace Attempt.out_of_bounds = ⊥

-- The positions up to a bound are there.
abbrev AllThere : List Place → ℕ → Type 0
AllThere positions n = (i : ℕ) → i ≤ n → (q : ℕ) × (position_at positions i ≡ some q)

module _ ⦃lib : Anope⦄ where
  with_position-HasPlace :
      (positions : List Place) (n i : ℕ) (next : ℕ → Attempt (Unit {0}))
      → AllThere positions n
      → i ≤ n
      → ((q : ℕ) → HasPlace (next q))
      → HasPlace (with_position (position_at positions i) next)
  with_position-HasPlace positions n i next all h k =
      let (q, e) = all i h in subst (λ a. HasPlace (with_position a next)) (sym e) (k q)

  fault_or-HasPlace :
      (o : Option Detail) (q : ℕ) (next : Attempt (Unit {0}))
      → HasPlace next
      → HasPlace (fault_or o q next)
  fault_or-HasPlace none q next k = k
  fault_or-HasPlace (some detail) q next k = (q, refl)

  check_from-HasPlace :
      (positions : List Place) (n skip : ℕ) (prev : Option ℕ) (x : ℕ) (was_func was_const : Bool)
      (s : Str)
      → IsTextual lib
      → AllThere positions n
      → x + length s ≤ n
      → HasPlace (check_from lib.equals_ci positions skip prev x was_func was_const s)
  unfolding check_from
  check_from-HasPlace positions n skip prev x was_func was_const [] text all h = tt
  check_from-HasPlace positions n (suc skip) prev x was_func was_const (c ∷ rest) text all h =
      check_from-HasPlace positions n skip (some c) (suc x) was_func was_const rest text all
        (omega (arith, h))
  check_from-HasPlace positions n zero prev x was_func was_const (c ∷ rest) text all h =
      let func = is_function lib.equals_ci (c ∷ rest) in
      let constant = is_constant lib.equals_ci (c ∷ rest) in
      with_position-HasPlace positions n x _ all (omega (arith, h)) (λ position.
        if-keeps HasPlace (not (func == 0)) _ _
          (if-keeps HasPlace (first (drop func (c ∷ rest)) == b'(') _ _
            (check_from-HasPlace positions n (func - 1) (some c) (suc x) true was_const rest text
              all (omega (arith, h)))
            (with_position-HasPlace positions n _ _ all
              (if-keeps (λ i. i ≤ n) (is_empty (drop func (c ∷ rest))) (x + length (c ∷ rest))
                (x + func) h (omega (arith, h, is_function-le text (c ∷ rest))))
              (λ q. (q, refl))))
          (if-keeps HasPlace (not (constant == 0)) _ _
            (check_from-HasPlace positions n (constant - 1) (some c) (suc x) was_func true rest text
              all (omega (arith, h)))
            (fault_or-HasPlace (check_char lib.equals_ci prev was_func was_const c rest) position _
              (check_from-HasPlace positions n 0 (some c) (suc x) false false rest text all
                (omega (arith, h))))))

  some_all-AllThere : (xs : List ℕ) (n : ℕ) → n < length (some_all xs) → AllThere (some_all xs) n
  some_all-AllThere [] n h i k = absurd (omega arith)
  some_all-AllThere (x ∷ xs) n h zero k = (x, refl)
  some_all-AllThere (x ∷ xs) n h (suc i) k =
      some_all-AllThere xs (n - 1) (omega (arith, h, k)) i (omega (arith, k))

  fix_infix-AllThere :
      (s : Str) (n : ℕ)
      → n < length (fix_infix lib.equals_ci s).positions
      → AllThere (fix_infix lib.equals_ci s).positions n
  unfolding fix_infix
  fix_infix-AllThere s n h =
      if-keeps (λ (i : Infix). n < length i.positions → AllThere i.positions n) (s =? codes "%") _ _
        (some_all-AllThere (0 ∷ 0 ∷ 0 ∷ 0 ∷ 0 ∷ []) n)
        (some_all-AllThere (fix_from lib.equals_ci 0 none 0 false false s).1 n) h

  -- CheckInfix, on what FixInfix gives for a text without `%`, reads no position outside of the
  -- vector, in no round and for no failure, and a failure that it notes has a position.
  pub check_infix-HasPlace :
      (s : Str)
      → IsTextual lib
      → has_percent s ≡ false
      → HasPlace (check_infix lib.equals_ci (fix_infix lib.equals_ci s))
  unfolding check_infix
  check_infix-HasPlace s text h =
      let i = fix_infix lib.equals_ci s in
      check_from-HasPlace i.positions (length i.str) 0 none 0 false false i.str text
        (fix_infix-AllThere s (length i.str) (omega (arith, fix_infix-length text s h)))
        (omega arith)
