-- ===== src/Base/Lists.antt =====
-- Lists measured and indexed by native numbers, under the library's names.
use Prim.Native.Nat.{ℕ, zero, suc, ◌+◌, ◌-◌, ◌≤◌, ◌<◌}
use mathlib.Core.Path.{◌≡◌, refl}
use mathlib.Core.Bool.{Bool, true, false}
use mathlib.Core.List.{List, [], ◌∷◌, ◌++◌}
use mathlib.Core.Option.{Option, none, some}
use native.Mathlib.Omega.{arith}
use anope_mods_contrib.Base.Tests.{if◌then◌else◌}

module _ {ℓ} {A : Type ℓ} where
  abbrev pub length : List A → ℕ
  length [] = 0
  length (x ∷ xs) = suc (length xs)

  abbrev pub is_nil : List A → Bool
  is_nil [] = true
  is_nil (x ∷ xs) = false

  abbrev pub get_elem? : List A → ℕ → Option A
  get_elem? [] i = none
  get_elem? (x ∷ xs) zero = some x
  get_elem? (x ∷ xs) (suc i) = get_elem? xs i

  abbrev pub drop : ℕ → List A → List A
  drop zero xs = xs
  drop (suc n) [] = []
  drop (suc n) (x ∷ xs) = drop n xs

  abbrev pub take : ℕ → List A → List A
  take zero xs = []
  take (suc n) [] = []
  take (suc n) (x ∷ xs) = x ∷ take n xs

  -- `v.erase(v.begin() + i)`
  abbrev pub erase_at : ℕ → List A → List A
  erase_at i [] = []
  erase_at zero (x ∷ xs) = xs
  erase_at (suc i) (x ∷ xs) = x ∷ erase_at i xs

  abbrev pub keep_if : (A → Bool) → List A → List A
  keep_if p [] = []
  keep_if p (x ∷ xs) = let rest = keep_if p xs in if p x then x ∷ rest else rest

  abbrev pub All {κ} : (A → Type κ) → List A → Type κ
  All P [] = Unit
  All P (x ∷ xs) = P x × All P xs

  pub length-append : (xs ys : List A) → length (xs ++ ys) ≡ length xs + length ys
  length-append [] ys = omega arith
  length-append (x ∷ xs) ys = omega (arith, length-append xs ys)

  pub length-drop : (n : ℕ) (xs : List A) → length (drop n xs) ≡ length xs - n
  length-drop zero xs = omega arith
  length-drop (suc n) [] = omega arith
  length-drop (suc n) (x ∷ xs) = omega (arith, length-drop n xs)

  pub length-erase_at :
      (i : ℕ) (xs : List A) → i < length xs → length (erase_at i xs) + 1 ≡ length xs
  length-erase_at i [] h = elim h [ ]
  length-erase_at zero (x ∷ xs) h = omega arith
  length-erase_at (suc i) (x ∷ xs) h = omega (arith, length-erase_at i xs)

  -- The entries before the erased one stay, and those behind it move up.
  pub get_elem?-erase_at_lt :
      (i j : ℕ) (xs : List A) → j < i → get_elem? (erase_at i xs) j ≡ get_elem? xs j
  get_elem?-erase_at_lt i j [] h = refl
  get_elem?-erase_at_lt zero j (x ∷ xs) h = absurd (omega arith)
  get_elem?-erase_at_lt (suc i) zero (x ∷ xs) h = refl
  get_elem?-erase_at_lt (suc i) (suc j) (x ∷ xs) h = get_elem?-erase_at_lt i j xs (omega arith)

  pub get_elem?-erase_at_le :
      (i j : ℕ) (xs : List A) → i ≤ j → get_elem? (erase_at i xs) j ≡ get_elem? xs (suc j)
  get_elem?-erase_at_le i j [] h = refl
  get_elem?-erase_at_le zero j (x ∷ xs) h = refl
  get_elem?-erase_at_le (suc i) zero (x ∷ xs) h = absurd (omega arith)
  get_elem?-erase_at_le (suc i) (suc j) (x ∷ xs) h = get_elem?-erase_at_le i j xs (omega arith)
