-- ===== src/Base/Order.antt =====
-- The key order of `std::map`: numbers by value, text by its bytes.
use Prim.Native.Nat.{ℕ, compare, Ordering}
use Prim.Native.Nat.Ordering.{lt, eq, gt}
use mathlib.Core.Path.{◌≡◌, refl}
use mathlib.Core.Bool.{Bool, true, false}
use mathlib.Core.List.{List, [], ◌∷◌}
use native.Mathlib.Omega.{arith}

-- A strict total order, as `std::less` has to be.
pub record Order {ℓ} (K : Type ℓ) : Type ℓ where
  pub cmp : K → K → Ordering
  pub same_key : (a : K) → cmp a a ≡ eq
  pub key_eq : (a b : K) → cmp a b ≡ eq → a ≡ b
  pub flip_lt : (a b : K) → cmp a b ≡ lt → cmp b a ≡ gt
  pub flip_gt : (a b : K) → cmp a b ≡ gt → cmp b a ≡ lt
  pub chain : (a b c : K) → cmp a b ≡ lt → cmp b c ≡ lt → cmp a c ≡ lt

abbrev pub text_cmp : List ℕ → List ℕ → Ordering
text_cmp [] [] = eq
text_cmp [] (b ∷ bs) = lt
text_cmp (a ∷ as') [] = gt
text_cmp (a ∷ as') (b ∷ bs) =
    let rest = text_cmp as' bs in elim (compare a b) [ lt ↦ lt | gt ↦ gt | eq ↦ rest ]

pub text_same : (s : List ℕ) → text_cmp s s ≡ eq
text_same [] = refl
text_same (a ∷ s) = ground (arith, text_same s)

pub text_eq : (s t : List ℕ) → text_cmp s t ≡ eq → s ≡ t
text_eq [] [] h = refl
text_eq [] (b ∷ t) h = ground arith
text_eq (a ∷ s) [] h = ground arith
text_eq (a ∷ s) (b ∷ t) h = ground (arith, text_eq s t)

pub text_flip_lt : (s t : List ℕ) → text_cmp s t ≡ lt → text_cmp t s ≡ gt
text_flip_lt [] [] h = ground arith
text_flip_lt [] (b ∷ t) h = refl
text_flip_lt (a ∷ s) [] h = ground arith
text_flip_lt (a ∷ s) (b ∷ t) h = ground (arith, text_flip_lt s t)

pub text_flip_gt : (s t : List ℕ) → text_cmp s t ≡ gt → text_cmp t s ≡ lt
text_flip_gt [] [] h = ground arith
text_flip_gt [] (b ∷ t) h = ground arith
text_flip_gt (a ∷ s) [] h = refl
text_flip_gt (a ∷ s) (b ∷ t) h = ground (arith, text_flip_gt s t)

pub text_chain : (s t u : List ℕ) → text_cmp s t ≡ lt → text_cmp t u ≡ lt → text_cmp s u ≡ lt
text_chain [] t [] h k = ground (arith, text_flip_lt t [])
text_chain [] t (c ∷ u) h k = refl
text_chain (a ∷ s) [] u h k = ground arith
text_chain (a ∷ s) (b ∷ t) [] h k = ground arith
text_chain (a ∷ s) (b ∷ t) (c ∷ u) h k = ground (arith, text_chain s t u)

instance abbrev pub text_order : Order (List ℕ)
text_order = record {
  cmp = text_cmp;
  same_key = text_same;
  key_eq = text_eq;
  flip_lt = text_flip_lt;
  flip_gt = text_flip_gt;
  chain = text_chain;
}

pub nat_flip_lt : (a b : ℕ) → compare a b ≡ lt → compare b a ≡ gt
nat_flip_lt a b h = ground arith

pub nat_chain : (a b c : ℕ) → compare a b ≡ lt → compare b c ≡ lt → compare a c ≡ lt
nat_chain a b c h k = ground arith

pub nat_laws :
    ((a : ℕ) → compare a a ≡ eq)
    × ((a b : ℕ) → compare a b ≡ eq → a ≡ b)
    × ((a b : ℕ) → compare a b ≡ gt → compare b a ≡ lt)
nat_laws = (λ a. ground arith, λ a b h. ground arith, λ a b h. ground arith)

instance abbrev pub nat_order : Order ℕ
nat_order = record {
  cmp = compare;
  same_key = nat_laws.0;
  key_eq = nat_laws.1;
  flip_lt = nat_flip_lt;
  flip_gt = nat_laws.2;
  chain = nat_chain;
}

-- Whether two keys are one.
infix 50 ◌=?◌
abbrev pub ◌=?◌ {ℓ} : {K : Type ℓ} ⦃o : Order K⦄ → K → K → Bool
◌=?◌ ⦃o⦄ a b = elim (o.cmp a b) [ eq ↦ true | _ ↦ false ]
