-- ===== src/Dict.antt =====
-- `std::map`: entries by ascending key.
pub mod Laws
pub mod Entries
use Prim.Native.Nat.Ordering.{lt, eq, gt}
use anope_mods_contrib.Base.{
  ℕ, zero, suc, Bool, Option, none, some, List, [], ◌∷◌, length, if◌then◌else◌,
}
use anope_mods_contrib.Base.Order.{Order}

abbrev pub Dict {ℓ κ} : Type ℓ → Type κ → Type (ℓ ⊔ κ)
Dict K V = List (K × V)

module _ {ℓ κ} {K : Type ℓ} ⦃o : Order K⦄ {V : Type κ} where
  -- `m.find(k)`
  abbrev pub lookup : K → Dict K V → Option V
  lookup k [] = none
  lookup k ((j, v) ∷ m) = let rest = lookup k m in elim (o.cmp k j) [ eq ↦ some v | _ ↦ rest ]

  -- `m[k] = v`
  abbrev pub insert : K → V → Dict K V → Dict K V
  insert k v [] = (k, v) ∷ []
  insert k v ((j, w) ∷ m) =
      let rest = insert k v m in
      elim (o.cmp k j) [ lt ↦ (k, v) ∷ (j, w) ∷ m | eq ↦ (k, v) ∷ m | gt ↦ (j, w) ∷ rest ]

  -- `m.erase(k)`
  abbrev pub erase : K → Dict K V → Dict K V
  erase k [] = []
  erase k ((j, v) ∷ m) = let rest = erase k m in elim (o.cmp k j) [ eq ↦ rest | _ ↦ (j, v) ∷ rest ]

  -- The loops that erase each entry which fails a test of its key and value.
  abbrev pub retain : (K → V → Bool) → Dict K V → Dict K V
  retain p [] = []
  retain p ((k, v) ∷ m) = let rest = retain p m in if p k v then (k, v) ∷ rest else rest

  -- The entries whose value passes a test.
  abbrev pub count_if : (V → Bool) → Dict K V → ℕ
  count_if p [] = zero
  count_if p ((k, v) ∷ m) = let rest = count_if p m in if p v then suc rest else rest

  abbrev pub map_values : (V → V) → Dict K V → Dict K V
  map_values f [] = []
  map_values f ((k, v) ∷ m) = (k, f v) ∷ map_values f m
