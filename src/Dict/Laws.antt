-- ===== src/Dict/Laws.antt =====
-- The operations of the maps under lookup and under the order of the keys.
use Prim.Native.Nat.Ordering.{lt}
use anope_mods_contrib.Base.{
  ℕ, suc, ◌+◌, ◌≤◌, ◌≡◌, refl, Bool, Option, none, some, [], ◌∷◌, arith, if◌then◌else◌, length,
}
use anope_mods_contrib.Base.Order.{Order, ◌=?◌}
use anope_mods_contrib.Dict.{Dict, lookup, insert, erase, retain, count_if, map_values}

-- One where the looked up value passes the test, else zero.
abbrev pub hit {κ} : {V : Type κ} → (V → Bool) → Option V → ℕ
hit p none = 0
hit p (some v) = if p v then 1 else 0

module _ {ℓ κ} {K : Type ℓ} ⦃o : Order K⦄ {V : Type κ} where
  pub lookup-insert :
      (j k : K) (v : V) (m : Dict K V)
      → lookup j (insert k v m) ≡ (if j =? k then some v else lookup j m)
  lookup-insert j k v [] = ground arith
  lookup-insert j k v ((i, w) ∷ m) = ground (
    arith,
    lookup-insert j k v m,
    o.key_eq k i,
    o.key_eq j i,
    o.key_eq j k,
    o.same_key i,
    o.same_key j,
  )

  pub lookup-erase :
      (j k : K) (m : Dict K V) → lookup j (erase k m) ≡ (if j =? k then none else lookup j m)
  lookup-erase j k [] = ground arith
  lookup-erase j k ((i, w) ∷ m) = ground (
    arith,
    lookup-erase j k m,
    o.key_eq k i,
    o.key_eq j i,
    o.key_eq j k,
    o.same_key i,
    o.same_key j,
  )

  -- Every key of the map lies above the bound.
  abbrev pub Above : K → Dict K V → Type 0
  Above k [] = Unit
  Above k ((j, v) ∷ m) = (o.cmp k j ≡ lt) × Above k m

  abbrev pub IsSorted : Dict K V → Type 0
  IsSorted [] = Unit
  IsSorted ((k, v) ∷ m) = Above k m × IsSorted m

  Above-chain : (a b : K) (m : Dict K V) → o.cmp a b ≡ lt → Above b m → Above a m
  Above-chain a b [] h s = tt
  Above-chain a b ((j, w) ∷ m) h s = (o.chain a b j h s.0, Above-chain a b m h s.1)

  insert-Above :
      (a k : K) (v : V) (m : Dict K V) → o.cmp a k ≡ lt → Above a m → Above a (insert k v m)
  insert-Above a k v [] h s = (h, tt)
  insert-Above a k v ((j, w) ∷ m) h s = ground (arith, insert-Above a k v m h s.1)

  pub insert-IsSorted : (k : K) (v : V) (m : Dict K V) → IsSorted m → IsSorted (insert k v m)
  insert-IsSorted k v [] s = (tt, tt)
  insert-IsSorted k v ((j, w) ∷ m) s = ground (
    arith,
    insert-IsSorted k v m s.1,
    insert-Above j k v m,
    o.flip_gt k j,
    Above-chain k j m,
    o.key_eq k j,
  )

  erase-Above : (a k : K) (m : Dict K V) → Above a m → Above a (erase k m)
  erase-Above a k [] s = tt
  erase-Above a k ((j, w) ∷ m) s = ground (arith, erase-Above a k m s.1)

  pub erase-IsSorted : (k : K) (m : Dict K V) → IsSorted m → IsSorted (erase k m)
  erase-IsSorted k [] s = tt
  erase-IsSorted k ((j, w) ∷ m) s = ground (arith, erase-IsSorted k m s.1, erase-Above j k m s.0)

  retain-Above : (a : K) (p : K → V → Bool) (m : Dict K V) → Above a m → Above a (retain p m)
  retain-Above a p [] s = tt
  retain-Above a p ((j, w) ∷ m) s = ground (arith, retain-Above a p m s.1)

  pub retain-IsSorted : (p : K → V → Bool) (m : Dict K V) → IsSorted m → IsSorted (retain p m)
  retain-IsSorted p [] s = tt
  retain-IsSorted p ((j, w) ∷ m) s = ground (arith, retain-IsSorted p m s.1, retain-Above j p m s.0)

  map_values-Above : (a : K) (f : V → V) (m : Dict K V) → Above a m → Above a (map_values f m)
  map_values-Above a f [] s = tt
  map_values-Above a f ((j, w) ∷ m) s = (s.0, map_values-Above a f m s.1)

  pub map_values-IsSorted : (f : V → V) (m : Dict K V) → IsSorted m → IsSorted (map_values f m)
  map_values-IsSorted f [] s = tt
  map_values-IsSorted f ((j, w) ∷ m) s = (map_values-Above j f m s.0, map_values-IsSorted f m s.1)

  pub lookup-Above : (k : K) (m : Dict K V) → Above k m → lookup k m ≡ none
  lookup-Above k [] s = refl
  lookup-Above k ((j, w) ∷ m) s = ground (arith, lookup-Above k m s.1)

  erase-Above_id : (k : K) (m : Dict K V) → Above k m → erase k m ≡ m
  erase-Above_id k [] s = refl
  erase-Above_id k ((j, w) ∷ m) s = ground (arith, erase-Above_id k m s.1)

  -- What a loop over the map keeps is what passes its test.
  pub lookup-retain :
      (p : K → V → Bool) (k : K) (m : Dict K V)
      → IsSorted m
      → lookup k (retain p m)
        ≡ elim (lookup k m) [ none ↦ none | some v ↦ if p k v then some v else none ]
  lookup-retain p k [] s = refl
  lookup-retain p k ((j, w) ∷ m) s =
      ground (arith, lookup-retain p k m s.1, o.key_eq k j, o.same_key j, lookup-Above j m s.0)

  pub lookup-map_values :
      (f : V → V) (k : K) (m : Dict K V)
      → lookup k (map_values f m) ≡ elim (lookup k m) [ none ↦ none | some v ↦ some (f v) ]
  lookup-map_values f k [] = refl
  lookup-map_values f k ((j, w) ∷ m) = ground (arith, lookup-map_values f k m)

  -- A write moves a count by what it replaces and what it writes.
  pub count_if-insert :
      (p : V → Bool) (k : K) (v : V) (m : Dict K V)
      → IsSorted m
      → count_if p (insert k v m) + hit p (lookup k m) ≡ count_if p m + hit p (some v)
  count_if-insert p k v [] s = omega arith
  count_if-insert p k v ((j, w) ∷ m) s =
      ground (arith, count_if-insert p k v m s.1, lookup-Above k m, Above-chain k j m)

  pub count_if-erase :
      (p : V → Bool) (k : K) (m : Dict K V)
      → IsSorted m
      → count_if p (erase k m) + hit p (lookup k m) ≡ count_if p m
  count_if-erase p k [] s = omega arith
  count_if-erase p k ((j, w) ∷ m) s =
      ground (arith, count_if-erase p k m s.1, erase-Above_id k m, o.key_eq k j, lookup-Above k m)

  pub length-insert-le : (k : K) (v : V) (m : Dict K V) → length (insert k v m) ≤ suc (length m)
  length-insert-le k v [] = omega arith
  length-insert-le k v ((j, w) ∷ m) = ground (arith, length-insert-le k v m)

  -- The second of two writes at one key is the one that counts.
  pub insert-insert : (k : K) (v w : V) (m : Dict K V) → insert k v (insert k w m) ≡ insert k v m
  insert-insert k v w [] = ground (arith, o.same_key k)
  insert-insert k v w ((j, u) ∷ m) = ground (arith, o.same_key k, insert-insert k v w m)
