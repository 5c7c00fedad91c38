-- ===== src/Dict/Entries.antt =====
-- A property of every entry of a map.
use Prim.Native.Nat.{Ordering}
use Prim.Native.Nat.Ordering.{lt, eq, gt}
use anope_mods_contrib.Base.{◌≡◌, refl, sym, subst, Bool, some, [], ◌∷◌, arith}
use anope_mods_contrib.Base.Order.{Order}
use anope_mods_contrib.Dict.{Dict, lookup, insert, erase, retain}

module _ {ℓ κ μ} {K : Type ℓ} ⦃o : Order K⦄ {V : Type κ} (P : K → V → Type μ) where
  abbrev pub Each : Dict K V → Type μ
  Each [] = Unit
  Each ((k, v) ∷ m) = P k v × Each m

  -- A value that is found has the property, at the key that was looked for.
  pub lookup-Each : (k : K) (v : V) (m : Dict K V) → Each m → lookup k m ≡ some v → P k v
  lookup-Each k v [] h e = cc
  lookup-Each k v ((j, w) ∷ m) h e = at_head (lookup-Each k v m h.1) (o.cmp k j) refl e
    where
      at_head :
          (lookup k m ≡ some v → P k v)
          → (c : Ordering) → o.cmp k j ≡ c
          → elim c [ eq ↦ some w | _ ↦ lookup k m ] ≡ some v
          → P k v
      at_head rest lt d f = rest f
      at_head rest gt d f = rest f
      at_head rest eq d f =
          let found : w ≡ v = cc in
          subst (P k) found (subst (λ i. P i w) (sym (o.key_eq k j d)) h.0)

  pub insert-Each : (k : K) (v : V) (m : Dict K V) → P k v → Each m → Each (insert k v m)
  insert-Each k v [] p h = (p, tt)
  insert-Each k v ((j, w) ∷ m) p h = ground (arith, insert-Each k v m p h.1)

  pub erase-Each : (k : K) (m : Dict K V) → Each m → Each (erase k m)
  erase-Each k [] h = tt
  erase-Each k ((j, w) ∷ m) h = ground (arith, erase-Each k m h.1)

  pub retain-Each : (p : K → V → Bool) (m : Dict K V) → Each m → Each (retain p m)
  retain-Each p [] h = tt
  retain-Each p ((j, w) ∷ m) h = ground (arith, retain-Each p m h.1)
