-- ===== src/GroupServ/Invariant/Base.antt =====
-- The invariant, and the writes that the handlers share under it.
use anope_mods_contrib.Base.{
  ℕ, ◌≤◌, ◌<◌, ◌≡◌, ◌≢◌, refl, Bool, true, not, some, Str, length, arith, if-keeps, ◌==◌, ==_iff,
  all_below, all_below_sound, ◌||◌,
}
use anope_mods_contrib.Base.Order.{text_order}
use anope_mods_contrib.Bits.{bit}
use anope_mods_contrib.Dict.{Dict, lookup, insert, count_if}
use anope_mods_contrib.Dict.Laws.{IsSorted, insert-IsSorted, retain-IsSorted, count_if-insert, hit}
use anope_mods_contrib.Dict.Entries.{Each, lookup-Each, insert-Each}
use anope_mods_contrib.Anope.{Anope, Env}
use anope_mods_contrib.GroupServ.AccessFlag
use anope_mods_contrib.GroupServ.Types.{Core, Config, GroupRecord}
use anope_mods_contrib.GroupServ.Text.{normalize_key}
use anope_mods_contrib.GroupServ.Flags.{has_flag}
use anope_mods_contrib.GroupServ.Flags.Parse.{IsClosed}
use anope_mods_contrib.GroupServ.State.{purge_expired_state, find_group, put_group}
use anope_mods_contrib.GroupServ.Save.{save_db}

-- Flags of the nine kinds, in which founder comes with its powers.
abbrev pub IsFlags : ℕ → Type 0
IsFlags f = (f < 512) × IsClosed f

abbrev pub is_founder : ℕ → Bool
is_founder f = has_flag f AccessFlag.founder

-- An access list: sorted, of proper flags, with a founder.
abbrev pub IsAccess : Dict Str ℕ → Type 0
IsAccess access =
    IsSorted access × Each (λ _ f. IsFlags f) access × (1 ≤ count_if is_founder access)

module _ ⦃lib : Anope⦄ where
  abbrev pub IsGood : Config → Str → GroupRecord → Type 0
  IsGood config key g =
      (normalize_key g.name ≡ key)
      × IsAccess g.access
      × IsFlags g.joinflags
      × (config.maxgroupmemos ≢ 0 → length g.memos ≤ config.maxgroupmemos)

  abbrev pub IsValid : Core → Type 0
  IsValid core =
      IsSorted core.groups
      × Each (IsGood core.config) core.groups
      × IsSorted core.invites
      × IsSorted core.drop_challenges
      × IsFlags core.default_joinflags

  pub save_db-IsValid : (env : Env) (core : Core) → IsValid core → IsValid (save_db env core)
  unfolding save_db
  save_db-IsValid env core v =
      if-keeps IsValid (not core.initialized || env.read_only) _ _ v
        (if-keeps IsValid env.can_open _ _ purged purged)
    where
      purged : IsValid (purge_expired_state env core)
      purged = (v.0, v.1, retain-IsSorted _ _ v.2, retain-IsSorted _ _ v.3, v.4)

  pub put_group-IsValid :
      (core : Core) (name : Str) (g : GroupRecord)
      → IsValid core
      → IsGood core.config (normalize_key name) g
      → IsValid (put_group core name g)
  unfolding put_group
  put_group-IsValid core name g v good = (
    insert-IsSorted (normalize_key name) g core.groups v.0,
    insert-Each (IsGood core.config) (normalize_key name) g core.groups good v.1,
    v.2,
    v.3,
    v.4,
  )

  -- The two together, as the handlers end.
  pub saved_put-IsValid :
      (env : Env) (core : Core) (name : Str) (g : GroupRecord)
      → IsValid core
      → IsGood core.config (normalize_key name) g
      → IsValid (save_db env (put_group core name g))
  saved_put-IsValid env core name g v good =
      save_db-IsValid env _ (put_group-IsValid core name g v good)

  pub find_group-IsGood :
      (core : Core) (name : Str) (g : GroupRecord)
      → IsValid core
      → find_group core name ≡ some g
      → IsGood core.config (normalize_key name) g
  unfolding find_group
  find_group-IsGood core name g v e =
      lookup-Each (IsGood core.config) (normalize_key name) g core.groups v.1 e

-- A new entry of proper flags keeps a list proper.
pub insert-IsAccess :
    (acct : Str) (f : ℕ) (access : Dict Str ℕ)
    → IsFlags f
    → hit is_founder (lookup acct access) ≤ hit is_founder (some f)
    → IsAccess access
    → IsAccess (insert acct f access)
insert-IsAccess acct f access ok founder a = (
  insert-IsSorted acct f access a.0,
  insert-Each (λ _ f. IsFlags f) acct f access ok a.1,
  omega (arith, count_if-insert is_founder acct f access a.0, founder, a.2),
)

-- Every flag but the ban, as a registration grants.
pub IsFlags-all : IsFlags AccessFlag.all
unfolding all_below
IsFlags-all = (omega arith, λ _ k h l. (==_iff _ 1).0 (at_bit k h l))
  where
    table : all_below 8 (λ k. bit AccessFlag.all k == 1) ≡ true
    table = refl

    at_bit : (k : ℕ) → 0 < k → k < 8 → (bit AccessFlag.all k == 1) ≡ true
    at_bit k h l = all_below_sound 8 (λ k. bit AccessFlag.all k == 1) k table l
