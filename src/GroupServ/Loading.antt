-- ===== src/GroupServ/Loading.antt =====
-- LoadDB: what holds of the state after it, whatever stands in the file.
use anope_mods_contrib.Base.{some, none, Option, List, Str, if◌then◌else◌, if-keeps}
use anope_mods_contrib.Base.Order.{text_order}
use anope_mods_contrib.Dict.Laws.{IsSorted, retain-IsSorted}
use anope_mods_contrib.Dict.Entries.{Each}
use anope_mods_contrib.Anope.{Anope, Env}
use anope_mods_contrib.GroupServ.Types.{Core}
use anope_mods_contrib.GroupServ.State.{purge_expired_state}
use anope_mods_contrib.GroupServ.Load.{is_legacy, load_db}
use anope_mods_contrib.GroupServ.Load.Legacy.{Tables, load_legacy}
use anope_mods_contrib.GroupServ.Load.Legacy.Kept.{load_legacy-Kept}
use anope_mods_contrib.GroupServ.Load.Current.{load_current}
use anope_mods_contrib.GroupServ.Load.Current.Kept.{load_current-IsLoaded}
use anope_mods_contrib.GroupServ.Load.Loaded.{IsLoaded, IsLoadedOr}

-- Sorted maps, and for each group proper join flags and no more memos than the limit.
abbrev pub IsLoadedCore : Core → Type 0
IsLoadedCore core =
    IsSorted core.groups
    × Each (λ _ g. IsLoaded core.maxgroupmemos g) core.groups
    × IsSorted core.invites
    × IsSorted core.drop_challenges

purge_expired_state-IsLoadedCore :
    (env : Env) (core : Core) → IsLoadedCore core → IsLoadedCore (purge_expired_state env core)
unfolding purge_expired_state
purge_expired_state-IsLoadedCore env core h =
    (h.0, h.1, retain-IsSorted _ core.invites h.2, retain-IsSorted _ core.drop_challenges h.3)

module _ ⦃lib : Anope⦄ where
  replaced-IsLoadedCore :
      (env : Env) (core : Core) (t : Tables)
      → IsLoadedCore core
      → IsLoadedOr core.maxgroupmemos (some t)
      → IsLoadedCore
          (purge_expired_state env (record core { groups = t.groups; invites = t.invites }))
  replaced-IsLoadedCore env core t h k =
      purge_expired_state-IsLoadedCore env (record core { groups = t.groups; invites = t.invites })
        (k.0, k.1, k.2, h.3)

  -- LoadDB, whatever the file, its format and its numbers are, leaves the maps sorted, and each group
  -- with flags of the nine kinds as join flags, in which founder comes with its powers, and with no
  -- more memos than the limit, where all this holds of the state before.
  pub load_db-IsLoadedCore :
      (env : Env) (core : Core) → IsLoadedCore core → IsLoadedCore (load_db env core)
  unfolding load_db
  load_db-IsLoadedCore env core h = elim core.disk.db as (λ db. IsLoadedCore (loaded db)) [
    | none ↦ h
    | some lines ↦
        if-keeps IsLoadedCore (is_legacy lines) _ _
          (replaced-IsLoadedCore env core (load_legacy lines) h
            (load_legacy-Kept core.maxgroupmemos lines))
          (current lines (load_current core.maxgroupmemos lines)
            (load_current-IsLoaded core.maxgroupmemos lines))
  ]
    where
      taken : Option Tables → Core
      taken t = elim t [
        | none ↦ core
        | some new ↦
            purge_expired_state env (record core { groups = new.groups; invites = new.invites })
      ]

      loaded : Option (List Str) → Core
      loaded db = elim db [
        | none ↦ core
        | some lines ↦
            if is_legacy lines
            then taken (some (load_legacy lines))
            else taken (load_current core.maxgroupmemos lines)
      ]

      current :
          (lines : List Str) (t : Option Tables)
          → IsLoadedOr core.maxgroupmemos t
          → IsLoadedCore (taken t)
      current lines none k = h
      current lines (some new) k = replaced-IsLoadedCore env core new h k
