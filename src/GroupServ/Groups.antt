-- ===== src/GroupServ/Groups.antt =====
-- Reading a group back after a write, a purge or a save.
use anope_mods_contrib.Base.{◌≡◌, ◌∙◌, ap, ◌≢◌, true, false, some, Str, arith}
use anope_mods_contrib.Base.Order.{text_order, ◌=?◌}
use anope_mods_contrib.Dict.{lookup}
use anope_mods_contrib.Dict.Laws.{lookup-insert}
use anope_mods_contrib.Anope.{Anope, Env}
use anope_mods_contrib.GroupServ.Types.{Core, GroupRecord}
use anope_mods_contrib.GroupServ.Text.{normalize_key}
use anope_mods_contrib.GroupServ.State.{find_group, put_group}
use anope_mods_contrib.GroupServ.Save.{save_db}

-- A save changes no group and no setting of the service.
pub groups-save_db : (env : Env) (core : Core) → (save_db env core).groups ≡ core.groups
unfolding save_db
groups-save_db env core = ground arith

pub config-save_db : (env : Env) (core : Core) → (save_db env core).config ≡ core.config
unfolding save_db
config-save_db env core = ground arith

pub key_self : (k : Str) → (k =? k) ≡ true
key_self k = ground (arith, text_order.same_key k)

pub key_ne : (j k : Str) → j ≢ k → (j =? k) ≡ false
key_ne j k h = ground (arith, h, text_order.key_eq j k)

module _ ⦃lib : Anope⦄ where
  pub find_group-save_db :
      (env : Env) (core : Core) (name : Str)
      → find_group (save_db env core) name ≡ find_group core name
  unfolding find_group
  find_group-save_db env core name = ap (lookup (normalize_key name)) (groups-save_db env core)

  pub find_group-put_group :
      (core : Core) (name : Str) (g : GroupRecord)
      → find_group (put_group core name g) name ≡ some g
  unfolding find_group put_group
  find_group-put_group core name g = ground (
    arith,
    lookup-insert (normalize_key name) (normalize_key name) g core.groups,
    key_self (normalize_key name),
  )

  -- What the handlers write is what the next call finds.
  pub find_group-saved :
      (env : Env) (core : Core) (name : Str) (g : GroupRecord)
      → find_group (save_db env (put_group core name g)) name ≡ some g
  find_group-saved env core name g =
      find_group-save_db env (put_group core name g) name ∙ find_group-put_group core name g

  -- A write under one key leaves the groups under the others.
  pub lookup-saved :
      (env : Env) (core : Core) (name j : Str) (g : GroupRecord)
      → j ≢ normalize_key name
      → lookup j (save_db env (put_group core name g)).groups ≡ lookup j core.groups
  unfolding put_group
  lookup-saved env core name j g ne =
      ap (lookup j) (groups-save_db env (put_group core name g))
      ∙ ground (
        arith,
        lookup-insert j (normalize_key name) g core.groups,
        key_ne j (normalize_key name) ne,
      )
