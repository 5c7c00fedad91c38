-- ===== src/GroupServ/Registering.antt =====
-- RegisterGroup: when it makes a group, and which.
use anope_mods_contrib.Base.{
  ◌+◌, ◌≤◌, ap, ◌≢◌, Bool, Option, ◌<◌, ◌≡◌, ◌↔◌, ◌⊎◌, inl, inr, true, false, some, none, Str,
  arith, Option-cases, if◌then◌else◌, [], is_some,
}
use anope_mods_contrib.Base.Order.{text_order, ◌=?◌}
use anope_mods_contrib.Dict.{lookup, insert, count_if}
use anope_mods_contrib.Dict.Laws.{IsSorted, hit, count_if-insert, lookup-insert, insert-insert}
use anope_mods_contrib.Anope.{Anope, Env, Source}
use anope_mods_contrib.GroupServ.AccessFlag
use anope_mods_contrib.GroupServ.GroupFlag
use anope_mods_contrib.GroupServ.Types.{Core, GroupRecord, fresh_record}
use anope_mods_contrib.GroupServ.Text.{is_valid_group_name, normalize_key}
use anope_mods_contrib.GroupServ.State.{
  find_group, put_group, can_exceed_limits, count_groups_founded_by, access_of,
}
use anope_mods_contrib.GroupServ.Flags.{has_flag}
use anope_mods_contrib.GroupServ.Save.{save_db}
use anope_mods_contrib.GroupServ.Register.{
  get_or_create_group, registered_record, create_group, register_as, register_group,
}

hit_le {ℓ} : {V : Type ℓ} (p : V → Bool) (o : Option V) → hit p o ≤ 1
hit_le p none = omega arith
hit_le p (some v) = ground arith

module _ ⦃lib : Anope⦄ where
  -- The limit on the groups of one founder is off, or the caller may exceed it, or it is not met.
  abbrev pub IsBelowLimit : Source → Core → Type 0
  IsBelowLimit source core =
      (core.maxgroups ≡ 0)
      ⊎ (can_exceed_limits core source ≡ true)
      ⊎ (count_groups_founded_by core source.account < core.maxgroups)

  -- A registration goes through exactly where the caller is logged in to an account, the name is
  -- valid and free, the caller is an operator if only operators may register, and the limit on the
  -- groups of one founder lets it.
  pub register_group_iff :
      (env : Env) (source : Source) (groupname : Str) (core : Core)
      → ((register_group env source groupname core).1 ≡ true) ↔ (
          (is_some source.account ≡ true)
          × (is_valid_group_name groupname ≡ true)
          × (find_group core groupname ≡ none)
          × ((core.opers_only ≡ false) ⊎ (source.is_oper ≡ true))
          × IsBelowLimit source core)
  unfolding register_group register_as create_group
  register_group_iff env source groupname core = elim (Option-cases source.account) [
    | inl a ↦ ground (arith, a)
    | inr (display, a) ↦ ground (arith, a)
  ]

  -- The new group: named as asked, dated now, with the caller as its one member, who has every flag
  -- but the ban.
  abbrev pub founded : Env → Core → Str → Str → GroupRecord
  founded env core display groupname = record fresh_record {
    name = groupname;
    regtime = env.cur_time;
    flags = (if core.default_vhostauto then GroupFlag.vhostauto else GroupFlag.none);
    access = insert (normalize_key display) AccessFlag.all [];
  }

  create_group-lookup :
      (env : Env) (display groupname j : Str) (core : Core)
      → find_group core groupname ≡ none
      → lookup j (create_group env core display groupname).0.groups ≡ (
          if j =? normalize_key groupname
          then some (founded env core display groupname)
          else lookup j core.groups)
  unfolding create_group get_or_create_group registered_record save_db put_group
  create_group-lookup env display groupname j core e = ground (
    arith,
    e,
    insert-insert (normalize_key groupname) (founded env core display groupname)
        (record fresh_record { name = groupname; regtime = env.cur_time }) core.groups,
    lookup-insert j (normalize_key groupname) (founded env core display groupname) core.groups,
  )

  -- A registration that goes through adds this group and touches no other.
  pub register_group-lookup :
      (env : Env) (source : Source) (groupname display j : Str) (core : Core)
      → source.account ≡ some display
      → (register_group env source groupname core).1 ≡ true
      → lookup j (register_group env source groupname core).0.groups ≡ (
          if j =? normalize_key groupname
          then some (founded env core display groupname)
          else lookup j core.groups)
  unfolding register_group register_as
  register_group-lookup env source groupname display j core a h =
      elim (Option-cases (find_group core groupname)) [
        | inl e ↦ ground (arith, a, h, e, create_group-lookup env display groupname j core e)
        | inr (g, e) ↦ absurd (ground (arith, a, h, e))
      ]

  create_group-groups :
      (env : Env) (display groupname : Str) (core : Core)
      → find_group core groupname ≡ none
      → (create_group env core display groupname).0.groups
        ≡ insert (normalize_key groupname) (founded env core display groupname) core.groups
  unfolding create_group get_or_create_group registered_record save_db put_group
  create_group-groups env display groupname core e = ground (
    arith,
    e,
    insert-insert (normalize_key groupname) (founded env core display groupname)
        (record fresh_record { name = groupname; regtime = env.cur_time }) core.groups,
  )

  -- Whether the account is a founder of the group.
  abbrev founds_group : Str → GroupRecord → Bool
  founds_group display g = has_flag (access_of g display) AccessFlag.founder

  create_group-count :
      (env : Env) (display groupname : Str) (core : Core)
      → IsSorted core.groups
      → find_group core groupname ≡ none
      → count_groups_founded_by (create_group env core display groupname).0 (some display)
        ≤ count_groups_founded_by core (some display) + 1
  unfolding count_groups_founded_by find_group
  create_group-count env display groupname core s e = omega (
    arith,
    ap (count_if (founds_group display)) (create_group-groups env display groupname core e),
    count_if-insert (founds_group display) (normalize_key groupname)
        (founded env core display groupname) core.groups s,
    hit_le (founds_group display) (some (founded env core display groupname)),
    ap (hit (founds_group display)) e,
  )

  -- A caller with a limit who may not exceed it founds no more groups than the
  -- limit: after a registration that goes through, with sorted groups, the count is within it.
  pub register_group-within :
      (env : Env) (source : Source) (groupname display : Str) (core : Core)
      → IsSorted core.groups
      → source.account ≡ some display
      → core.maxgroups ≢ 0
      → can_exceed_limits core source ≡ false
      → (register_group env source groupname core).1 ≡ true
      → count_groups_founded_by (register_group env source groupname core).0 (some display)
        ≤ core.maxgroups
  unfolding register_group register_as
  register_group-within env source groupname display core s a m x h =
      elim (Option-cases (find_group core groupname)) [
        | inl e ↦ ground (arith, a, m, x, h, e, create_group-count env display groupname core s e)
        | inr (g, e) ↦ absurd (ground (arith, a, h, e))
      ]
