-- ===== src/GroupServ/Register.antt =====
-- RegisterGroup, DropGroup and SetGroupFlag.
use Prim.Native.Nat.{bit_or}
use anope_mods_contrib.Base.{
  ℕ, Bool, true, false, not, ◌&&◌, none, some, [], ◌∷◌, Str, codes, ltb, is_some, if◌then◌else◌,
}
use anope_mods_contrib.Base.Order.{text_order, ◌=?◌}
use anope_mods_contrib.Dict.{lookup, insert, erase, retain}
use anope_mods_contrib.Anope.{Anope, Env, Source}
use anope_mods_contrib.GroupServ.AccessFlag
use anope_mods_contrib.GroupServ.GroupFlag
use anope_mods_contrib.GroupServ.Types.{Core, GroupRecord, DropChallenge, fresh_record}
use anope_mods_contrib.GroupServ.Text.{
  is_empty, normalize_key, drop_challenge_key, is_valid_group_name,
}
use anope_mods_contrib.GroupServ.Flags.{add_flags, remove_flags}
use anope_mods_contrib.GroupServ.Message.{Message, reply, Outcome, refuse, accept}
use anope_mods_contrib.GroupServ.State.{
  is_stale, is_admin, can_exceed_limits, find_group, put_group, has_access, count_groups_founded_by,
}
use anope_mods_contrib.GroupServ.Save.{save_db}

module _ ⦃lib : Anope⦄ where
  unfoldable pub get_or_create_group : Env → Core → Str → Core × GroupRecord
  unfolding find_group put_group
  get_or_create_group env core name = elim (find_group core name) [
    | some g ↦ (core, g)
    | none ↦
        let g : GroupRecord = record fresh_record { name = name; regtime = env.cur_time } in
        (put_group core name g, g)
  ]

  -- The record that a registration writes over the new one.
  unfoldable pub registered_record : Env → Core → Str → Str → GroupRecord → GroupRecord
  unfolding normalize_key
  registered_record env core display groupname g = record g {
    name = groupname;
    regtime = env.cur_time;
    flags = (if core.default_vhostauto then GroupFlag.vhostauto else GroupFlag.none);
    joinflags = AccessFlag.none;
    access = insert (normalize_key display) (bit_or AccessFlag.all AccessFlag.founder) [];
  }

  unfoldable pub create_group : Env → Core → Str → Str → Outcome
  unfolding get_or_create_group registered_record put_group
  create_group env core display groupname =
      let (made, g) = get_or_create_group env core groupname in
      accept (Message.registered groupname display)
        (save_db env (put_group made groupname (registered_record env core display groupname g)))

  -- The checks of RegisterGroup behind the one for an account.
  unfoldable pub register_as : Env → Source → Str → Str → Core → Outcome
  unfolding find_group can_exceed_limits count_groups_founded_by create_group
  register_as env source display groupname core =
      if not (is_valid_group_name groupname)
      then refuse Message.syntax_register core
      else if is_some (find_group core groupname)
      then refuse (Message.already_exists groupname) core
      else if core.opers_only && not source.is_oper
      then refuse Message.opers_only core
      else if ltb 0 core.maxgroups
          && not (can_exceed_limits core source)
          && not (ltb (count_groups_founded_by core (some display)) core.maxgroups)
      then refuse Message.too_many_groups core
      else create_group env core display groupname

  unfoldable pub register_group : Env → Source → Str → Core → Outcome
  unfolding register_as
  register_group env source groupname core = elim source.account [
    | none ↦ refuse Message.identify_to_register core
    | some display ↦ register_as env source display groupname core
  ]

  -- The end of DropGroup: the invitations to the group go, then the group.
  unfoldable pub remove_group : Env → Str → GroupRecord → Core → Outcome
  unfolding normalize_key
  remove_group env groupname g core = accept (Message.dropped groupname) (
      save_db env (record core {
        invites = retain (λ _ inv. not (lib.equals_ci inv.group g.name)) core.invites;
        groups = erase (normalize_key g.name) core.groups;
      }))

  -- A first call without a key: a token is stored and told.
  unfoldable pub challenge : Env → Str → GroupRecord → Core → Outcome
  challenge env chal_key g core =
      let c : DropChallenge = record { token = env.random; created = env.cur_time } in
      let service : Str = elim core.bot [ none ↦ codes "GroupServ" | some nick ↦ nick ] in
      (
        record core { drop_challenges = insert chal_key c core.drop_challenges },
        false,
        reply (Message.will_destroy g.name)
            ∷ reply (Message.to_confirm service g.name env.random)
            ∷ [],
      )

  -- A second call with the key: a challenge that is too old goes, and a fitting one is used up.
  unfoldable pub confirm : Env → Str → Str → Str → GroupRecord → Core → Outcome
  unfolding is_stale remove_group
  confirm env chal_key key groupname g core =
      let spent = record core { drop_challenges = erase chal_key core.drop_challenges } in
      elim (lookup chal_key core.drop_challenges) [
        | none ↦ refuse Message.invalid_key core
        | some c ↦
            if is_stale env.cur_time c
            then refuse Message.invalid_key spent
            else if c.token =? key
            then remove_group env groupname g spent
            else refuse Message.invalid_key core
      ]

  unfoldable pub drop_by_owner : Env → Source → Str → Str → GroupRecord → Core → Outcome
  unfolding has_access drop_challenge_key challenge confirm
  drop_by_owner env source groupname key g core = elim source.account [
    | none ↦ refuse Message.identify_to_drop core
    | some display ↦
        let chal_key = drop_challenge_key display g.name in
        if not (has_access g (some display) AccessFlag.founder)
        then refuse Message.access_denied core
        else if is_empty key
        then challenge env chal_key g core
        else confirm env chal_key key groupname g core
  ]

  unfoldable pub drop_group : Env → Source → Str → Str → Bool → Core → Outcome
  unfolding find_group is_admin drop_by_owner remove_group
  drop_group env source groupname key force core = elim (find_group core groupname) [
    | none ↦ refuse (Message.no_group groupname) core
    | some g ↦
        if force
        then (if is_admin core source
            then remove_group env groupname g core
            else refuse Message.access_denied core)
        else drop_by_owner env source groupname key g core
  ]

  unfoldable pub set_group_flag : Env → Source → Str → ℕ → Bool → Core → Outcome
  unfolding is_admin find_group put_group add_flags remove_flags
  set_group_flag env source groupname flag enabled core =
      if not (is_admin core source)
      then refuse Message.access_denied core
      else elim (find_group core groupname) [
        | none ↦ refuse (Message.the_group_missing groupname) core
        | some g ↦
            let flags = if enabled then add_flags g.flags flag else remove_flags g.flags flag in
            (save_db env (put_group core groupname (record g { flags = flags })), true, [])
      ]
