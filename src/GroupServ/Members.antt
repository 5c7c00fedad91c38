-- ===== src/GroupServ/Members.antt =====
-- JoinGroup, InviteToGroup and SetFlags: how accounts come into a group's access list.
use anope_mods_contrib.Base.{
  ℕ, ◌+◌, Bool, true, false, not, ◌&&◌, ◌||◌, Option, none, some, List, [], ◌∷◌, ◌++◌, Str, leb,
  ◌==◌, if◌then◌else◌, is_some,
}
use anope_mods_contrib.Base.Order.{text_order, ◌=?◌}
use anope_mods_contrib.Dict.{lookup, insert, erase}
use anope_mods_contrib.Anope.{Anope, Env, Source}
use anope_mods_contrib.GroupServ.AccessFlag
use anope_mods_contrib.GroupServ.GroupFlag
use anope_mods_contrib.GroupServ.Types.{Core, GroupRecord, Invite}
use anope_mods_contrib.GroupServ.Text.{normalize_key}
use anope_mods_contrib.GroupServ.Flags.{has_flag, flags_to_string, parse_flags}
use anope_mods_contrib.GroupServ.Message.{Message, Output, reply, send_to, Outcome, refuse, accept}
use anope_mods_contrib.GroupServ.State.{
  invite_ttl, is_expired, is_admin, find_account, count_founders, is_list_full, find_group,
  put_group, get_access_for, has_access,
}
use anope_mods_contrib.GroupServ.Save.{save_db}

module _ ⦃lib : Anope⦄ where
  -- What the search for an invitation leaves: the object, from which an expired one is gone, and
  -- whether there is one to this group.
  unfoldable pub find_invite : Env → Str → GroupRecord → Core → Core × Bool
  unfolding is_expired
  find_invite env acct g core = elim (lookup acct core.invites) [
    | none ↦ (core, false)
    | some inv ↦
        if is_expired env.cur_time inv
        then (record core { invites = erase acct core.invites }, false)
        else (core, lib.equals_ci inv.group g.name)
  ]

  -- The flags that a new member gets.
  unfoldable pub granted : Core → GroupRecord → ℕ
  granted core g = if g.joinflags == AccessFlag.none then core.default_joinflags else g.joinflags

  -- The end of JoinGroup.
  unfoldable pub add_member : Env → Str → Str → GroupRecord → Bool → Core → Outcome
  unfolding granted put_group
  add_member env groupname acct g invited core =
      let joined =
        put_group core groupname (record g { access = insert acct (granted core g) g.access }) in
      let used = record joined { invites = erase acct joined.invites } in
      accept (Message.now_member g.name) (save_db env (if invited then used else joined))

  unfoldable pub join_as : Env → Source → Str → Str → GroupRecord → Core → Outcome
  unfolding has_flag is_list_full find_invite add_member
  join_as env source groupname acct g core = elim (lookup acct g.access) [
    | some flags ↦
        if has_flag flags AccessFlag.ban
        then refuse (Message.banned_from g.name) core
        else refuse (Message.already_member g.name) core
    | none ↦
        let (seen, invited) = find_invite env acct g core in
        if not invited && (not seen.enable_open_groups || not (has_flag g.flags GroupFlag.openly))
        then refuse (Message.not_open g.name) seen
        else if is_list_full seen source g && not invited
        then refuse (Message.list_full g.name) seen
        else add_member env groupname acct g invited seen
  ]

  unfoldable pub join_group : Env → Source → Str → Core → Outcome
  unfolding find_group normalize_key join_as
  join_group env source groupname core = elim source.account [
    | none ↦ refuse Message.identify_to_join core
    | some display ↦ elim (find_group core groupname) [
      | none ↦ refuse (Message.no_group groupname) core
      | some g ↦ join_as env source groupname (normalize_key display) g core
    ]
  ]

  -- The notices to the users of an account but for the one that was told already.
  abbrev notices : Option Str → Message → List (Option Str) → List Output
  notices direct m [] = []
  notices direct m (none ∷ users) = notices direct m users
  notices direct m (some u ∷ users) =
      let rest = notices direct m users in
      let told : Bool = elim direct [ none ↦ false | some d ↦ u =? d ] in
      if told then rest else send_to u m ∷ rest

  invitation : Env → Source → Str → Str → GroupRecord → Core → List Output
  invitation env source account target g core = elim core.bot [
    | none ↦ []
    | some service ↦
        let m = Message.you_have_been_invited g.name source.nick service in
        let direct = env.find_user account in
        let first : List Output = elim direct [ none ↦ [] | some u ↦ send_to u m ∷ [] ] in
        first ++ notices direct m (env.account_users target)
  ]

  -- The end of InviteToGroup.
  unfoldable pub add_invite : Env → Source → Str → Str → GroupRecord → Core → Outcome
  unfolding normalize_key invitation
  add_invite env source account target g core =
      let inv : Invite = record {
        group = g.name;
        created = env.cur_time;
        expires = env.cur_time + invite_ttl;
      } in
      (
        save_db env (record core { invites = insert (normalize_key target) inv core.invites }),
        true,
        invitation env source account target g core ++ reply (Message.invited target g.name) ∷ [],
      )

  -- Whether an invitation to another group is pending.
  unfoldable pub has_other_invite : Str → GroupRecord → Core → Bool
  has_other_invite tkey g core = elim (lookup tkey core.invites) [
    | none ↦ false
    | some inv ↦ not (lib.equals_ci inv.group g.name)
  ]

  unfoldable pub invite_target : Env → Source → Str → Str → GroupRecord → Core → Outcome
  unfolding normalize_key has_other_invite add_invite
  invite_target env source account target g core = elim (lookup (normalize_key target) g.access) [
    | some flags ↦ refuse (Message.is_already_member target g.name) core
    | none ↦
        if has_other_invite (normalize_key target) g core
        then refuse (Message.other_invitation target) core
        else add_invite env source account target g core
  ]

  unfoldable pub invite_to_group : Env → Source → Str → Str → Core → Outcome
  unfolding find_group has_access find_account invite_target
  invite_to_group env source groupname account core = elim source.account [
    | none ↦ refuse Message.identify_to_invite core
    | some display ↦ elim (find_group core groupname) [
      | none ↦ refuse (Message.the_group_missing groupname) core
      | some g ↦
          if not (has_access g (some display) AccessFlag.invite)
          then refuse Message.access_denied core
          else elim (find_account env account) [
            | none ↦ refuse (Message.not_an_account account) core
            | some target ↦ invite_target env source account target g core
          ]
    ]
  ]

  -- The end of SetFlags: an entry with no flag left goes, a new one has to fit the list.
  unfoldable pub write_flags : Env → Source → Str → Str → GroupRecord → ℕ → Core → Outcome
  unfolding normalize_key is_list_full put_group
  write_flags env source groupname target g updated core =
      let tkey = normalize_key target in
      let is_known : Bool = is_some (lookup tkey g.access) in
      let without = put_group core groupname (record g { access = erase tkey g.access }) in
      let written = put_group core groupname (record g { access = insert tkey updated g.access }) in
      if updated == AccessFlag.none
      then accept (Message.removed_from target g.name)
          (save_db env (if is_known then without else core))
      else if not is_known && is_list_full core source g
      then refuse (Message.list_full g.name) core
      else accept (Message.now_has_flags target (flags_to_string updated) g.name)
          (save_db env written)

  -- A caller who is no founder would give founder or take it away.
  unfoldable pub oversteps : Source → Bool → GroupRecord → ℕ → ℕ → Bool
  unfolding has_flag get_access_for
  oversteps source force g cur updated =
      let was = has_flag cur AccessFlag.founder in
      let is = has_flag updated AccessFlag.founder in
      not force
      && is_some source.account
      && not (has_flag (get_access_for g source.account) AccessFlag.founder)
      && ((was && not is) || (not was && is))

  -- The last founder would lose the flag.
  unfoldable pub takes_last : GroupRecord → ℕ → ℕ → Bool
  unfolding has_flag count_founders
  takes_last g cur updated =
      has_flag cur AccessFlag.founder
      && not (has_flag updated AccessFlag.founder)
      && leb (count_founders g.access) 1

  -- The checks of SetFlags on the flags before and after the change.
  unfoldable pub change_flags :
      Env → Source → Str → Str → Bool → GroupRecord → ℕ → ℕ → Core → Outcome
  unfolding oversteps takes_last write_flags
  change_flags env source groupname target force g cur updated core =
      if oversteps source force g cur updated
      then refuse Message.may_not_change_founder core
      else if takes_last g cur updated
      then refuse Message.last_founder core
      else write_flags env source groupname target g updated core

  -- The flags that an account has before the change.
  unfoldable pub current_flags : GroupRecord → Str → ℕ
  unfolding normalize_key
  current_flags g target = elim (lookup (normalize_key target) g.access) [
    | none ↦ AccessFlag.none
    | some flags ↦ flags
  ]

  unfoldable pub set_flags_of : Env → Source → Str → Str → Str → Bool → GroupRecord → Core → Outcome
  unfolding find_account current_flags change_flags
  set_flags_of env source groupname account changes force g core = elim (find_account env account) [
    | none ↦ refuse (Message.not_an_account account) core
    | some target ↦
        let cur = current_flags g target in
        change_flags env source groupname target force g cur (parse_flags changes true cur) core
  ]

  unfoldable pub set_flags : Env → Source → Str → Str → Str → Bool → Core → Outcome
  unfolding find_group is_admin has_access set_flags_of
  set_flags env source groupname account changes force core = elim (find_group core groupname) [
    | none ↦ refuse (Message.the_group_missing groupname) core
    | some g ↦
        let act = set_flags_of env source groupname account changes force g core in
        if force
        then (if is_admin core source then act else refuse Message.access_denied core)
        else elim source.account [
          | none ↦ refuse Message.identify_to_change_flags core
          | some display ↦
              if has_access g (some display) AccessFlag.flags
              then act
              else refuse Message.access_denied core
        ]
  ]
