-- ===== src/GroupServ/Atomic.antt =====
-- The groups and the files under calls that are refused.
use anope_mods_contrib.Base.{ℕ, ◌≡◌, Bool, false, Str, arith, inl, inr, Option-cases}
use anope_mods_contrib.Anope.{Anope, Env, Source}
use anope_mods_contrib.GroupServ.GroupFlag
use anope_mods_contrib.GroupServ.Types.{Core, GroupRecord}
use anope_mods_contrib.GroupServ.Message.{Message, Outcome}
use anope_mods_contrib.GroupServ.Register.{
  create_group, register_as, register_group, remove_group, drop_by_owner, drop_group,
  set_group_flag,
}
use anope_mods_contrib.GroupServ.Members.{
  find_invite, join_as, join_group, invite_target, invite_to_group, change_flags, set_flags_of,
  set_flags,
}
use anope_mods_contrib.GroupServ.Settings.{
  store, set_joinflags, set_switch, set_open, apply_switch, apply_text, apply_setting, set_option,
}
use anope_mods_contrib.GroupServ.Settings.Rename.{rename_group}
use anope_mods_contrib.GroupServ.Settings.Vhost.{store_vhost, set_mask, set_vhost}
use anope_mods_contrib.GroupServ.Memos.{
  store_memo, send_memo, list_memos, read_memo, remove_memo, del_memo,
}
use anope_mods_contrib.GroupServ.Show.{show_info, show_flags, list_groups, list_chans}
use anope_mods_contrib.GroupServ.State.{find_group}
use anope_mods_contrib.GroupServ.Service.{Command, step}

-- If the outcome is a refusal, groups and files are those of the object before.
abbrev pub SameGroups : Core → Outcome → Type 0
SameGroups core o = o.1 ≡ false → (o.0.groups ≡ core.groups) × (o.0.disk ≡ core.disk)

module _ ⦃lib : Anope⦄ (env : Env) (source : Source) (groupname : Str) (core : Core) where
  register_group-SameGroups : SameGroups core (register_group env source groupname core)
  unfolding register_group register_as create_group
  register_group-SameGroups h = ground arith

  drop_by_owner-SameGroups :
      (key : Str) (g : GroupRecord)
      → SameGroups core (drop_by_owner env source groupname key g core)
  unfolding drop_by_owner
  drop_by_owner-SameGroups key g h = ground arith

  drop_group-SameGroups :
      (key : Str) (force : Bool) → SameGroups core (drop_group env source groupname key force core)
  unfolding drop_group remove_group
  drop_group-SameGroups key force h = ground arith

  set_group_flag-SameGroups :
      (flag : ℕ) (enabled : Bool)
      → SameGroups core (set_group_flag env source groupname flag enabled core)
  unfolding set_group_flag
  set_group_flag-SameGroups flag enabled h = ground arith

  find_invite_keeps :
      (acct : Str) (g : GroupRecord)
      → ((find_invite env acct g core).0.groups ≡ core.groups)
        × ((find_invite env acct g core).0.disk ≡ core.disk)
  unfolding find_invite
  find_invite_keeps acct g = ground arith

  join_as-SameGroups :
      (acct : Str) (g : GroupRecord) → SameGroups core (join_as env source groupname acct g core)
  unfolding join_as
  join_as-SameGroups acct g h = ground (arith, find_invite_keeps acct g)

  join_group-SameGroups : SameGroups core (join_group env source groupname core)
  unfolding join_group
  join_group-SameGroups h = ground arith

  invite_to_group-SameGroups :
      (account : Str) → SameGroups core (invite_to_group env source groupname account core)
  unfolding invite_to_group invite_target
  invite_to_group-SameGroups account h = ground arith

  set_flags-SameGroups :
      (account changes : Str) (force : Bool)
      → SameGroups core (set_flags env source groupname account changes force core)
  unfolding set_flags set_flags_of change_flags
  set_flags-SameGroups account changes force h = ground arith

  set_mask-SameGroups :
      (user host : Str) (g : GroupRecord)
      → SameGroups core (set_mask env groupname user host g core)
  unfolding set_mask store_vhost
  set_mask-SameGroups user host g h = ground arith

  set_vhost-SameGroups :
      (value : Str) (g : GroupRecord) → SameGroups core (set_vhost env groupname value g core)
  unfolding set_vhost
  set_vhost-SameGroups value g h = ground arith

  rename_group-SameGroups :
      (value : Str) (g : GroupRecord) → SameGroups core (rename_group env groupname value g core)
  unfolding rename_group
  rename_group-SameGroups value g h = ground arith

  set_joinflags-SameGroups :
      (value : Str) (g : GroupRecord) → SameGroups core (set_joinflags env groupname value g core)
  unfolding set_joinflags
  set_joinflags-SameGroups value g h = ground arith

  set_switch-SameGroups :
      (value : Str) (flag : ℕ) (a b c : Message) (g : GroupRecord)
      → SameGroups core (set_switch env groupname value flag a b c g core)
  unfolding set_switch
  set_switch-SameGroups value flag a b c g h = ground arith

  set_open-SameGroups :
      (value : Str) (g : GroupRecord) → SameGroups core (set_open env groupname value g core)
  unfolding set_open
  set_open-SameGroups value g h = ground arith

  apply_switch-SameGroups :
      (up value : Str) (g : GroupRecord)
      → SameGroups core (apply_switch env groupname up value g core)
  unfolding apply_switch
  apply_switch-SameGroups up value g h = ground (
    arith,
    set_vhost-SameGroups value g,
    set_open-SameGroups value g,
    set_switch-SameGroups value GroupFlag.public (Message.now_public g.name)
        (Message.no_longer_public g.name) Message.syntax_public g,
    set_switch-SameGroups value GroupFlag.vhostauto (Message.auto_approved g.name)
        (Message.need_approval g.name) Message.syntax_vhostauto g,
  )

  apply_text-SameGroups :
      (up value : Str) (g : GroupRecord)
      → SameGroups core (apply_text env groupname up value g core)
  unfolding apply_text store
  apply_text-SameGroups up value g h =
      ground (arith, set_joinflags-SameGroups value g, apply_switch-SameGroups up value g)

  apply_setting-SameGroups :
      (up value : Str) (g : GroupRecord)
      → SameGroups core (apply_setting env source groupname up value g core)
  unfolding apply_setting
  apply_setting-SameGroups up value g h =
      ground (arith, rename_group-SameGroups value g, apply_text-SameGroups up value g)

  set_option-SameGroups :
      (setting value : Str) → SameGroups core (set_option env source groupname setting value core)
  unfolding set_option
  set_option-SameGroups setting value h = elim (Option-cases (find_group core groupname)) [
    | inl e ↦ ground (arith, e)
    | inr (g, e) ↦ ground (arith, e, apply_setting-SameGroups (lib.upper setting) value g)
  ]

  send_memo-SameGroups : (text : Str) → SameGroups core (send_memo env source groupname text core)
  unfolding send_memo store_memo
  send_memo-SameGroups text h = ground arith

  del_memo-SameGroups : (index : ℕ) → SameGroups core (del_memo env source groupname index core)
  unfolding del_memo remove_memo
  del_memo-SameGroups index h = ground arith

module _ ⦃lib : Anope⦄ where
  step-SameGroups :
      (env : Env) (source : Source) (c : Command) (core : Core)
      → SameGroups core (step env source c core)
  unfolding step read_memo list_memos show_info show_flags list_groups list_chans
  step-SameGroups env source (Command.register n) core h =
      register_group-SameGroups env source n core h
  step-SameGroups env source (Command.join n) core h = join_group-SameGroups env source n core h
  step-SameGroups env source (Command.drop n k f) core h =
      drop_group-SameGroups env source n core k f h
  step-SameGroups env source (Command.group_flag n f b) core h =
      set_group_flag-SameGroups env source n core f b h
  step-SameGroups env source (Command.invite n a) core h =
      invite_to_group-SameGroups env source n core a h
  step-SameGroups env source (Command.flags n a c f) core h =
      set_flags-SameGroups env source n core a c f h
  step-SameGroups env source (Command.option n s x) core h =
      set_option-SameGroups env source n core s x h
  step-SameGroups env source (Command.send n t) core h = send_memo-SameGroups env source n core t h
  step-SameGroups env source (Command.delete n i) core h = del_memo-SameGroups env source n core i h
  step-SameGroups env source (Command.read n i) core h = ground arith
  step-SameGroups env source (Command.memos n) core h = ground arith
  step-SameGroups env source (Command.info n) core h = ground arith
  step-SameGroups env source (Command.show n) core h = ground arith
  step-SameGroups env source (Command.list p) core h = ground arith
  step-SameGroups env source (Command.chans n) core h = ground arith

  -- Whatever the call is: where it returns false, the groups with all their members, settings and
  -- memos, and the files of the database, are what they were.
  pub step-refused :
      (env : Env) (source : Source) (c : Command) (core : Core)
      → (step env source c core).1 ≡ false
      → ((step env source c core).0.groups ≡ core.groups)
        × ((step env source c core).0.disk ≡ core.disk)
  step-refused = step-SameGroups
