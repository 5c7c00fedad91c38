-- ===== src/GroupServ/Settings.antt =====
-- SetOption: the access check, and one function for each setting.
pub mod Rename
pub mod Vhost
use anope_mods_contrib.Base.{
  ℕ, Bool, true, false, not, ◌||◌, Option, none, some, List, [], ◌∷◌, Str, codes, ◌==◌,
  if◌then◌else◌,
}
use anope_mods_contrib.Base.Order.{text_order, ◌=?◌}
use anope_mods_contrib.Anope.{Anope, Env, Source}
use anope_mods_contrib.GroupServ.AccessFlag
use anope_mods_contrib.GroupServ.GroupFlag
use anope_mods_contrib.GroupServ.Types.{Core, GroupRecord}
use anope_mods_contrib.GroupServ.Text.{is_empty}
use anope_mods_contrib.GroupServ.Flags.{add_flags, remove_flags, parse_flags}
use anope_mods_contrib.GroupServ.Message.{Message, Outcome, refuse, accept}
use anope_mods_contrib.GroupServ.State.{find_group, put_group, has_access}
use anope_mods_contrib.GroupServ.Save.{save_db}
use Rename.{rename_group}
use Vhost.{set_vhost}

abbrev starts_with_minus : Str → Bool
starts_with_minus [] = false
starts_with_minus (c ∷ s) = c == b'-'

module _ ⦃lib : Anope⦄ where
  -- `g->... = ...; SaveDB(); Reply(...); return true;`
  unfoldable pub store : Env → Str → GroupRecord → Message → Core → Outcome
  unfolding put_group
  store env groupname g m core = accept m (save_db env (put_group core groupname g))

  unfoldable pub set_joinflags : Env → Str → Str → GroupRecord → Core → Outcome
  unfolding store
  set_joinflags env groupname value g core =
      let v = lib.trim value in
      let parsed = parse_flags v false AccessFlag.none in
      let joinflags = if parsed == AccessFlag.none then AccessFlag.all_nofounder else parsed in
      if is_empty v || lib.equals_ci v (codes "OFF") || lib.equals_ci v (codes "NONE")
      then store env groupname (record g { joinflags = AccessFlag.none })
          (Message.joinflags_cleared g.name) core
      else if starts_with_minus v
      then refuse Message.joinflags_minus core
      else store env groupname (record g { joinflags = joinflags }) (Message.joinflags_set g.name v)
          core

  -- The settings OPEN, PUBLIC and VHOSTAUTO: a flag of the group by ON and OFF.
  unfoldable pub set_switch :
      Env → Str → Str → ℕ → Message → Message → Message → GroupRecord → Core → Outcome
  unfolding store add_flags remove_flags
  set_switch env groupname value flag switched_on switched_off syntax g core =
      if lib.equals_ci value (codes "ON")
      then store env groupname (record g { flags = add_flags g.flags flag }) switched_on core
      else if lib.equals_ci value (codes "OFF")
      then store env groupname (record g { flags = remove_flags g.flags flag }) switched_off core
      else refuse syntax core

  unfoldable pub set_open : Env → Str → Str → GroupRecord → Core → Outcome
  unfolding set_switch
  set_open env groupname value g core =
      let act =
        set_switch env groupname value GroupFlag.openly (Message.now_open g.name)
          (Message.no_longer_open g.name) Message.syntax_open g core in
      if lib.equals_ci value (codes "ON")
      then (if core.enable_open_groups then act else refuse Message.open_disabled core)
      else act

  -- The settings, on the upper-cased name: the last four, the texts, and all.
  unfoldable pub apply_switch : Env → Str → Str → Str → GroupRecord → Core → Outcome
  apply_switch env groupname up value g core =
      if up =? codes "VHOST"
      then set_vhost env groupname value g core
      else if up =? codes "OPEN"
      then set_open env groupname value g core
      else if up =? codes "PUBLIC"
      then set_switch env groupname value GroupFlag.public (Message.now_public g.name)
          (Message.no_longer_public g.name) Message.syntax_public g core
      else if up =? codes "VHOSTAUTO"
      then set_switch env groupname value GroupFlag.vhostauto (Message.auto_approved g.name)
          (Message.need_approval g.name) Message.syntax_vhostauto g core
      else refuse Message.unknown_setting core

  unfoldable pub apply_text : Env → Str → Str → Str → GroupRecord → Core → Outcome
  apply_text env groupname up value g core =
      if up =? codes "DESCRIPTION"
      then store env groupname (record g { description = value }) (Message.description_set g.name)
          core
      else if up =? codes "URL"
      then store env groupname (record g { url = value }) (Message.url_set g.name) core
      else if up =? codes "EMAIL"
      then store env groupname (record g { email = value }) (Message.email_set g.name) core
      else if up =? codes "CHANNEL"
      then store env groupname (record g { channel = value }) (Message.channel_set g.name) core
      else if up =? codes "JOINFLAGS"
      then set_joinflags env groupname value g core
      else apply_switch env groupname up value g core

  unfoldable pub apply_setting : Env → Source → Str → Str → Str → GroupRecord → Core → Outcome
  unfolding has_access
  apply_setting env source groupname up value g core =
      if up =? codes "GROUPNAME"
      then (if has_access g source.account AccessFlag.founder
          then rename_group env groupname value g core
          else refuse Message.access_denied core)
      else apply_text env groupname up value g core

  -- The flag that a setting asks of the caller.
  unfoldable pub required_for : Str → ℕ
  required_for up =
      if up =? codes "OPEN" || up =? codes "PUBLIC" then AccessFlag.founder else AccessFlag.set

  unfoldable pub set_option : Env → Source → Str → Str → Str → Core → Outcome
  unfolding find_group has_access required_for
  set_option env source groupname setting value core = elim (find_group core groupname) [
    | none ↦ refuse (Message.the_group_missing groupname) core
    | some g ↦ elim source.account [
      | none ↦ refuse Message.identify_to_set core
      | some display ↦
          let up = lib.upper setting in
          if has_access g (some display) (required_for up)
          then apply_setting env source groupname up value g core
          else refuse Message.access_denied core
    ]
  ]
