-- ===== src/GroupServ/Settings/Rename.antt =====
-- `SET <!group> GROUPNAME <!newgroup>`.
use anope_mods_contrib.Base.{Bool, true, not, ◌||◌, none, some, Str, is_some, if◌then◌else◌}
use anope_mods_contrib.Base.Order.{text_order}
use anope_mods_contrib.Dict.{Dict, lookup, insert, erase, retain, map_values}
use anope_mods_contrib.Anope.{Anope, Env}
use anope_mods_contrib.GroupServ.Types.{Core, GroupRecord, Invite, DropChallenge}
use anope_mods_contrib.GroupServ.Text.{normalize_key, is_valid_group_name, split_first}
use anope_mods_contrib.GroupServ.Message.{Message, Outcome, refuse, accept}
use anope_mods_contrib.GroupServ.State.{find_group}
use anope_mods_contrib.GroupServ.Save.{save_db}

module _ ⦃lib : Anope⦄ where
  -- `emplace`, which keeps an entry that is there.
  abbrev emplace : Str → GroupRecord → Dict Str GroupRecord → Dict Str GroupRecord
  emplace k g groups = if is_some (lookup k groups) then groups else insert k g groups

  unfoldable pub rename_invite : Str → Str → Invite → Invite
  rename_invite groupname newname inv =
      if lib.equals_ci inv.group groupname then record inv { group = newname } else inv

  -- Whether a challenge's key is not of the group's old or new name.
  unfoldable pub keeps_challenge : Str → Str → Str → DropChallenge → Bool
  unfolding split_first
  keeps_challenge oldkey newkey key c = elim (split_first b'|' key) [
    | none ↦ true
    | some (account, gpart) ↦ not (lib.equals_ci gpart oldkey || lib.equals_ci gpart newkey)
  ]

  unfoldable pub move_group : Str → Str → GroupRecord → Core → Core
  unfolding normalize_key rename_invite keeps_challenge
  move_group groupname newname g core =
      let oldkey = normalize_key g.name in
      let newkey = normalize_key newname in
      record core {
        groups = emplace newkey (record g { name = newname }) (erase oldkey core.groups);
        invites = map_values (rename_invite groupname newname) core.invites;
        drop_challenges = retain (keeps_challenge oldkey newkey) core.drop_challenges;
      }

  unfoldable pub rename_group : Env → Str → Str → GroupRecord → Core → Outcome
  unfolding find_group move_group
  rename_group env groupname value g core =
      let newname = lib.trim value in
      if not (is_valid_group_name newname)
      then refuse Message.syntax_groupname core
      else if is_some (find_group core newname)
      then refuse (Message.already_exists newname) core
      else accept (Message.renamed groupname newname)
          (save_db env (move_group groupname newname g core))
