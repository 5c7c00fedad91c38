-- ===== src/GroupServ/Settings/Vhost.antt =====
-- `SET <!group> VHOST <hostmask|OFF>`, with ParseHostMask and ValidateHostMask.
use anope_mods_contrib.Base.{
  Bool, not, ◌&&◌, ◌||◌, Option, none, some, [], ◌∷◌, ◌++◌, Str, codes, ltb, if◌then◌else◌, length,
}
use anope_mods_contrib.Anope.{Anope, Env}
use anope_mods_contrib.GroupServ.Types.{Core, GroupRecord}
use anope_mods_contrib.GroupServ.Text.{is_empty, contains, parse_host_mask}
use anope_mods_contrib.GroupServ.Message.{Message, Outcome, refuse, accept}
use anope_mods_contrib.GroupServ.State.{put_group}
use anope_mods_contrib.GroupServ.Save.{save_db}

-- ValidateHostMask: the refusal, if there is one.
unfoldable pub validate_host_mask : Env → Str → Str → Option Message
validate_host_mask env user host =
    let on_host : Option Message =
      if ltb env.max_host (length host)
      then some (Message.vhost_too_long env.max_host)
      else if env.is_host_valid host
      then none
      else some Message.vhost_error in
    if is_empty user
    then on_host
    else if not env.can_set_vident
    then some Message.no_vident
    else if not (env.is_ident_valid user)
    then some Message.vident_error
    else on_host

unfoldable pub join_mask : Str → Str → Str
join_mask user host = (if is_empty user then [] else user ++ b'@' ∷ []) ++ host

module _ ⦃lib : Anope⦄ where
  -- The lambda `check_vars`: nothing but `$account` and `$group` begins with a `$`.
  unfoldable pub check_vars : Str → Bool
  unfolding contains
  check_vars s = not (
      contains b'$'
        (lib.replace_all_cs (lib.replace_all_cs s (codes "$account") []) (codes "$group") []))

  -- The write of a mask that was checked.
  unfoldable pub store_vhost : Env → Str → Str → Str → GroupRecord → Core → Outcome
  unfolding join_mask put_group
  store_vhost env groupname user host g core =
      let vhost = join_mask user host in
      accept (Message.vhost_set g.name vhost)
        (save_db env (put_group core groupname (record g { vhost = vhost })))

  unfoldable pub set_mask : Env → Str → Str → Str → GroupRecord → Core → Outcome
  unfolding contains check_vars validate_host_mask store_vhost
  set_mask env groupname user host g core =
      let act = store_vhost env groupname user host g core in
      if contains b'$' user || contains b'$' host
      then (if check_vars user && check_vars host then act else refuse Message.only_variables core)
      else elim (validate_host_mask env user host) [ none ↦ act | some m ↦ refuse m core ]

  unfoldable pub set_vhost : Env → Str → Str → GroupRecord → Core → Outcome
  unfolding put_group parse_host_mask set_mask
  set_vhost env groupname value g core =
      let v = lib.trim value in
      if is_empty v
      then refuse Message.syntax_vhost core
      else if lib.equals_ci v (codes "OFF") || lib.equals_ci v (codes "NONE")
      then accept (Message.vhost_cleared g.name)
          (save_db env (put_group core groupname (record g { vhost = [] })))
      else elim (parse_host_mask v) [
        | none ↦ refuse Message.syntax_vhost core
        | some (user, host) ↦
            if not (env.has_ircd && env.can_set_vhost)
            then refuse Message.no_vhosts core
            else set_mask env groupname user host g core
      ]
