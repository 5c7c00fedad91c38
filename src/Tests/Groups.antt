-- ===== src/Tests/Groups.antt =====
-- The theorems on whole groups, on sequences of calls and on files, on the service of the tests.
use anope_mods_contrib.Base.{
  arith, ◌≤◌, ◌+◌, ◌≡◌, ◌↔◌, ◌⊎◌, refl, true, false, some, none, [], ◌∷◌, Str, codes, List,
  if◌then◌else◌,
}
use anope_mods_contrib.Base.Order.{text_order, ◌=?◌}
use anope_mods_contrib.Dict.{lookup}
use anope_mods_contrib.Anope.{Env, Source}
use anope_mods_contrib.GroupServ.AccessFlag
use anope_mods_contrib.GroupServ.Types.{Core, GroupRecord, Invite, DropChallenge}
use anope_mods_contrib.GroupServ.Text.{
  normalize_key, drop_challenge_key, is_valid_group_name, contains,
}
use anope_mods_contrib.GroupServ.Flags.{has_flag}
use anope_mods_contrib.GroupServ.State.{
  is_expired, is_stale, purge_expired_state, can_exceed_limits, is_admin, find_group, access_of,
  get_access_for, allows, has_access, count_groups_founded_by,
}
use anope_mods_contrib.GroupServ.Save.{database_lines, save_db}
use anope_mods_contrib.GroupServ.Load.{is_legacy, load_db}
use anope_mods_contrib.GroupServ.Load.Legacy.{is_legacy_header}
use anope_mods_contrib.GroupServ.Load.Current.{until_nul}
use anope_mods_contrib.GroupServ.Register.{
  register_as, register_group, create_group, drop_by_owner, confirm, remove_group, drop_group,
}
use anope_mods_contrib.GroupServ.Settings.{set_option}
use anope_mods_contrib.GroupServ.Settings.Rename.{rename_group}
use anope_mods_contrib.GroupServ.Service.{Command, step, run}
use anope_mods_contrib.GroupServ.Registering.{
  IsBelowLimit, founded, register_group_iff, register_group-lookup,
}
use anope_mods_contrib.GroupServ.Dropping.{
  IsConfirmed, drop_group_iff, drop_group-lookup, drop_group-invites,
}
use anope_mods_contrib.GroupServ.Renaming.{
  MayRename, set_option-rename_group_iff, rename_group-lookup, rename_group-invite,
}
use anope_mods_contrib.GroupServ.Storing.{purge_expired_state_iff, load_db-comment}
use anope_mods_contrib.GroupServ.Loading.{IsLoadedCore, load_db-IsLoadedCore}
use anope_mods_contrib.GroupServ.Reload.{
  Block, Conf, on_reload, module_block, read_config, unloaded,
}
use anope_mods_contrib.GroupServ.Atomic.{step-refused}
use anope_mods_contrib.GroupServ.Authority.{IsAuthorized, step-IsAuthorized}
use anope_mods_contrib.GroupServ.Memos.{del_memo, remove_memo}
use anope_mods_contrib.GroupServ.Registering.{register_group-within}
use anope_mods_contrib.GroupServ.Invariant.{run-IsValid}
use anope_mods_contrib.GroupServ.Invariant.Base.{IsValid}
use anope_mods_contrib.Tests.Ascii.{ascii}
use anope_mods_contrib.Tests.Service.{now, env, user, dev, core, core-IsValid, settings}

abbrev name : Str
name = codes "!Dev"

abbrev calls : List (Env × Source × Command)
calls =
    (env, user (codes "Cat"), Command.join name)
    ∷ (env, user (codes "Amy"), Command.flags name (codes "bob") (codes "-*") false)
    ∷ (env, user (codes "Amy"), Command.drop name (codes "k") false)
    ∷ []

run-IsValid_example : IsValid ⦃lib = ascii⦄ (run ⦃lib = ascii⦄ calls core)
run-IsValid_example = run-IsValid ⦃lib = ascii⦄ calls core core-IsValid

step-refused_example :
    ((step ⦃lib = ascii⦄ env (user (codes "Eve")) (Command.drop name [] false) core).0.groups
      ≡ core.groups)
    × ((step ⦃lib = ascii⦄ env (user (codes "Eve")) (Command.drop name [] false) core).0.disk
        ≡ core.disk)
unfolding step drop_group drop_by_owner find_group normalize_key has_access allows get_access_for
    access_of has_flag
step-refused_example =
    step-refused ⦃lib = ascii⦄ env (user (codes "Eve")) (Command.drop name [] false) core refl

step-IsAuthorized_example :
    IsAuthorized ⦃lib = ascii⦄ core (user (codes "Bob")) (Command.delete name 1)
unfolding step del_memo remove_memo find_group normalize_key has_access allows get_access_for
    access_of has_flag
step-IsAuthorized_example =
    step-IsAuthorized ⦃lib = ascii⦄ env (user (codes "Bob")) (Command.delete name 1) core refl

register_group-within_example :
    count_groups_founded_by ⦃lib = ascii⦄
      (register_group ⦃lib = ascii⦄ env (user (codes "Amy")) (codes "!ops") core).0
      (some (codes "Amy"))
    ≤ 5
unfolding register_group register_as create_group is_valid_group_name find_group normalize_key
    can_exceed_limits is_admin count_groups_founded_by access_of has_flag
register_group-within_example =
    register_group-within ⦃lib = ascii⦄ env (user (codes "Amy")) (codes "!ops") (codes "Amy") core
      (tt, tt) refl (λ e. omega (arith, e)) refl refl

register_group_iff_example :
    ((register_group ⦃lib = ascii⦄ env (user (codes "Eve")) (codes "!ops") core).1 ≡ true) ↔ (
      (true ≡ true)
      × (is_valid_group_name (codes "!ops") ≡ true)
      × (find_group ⦃lib = ascii⦄ core (codes "!ops") ≡ none)
      × ((core.opers_only ≡ false) ⊎ ((user (codes "Eve")).is_oper ≡ true))
      × IsBelowLimit ⦃lib = ascii⦄ (user (codes "Eve")) core)
register_group_iff_example =
    register_group_iff ⦃lib = ascii⦄ env (user (codes "Eve")) (codes "!ops") core

register_group-lookup_example :
    lookup
      (codes "!ops")
      (register_group ⦃lib = ascii⦄ env (user (codes "Eve")) (codes "!ops") core).0.groups
    ≡ (if codes "!ops" =? normalize_key ⦃lib = ascii⦄ (codes "!ops")
        then some (founded ⦃lib = ascii⦄ env core (codes "Eve") (codes "!ops"))
        else lookup (codes "!ops") core.groups)
unfolding register_group register_as create_group is_valid_group_name find_group normalize_key
    can_exceed_limits is_admin count_groups_founded_by access_of has_flag
register_group-lookup_example =
    register_group-lookup ⦃lib = ascii⦄ env (user (codes "Eve")) (codes "!ops") (codes "Eve")
      (codes "!ops") core refl refl

drop_group_iff_example :
    ((drop_group ⦃lib = ascii⦄ env (user (codes "Amy")) name (codes "k") false core).1 ≡ true) ↔ (
      (has_access ⦃lib = ascii⦄ dev (some (codes "Amy")) AccessFlag.founder ≡ true)
      × (false ≡ false)
      × IsConfirmed ⦃lib = ascii⦄ env (codes "Amy") (codes "k") dev core)
unfolding find_group normalize_key
drop_group_iff_example =
    drop_group_iff ⦃lib = ascii⦄ env (user (codes "Amy")) name (codes "k") (codes "Amy") dev core
      refl refl

drop_group-lookup_example :
    lookup
      (codes "!dev")
      (drop_group ⦃lib = ascii⦄ env (user (codes "Amy")) name (codes "k") false core).0.groups
    ≡ (if codes "!dev" =? normalize_key ⦃lib = ascii⦄ name
        then none
        else lookup (codes "!dev") core.groups)
unfolding drop_group drop_by_owner confirm remove_group is_stale drop_challenge_key find_group
    normalize_key has_access allows get_access_for access_of has_flag
drop_group-lookup_example =
    drop_group-lookup ⦃lib = ascii⦄ env (user (codes "Amy")) name (codes "k") (codes "!dev") false
      dev core refl refl refl

-- A file in which the name of `!dev` is `!ops`: a drop of `!dev` takes `!ops` out.
abbrev misnamed : Core
misnamed = record core {
  groups = (codes "!dev", record dev { name = codes "!ops" }) ∷ (codes "!ops", dev) ∷ [];
}

drop_misnamed :
    (remove_group ⦃lib = ascii⦄ env name (record dev { name = codes "!ops" }) misnamed).0.groups
    ≡ (codes "!dev", record dev { name = codes "!ops" }) ∷ []
unfolding remove_group normalize_key save_db
drop_misnamed = refl

-- Cat's invitation to another group is kept.
abbrev invited : Core
invited = record core {
  invites = (codes "cat", record { group = codes "!ops"; created = now; expires = 0 }) ∷ [];
}

drop_group-invites_example : ascii.equals_ci (codes "!ops") dev.name ≡ false
unfolding drop_group drop_by_owner confirm remove_group is_stale drop_challenge_key find_group
    normalize_key has_access allows get_access_for access_of has_flag save_db purge_expired_state
    is_expired
drop_group-invites_example =
    drop_group-invites ⦃lib = ascii⦄ env (user (codes "Amy")) name (codes "k") (codes "cat") false
      dev (record { group = codes "!ops"; created = now; expires = 0 }) invited (tt, tt) refl refl
      refl

set_option-rename_group_iff_example :
    ((set_option ⦃lib = ascii⦄ env
        (user (codes "Amy"))
        name
        (codes "groupname")
        (codes "!ops")
        core).1
      ≡ true)
    ↔ ((g : GroupRecord) × (find_group ⦃lib = ascii⦄ core name ≡ some g)
        × MayRename ⦃lib = ascii⦄ (user (codes "Amy")) (codes "!ops") core g)
set_option-rename_group_iff_example =
    set_option-rename_group_iff ⦃lib = ascii⦄ env (user (codes "Amy")) name (codes "groupname")
      (codes "!ops") core refl

rename_group-lookup_example :
    lookup (codes "!ops") (rename_group ⦃lib = ascii⦄ env name (codes "!ops") dev core).0.groups ≡ (
      if codes "!ops" =? normalize_key ⦃lib = ascii⦄ (codes "!ops")
      then some (record dev { name = codes "!ops" })
      else if codes "!ops" =? normalize_key ⦃lib = ascii⦄ name
      then none
      else lookup (codes "!ops") core.groups)
unfolding rename_group find_group normalize_key is_valid_group_name
rename_group-lookup_example =
    rename_group-lookup ⦃lib = ascii⦄ env name (codes "!ops") (codes "!ops") dev core refl refl refl

rename_group-invite_example :
    lookup (codes "cat") (rename_group ⦃lib = ascii⦄ env name (codes "!ops") dev core).0.invites
    ≡ some (record { group = codes "!ops"; created = now; expires = now + 604800 })
unfolding rename_group find_group normalize_key is_valid_group_name is_expired
rename_group-invite_example =
    rename_group-invite ⦃lib = ascii⦄ env name (codes "!ops") (codes "cat") dev
      (record { group = codes "!dev"; created = now; expires = now + 604800 }) core (tt, tt) refl
      refl refl refl

abbrev cats : Invite
cats = record { group = codes "!dev"; created = now; expires = now + 604800 }

abbrev amys : DropChallenge
amys = record { token = codes "k"; created = now }

purge_expired_state_iff_example :
    ((lookup (codes "cat") (purge_expired_state env core).invites ≡ some cats) ↔ (
      (lookup (codes "cat") core.invites ≡ some cats)
      × ((cats.expires ≡ 0) ⊎ (env.cur_time ≤ cats.expires))))
    × ((lookup (codes "amy|!dev") (purge_expired_state env core).drop_challenges ≡ some amys) ↔ (
        (lookup (codes "amy|!dev") core.drop_challenges ≡ some amys)
        × ((amys.created ≡ 0) ⊎ (env.cur_time ≤ amys.created + 1800))))
purge_expired_state_iff_example =
    purge_expired_state_iff env core (codes "cat") (codes "amy|!dev") cats amys (tt, tt) (tt, tt)

-- A write that is cut off after the first line.
abbrev full_disk : Env
full_disk = record env { writes = λ lines. elim lines [ [] ↦ [] | l ∷ ls ↦ l ∷ [] ] }

save_db_cut : (save_db full_disk core).disk.db ≡ some (codes "# GroupServ database" ∷ [])
unfolding save_db database_lines
save_db_cut = refl

abbrev old_file : Core
old_file = record core {
  disk = record {
    db = some (codes "# saved" ∷ codes "groupserv|1" ∷ codes "G|!dev|1|0|||||+" ∷ []);
    tmp = none;
  };
}

load_db-comment_example :
    ((load_db ⦃lib = ascii⦄ env old_file).groups ≡ [])
    × ((load_db ⦃lib = ascii⦄ env old_file).invites ≡ [])
unfolding is_legacy is_legacy_header until_nul contains
load_db-comment_example =
    load_db-comment ⦃lib = ascii⦄ env old_file (codes "# saved") (codes " saved")
      (codes "groupserv|1" ∷ codes "G|!dev|1|0|||||+" ∷ []) refl refl refl refl refl

-- A file with two memos for a limit of one, and with join flags that are not closed.
abbrev unread : Core
unread = record core {
  config = record settings { maxgroupmemos = 1 };
  groups = [];
  invites = [];
  drop_challenges = [];
  disk = record {
    db = some (
        codes "version=1"
        ∷ codes "group.!dev.name=!Dev"
        ∷ codes "group.!dev.joinflags=F"
        ∷ codes "group.!dev.access.0.account=amy"
        ∷ codes "group.!dev.memo.0.text=one"
        ∷ codes "group.!dev.memo.1.text=two"
        ∷ []);
    tmp = none;
  };
}

load_db-IsLoadedCore_example : IsLoadedCore (load_db ⦃lib = ascii⦄ env unread)
load_db-IsLoadedCore_example = load_db-IsLoadedCore ⦃lib = ascii⦄ env unread (tt, tt, tt, tt)

abbrev block : Block
block = record {
  text = λ k d. if k =? codes "client" then codes "GroupServ" else d;
  number = λ k d. 5;
  switch = λ k d. true;
}

abbrev conf : Conf
conf = record { own_module = block; get_module = λ n. block; find_bot = λ n. some n }

abbrev started : Core
started =
    record (unloaded ⦃lib = ascii⦄ (read_config ⦃lib = ascii⦄ (module_block conf))
      (record { db = none; tmp = none })) { bot = some (codes "GroupServ"); initialized = true }

started_state :
    on_reload ⦃lib = ascii⦄ env conf
      (unloaded ⦃lib = ascii⦄ settings (record { db = none; tmp = none }))
    ≡ some started
unfolding on_reload module_block load_db
started_state = refl
