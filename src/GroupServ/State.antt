-- ===== src/GroupServ/State.antt =====
-- Finding groups and accounts, counting, privileges and access.
use Prim.Native.Nat.{bit_and}
use anope_mods_contrib.Base.{
  ℕ, ◌+◌, ◌%◌, ◌^◌, Bool, false, not, ◌&&◌, ◌||◌, Option, none, some, Str, ltb, leb, ◌-◌, drop,
  ◌==◌, if◌then◌else◌, is_some, length,
}
use anope_mods_contrib.Base.Order.{text_order}
use anope_mods_contrib.Dict.{Dict, lookup, insert, retain, count_if}
use anope_mods_contrib.Anope.{Anope, Env, Source}
use anope_mods_contrib.GroupServ.AccessFlag
use anope_mods_contrib.GroupServ.GroupFlag
use anope_mods_contrib.GroupServ.Types.{Core, GroupRecord, Invite, DropChallenge}
use anope_mods_contrib.GroupServ.Text.{is_empty, normalize_key}
use anope_mods_contrib.GroupServ.Flags.{has_flag}

-- 7 days, and 30 minutes.
abbrev pub invite_ttl : ℕ
invite_ttl = 604800

abbrev pub drop_challenge_ttl : ℕ
drop_challenge_ttl = 1800

-- `expires && expires < CurTime`
unfoldable pub is_expired : ℕ → Invite → Bool
is_expired cur_time inv = not (inv.expires == 0) && ltb inv.expires cur_time

-- `created && created + DROP_CHALLENGE_TTL < CurTime`
unfoldable pub is_stale : ℕ → DropChallenge → Bool
is_stale cur_time c = not (c.created == 0) && ltb (c.created + drop_challenge_ttl) cur_time

unfoldable pub purge_expired_state : Env → Core → Core
purge_expired_state env core = record core {
  invites = retain (λ _ inv. not (is_expired env.cur_time inv)) core.invites;
  drop_challenges = retain (λ _ c. not (is_stale env.cur_time c)) core.drop_challenges;
}

unfoldable pub is_admin : Core → Source → Bool
is_admin core source = not (is_empty core.admin_priv) && source.has_priv core.admin_priv

unfoldable pub is_auspex : Core → Source → Bool
unfolding is_admin
is_auspex core source =
    (not (is_empty core.auspex_priv) && source.has_priv core.auspex_priv) || is_admin core source

unfoldable pub can_exceed_limits : Core → Source → Bool
unfolding is_admin
can_exceed_limits core source =
    (not (is_empty core.exceed_priv) && source.has_priv core.exceed_priv) || is_admin core source

unfoldable pub find_account : Env → Str → Option Str
find_account env account = elim (env.alias_account account) [
  | some nc ↦ some nc
  | none ↦ env.core_account account
]

-- An unsigned int counts the entries with the founder flag.
unfoldable pub count_founders : Dict Str ℕ → ℕ
unfolding has_flag
count_founders access = count_if (λ fl. has_flag fl AccessFlag.founder) access % 2 ^ 32

-- `maxgroupacs > 0`, no ACSNOLIMIT, no privilege, and `access.size() >= maxgroupacs`.
unfoldable pub is_list_full : Core → Source → GroupRecord → Bool
unfolding has_flag can_exceed_limits
is_list_full core source g =
    ltb 0 core.maxgroupacs
    && not (has_flag g.flags GroupFlag.acsnolimit)
    && not (can_exceed_limits core source)
    && not (ltb (length g.access) core.maxgroupacs)

-- ClampMemos: the oldest go where there are more than the limit, and 0 is no limit.
unfoldable pub clamp_memos : ℕ → GroupRecord → GroupRecord
clamp_memos maxgroupmemos g =
    if maxgroupmemos == 0
    then g
    else if leb (length g.memos) maxgroupmemos
    then g
    else record g { memos = drop (length g.memos - maxgroupmemos) g.memos }

module _ ⦃lib : Anope⦄ where
  unfoldable pub find_group : Core → Str → Option GroupRecord
  unfolding normalize_key
  find_group core name = lookup (normalize_key name) core.groups

  -- The record that FindGroup points to, written in place.
  unfoldable pub put_group : Core → Str → GroupRecord → Core
  unfolding normalize_key
  put_group core name g = record core { groups = insert (normalize_key name) g core.groups }

  unfoldable pub does_group_exist : Core → Str → Bool
  unfolding find_group
  does_group_exist core groupname = is_some (find_group core groupname)

  unfoldable pub access_of : GroupRecord → Str → ℕ
  unfolding normalize_key
  access_of g display = elim (lookup (normalize_key display) g.access) [
    | none ↦ AccessFlag.none
    | some flags ↦ flags
  ]

  -- GetAccessFor; no account is a null pointer.
  unfoldable pub get_access_for : GroupRecord → Option Str → ℕ
  unfolding access_of
  get_access_for g none = AccessFlag.none
  get_access_for g (some display) = access_of g display

  -- HasAccess, on the flags that GetAccessFor gives.
  unfoldable pub allows : ℕ → ℕ → Bool
  unfolding has_flag
  allows flags required =
      if has_flag flags AccessFlag.ban && not (has_flag flags AccessFlag.founder)
      then false
      else bit_and flags required == required

  unfoldable pub has_access : GroupRecord → Option Str → ℕ → Bool
  unfolding get_access_for allows
  has_access g nc required = allows (get_access_for g nc) required

  unfoldable pub is_member : ℕ → Bool
  unfolding has_flag
  is_member flags = if flags == AccessFlag.none then false else not (has_flag flags AccessFlag.ban)

  unfoldable pub is_member_of_group : Core → Str → Option Str → Bool
  unfolding find_group get_access_for is_member
  is_member_of_group core groupname none = false
  is_member_of_group core groupname (some display) = elim (find_group core groupname) [
    | none ↦ false
    | some g ↦ is_member (get_access_for g (some display))
  ]

  unfoldable pub has_group_access : Core → Str → Option Str → ℕ → Bool
  unfolding find_group has_access
  has_group_access core groupname none required = false
  has_group_access core groupname (some display) required = elim (find_group core groupname) [
    | none ↦ false
    | some g ↦ has_access g (some display) required
  ]

  -- CountGroupsFoundedBy: an unsigned int.
  unfoldable pub count_groups_founded_by : Core → Option Str → ℕ
  unfolding access_of has_flag
  count_groups_founded_by core none = 0
  count_groups_founded_by core (some display) =
      count_if (λ g. has_flag (access_of g display) AccessFlag.founder) core.groups % 2 ^ 32

  unfoldable pub get_group_vhost : Core → Str → Option Str
  unfolding find_group
  get_group_vhost core groupname = elim (find_group core groupname) [
    | none ↦ none
    | some g ↦ some g.vhost
  ]

  unfoldable pub get_group_flags : Core → Str → Option ℕ
  unfolding find_group
  get_group_flags core groupname = elim (find_group core groupname) [
    | none ↦ none
    | some g ↦ some g.flags
  ]
