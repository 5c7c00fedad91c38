-- ===== src/GroupServ/Show.antt =====
-- ShowInfo, ShowFlags, ListGroups, ListChans and GetGroupsForAccount, which change nothing.
use anope_mods_contrib.Base.{
  ℕ, ◌+◌, ◌%◌, ◌^◌, Bool, true, not, ◌&&◌, ◌||◌, Option, none, some, List, [], ◌∷◌, ◌++◌, Str,
  codes, ◌==◌, if◌then◌else◌, length, keep_if,
}
use anope_mods_contrib.Base.Order.{text_order, ◌=?◌}
use anope_mods_contrib.Dict.{Dict}
use anope_mods_contrib.Anope.{Anope, Env, Source, Channel}
use anope_mods_contrib.GroupServ.AccessFlag
use anope_mods_contrib.GroupServ.GroupFlag
use anope_mods_contrib.GroupServ.Types.{Core, GroupRecord}
use anope_mods_contrib.GroupServ.Text.{is_empty, normalize_key}
use anope_mods_contrib.GroupServ.Flags.{has_flag, flags_to_string, group_flags_to_string}
use anope_mods_contrib.GroupServ.Message.{Message, Output, reply, Outcome, refuse}
use anope_mods_contrib.GroupServ.State.{
  is_auspex, find_group, access_of, get_access_for, has_access,
}
use Prim.Native.Nat.Ordering.{gt}

-- `std::sort` of names: by insertion.
unfoldable pub insert_name : Str → List Str → List Str
insert_name s [] = s ∷ []
insert_name s (t ∷ ts) =
    let rest = insert_name s ts in elim (text_order.cmp s t) [ gt ↦ t ∷ rest | _ ↦ s ∷ t ∷ ts ]

unfoldable pub sort_names : List Str → List Str
unfolding insert_name
sort_names [] = []
sort_names (s ∷ ss) = insert_name s (sort_names ss)

abbrev line_if : Str → (Str → Message) → List Output
line_if s m = if is_empty s then [] else reply (m s) ∷ []

-- The accounts with the founder flag, joined by commas.
unfoldable pub founders : Dict Str ℕ → Str → Str
unfolding has_flag
founders [] out = out
founders ((acct, fl) ∷ a) out = founders a (
    if has_flag fl AccessFlag.founder
    then (if is_empty out then acct else out ++ codes ", " ++ acct)
    else out)

-- `allowed` in ShowInfo, on the caller's flags.
unfoldable pub may_see_info : Core → Source → GroupRecord → ℕ → Bool
unfolding is_auspex has_flag
may_see_info core source g access =
    is_auspex core source
    || has_flag g.flags GroupFlag.public
    || (not (access == AccessFlag.none)
        && (not (has_flag access AccessFlag.ban) || has_flag access AccessFlag.founder))

abbrev flag_lines : ℕ → Dict Str ℕ → List Output
flag_lines i [] = []
flag_lines i ((acct, flags) ∷ a) =
    reply (Message.flags_line i acct (flags_to_string flags)) ∷ flag_lines (i + 1) a

-- The names of the groups that are public, or of all.
unfoldable pub visible_names : Bool → Dict Str GroupRecord → List Str
unfolding has_flag
visible_names can_see_private [] = []
visible_names can_see_private ((_, g) ∷ groups) =
    let rest = visible_names can_see_private groups in
    if can_see_private || has_flag g.flags GroupFlag.public then g.name ∷ rest else rest

abbrev reply_each : (Str → Message) → List Str → List Output
reply_each m [] = []
reply_each m (s ∷ ss) = reply (m s) ∷ reply_each m ss

module _ ⦃lib : Anope⦄ where
  info_lines : GroupRecord → List Output
  unfolding flags_to_string group_flags_to_string founders
  info_lines g =
      reply (Message.info_title g.name)
      ∷ reply (Message.info_registered g.regtime)
      ∷ reply (Message.info_flags (group_flags_to_string g.flags))
      ∷ (line_if (founders g.access []) Message.info_founders
          ++ line_if g.description Message.info_description
          ++ line_if g.channel Message.info_channel
          ++ line_if g.url Message.info_url
          ++ line_if g.email Message.info_email
          ++ line_if g.vhost Message.info_vhost
          ++ (if g.joinflags == AccessFlag.none
              then []
              else reply (Message.info_joinflags (flags_to_string g.joinflags)) ∷ [])
          ++ reply (Message.info_entries (length g.access % 2 ^ 32))
            ∷ reply Message.end_of_info
            ∷ [])

  unfoldable pub show_info : Source → Str → Core → Outcome
  unfolding find_group get_access_for may_see_info info_lines
  show_info source groupname core = elim (find_group core groupname) [
    | none ↦ refuse (Message.no_group groupname) core
    | some g ↦
        if may_see_info core source g (get_access_for g source.account)
        then (core, true, info_lines g)
        else refuse Message.access_denied core
  ]

  unfoldable pub show_flags : Source → Str → Core → Outcome
  unfolding find_group has_access is_auspex
  show_flags source groupname core = elim (find_group core groupname) [
    | none ↦ refuse (Message.the_group_missing groupname) core
    | some g ↦
        if has_access g source.account AccessFlag.aclview || is_auspex core source
        then (
          core,
          true,
          reply Message.flags_heading
              ∷ reply Message.ruler
              ∷ (flag_lines 1 g.access
                  ++ reply Message.ruler ∷ reply (Message.end_of_flags g.name) ∷ []),
        )
        else refuse Message.access_denied core
  ]

  unfoldable pub list_groups : Source → Str → Core → Outcome
  unfolding is_auspex visible_names sort_names
  list_groups source pattern core = elim source.account [
    | none ↦ refuse Message.identify_to_list core
    | some display ↦
        let effective = if is_empty pattern then codes "!*" else pattern in
        let names = sort_names (visible_names (is_auspex core source) core.groups) in
        let hits = keep_if (λ name. lib.wildcard name effective) names in
        let matches = length hits % 2 ^ 32 in
        let last =
          if matches == 0 then Message.no_match effective else Message.matches matches effective in
        (
          core,
          true,
          reply (Message.groups_matching effective)
              ∷ (reply_each Message.group_line hits ++ reply last ∷ []),
        )
  ]

  -- The channels that are associated with the group of that name.
  unfoldable pub channels_of : Str → List (Option Channel) → List Str
  unfolding normalize_key
  channels_of name [] = []
  channels_of name (none ∷ cs) = channels_of name cs
  channels_of name (some ci ∷ cs) =
      let rest = channels_of name cs in
      elim ci.group [
        | none ↦ rest
        | some group ↦ if normalize_key group =? normalize_key name then ci.name ∷ rest else rest
      ]

  channel_lines : GroupRecord → List Str → List Output
  channel_lines g [] = reply (Message.channels_of g.name) ∷ reply Message.no_channels ∷ []
  channel_lines g (c ∷ cs) =
      reply (Message.channels_of g.name)
      ∷ (reply_each Message.channel_line (c ∷ cs)
          ++ reply (Message.channels_shown (length (c ∷ cs) % 2 ^ 32)) ∷ [])

  unfoldable pub list_chans : Env → Source → Str → Core → Outcome
  unfolding find_group has_access is_auspex channels_of sort_names channel_lines
  list_chans env source groupname core = elim (find_group core groupname) [
    | none ↦ refuse (Message.the_group_missing groupname) core
    | some g ↦ elim source.account [
      | none ↦ refuse Message.identify_to_listchans core
      | some display ↦
          if not (has_access g (some display) AccessFlag.aclview || is_auspex core source)
          then refuse Message.access_denied core
          else if not env.has_chanaccess
          then refuse Message.listchans_unavailable core
          else (core, true, channel_lines g (sort_names (channels_of g.name env.channels)))
    ]
  ]

  -- GetGroupsForAccount on the groups by key.
  unfoldable pub groups_for : Str → Bool → Dict Str GroupRecord → List Str
  unfolding access_of has_flag
  groups_for display show_hidden [] = []
  groups_for display show_hidden ((_, g) ∷ groups) =
      let rest = groups_for display show_hidden groups in
      let flags = access_of g display in
      if flags == AccessFlag.none
      then rest
      else if has_flag flags AccessFlag.ban
      then rest
      else if not show_hidden && not (has_flag g.flags GroupFlag.public)
      then rest
      else g.name ∷ rest

  unfoldable pub get_groups_for_account : Option Str → Bool → Core → List Str
  unfolding groups_for
  get_groups_for_account none show_hidden core = []
  get_groups_for_account (some display) show_hidden core =
      groups_for display show_hidden core.groups
