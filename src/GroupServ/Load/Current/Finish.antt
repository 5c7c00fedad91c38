-- ===== src/GroupServ/Load/Current/Finish.antt =====
-- The end of LoadDB: the version check, and the groups and invitations made of what was read.
use anope_mods_contrib.Base.{
  ℕ, ◌%◌, ◌^◌, false, not, ◌&&◌, ◌||◌, Option, none, some, List, [], ◌∷◌, Str, ◌==◌, if◌then◌else◌,
}
use anope_mods_contrib.Base.Order.{text_order}
use anope_mods_contrib.Dict.{Dict, lookup, insert}
use anope_mods_contrib.Anope.{Anope}
use anope_mods_contrib.GroupServ.AccessFlag
use anope_mods_contrib.GroupServ.Types.{GroupRecord, Memo, Invite}
use anope_mods_contrib.GroupServ.Text.{is_empty, normalize_key}
use anope_mods_contrib.GroupServ.Flags.{parse_flags}
use anope_mods_contrib.GroupServ.State.{clamp_memos}
use anope_mods_contrib.GroupServ.Load.Legacy.{Tables}
use anope_mods_contrib.GroupServ.Load.Current.Fields.{
  AccessTmp, InviteTmp, Reading, or_new, read_lines,
}

-- The memos by index, but for those with no text.
unfoldable pub finish_memos : Dict ℕ Memo → List Memo
finish_memos [] = []
finish_memos ((_, memo) ∷ ms) =
    let rest = finish_memos ms in if is_empty memo.text then rest else memo ∷ rest

module _ ⦃lib : Anope⦄ where
  -- The access entries by index, but for those with no account.
  unfoldable pub finish_access : Dict ℕ AccessTmp → Dict Str ℕ → Dict Str ℕ
  unfolding normalize_key
  finish_access [] access = access
  finish_access ((_, entry) ∷ es) access = finish_access es (
      if is_empty entry.account
      then access
      else insert (normalize_key entry.account) (entry.flags % 2 ^ 32) access)

  -- One round of the loop over `new_groups`. A group with no access entry keeps no memo.
  unfoldable pub finish_group : ℕ → Reading → Str → GroupRecord → GroupRecord
  unfolding finish_access finish_memos clamp_memos
  finish_group maxgroupmemos r gkey g =
      let named : GroupRecord = record g {
        name = (if is_empty g.name then gkey else g.name);
        joinflags = parse_flags (or_new [] (lookup gkey r.joinflags_tmp)) false AccessFlag.none;
        access = [];
      } in
      elim (lookup gkey r.access_tmp) [
        | none ↦ named
        | some entries ↦
            let filled : GroupRecord = record named {
              access = finish_access entries [];
              memos = [];
            } in
            elim (lookup gkey r.memos_tmp) [
              | none ↦ filled
              | some memos ↦
                  clamp_memos maxgroupmemos (record filled { memos = finish_memos memos })
            ]
      ]

  unfoldable pub finish_groups : ℕ → Reading → Dict Str GroupRecord → Dict Str GroupRecord
  unfolding finish_group
  finish_groups maxgroupmemos r [] = []
  finish_groups maxgroupmemos r ((gkey, g) ∷ groups) =
      (gkey, finish_group maxgroupmemos r gkey g) ∷ finish_groups maxgroupmemos r groups

  unfoldable pub finish_invites : Dict ℕ InviteTmp → Dict Str Invite → Dict Str Invite
  unfolding normalize_key
  finish_invites [] invites = invites
  finish_invites ((_, inv) ∷ invs) invites =
      let out : Invite = record {
        group = inv.group;
        created = inv.created;
        expires = inv.expires;
      } in
      finish_invites invs (
        if is_empty inv.account || is_empty inv.group
        then invites
        else insert (normalize_key inv.account) out invites)

  -- `none` where the version is of another format.
  unfoldable pub load_current : ℕ → List Str → Option Tables
  unfolding read_lines finish_groups finish_invites
  load_current maxgroupmemos lines =
      let start : Reading = record {
        version = 0;
        groups = [];
        joinflags_tmp = [];
        access_tmp = [];
        memos_tmp = [];
        invites_tmp = [];
      } in
      let r = read_lines lines start in
      if not (r.version == 0) && not (r.version == 1)
      then none
      else some (record {
        groups = finish_groups maxgroupmemos r r.groups;
        invites = finish_invites r.invites_tmp [];
      })
