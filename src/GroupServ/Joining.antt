-- ===== src/GroupServ/Joining.antt =====
-- JoinGroup: when it lets an account in, and what it leaves.
use anope_mods_contrib.Base.{
  ℕ, zero, suc, ◌≡◌, ◌↔◌, ◌⊎◌, inl, inr, refl, Bool, true, false, some, none, Str, arith,
  Bool-cases, Option-cases,
}
use anope_mods_contrib.Base.Order.{text_order}
use anope_mods_contrib.Dict.{lookup, insert}
use anope_mods_contrib.Dict.Laws.{lookup-insert}
use anope_mods_contrib.Anope.{Anope, Env, Source}
use anope_mods_contrib.GroupServ.GroupFlag
use anope_mods_contrib.GroupServ.Types.{Core, GroupRecord, Invite}
use anope_mods_contrib.GroupServ.Text.{normalize_key}
use anope_mods_contrib.GroupServ.Flags.{has_flag}
use anope_mods_contrib.GroupServ.State.{is_expired, is_list_full, find_group}
use anope_mods_contrib.GroupServ.Members.{find_invite, granted, add_member, join_as, join_group}
use anope_mods_contrib.GroupServ.State.{put_group}
use anope_mods_contrib.GroupServ.Save.{save_db}
use anope_mods_contrib.GroupServ.Groups.{key_self}

module _ ⦃lib : Anope⦄ where
  -- An invitation to the group that has not run out.
  abbrev pub HasInvite : Env → Str → GroupRecord → Core → Type 0
  HasInvite env acct g core =
      (inv : Invite) × (lookup acct core.invites ≡ some inv)
      × (is_expired env.cur_time inv ≡ false)
      × (lib.equals_ci inv.group g.name ≡ true)

  find_invite_iff :
      (env : Env) (acct : Str) (g : GroupRecord) (core : Core)
      → ((find_invite env acct g core).1 ≡ true) ↔ HasInvite env acct g core
  unfolding find_invite
  find_invite_iff env acct g core = elim (Option-cases (lookup acct core.invites)) [
    | inl e ↦ (λ h. absurd (ground (arith, e, h)), λ h. ground (arith, e, h.1))
    | inr (inv, e) ↦ (
      λ h. (inv, e, ground (arith, e, h), ground (arith, e, h)),
      λ h. ground (arith, e, h.1, h.2, h.3),
    )
  ]

  -- The flags of a new member: the group's, or the configured ones where the group has none.
  abbrev pub member_flags : Core → GroupRecord → ℕ
  member_flags core g = elim g.joinflags [ zero ↦ core.default_joinflags | suc f ↦ suc f ]

  -- The group with its new member.
  abbrev pub with_member : Core → Str → GroupRecord → GroupRecord
  with_member core acct g = record g { access = insert acct (member_flags core g) g.access }

  -- The conditions on which a stranger is let in without an invitation.
  abbrev pub IsOpenTo : Core → Source → GroupRecord → Type 0
  IsOpenTo core source g =
      (core.enable_open_groups ≡ true)
      × (has_flag g.flags GroupFlag.openly ≡ true)
      × (is_list_full core source g ≡ false)

  add_member-find :
      (env : Env) (groupname acct : Str) (g : GroupRecord) (invited : Bool) (core : Core)
      → find_group (add_member env groupname acct g invited core).0 groupname
        ≡ some (with_member core acct g)
  unfolding granted add_member save_db find_group put_group
  add_member-find env groupname acct g invited core = ground (
    arith,
    lookup-insert (normalize_key groupname) (normalize_key groupname) (with_member core acct g)
        core.groups,
    key_self (normalize_key groupname),
  )

  module _ (env : Env) (source : Source) (groupname acct : Str) (g : GroupRecord)
      (core : Core) where
    seen_alike :
        ((find_invite env acct g core).0.enable_open_groups ≡ core.enable_open_groups)
        × (is_list_full (find_invite env acct g core).0 source g ≡ is_list_full core source g)
        × ((find_invite env acct g core).0.default_joinflags ≡ core.default_joinflags)
    unfolding find_invite is_list_full
    seen_alike = elim (Option-cases (lookup acct core.invites)) [
      | inl e ↦ rw (e, find_invite) (refl, refl, refl)
      | inr (inv, e) ↦ elim (Bool-cases (is_expired env.cur_time inv)) [
        | inl x ↦ rw (e, find_invite, x) (refl, refl, refl)
        | inr x ↦ rw (e, find_invite, x) (refl, refl, refl)
      ]
    ]

    join_as_lem :
        lookup acct g.access ≡ none
        → ((join_as env source groupname acct g core).1 ≡ true)
          ↔ (((find_invite env acct g core).1 ≡ true) ⊎ IsOpenTo core source g)
    unfolding join_as
    join_as_lem new = ground (arith, new, seen_alike)

    join_as-find :
        (join_as env source groupname acct g core).1 ≡ true
        → find_group (join_as env source groupname acct g core).0 groupname
          ≡ some (with_member core acct g)
    unfolding join_as
    join_as-find h = ground (
      arith,
      h,
      seen_alike,
      add_member-find env groupname acct g (find_invite env acct g core).1
          (find_invite env acct g core).0,
    )

module _ ⦃lib : Anope⦄ where
  -- On a group that is there, JoinGroup takes in an account that is not in its access list exactly
  -- where the account holds an invitation to it that has not run out, or open groups are on, the
  -- group is open and its list is not full.
  pub join_group_iff :
      (env : Env) (source : Source) (groupname display : Str) (g : GroupRecord) (core : Core)
      → source.account ≡ some display
      → find_group core groupname ≡ some g
      → lookup (normalize_key display) g.access ≡ none
      → ((join_group env source groupname core).1 ≡ true)
        ↔ (HasInvite env (normalize_key display) g core ⊎ IsOpenTo core source g)
  unfolding join_group
  join_group_iff env source groupname display g core a e new = ground (
    arith,
    a,
    e,
    join_as_lem env source groupname (normalize_key display) g core new,
    find_invite_iff env (normalize_key display) g core,
  )

  -- After a JoinGroup that succeeds the group is what it was, with one entry more: the account, with
  -- the group's join flags, or the configured ones where the group has none.
  pub join_group-find :
      (env : Env) (source : Source) (groupname display : Str) (g : GroupRecord) (core : Core)
      → source.account ≡ some display
      → find_group core groupname ≡ some g
      → (join_group env source groupname core).1 ≡ true
      → find_group (join_group env source groupname core).0 groupname
        ≡ some (with_member core (normalize_key display) g)
  unfolding join_group
  join_group-find env source groupname display g core a e h =
      ground (arith, a, e, h, join_as-find env source groupname (normalize_key display) g core)
