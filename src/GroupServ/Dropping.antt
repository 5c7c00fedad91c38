-- ===== src/GroupServ/Dropping.antt =====
-- DropGroup: the two steps of a drop, and what it takes along.
use anope_mods_contrib.Base.{
  ◌≡◌, ◌↔◌, inl, inr, Bool, true, false, not, some, none, Str, arith, Option-cases, if◌then◌else◌,
}
use anope_mods_contrib.Base.Order.{text_order, ◌=?◌}
use anope_mods_contrib.Dict.{lookup, retain}
use anope_mods_contrib.Dict.Laws.{IsSorted, retain-IsSorted, lookup-retain, lookup-erase}
use anope_mods_contrib.Anope.{Anope, Env, Source}
use anope_mods_contrib.GroupServ.AccessFlag
use anope_mods_contrib.GroupServ.Types.{Core, GroupRecord, DropChallenge, Invite}
use anope_mods_contrib.GroupServ.Text.{is_empty, normalize_key, drop_challenge_key}
use anope_mods_contrib.GroupServ.State.{
  find_group, has_access, is_stale, is_expired, purge_expired_state,
}
use anope_mods_contrib.GroupServ.Save.{save_db}
use anope_mods_contrib.GroupServ.Register.{
  remove_group, challenge, confirm, drop_by_owner, drop_group,
}

module _ ⦃lib : Anope⦄ where
  -- A challenge that was stored for the account and the group, is not too old and has the key.
  abbrev pub IsConfirmed : Env → Str → Str → GroupRecord → Core → Type 0
  IsConfirmed env display key g core =
      (c : DropChallenge) × (lookup (drop_challenge_key display g.name) core.drop_challenges
        ≡ some c)
      × (is_stale env.cur_time c ≡ false)
      × (c.token ≡ key)

  confirm_iff :
      (env : Env) (display key groupname : Str) (g : GroupRecord) (core : Core)
      → ((confirm env (drop_challenge_key display g.name) key groupname g core).1 ≡ true)
        ↔ IsConfirmed env display key g core
  unfolding confirm remove_group
  confirm_iff env display key groupname g core =
      elim (Option-cases (lookup (drop_challenge_key display g.name) core.drop_challenges)) [
        | inl e ↦ (λ h. absurd (ground (arith, e, h)), λ h. ground (arith, e, h.1))
        | inr (c, e) ↦ (
          λ h. (c, e, ground (arith, e, h), ground (arith, e, h, text_order.key_eq c.token key)),
          λ h. ground (arith, e, h.1, h.2, h.3, text_order.same_key key),
        )
      ]

  -- A drop that is not forced goes through exactly where the caller has the founder's power over
  -- the group and gives, as a key that is not empty, the token of a challenge that an earlier call
  -- stored for this account and group and that is not older than half an hour.
  pub drop_group_iff :
      (env : Env) (source : Source) (groupname key display : Str) (g : GroupRecord) (core : Core)
      → source.account ≡ some display
      → find_group core groupname ≡ some g
      → ((drop_group env source groupname key false core).1 ≡ true) ↔ (
          (has_access g source.account AccessFlag.founder ≡ true)
          × (is_empty key ≡ false)
          × IsConfirmed env display key g core)
  unfolding drop_group drop_by_owner challenge
  drop_group_iff env source groupname key display g core a e =
      ground (arith, a, e, confirm_iff env display key groupname g core)

  module _ (env : Env) (groupname : Str) (g : GroupRecord) (core : Core) where
    remove_group-lookup :
        (j : Str)
        → lookup j (remove_group env groupname g core).0.groups
          ≡ (if j =? normalize_key g.name then none else lookup j core.groups)
    unfolding remove_group save_db
    remove_group-lookup j = ground (arith, lookup-erase j (normalize_key g.name) core.groups)

    -- Of the invitations only those to other groups are left.
    remove_group-invites :
        (acct : Str) (inv : Invite)
        → IsSorted core.invites
        → lookup acct (remove_group env groupname g core).0.invites ≡ some inv
        → lib.equals_ci inv.group g.name ≡ false
    unfolding remove_group save_db purge_expired_state
    remove_group-invites acct inv s h = ground (
      arith,
      h,
      lookup-retain (λ _ inv. not (lib.equals_ci inv.group g.name)) acct core.invites s,
      lookup-retain (λ _ inv. not (is_expired env.cur_time inv)) acct
          (retain (λ _ inv. not (lib.equals_ci inv.group g.name)) core.invites)
          (retain-IsSorted _ _ s),
    )

    confirm-lookup :
        (chal_key key j : Str)
        → (confirm env chal_key key groupname g core).1 ≡ true
        → lookup j (confirm env chal_key key groupname g core).0.groups
          ≡ (if j =? normalize_key g.name then none else lookup j core.groups)
    unfolding confirm remove_group save_db
    confirm-lookup chal_key key j h =
        ground (arith, h, lookup-erase j (normalize_key g.name) core.groups)

    confirm-invites :
        (chal_key key acct : Str) (inv : Invite)
        → IsSorted core.invites
        → (confirm env chal_key key groupname g core).1 ≡ true
        → lookup acct (confirm env chal_key key groupname g core).0.invites ≡ some inv
        → lib.equals_ci inv.group g.name ≡ false
    unfolding confirm remove_group save_db purge_expired_state
    confirm-invites chal_key key acct inv s h i = ground (
      arith,
      h,
      i,
      lookup-retain (λ _ inv. not (lib.equals_ci inv.group g.name)) acct core.invites s,
      lookup-retain (λ _ inv. not (is_expired env.cur_time inv)) acct
          (retain (λ _ inv. not (lib.equals_ci inv.group g.name)) core.invites)
          (retain-IsSorted _ _ s),
    )

  -- Where the group that is asked for stands under the key of its own name, a drop that goes through,
  -- forced or confirmed, takes out this one group: no other group is touched.
  pub drop_group-lookup :
      (env : Env) (source : Source) (groupname key j : Str) (force : Bool) (g : GroupRecord)
      (core : Core)
      → find_group core groupname ≡ some g
      → normalize_key g.name ≡ normalize_key groupname
      → (drop_group env source groupname key force core).1 ≡ true
      → lookup j (drop_group env source groupname key force core).0.groups
        ≡ (if j =? normalize_key groupname then none else lookup j core.groups)
  unfolding drop_group drop_by_owner challenge
  drop_group-lookup env source groupname key j force g core e n h =
      elim (Option-cases source.account) [
        | inl a ↦ ground (arith, e, a, h, n, remove_group-lookup env groupname g core j)
        | inr (display, a) ↦ ground (
          arith,
          e,
          a,
          h,
          n,
          remove_group-lookup env groupname g core j,
          confirm-lookup env groupname g core (drop_challenge_key display g.name) key j,
        )
      ]

  -- With sorted invitations, no invitation to the group outlives a drop of it that goes through.
  pub drop_group-invites :
      (env : Env) (source : Source) (groupname key acct : Str) (force : Bool) (g : GroupRecord)
      (inv : Invite) (core : Core)
      → IsSorted core.invites
      → find_group core groupname ≡ some g
      → (drop_group env source groupname key force core).1 ≡ true
      → lookup acct (drop_group env source groupname key force core).0.invites ≡ some inv
      → lib.equals_ci inv.group g.name ≡ false
  unfolding drop_group drop_by_owner challenge
  drop_group-invites env source groupname key acct force g inv core s e h i =
      elim (Option-cases source.account) [
        | inl a ↦ ground (arith, e, a, h, i, remove_group-invites env groupname g core acct inv s)
        | inr (display, a) ↦ ground (
          arith,
          e,
          a,
          h,
          i,
          remove_group-invites env groupname g core acct inv s,
          confirm-invites env groupname g core (drop_challenge_key display g.name) key acct inv s,
        )
      ]
