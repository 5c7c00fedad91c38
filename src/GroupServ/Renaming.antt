-- ===== src/GroupServ/Renaming.antt =====
-- SET GROUPNAME: what a rename moves along.
use anope_mods_contrib.Base.{
  ◌≡◌, ◌↔◌, inl, inr, true, false, not, some, none, Str, codes, arith, if◌then◌else◌, is_some,
  Option-cases,
}
use anope_mods_contrib.Base.Order.{text_order, ◌=?◌}
use anope_mods_contrib.Dict.{lookup, erase, map_values}
use anope_mods_contrib.Dict.Laws.{
  IsSorted, lookup-retain, lookup-insert, lookup-erase, lookup-map_values, map_values-IsSorted,
}
use anope_mods_contrib.Anope.{Anope, Env, Source}
use anope_mods_contrib.GroupServ.AccessFlag
use anope_mods_contrib.GroupServ.Types.{Core, GroupRecord, Invite}
use anope_mods_contrib.GroupServ.Text.{normalize_key, is_valid_group_name}
use anope_mods_contrib.GroupServ.State.{find_group, has_access, is_expired, purge_expired_state}
use anope_mods_contrib.GroupServ.Save.{save_db}
use anope_mods_contrib.GroupServ.Settings.{required_for, apply_setting, set_option}
use anope_mods_contrib.GroupServ.Settings.Rename.{rename_invite, move_group, rename_group}

module _ ⦃lib : Anope⦄ where
  -- The account has SET and founder, and the new name is valid and free.
  abbrev pub MayRename : Source → Str → Core → GroupRecord → Type 0
  MayRename source value core g =
      (is_some source.account ≡ true)
      × (has_access g source.account AccessFlag.set ≡ true)
      × (has_access g source.account AccessFlag.founder ≡ true)
      × (is_valid_group_name (lib.trim value) ≡ true)
      × (find_group core (lib.trim value) ≡ none)

  -- A call of SetOption with GROUPNAME goes through exactly where the group is there, the caller is
  -- logged in to an account that has the flags SET and founder for it, and the new name, trimmed, is
  -- valid and no group has it.
  pub set_option-rename_group_iff :
      (env : Env) (source : Source) (groupname setting value : Str) (core : Core)
      → lib.upper setting ≡ codes "GROUPNAME"
      → ((set_option env source groupname setting value core).1 ≡ true)
        ↔ ((g : GroupRecord) × (find_group core groupname ≡ some g) × MayRename source value core g)
  unfolding set_option required_for apply_setting rename_group
  set_option-rename_group_iff env source groupname setting value core u =
      elim (Option-cases (find_group core groupname)) [
        | inl e ↦ (λ h. absurd (ground (arith, e, h)), λ h. absurd (ground (arith, e, h.1)))
        | inr (g, e) ↦ elim (Option-cases source.account) [
          | inl a ↦ (λ h. absurd (ground (arith, e, a, h)), λ h. absurd (ground (arith, a, h.2.0)))
          | inr (display, a) ↦
              (λ h. (g, e, ground (arith, e, a, u, h)), λ h. ground (arith, h.1, a, u, h.2))
        ]
      ]

  -- Where the group stands under the key of its own name, a rename that goes through leaves it, with
  -- the new name and all else as it was, under the key of the new name; under the key of the old one
  -- there is none, and every other group is untouched.
  pub rename_group-lookup :
      (env : Env) (groupname value j : Str) (g : GroupRecord) (core : Core)
      → find_group core groupname ≡ some g
      → normalize_key g.name ≡ normalize_key groupname
      → (rename_group env groupname value g core).1 ≡ true
      → lookup j (rename_group env groupname value g core).0.groups ≡ (
          if j =? normalize_key (lib.trim value)
          then some (record g { name = lib.trim value })
          else if j =? normalize_key groupname
          then none
          else lookup j core.groups)
  unfolding rename_group move_group save_db find_group
  rename_group-lookup env groupname value j g core e n h = ground (
    arith,
    e,
    h,
    n,
    lookup-insert j (normalize_key (lib.trim value)) (record g { name = lib.trim value })
        (erase (normalize_key groupname) core.groups),
    lookup-erase (normalize_key (lib.trim value)) (normalize_key groupname) core.groups,
    lookup-erase j (normalize_key groupname) core.groups,
  )

  -- With sorted invitations, an invitation that has not run out and names the group as the call does
  -- names the new name after a rename that goes through.
  pub rename_group-invite :
      (env : Env) (groupname value acct : Str) (g : GroupRecord) (inv : Invite) (core : Core)
      → IsSorted core.invites
      → lookup acct core.invites ≡ some inv
      → is_expired env.cur_time inv ≡ false
      → lib.equals_ci inv.group groupname ≡ true
      → (rename_group env groupname value g core).1 ≡ true
      → lookup acct (rename_group env groupname value g core).0.invites
        ≡ some (record inv { group = lib.trim value })
  unfolding rename_group move_group save_db purge_expired_state rename_invite is_expired
  rename_group-invite env groupname value acct g inv core s e x c h = ground (
    arith,
    e,
    x,
    c,
    h,
    lookup-map_values (rename_invite groupname (lib.trim value)) acct core.invites,
    lookup-retain (λ _ inv. not (is_expired env.cur_time inv)) acct
        (map_values (rename_invite groupname (lib.trim value)) core.invites)
        (map_values-IsSorted _ _ s),
  )
