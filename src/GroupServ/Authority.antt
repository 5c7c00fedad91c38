-- ===== src/GroupServ/Authority.antt =====
-- Who may make which call of GroupServCore.
use anope_mods_contrib.Base.{
  ℕ, ◌≡◌, ◌≢◌, ◌⊎◌, inl, inr, Bool, true, false, ◌||◌, some, none, Str, codes, arith, Option-cases,
  if◌then◌else◌,
}
use anope_mods_contrib.Base.Order.{text_order, ◌=?◌}
use anope_mods_contrib.Anope.{Anope, Env, Source}
use anope_mods_contrib.GroupServ.AccessFlag
use anope_mods_contrib.GroupServ.Types.{Core, GroupRecord}
use anope_mods_contrib.GroupServ.GroupFlag
use anope_mods_contrib.GroupServ.Flags.{has_flag}
use anope_mods_contrib.GroupServ.Show.{may_see_info, show_info, show_flags, list_groups, list_chans}
use anope_mods_contrib.GroupServ.State.{get_access_for, find_group, has_access, is_admin, is_auspex}
use anope_mods_contrib.GroupServ.Register.{
  register_group, drop_group, drop_by_owner, challenge, set_group_flag,
}
use anope_mods_contrib.GroupServ.Members.{join_group, invite_to_group, set_flags}
use anope_mods_contrib.GroupServ.Settings.{apply_setting, required_for, set_option}
use anope_mods_contrib.GroupServ.Memos.{send_memo, list_memos, read_memo, del_memo}
use anope_mods_contrib.GroupServ.Service.{Command, step}

-- The caller is identified.
abbrev pub HasAccount : Source → Type 0
HasAccount source = (display : Str) × (source.account ≡ some display)

module _ ⦃lib : Anope⦄ where
  -- The group is there, and the caller is identified and has a flag in it.
  abbrev pub HasFlagIn : Core → Source → Str → ℕ → Type 0
  HasFlagIn core source groupname required =
      (g : GroupRecord) × (find_group core groupname ≡ some g)
      × HasAccount source
      × (has_access g source.account required ≡ true)

  -- The same, or an auspex in place of the flag.
  abbrev pub SeesIn : Core → Source → Str → ℕ → Type 0
  SeesIn core source groupname required =
      (g : GroupRecord) × (find_group core groupname ≡ some g)
      × HasAccount source
      × ((has_access g source.account required ≡ true) ⊎ (is_auspex core source ≡ true))

  abbrev pub needs_founder : Str → Bool
  needs_founder up = up =? codes "OPEN" || up =? codes "PUBLIC" || up =? codes "GROUPNAME"

  -- What each call asks of the caller.
  abbrev pub IsAuthorized : Core → Source → Command → Type 0
  IsAuthorized core source (Command.register n) = HasAccount source
  IsAuthorized core source (Command.join n) = HasAccount source
  IsAuthorized core source (Command.drop n k true) = is_admin core source ≡ true
  IsAuthorized core source (Command.drop n k false) = HasFlagIn core source n AccessFlag.founder
  IsAuthorized core source (Command.group_flag n f b) = is_admin core source ≡ true
  IsAuthorized core source (Command.invite n a) = HasFlagIn core source n AccessFlag.invite
  IsAuthorized core source (Command.flags n a c true) = is_admin core source ≡ true
  IsAuthorized core source (Command.flags n a c false) = HasFlagIn core source n AccessFlag.flags
  IsAuthorized core source (Command.option n s x) =
      HasFlagIn core source n
        (if needs_founder (lib.upper s) then AccessFlag.founder else AccessFlag.set)
  IsAuthorized core source (Command.send n t) = SeesIn core source n AccessFlag.memo
  IsAuthorized core source (Command.delete n i) = SeesIn core source n AccessFlag.set
  IsAuthorized core source (Command.read n i) = SeesIn core source n AccessFlag.memo
  IsAuthorized core source (Command.memos n) = SeesIn core source n AccessFlag.memo
  IsAuthorized core source (Command.info n) =
      (g : GroupRecord) × (find_group core n ≡ some g)
      × ((is_auspex core source ≡ true)
          ⊎ (has_flag g.flags GroupFlag.public ≡ true)
          ⊎ (get_access_for g source.account ≢ AccessFlag.none))
  IsAuthorized core source (Command.show n) =
      (g : GroupRecord) × (find_group core n ≡ some g)
      × ((has_access g source.account AccessFlag.aclview ≡ true) ⊎ (is_auspex core source ≡ true))
  IsAuthorized core source (Command.list p) = HasAccount source
  IsAuthorized core source (Command.chans n) = SeesIn core source n AccessFlag.aclview

  in_group :
      (core : Core) (source : Source) (groupname : Str) (b : Bool)
      → (find_group core groupname ≡ none → b ≡ false)
      → (source.account ≡ none → b ≡ false)
      → b ≡ true
      → ((g : GroupRecord) × (find_group core groupname ≡ some g) × HasAccount source)
  in_group core source groupname b no_group no_account h =
      elim (Option-cases (find_group core groupname)) [
        | inl e ↦ absurd (ground (arith, h, no_group e))
        | inr (g, e) ↦ elim (Option-cases source.account) [
          | inl a ↦ absurd (ground (arith, h, no_account a))
          | inr (display, a) ↦ (g, e, (display, a))
        ]
      ]

  has_account :
      (source : Source) (b : Bool)
      → (source.account ≡ none → b ≡ false)
      → b ≡ true
      → HasAccount source
  has_account source b no_account h = elim (Option-cases source.account) [
    | inl a ↦ absurd (ground (arith, h, no_account a))
    | inr (display, a) ↦ (display, a)
  ]

  module _ (env : Env) (source : Source) (groupname : Str) (core : Core) where
    drop-IsAuthorized :
        (key : Str) (force : Bool)
        → (drop_group env source groupname key force core).1 ≡ true
        → IsAuthorized core source (Command.drop groupname key force)
    unfolding drop_group drop_by_owner challenge
    drop-IsAuthorized key true h = ground (arith, h)
    drop-IsAuthorized key false h =
        let (g, e, a) =
          in_group core source groupname (drop_group env source groupname key false core).1
            (λ e. ground (arith, e)) (λ a. ground (arith, a)) h in
        (g, e, a, ground (arith, e, a.1, h))

    invite-IsAuthorized :
        (account : Str)
        → (invite_to_group env source groupname account core).1 ≡ true
        → IsAuthorized core source (Command.invite groupname account)
    unfolding invite_to_group
    invite-IsAuthorized account h =
        let (g, e, a) =
          in_group core source groupname (invite_to_group env source groupname account core).1
            (λ e. ground (arith, e)) (λ a. ground (arith, a)) h in
        (g, e, a, ground (arith, e, a.1, h))

    flags-IsAuthorized :
        (account changes : Str) (force : Bool)
        → (set_flags env source groupname account changes force core).1 ≡ true
        → IsAuthorized core source (Command.flags groupname account changes force)
    unfolding set_flags
    flags-IsAuthorized account changes true h = ground (arith, h)
    flags-IsAuthorized account changes false h =
        let (g, e, a) =
          in_group core source groupname
            (set_flags env source groupname account changes false core).1 (λ e. ground (arith, e))
            (λ a. ground (arith, a)) h in
        (g, e, a, ground (arith, e, a.1, h))

    option-IsAuthorized :
        (setting value : Str)
        → (set_option env source groupname setting value core).1 ≡ true
        → IsAuthorized core source (Command.option groupname setting value)
    unfolding set_option apply_setting required_for
    option-IsAuthorized setting value h =
        let (g, e, a) =
          in_group core source groupname (set_option env source groupname setting value core).1
            (λ e. ground (arith, e)) (λ a. ground (arith, a)) h in
        (g, e, a, ground (arith, e, a.1, h))

    send-IsAuthorized :
        (text : Str)
        → (send_memo env source groupname text core).1 ≡ true
        → SeesIn core source groupname AccessFlag.memo
    unfolding send_memo
    send-IsAuthorized text h =
        let (g, e, a) =
          in_group core source groupname (send_memo env source groupname text core).1
            (λ e. ground (arith, e)) (λ a. ground (arith, a)) h in
        (g, e, a, ground (arith, e, a.1, h))

    delete-IsAuthorized :
        (index : ℕ)
        → (del_memo env source groupname index core).1 ≡ true
        → SeesIn core source groupname AccessFlag.set
    unfolding del_memo
    delete-IsAuthorized index h =
        let (g, e, a) =
          in_group core source groupname (del_memo env source groupname index core).1
            (λ e. ground (arith, e)) (λ a. ground (arith, a)) h in
        (g, e, a, ground (arith, e, a.1, h))

    read-IsAuthorized :
        (index : ℕ)
        → (read_memo source groupname index core).1 ≡ true
        → SeesIn core source groupname AccessFlag.memo
    unfolding read_memo
    read-IsAuthorized index h =
        let (g, e, a) =
          in_group core source groupname (read_memo source groupname index core).1
            (λ e. ground (arith, e)) (λ a. ground (arith, a)) h in
        (g, e, a, ground (arith, e, a.1, h))

    memos-IsAuthorized :
        (list_memos source groupname core).1 ≡ true → SeesIn core source groupname AccessFlag.memo
    unfolding list_memos
    memos-IsAuthorized h =
        let (g, e, a) =
          in_group core source groupname (list_memos source groupname core).1
            (λ e. ground (arith, e)) (λ a. ground (arith, a)) h in
        (g, e, a, ground (arith, e, a.1, h))

    chans-IsAuthorized :
        (list_chans env source groupname core).1 ≡ true
        → SeesIn core source groupname AccessFlag.aclview
    unfolding list_chans
    chans-IsAuthorized h =
        let (g, e, a) =
          in_group core source groupname (list_chans env source groupname core).1
            (λ e. ground (arith, e)) (λ a. ground (arith, a)) h in
        (g, e, a, ground (arith, e, a.1, h))

    info-IsAuthorized :
        (show_info source groupname core).1 ≡ true
        → IsAuthorized core source (Command.info groupname)
    unfolding show_info may_see_info
    info-IsAuthorized h = elim (Option-cases (find_group core groupname)) [
      | inl e ↦ absurd (ground (arith, e, h))
      | inr (g, e) ↦ (g, e, ground (arith, e, h))
    ]

    show-IsAuthorized :
        (show_flags source groupname core).1 ≡ true
        → IsAuthorized core source (Command.show groupname)
    unfolding show_flags
    show-IsAuthorized h = elim (Option-cases (find_group core groupname)) [
      | inl e ↦ absurd (ground (arith, e, h))
      | inr (g, e) ↦ (g, e, ground (arith, e, h))
    ]

  -- A call that goes through was one that its caller may make: a registration, a join or a list by
  -- an account; a forced drop or change of flags, or a change of a group's flag, by an admin; and
  -- any other call on a group that is there, by an account with the flag that the call asks for
  -- (founder for a drop and for OPEN, PUBLIC and GROUPNAME, else INVITE, FLAGS or SET) or, for memos,
  -- flags and channels, by an auspex too. The information on a group goes to the accounts in its
  -- access list, to an auspex, and, where the group is public, to all.
  pub step-IsAuthorized :
      (env : Env) (source : Source) (c : Command) (core : Core)
      → (step env source c core).1 ≡ true
      → IsAuthorized core source c
  unfolding step register_group join_group list_groups set_group_flag
  step-IsAuthorized env source (Command.register n) core h =
      has_account source (register_group env source n core).1 (λ a. ground (arith, a)) h
  step-IsAuthorized env source (Command.join n) core h =
      has_account source (join_group env source n core).1 (λ a. ground (arith, a)) h
  step-IsAuthorized env source (Command.list p) core h =
      has_account source (list_groups source p core).1 (λ a. ground (arith, a)) h
  step-IsAuthorized env source (Command.group_flag n f b) core h = ground (arith, h)
  step-IsAuthorized env source (Command.drop n k f) core h =
      drop-IsAuthorized env source n core k f h
  step-IsAuthorized env source (Command.invite n a) core h =
      invite-IsAuthorized env source n core a h
  step-IsAuthorized env source (Command.flags n a c f) core h =
      flags-IsAuthorized env source n core a c f h
  step-IsAuthorized env source (Command.option n s x) core h =
      option-IsAuthorized env source n core s x h
  step-IsAuthorized env source (Command.send n t) core h = send-IsAuthorized env source n core t h
  step-IsAuthorized env source (Command.delete n i) core h =
      delete-IsAuthorized env source n core i h
  step-IsAuthorized env source (Command.read n i) core h = read-IsAuthorized env source n core i h
  step-IsAuthorized env source (Command.memos n) core h = memos-IsAuthorized env source n core h
  step-IsAuthorized env source (Command.info n) core h = info-IsAuthorized env source n core h
  step-IsAuthorized env source (Command.show n) core h = show-IsAuthorized env source n core h
  step-IsAuthorized env source (Command.chans n) core h = chans-IsAuthorized env source n core h
