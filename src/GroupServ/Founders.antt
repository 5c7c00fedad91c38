-- ===== src/GroupServ/Founders.antt =====
-- SetFlags: who can make a founder or unmake one.
use anope_mods_contrib.Base.{
  ℕ, ◌≡◌, inl, inr, Bool, true, false, Option, some, none, Str, arith, Option-cases,
}
use anope_mods_contrib.Base.Order.{text_order}
use anope_mods_contrib.Dict.{lookup, insert, erase}
use anope_mods_contrib.Dict.Laws.{lookup-erase, lookup-insert}
use anope_mods_contrib.Anope.{Anope, Env, Source}
use anope_mods_contrib.GroupServ.Types.{Core, GroupRecord}
use anope_mods_contrib.GroupServ.Text.{normalize_key}
use anope_mods_contrib.GroupServ.Flags.{has_flag, parse_flags}
use anope_mods_contrib.GroupServ.State.{
  find_account, access_of, find_group, put_group, get_access_for,
}
use anope_mods_contrib.GroupServ.Save.{save_db}
use anope_mods_contrib.GroupServ.Members.{
  write_flags, oversteps, change_flags, current_flags, set_flags_of, set_flags,
}
use anope_mods_contrib.GroupServ.Groups.{key_self}
use anope_mods_contrib.GroupServ.Invariant.Base.{is_founder}

-- Whether an entry of an access list is a founder's.
abbrev pub founds : Option ℕ → Bool
founds none = false
founds (some flags) = is_founder flags

module _ ⦃lib : Anope⦄ where
  -- Whether an account, by its key, is a founder of a group.
  abbrev pub is_founder_of : Core → Str → Str → Bool
  is_founder_of core groupname key = elim (find_group core groupname) [
    | none ↦ false
    | some g ↦ founds (lookup key g.access)
  ]

  module _ (env : Env) (source : Source) (groupname target : Str) (g : GroupRecord)
      (core : Core) where
    write_flags-founders :
        (updated : ℕ) (key : Str)
        → find_group core groupname ≡ some g
        → is_founder (current_flags g target) ≡ is_founder updated
        → is_founder_of (write_flags env source groupname target g updated core).0 groupname key
          ≡ is_founder_of core groupname key
    unfolding write_flags current_flags save_db find_group put_group has_flag
    write_flags-founders updated key e same = ground (
      arith,
      e,
      same,
      key_self (normalize_key groupname),
      lookup-insert (normalize_key groupname) (normalize_key groupname)
          (record g { access = erase (normalize_key target) g.access }) core.groups,
      lookup-insert (normalize_key groupname) (normalize_key groupname)
          (record g { access = insert (normalize_key target) updated g.access }) core.groups,
      lookup-erase key (normalize_key target) g.access,
      lookup-insert key (normalize_key target) updated g.access,
      text_order.key_eq key (normalize_key target),
    )

    change_flags-founders :
        (display : Str) (updated : ℕ) (key : Str)
        → source.account ≡ some display
        → find_group core groupname ≡ some g
        → is_founder (get_access_for g source.account) ≡ false
        → is_founder_of
            (change_flags env source groupname target false g
              (current_flags g target)
              updated
              core).0
            groupname
            key
          ≡ is_founder_of core groupname key
    unfolding change_flags oversteps
    change_flags-founders display updated key a e n =
        ground (arith, a, e, n, write_flags-founders updated key)

  no_founder :
      (source : Source) (groupname display : Str) (core : Core) (g : GroupRecord)
      → source.account ≡ some display
      → find_group core groupname ≡ some g
      → is_founder_of core groupname (normalize_key display) ≡ false
      → is_founder (get_access_for g source.account) ≡ false
  unfolding get_access_for access_of has_flag
  no_founder source groupname display core g a e n = ground (arith, e, a, n)

  -- A SetFlags call that is not forced, by an account that is no founder of the group, makes no
  -- account a founder of it and unmakes none, whatever flags are written and whatever else the
  -- caller may do.
  pub set_flags-founders :
      (env : Env) (source : Source) (groupname account changes display : Str) (core : Core)
      (key : Str)
      → source.account ≡ some display
      → is_founder_of core groupname (normalize_key display) ≡ false
      → is_founder_of (set_flags env source groupname account changes false core).0 groupname key
        ≡ is_founder_of core groupname key
  unfolding set_flags set_flags_of
  set_flags-founders env source groupname account changes display core key a n =
      elim (Option-cases (find_group core groupname)) [
        | inl e ↦ ground (arith, e)
        | inr (g, e) ↦ elim (Option-cases (find_account env account)) [
          | inl f ↦ ground (arith, e, f, a)
          | inr (target, f) ↦ ground (
            arith,
            e,
            f,
            a,
            n,
            no_founder source groupname display core g a e n,
            change_flags-founders env source groupname target g core display
                (parse_flags changes true (current_flags g target)) key a e
                (no_founder source groupname display core g a e n),
          )
        ]
      ]
