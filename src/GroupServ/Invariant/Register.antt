-- ===== src/GroupServ/Invariant/Register.antt =====
-- RegisterGroup, DropGroup and SetGroupFlag under the invariant.
use anope_mods_contrib.Base.{
  ℕ, ◌≢◌, length, sym, ap, subst, if◌then◌else◌, ◌≤◌, ◌≡◌, refl, Bool, Str, arith, inl, inr,
  Option-cases,
}
use anope_mods_contrib.Base.Order.{text_order}
use anope_mods_contrib.Dict.{erase}
use anope_mods_contrib.Dict.Laws.{insert-insert, insert-IsSorted, erase-IsSorted, retain-IsSorted}
use anope_mods_contrib.Dict.Entries.{erase-Each}
use anope_mods_contrib.Anope.{Anope, Env, Source}
use anope_mods_contrib.GroupServ.Types.{Core, GroupRecord, fresh_record}
use anope_mods_contrib.GroupServ.Text.{normalize_key, drop_challenge_key}
use anope_mods_contrib.GroupServ.State.{find_group, put_group}
use anope_mods_contrib.GroupServ.Save.{save_db}
use anope_mods_contrib.GroupServ.Flags.{has_flag, add_flags, remove_flags}
use anope_mods_contrib.GroupServ.Register.{
  get_or_create_group, registered_record, create_group, register_as, register_group, remove_group,
  challenge, confirm, drop_by_owner, drop_group, set_group_flag,
}
use anope_mods_contrib.GroupServ.Invariant.Base.{
  IsFlags-all, IsGood, IsValid, save_db-IsValid, saved_put-IsValid, find_group-IsGood,
}

module _ ⦃lib : Anope⦄ where
  registered-IsGood :
      (env : Env) (core : Core) (display groupname : Str) (g : GroupRecord)
      → (core.maxgroupmemos ≢ 0 → length g.memos ≤ core.maxgroupmemos)
      → IsGood core.config
          (normalize_key groupname)
          (registered_record env core display groupname g)
  unfolding registered_record has_flag
  registered-IsGood env core display groupname g memos = (
    refl,
    ((tt, tt), (IsFlags-all, tt), omega arith),
    (omega arith, λ h. absurd (omega arith)),
    memos,
  )

  create_group-IsValid :
      (env : Env) (core : Core) (display groupname : Str)
      → IsValid core
      → IsValid (create_group env core display groupname).0
  unfolding create_group
  create_group-IsValid env core display groupname v =
      elim (Option-cases (find_group core groupname)) [
        | inl new ↦
            rw (new, get_or_create_group)
              (subst (λ c. IsValid (save_db env c)) (sym (again _ _))
                (saved_put-IsValid env core groupname _ v (
                  registered-IsGood env core display groupname
                    (record fresh_record { name = groupname; regtime = env.cur_time })
                    (λ _. omega arith))))
        | inr (g, found) ↦
            rw (found, get_or_create_group)
              (saved_put-IsValid env core groupname _ v (
                registered-IsGood env core display groupname g
                  (find_group-IsGood core groupname g v found).3))
      ]
    where
      again :
          (a b : GroupRecord)
          → put_group (put_group core groupname a) groupname b ≡ put_group core groupname b
      again a b = ap (λ groups. record core { groups = groups }) (insert-insert _ b a core.groups)

  register_as-IsValid :
      (env : Env) (source : Source) (display groupname : Str) (core : Core)
      → IsValid core
      → IsValid (register_as env source display groupname core).0
  unfolding register_as
  register_as-IsValid env source display groupname core v =
      ground (arith, create_group-IsValid env core display groupname v)

  pub register_group-IsValid :
      (env : Env) (source : Source) (groupname : Str) (core : Core)
      → IsValid core
      → IsValid (register_group env source groupname core).0
  unfolding register_group
  register_group-IsValid env source groupname core v = elim (Option-cases source.account) [
    | inl e ↦ rw (e, register_group) v
    | inr (display, e) ↦
        rw (e, register_group) (register_as-IsValid env source display groupname core v)
  ]

  remove_group-IsValid :
      (env : Env) (groupname : Str) (g : GroupRecord) (core : Core)
      → IsValid core
      → IsValid (remove_group env groupname g core).0
  unfolding remove_group
  remove_group-IsValid env groupname g core v = save_db-IsValid env _ (
    erase-IsSorted (normalize_key g.name) core.groups v.0,
    erase-Each (IsGood core.config) (normalize_key g.name) core.groups v.1,
    retain-IsSorted _ core.invites v.2,
    v.3,
    v.4,
  )

  confirm-IsValid :
      (env : Env) (chal_key key groupname : Str) (g : GroupRecord) (core : Core)
      → IsValid core
      → IsValid (confirm env chal_key key groupname g core).0
  unfolding confirm
  confirm-IsValid env chal_key key groupname g core v = ground (
    arith,
    spent,
    remove_group-IsValid env groupname g
        (record core { drop_challenges = erase chal_key core.drop_challenges }) spent,
  )
    where
      spent : IsValid (record core { drop_challenges = erase chal_key core.drop_challenges })
      spent = (v.0, v.1, v.2, erase-IsSorted chal_key core.drop_challenges v.3, v.4)

  drop_by_owner-IsValid :
      (env : Env) (source : Source) (groupname key : Str) (g : GroupRecord) (core : Core)
      → IsValid core
      → IsValid (drop_by_owner env source groupname key g core).0
  unfolding drop_by_owner challenge
  drop_by_owner-IsValid env source groupname key g core v = elim (Option-cases source.account) [
    | inl e ↦ rw (e, drop_by_owner) v
    | inr (display, e) ↦
        let chal_key = drop_challenge_key display g.name in
        ground (
          arith,
          v,
          e,
          confirm-IsValid env chal_key key groupname g core v,
          insert-IsSorted chal_key (record { token = env.random; created = env.cur_time })
              core.drop_challenges v.3,
        )
  ]

  pub drop_group-IsValid :
      (env : Env) (source : Source) (groupname key : Str) (force : Bool) (core : Core)
      → IsValid core
      → IsValid (drop_group env source groupname key force core).0
  unfolding drop_group
  drop_group-IsValid env source groupname key force core v =
      elim (Option-cases (find_group core groupname)) [
        | inl e ↦ rw (e, drop_group) v
        | inr (g, e) ↦ ground (
          arith,
          v,
          e,
          remove_group-IsValid env groupname g core v,
          drop_by_owner-IsValid env source groupname key g core v,
        )
      ]

  pub set_group_flag-IsValid :
      (env : Env) (source : Source) (groupname : Str) (flag : ℕ) (enabled : Bool) (core : Core)
      → IsValid core
      → IsValid (set_group_flag env source groupname flag enabled core).0
  unfolding set_group_flag
  set_group_flag-IsValid env source groupname flag enabled core v =
      elim (Option-cases (find_group core groupname)) [
        | inl e ↦ ground (arith, v, e)
        | inr (g, e) ↦ ground (
          arith,
          v,
          e,
          saved_put-IsValid env core groupname
              (record g {
                flags = if enabled then add_flags g.flags flag else remove_flags g.flags flag;
              })
              v (find_group-IsGood core groupname g v e),
        )
      ]
