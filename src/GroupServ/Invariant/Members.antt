-- ===== src/GroupServ/Invariant/Members.antt =====
-- JoinGroup and InviteToGroup under the invariant.
use anope_mods_contrib.Base.{
  ℕ, ◌≡◌, sym, subst, Bool, true, false, none, Str, arith, inl, inr, Option-cases, if◌then◌else◌,
}
use anope_mods_contrib.Base.Order.{text_order}
use anope_mods_contrib.Dict.{Dict, lookup, insert, erase}
use anope_mods_contrib.Dict.Laws.{insert-IsSorted, erase-IsSorted}
use anope_mods_contrib.Anope.{Anope, Env, Source}
use anope_mods_contrib.GroupServ.Types.{Core, GroupRecord}
use anope_mods_contrib.GroupServ.Text.{normalize_key}
use anope_mods_contrib.GroupServ.State.{find_group, put_group, find_account}
use anope_mods_contrib.GroupServ.Members.{
  find_invite, granted, add_member, join_as, join_group, add_invite, invite_target, invite_to_group,
}
use anope_mods_contrib.GroupServ.Invariant.Base.{
  IsFlags, IsAccess, IsGood, IsValid, save_db-IsValid, put_group-IsValid, find_group-IsGood,
  insert-IsAccess,
}

module _ ⦃lib : Anope⦄ where
  find_invite-IsValid :
      (env : Env) (acct : Str) (g : GroupRecord) (core : Core)
      → IsValid core
      → IsValid (find_invite env acct g core).0
  unfolding find_invite
  find_invite-IsValid env acct g core v = ground (arith, v, erase-IsSorted acct core.invites v.2)

  find_invite-config :
      (env : Env) (acct : Str) (g : GroupRecord) (core : Core)
      → (find_invite env acct g core).0.config ≡ core.config
  unfolding find_invite
  find_invite-config env acct g core = ground arith

  granted-IsFlags :
      (core : Core) (g : GroupRecord)
      → IsFlags core.default_joinflags
      → IsFlags g.joinflags
      → IsFlags (granted core g)
  unfolding granted
  granted-IsFlags core g d j = ground (arith, d, j)

  -- A new member's flags replace nothing.
  new-IsAccess :
      (acct : Str) (f : ℕ) (access : Dict Str ℕ)
      → lookup acct access ≡ none
      → IsFlags f
      → IsAccess access
      → IsAccess (insert acct f access)
  new-IsAccess acct f access new ok a = insert-IsAccess acct f access ok (rw new (omega arith)) a

  add_member-IsValid :
      (env : Env) (groupname acct : Str) (g : GroupRecord) (invited : Bool) (core : Core)
      → IsValid core
      → IsGood core.config (normalize_key groupname) g
      → lookup acct g.access ≡ none
      → IsValid (add_member env groupname acct g invited core).0
  unfolding add_member
  add_member-IsValid env groupname acct g invited core v good new =
      save_db-IsValid env _ (used invited)
    where
      joined : GroupRecord
      joined = record g { access = insert acct (granted core g) g.access }

      put : IsValid (put_group core groupname joined)
      put = put_group-IsValid core groupname joined v (
        good.0,
        new-IsAccess acct (granted core g) g.access new (granted-IsFlags core g v.4 good.2) good.1,
        good.2,
        good.3,
      )

      used :
          (b : Bool)
          → IsValid (
              if b
              then record (put_group core groupname joined) {
                invites = erase acct (put_group core groupname joined).invites;
              }
              else put_group core groupname joined)
      used false = put
      used true = (put.0, put.1, erase-IsSorted acct _ put.2, put.3, put.4)

  join_as-IsValid :
      (env : Env) (source : Source) (groupname acct : Str) (g : GroupRecord) (core : Core)
      → IsValid core
      → IsGood core.config (normalize_key groupname) g
      → IsValid (join_as env source groupname acct g core).0
  unfolding join_as
  join_as-IsValid env source groupname acct g core v good =
      elim (Option-cases (lookup acct g.access)) [
        | inr (flags, e) ↦ ground (arith, v, e)
        | inl e ↦
            let seen = (find_invite env acct g core).0 in
            let kept = find_invite-IsValid env acct g core v in
            ground (
              arith,
              e,
              kept,
              add_member-IsValid env groupname acct g (find_invite env acct g core).1 seen kept
                  (subst (λ c. IsGood c (normalize_key groupname) g)
                    (sym (find_invite-config env acct g core)) good)
                  e,
            )
      ]

  pub join_group-IsValid :
      (env : Env) (source : Source) (groupname : Str) (core : Core)
      → IsValid core
      → IsValid (join_group env source groupname core).0
  unfolding join_group
  join_group-IsValid env source groupname core v = elim (Option-cases source.account) [
    | inl e ↦ rw (e, join_group) v
    | inr (display, e) ↦ elim (Option-cases (find_group core groupname)) [
      | inl f ↦ ground (arith, v, e, f)
      | inr (g, f) ↦ ground (
        arith,
        v,
        e,
        f,
        join_as-IsValid env source groupname (normalize_key display) g core v
            (find_group-IsGood core groupname g v f),
      )
    ]
  ]

  add_invite-IsValid :
      (env : Env) (source : Source) (account target : Str) (g : GroupRecord) (core : Core)
      → IsValid core
      → IsValid (add_invite env source account target g core).0
  unfolding add_invite
  add_invite-IsValid env source account target g core v =
      save_db-IsValid env _
        (v.0, v.1, insert-IsSorted (normalize_key target) _ core.invites v.2, v.3, v.4)

  invite_target-IsValid :
      (env : Env) (source : Source) (account target : Str) (g : GroupRecord) (core : Core)
      → IsValid core
      → IsValid (invite_target env source account target g core).0
  unfolding invite_target
  invite_target-IsValid env source account target g core v =
      ground (arith, v, add_invite-IsValid env source account target g core v)

  pub invite_to_group-IsValid :
      (env : Env) (source : Source) (groupname account : Str) (core : Core)
      → IsValid core
      → IsValid (invite_to_group env source groupname account core).0
  unfolding invite_to_group
  invite_to_group-IsValid env source groupname account core v =
      elim (Option-cases (find_account env account)) [
        | inl missing ↦ ground (arith, v, missing)
        | inr (target, e) ↦ elim (Option-cases (find_group core groupname)) [
          | inl f ↦ ground (arith, v, f)
          | inr (g, f) ↦
              ground (arith, v, e, f, invite_target-IsValid env source account target g core v)
        ]
      ]
