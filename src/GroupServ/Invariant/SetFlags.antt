-- ===== src/GroupServ/Invariant/SetFlags.antt =====
-- SetFlags under the invariant.
use anope_mods_contrib.Base.{
  ℕ, ◌+◌, ◌≤◌, ◌≡◌, refl, subst, Bool, true, false, some, Str, arith, inl, inr, Bool-cases,
  Option-cases, if◌then◌else◌, if-keeps, ◌==◌,
}
use anope_mods_contrib.Base.Order.{text_order}
use anope_mods_contrib.Dict.{lookup, insert, erase, count_if}
use anope_mods_contrib.Dict.Laws.{
  insert-IsSorted, erase-IsSorted, count_if-insert, count_if-erase, hit,
}
use anope_mods_contrib.Dict.Entries.{lookup-Each, insert-Each, erase-Each}
use anope_mods_contrib.Anope.{Anope, Env, Source}
use anope_mods_contrib.GroupServ.AccessFlag
use anope_mods_contrib.GroupServ.Types.{Core, GroupRecord}
use anope_mods_contrib.GroupServ.Text.{normalize_key}
use anope_mods_contrib.GroupServ.Flags.{has_flag, parse_flags}
use anope_mods_contrib.GroupServ.Flags.Parse.{parse_flags-lt, parse_flags-IsClosed}
use anope_mods_contrib.GroupServ.State.{find_group, put_group, find_account}
use anope_mods_contrib.GroupServ.Save.{save_db}
use anope_mods_contrib.GroupServ.Message.{Outcome}
use anope_mods_contrib.GroupServ.Members.{
  oversteps, takes_last, write_flags, change_flags, current_flags, set_flags_of, set_flags,
}
use anope_mods_contrib.GroupServ.Invariant.Base.{
  IsFlags, IsAccess, is_founder, IsGood, IsValid, save_db-IsValid, saved_put-IsValid,
  find_group-IsGood,
}

module _ ⦃lib : Anope⦄ where
  -- The founder count of the entry that a change replaces.
  hit-current :
      (g : GroupRecord) (target : Str)
      → hit is_founder (lookup (normalize_key target) g.access)
        ≡ (if is_founder (current_flags g target) then 1 else 0)
  unfolding current_flags has_flag
  hit-current g target = elim (Option-cases (lookup (normalize_key target) g.access)) [
    | inl e ↦ rw (e, current_flags) refl
    | inr (f, e) ↦ rw (e, current_flags) refl
  ]

  current-IsFlags :
      (g : GroupRecord) (target : Str) → IsAccess g.access → IsFlags (current_flags g target)
  unfolding current_flags
  current-IsFlags g target a = elim (Option-cases (lookup (normalize_key target) g.access)) [
    | inl e ↦ rw (e, current_flags) (omega arith, λ h. absurd (omega arith))
    | inr (f, e) ↦ rw (e, current_flags) (lookup-Each (λ _ f. IsFlags f) _ f g.access a.1 e)
  ]

  -- A change that is not refused leaves a founder.
  founders_left :
      (g : GroupRecord) (target : Str) (updated : ℕ)
      → takes_last g (current_flags g target) updated ≡ false
      → 1 ≤ count_if is_founder g.access
      → 1 + hit is_founder (lookup (normalize_key target) g.access)
        ≤ count_if is_founder g.access + hit is_founder (some updated)
  unfolding takes_last
  founders_left g target updated guard some_founder =
      ground (arith, guard, some_founder, hit-current g target)

  written-IsValid :
      (env : Env) (core : Core) (groupname target : Str) (g : GroupRecord) (updated : ℕ)
      → IsValid core
      → IsGood core.config (normalize_key groupname) g
      → IsFlags updated
      → takes_last g (current_flags g target) updated ≡ false
      → IsValid (
          save_db env (
            put_group core groupname
              (record g { access = insert (normalize_key target) updated g.access })))
  written-IsValid env core groupname target g updated v good ok guard =
      saved_put-IsValid env core groupname _ v (good.0, access, good.2, good.3)
    where
      access : IsAccess (insert (normalize_key target) updated g.access)
      access = (
        insert-IsSorted _ updated g.access good.1.0,
        insert-Each (λ _ f. IsFlags f) _ updated g.access ok good.1.1,
        omega (
          arith,
          founders_left g target updated guard good.1.2,
          count_if-insert is_founder (normalize_key target) updated g.access good.1.0,
        ),
      )

  without-IsValid :
      (env : Env) (core : Core) (groupname target : Str) (g : GroupRecord)
      → IsValid core
      → IsGood core.config (normalize_key groupname) g
      → takes_last g (current_flags g target) AccessFlag.none ≡ false
      → IsValid (
          save_db env (
            put_group core groupname (record g { access = erase (normalize_key target) g.access })))
  unfolding has_flag
  without-IsValid env core groupname target g v good guard =
      saved_put-IsValid env core groupname _ v (good.0, access, good.2, good.3)
    where
      access : IsAccess (erase (normalize_key target) g.access)
      access = (
        erase-IsSorted _ g.access good.1.0,
        erase-Each (λ _ f. IsFlags f) _ g.access good.1.1,
        omega (
          arith,
          founders_left g target AccessFlag.none guard good.1.2,
          count_if-erase is_founder (normalize_key target) g.access good.1.0,
        ),
      )

  write_flags-IsValid :
      (env : Env) (source : Source) (groupname target : Str) (g : GroupRecord) (updated : ℕ)
      (core : Core)
      → IsValid core
      → IsGood core.config (normalize_key groupname) g
      → IsFlags updated
      → takes_last g (current_flags g target) updated ≡ false
      → IsValid (write_flags env source groupname target g updated core).0
  unfolding write_flags
  write_flags-IsValid env source groupname target g updated core v good ok guard =
      elim (Bool-cases (updated == AccessFlag.none)) [
        | inr some_left ↦ ground (
          arith,
          v,
          some_left,
          written-IsValid env core groupname target g updated v good ok guard,
        )
        | inl none_left ↦
            let zero : updated ≡ AccessFlag.none = ground arith in
            let gone = subst (λ f. takes_last g (current_flags g target) f ≡ false) zero guard in
            ground (
              arith,
              none_left,
              save_db-IsValid env core v,
              without-IsValid env core groupname target g v good gone,
            )
      ]

  change_flags-IsValid :
      (env : Env) (source : Source) (groupname target : Str) (force : Bool) (g : GroupRecord)
      (updated : ℕ) (core : Core)
      → IsValid core
      → IsGood core.config (normalize_key groupname) g
      → IsFlags updated
      → IsValid
          (change_flags env source groupname target force g (current_flags g target) updated core).0
  unfolding change_flags
  change_flags-IsValid env source groupname target force g updated core v good ok =
      if-keeps (λ (o : Outcome). IsValid o.0) (oversteps source force g cur updated) _ _ v
        (elim (Bool-cases (takes_last g cur updated)) [
          | inl last ↦ rw last v
          | inr guard ↦
              rw guard
                (write_flags-IsValid env source groupname target g updated core v good ok guard)
        ])
    where
      cur : ℕ
      cur = current_flags g target

  set_flags_of-IsValid :
      (env : Env) (source : Source) (groupname account changes : Str) (force : Bool)
      (g : GroupRecord) (core : Core)
      → IsValid core
      → IsGood core.config (normalize_key groupname) g
      → IsValid (set_flags_of env source groupname account changes force g core).0
  unfolding set_flags_of
  set_flags_of-IsValid env source groupname account changes force g core v good =
      elim (Option-cases (find_account env account)) [
        | inl e ↦ rw (e, set_flags_of) v
        | inr (target, e) ↦
            rw (e, set_flags_of)
              (change_flags-IsValid env source groupname target force g _ core v good
                (parsed target (current_flags g target) (current-IsFlags g target good.1)))
      ]
    where
      parsed : (target : Str) (cur : ℕ) → IsFlags cur → IsFlags (parse_flags changes true cur)
      parsed target cur ok =
          (parse_flags-lt changes true cur ok.0, parse_flags-IsClosed changes true cur)

  pub set_flags-IsValid :
      (env : Env) (source : Source) (groupname account changes : Str) (force : Bool) (core : Core)
      → IsValid core
      → IsValid (set_flags env source groupname account changes force core).0
  unfolding set_flags
  set_flags-IsValid env source groupname account changes force core v =
      elim (Option-cases (find_group core groupname)) [
        | inl e ↦ rw (e, set_flags) v
        | inr (g, e) ↦ ground (
          arith,
          v,
          e,
          set_flags_of-IsValid env source groupname account changes force g core v
              (find_group-IsGood core groupname g v e),
        )
      ]
