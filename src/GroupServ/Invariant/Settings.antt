-- ===== src/GroupServ/Invariant/Settings.antt =====
-- SetOption under the invariant.
use anope_mods_contrib.Base.{
  ℕ, refl, false, [], Str, arith, inl, inr, Option-cases, if◌then◌else◌, if-keeps, is_some, ◌==◌,
}
use anope_mods_contrib.Base.Order.{text_order}
use anope_mods_contrib.Dict.{Dict, lookup, erase}
use anope_mods_contrib.Dict.Laws.{
  IsSorted, insert-IsSorted, erase-IsSorted, retain-IsSorted, map_values-IsSorted,
}
use anope_mods_contrib.Dict.Entries.{Each, insert-Each, erase-Each}
use anope_mods_contrib.Anope.{Anope, Env, Source}
use anope_mods_contrib.GroupServ.AccessFlag
use anope_mods_contrib.GroupServ.GroupFlag
use anope_mods_contrib.GroupServ.Types.{Core, GroupRecord}
use anope_mods_contrib.GroupServ.Text.{normalize_key, parse_host_mask}
use anope_mods_contrib.GroupServ.Flags.{add_flags, remove_flags, parse_flags}
use anope_mods_contrib.GroupServ.Flags.Parse.{parse_flags-lt, parse_flags-IsClosed}
use anope_mods_contrib.GroupServ.Message.{Message}
use anope_mods_contrib.GroupServ.State.{find_group, put_group}
use anope_mods_contrib.GroupServ.Save.{save_db}
use anope_mods_contrib.GroupServ.Settings.{
  store, set_joinflags, set_switch, set_open, apply_switch, apply_text, apply_setting, set_option,
}
use anope_mods_contrib.GroupServ.Settings.Rename.{move_group, rename_group}
use anope_mods_contrib.GroupServ.Settings.Vhost.{join_mask, store_vhost, set_mask, set_vhost}
use anope_mods_contrib.GroupServ.Invariant.Base.{
  IsFlags, IsGood, IsValid, save_db-IsValid, saved_put-IsValid, find_group-IsGood,
}

module _ ⦃lib : Anope⦄ where
  -- A group that lacks founder in its join flags, as `none` and the fallback of JOINFLAGS.
  IsFlags-none : IsFlags AccessFlag.none
  IsFlags-none = (omega arith, λ h. absurd (omega arith))

  IsFlags-all_nofounder : IsFlags AccessFlag.all_nofounder
  IsFlags-all_nofounder = (omega arith, λ h. absurd (omega arith))

  joinflags-IsFlags :
      (f : ℕ) → IsFlags f → IsFlags (if f == AccessFlag.none then AccessFlag.all_nofounder else f)
  joinflags-IsFlags f ok = if-keeps IsFlags (f == AccessFlag.none) _ _ IsFlags-all_nofounder ok

module _ ⦃lib : Anope⦄ (env : Env) (groupname : Str) (g : GroupRecord) (core : Core)
    (v : IsValid core) (good : IsGood core.config (normalize_key groupname) g) where
  store-IsValid :
      (g' : GroupRecord) (m : Message)
      → IsGood core.config (normalize_key groupname) g'
      → IsValid (store env groupname g' m core).0
  unfolding store
  store-IsValid g' m ok = saved_put-IsValid env core groupname g' v ok

  set_joinflags-IsValid : (value : Str) → IsValid (set_joinflags env groupname value g core).0
  unfolding set_joinflags
  set_joinflags-IsValid value = ground (
    arith,
    v,
    store-IsValid (record g { joinflags = AccessFlag.none }) (Message.joinflags_cleared g.name)
        (good.0, good.1, IsFlags-none, good.3),
    store-IsValid (record g { joinflags = joinflags })
        (Message.joinflags_set g.name (lib.trim value))
        (
          good.0,
          good.1,
          joinflags-IsFlags parsed
              (parse_flags-lt _ false 0 (omega arith), parse_flags-IsClosed _ false 0),
          good.3,
        ),
  )
    where
      parsed : ℕ
      parsed = parse_flags (lib.trim value) false AccessFlag.none

      joinflags : ℕ
      joinflags = if parsed == AccessFlag.none then AccessFlag.all_nofounder else parsed

  set_switch-IsValid :
      (value : Str) (flag : ℕ) (a b c : Message)
      → IsValid (set_switch env groupname value flag a b c g core).0
  unfolding set_switch
  set_switch-IsValid value flag a b c = ground (
    arith,
    v,
    store-IsValid (record g { flags = add_flags g.flags flag }) a good,
    store-IsValid (record g { flags = remove_flags g.flags flag }) b good,
  )

  set_open-IsValid : (value : Str) → IsValid (set_open env groupname value g core).0
  unfolding set_open
  set_open-IsValid value = ground (
    arith,
    v,
    set_switch-IsValid value GroupFlag.openly (Message.now_open g.name)
        (Message.no_longer_open g.name) Message.syntax_open,
  )

  set_mask-IsValid : (user host : Str) → IsValid (set_mask env groupname user host g core).0
  unfolding set_mask store_vhost
  set_mask-IsValid user host = ground (
    arith,
    v,
    saved_put-IsValid env core groupname (record g { vhost = join_mask user host }) v good,
  )

  move_group-IsValid : (newname : Str) → IsValid (move_group groupname newname g core)
  unfolding move_group
  move_group-IsValid newname = (
    if-keeps IsSorted (is_some (lookup newkey rest)) _ _ sorted
        (insert-IsSorted newkey moved rest sorted),
    if-keeps (Each (IsGood core.config)) (is_some (lookup newkey rest)) _ _ each
        (insert-Each (IsGood core.config) newkey moved rest (refl, good.1, good.2, good.3) each),
    map_values-IsSorted _ core.invites v.2,
    retain-IsSorted _ core.drop_challenges v.3,
    v.4,
  )
    where
      newkey : Str
      newkey = normalize_key newname

      moved : GroupRecord
      moved = record g { name = newname }

      rest : Dict Str GroupRecord
      rest = erase (normalize_key g.name) core.groups

      sorted : IsSorted rest
      sorted = erase-IsSorted (normalize_key g.name) core.groups v.0

      each : Each (IsGood core.config) rest
      each = erase-Each (IsGood core.config) (normalize_key g.name) core.groups v.1

  rename_group-IsValid : (value : Str) → IsValid (rename_group env groupname value g core).0
  unfolding rename_group
  rename_group-IsValid value = ground (
    arith,
    v,
    save_db-IsValid env (move_group groupname (lib.trim value) g core)
        (move_group-IsValid (lib.trim value)),
  )

  set_vhost-IsValid : (value : Str) → IsValid (set_vhost env groupname value g core).0
  unfolding set_vhost
  set_vhost-IsValid value = elim (Option-cases (parse_host_mask (lib.trim value))) [
    | inl e ↦ ground (arith, v, e, cleared)
    | inr (mask, e) ↦ ground (arith, v, e, cleared, set_mask-IsValid mask.0 mask.1)
  ]
    where
      cleared : IsValid (save_db env (put_group core groupname (record g { vhost = [] })))
      cleared = saved_put-IsValid env core groupname (record g { vhost = [] }) v good

  apply_switch-IsValid : (up value : Str) → IsValid (apply_switch env groupname up value g core).0
  unfolding apply_switch
  apply_switch-IsValid up value = ground (
    arith,
    v,
    set_vhost-IsValid value,
    set_open-IsValid value,
    set_switch-IsValid value GroupFlag.public (Message.now_public g.name)
        (Message.no_longer_public g.name) Message.syntax_public,
    set_switch-IsValid value GroupFlag.vhostauto (Message.auto_approved g.name)
        (Message.need_approval g.name) Message.syntax_vhostauto,
  )

  apply_text-IsValid : (up value : Str) → IsValid (apply_text env groupname up value g core).0
  unfolding apply_text
  apply_text-IsValid up value = ground (
    arith,
    set_joinflags-IsValid value,
    apply_switch-IsValid up value,
    store-IsValid (record g { description = value }) (Message.description_set g.name) good,
    store-IsValid (record g { url = value }) (Message.url_set g.name) good,
    store-IsValid (record g { email = value }) (Message.email_set g.name) good,
    store-IsValid (record g { channel = value }) (Message.channel_set g.name) good,
  )

  apply_setting-IsValid :
      (source : Source) (up value : Str)
      → IsValid (apply_setting env source groupname up value g core).0
  unfolding apply_setting
  apply_setting-IsValid source up value =
      ground (arith, v, rename_group-IsValid value, apply_text-IsValid up value)

module _ ⦃lib : Anope⦄ where
  pub set_option-IsValid :
      (env : Env) (source : Source) (groupname setting value : Str) (core : Core)
      → IsValid core
      → IsValid (set_option env source groupname setting value core).0
  unfolding set_option
  set_option-IsValid env source groupname setting value core v =
      elim (Option-cases (find_group core groupname)) [
        | inl e ↦ rw (e, set_option) v
        | inr (g, e) ↦ ground (
          arith,
          v,
          e,
          apply_setting-IsValid env groupname g core v (find_group-IsGood core groupname g v e)
              source (lib.upper setting) value,
        )
      ]
