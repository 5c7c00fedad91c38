-- ===== src/GroupServ/Load/Legacy/Kept.antt =====
-- The reader of the old format: what holds of the groups and invitations that it makes.
use anope_mods_contrib.Base.{
  ℕ, some, inl, inr, Option-cases, is_some, List, [], ◌∷◌, Str, codes, if-keeps, arith,
}
use anope_mods_contrib.Base.Order.{text_order}
use anope_mods_contrib.Dict.{lookup, insert}
use anope_mods_contrib.Dict.Laws.{insert-IsSorted}
use anope_mods_contrib.Dict.Entries.{lookup-Each, insert-Each}
use anope_mods_contrib.Anope.{Anope}
use anope_mods_contrib.GroupServ.Types.{GroupRecord}
use anope_mods_contrib.GroupServ.Text.{is_empty, unescape_value, normalize_key}
use anope_mods_contrib.GroupServ.Load.Loaded.{IsLoaded, IsLoadedOr, parse_flags-IsFlags}
use anope_mods_contrib.GroupServ.Load.Legacy.{
  Tables, is_legacy_header, legacy_group, legacy_access, legacy_invite, legacy_group_line,
  legacy_access_line, legacy_invite_line, legacy_line, legacy_body, load_legacy,
}

module _ ⦃lib : Anope⦄ (limit : ℕ) where
  abbrev Kept : Tables → Type 0
  Kept t = IsLoadedOr limit (some t)

  insert-Kept :
      (key : Str) (g : GroupRecord) (t : Tables)
      → IsLoaded limit g
      → Kept t
      → Kept (record t { groups = insert key g t.groups })
  insert-Kept key g t good h = (
    insert-IsSorted key g t.groups h.0,
    insert-Each (λ _ g. IsLoaded limit g) key g t.groups good h.1,
    h.2,
  )

  legacy_group-Kept :
      (name reg gflags desc url email channel joinflags : Str) (t : Tables)
      → Kept t
      → Kept (legacy_group name reg gflags desc url email channel joinflags t)
  unfolding legacy_group
  legacy_group-Kept name reg gflags desc url email channel joinflags t h =
      if-keeps Kept (is_some (lookup (normalize_key (unescape_value name)) t.groups)) _ _ h (
        insert-Kept (normalize_key (unescape_value name)) _ t
          (parse_flags-IsFlags (unescape_value joinflags), λ n. omega arith) h)

  legacy_access-Kept :
      (group account flags : Str) (t : Tables) → Kept t → Kept (legacy_access group account flags t)
  unfolding legacy_access
  legacy_access-Kept group account flags t h =
      let key = normalize_key (unescape_value group) in
      elim (Option-cases (lookup key t.groups)) [
        | inl e ↦ rw (e, legacy_access) h
        | inr (g, e) ↦
            rw (e, legacy_access)
              (insert-Kept key _ t (lookup-Each (λ _ g. IsLoaded limit g) key g t.groups h.1 e) h)
      ]

  legacy_invite-Kept :
      (account group created expires : Str) (t : Tables)
      → Kept t
      → Kept (legacy_invite account group created expires t)
  unfolding legacy_invite
  legacy_invite-Kept account group created expires t h =
      (h.0, h.1, insert-IsSorted (normalize_key (unescape_value account)) _ t.invites h.2)

  legacy_group_line-Kept :
      (fields : List Str) (t : Tables) → Kept t → Kept (legacy_group_line fields t)
  unfolding legacy_group_line
  legacy_group_line-Kept (a ∷ b ∷ c ∷ d ∷ e ∷ f ∷ g ∷ h ∷ rest) t k =
      legacy_group-Kept a b c d e f g h t k
  legacy_group_line-Kept [] t k = k
  legacy_group_line-Kept (a ∷ []) t k = k
  legacy_group_line-Kept (a ∷ b ∷ []) t k = k
  legacy_group_line-Kept (a ∷ b ∷ c ∷ []) t k = k
  legacy_group_line-Kept (a ∷ b ∷ c ∷ d ∷ []) t k = k
  legacy_group_line-Kept (a ∷ b ∷ c ∷ d ∷ e ∷ []) t k = k
  legacy_group_line-Kept (a ∷ b ∷ c ∷ d ∷ e ∷ f ∷ []) t k = k
  legacy_group_line-Kept (a ∷ b ∷ c ∷ d ∷ e ∷ f ∷ g ∷ []) t k = k

  legacy_access_line-Kept :
      (fields : List Str) (t : Tables) → Kept t → Kept (legacy_access_line fields t)
  unfolding legacy_access_line
  legacy_access_line-Kept (a ∷ b ∷ c ∷ rest) t k = legacy_access-Kept a b c t k
  legacy_access_line-Kept [] t k = k
  legacy_access_line-Kept (a ∷ []) t k = k
  legacy_access_line-Kept (a ∷ b ∷ []) t k = k

  legacy_invite_line-Kept :
      (fields : List Str) (t : Tables) → Kept t → Kept (legacy_invite_line fields t)
  unfolding legacy_invite_line
  legacy_invite_line-Kept (a ∷ b ∷ c ∷ d ∷ rest) t k = legacy_invite-Kept a b c d t k
  legacy_invite_line-Kept [] t k = k
  legacy_invite_line-Kept (a ∷ []) t k = k
  legacy_invite_line-Kept (a ∷ b ∷ []) t k = k
  legacy_invite_line-Kept (a ∷ b ∷ c ∷ []) t k = k

  legacy_line-Kept : (parts : List Str) (t : Tables) → Kept t → Kept (legacy_line parts t)
  unfolding legacy_line
  legacy_line-Kept [] t k = k
  legacy_line-Kept (type ∷ []) t k = k
  legacy_line-Kept (type ∷ field ∷ fields) t k =
      if-keeps Kept (lib.equals_ci type (codes "G")) _ _
        (legacy_group_line-Kept (field ∷ fields) t k)
        (if-keeps Kept (lib.equals_ci type (codes "A")) _ _
          (legacy_access_line-Kept (field ∷ fields) t k)
          (if-keeps Kept (lib.equals_ci type (codes "I")) _ _
            (legacy_invite_line-Kept (field ∷ fields) t k) k))

  legacy_body-Kept : (lines : List Str) (t : Tables) → Kept t → Kept (legacy_body lines t)
  unfolding legacy_body
  legacy_body-Kept [] t k = k
  legacy_body-Kept (raw ∷ lines) t k = legacy_body-Kept lines _ (
      if-keeps Kept (is_empty (lib.trim raw)) _ _ k
        (legacy_line-Kept (lib.get_tokens (lib.trim raw) b'|') t k))

  pub load_legacy-Kept : (lines : List Str) → IsLoadedOr limit (some (load_legacy lines))
  unfolding load_legacy
  load_legacy-Kept [] = (tt, tt, tt)
  load_legacy-Kept (raw ∷ lines) =
      let nothing : Tables = record { groups = []; invites = [] } in
      if-keeps Kept (is_empty (lib.trim raw)) _ _ (load_legacy-Kept lines) (
        if-keeps Kept (is_legacy_header (lib.get_tokens (lib.trim raw) b'|'))
          (legacy_body lines nothing) nothing (legacy_body-Kept lines nothing (tt, tt, tt))
          (tt, tt, tt))
