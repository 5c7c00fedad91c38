-- ===== src/GroupServ/Load/Current/Kept.antt =====
-- The key=value reader of LoadDB: what holds of the groups and invitations that it makes.
use anope_mods_contrib.Base.{
  ℕ, ◌≤◌, ◌-◌, ◌≡◌, ◌≢◌, sym, ap, subst, refl, Option, none, some, inl, inr, Option-cases, List, [],
  ◌∷◌, Str, codes, ◌||◌, ◌&&◌, not, ◌==◌, length, length-drop, if-keeps, arith,
}
use anope_mods_contrib.Base.Order.{text_order}
use anope_mods_contrib.Dict.{Dict, lookup, insert}
use anope_mods_contrib.Dict.Laws.{Above, IsSorted, insert-IsSorted}
use anope_mods_contrib.Dict.Entries.{Each, lookup-Each, insert-Each}
use anope_mods_contrib.Anope.{Anope}
use anope_mods_contrib.GroupServ.Types.{GroupRecord, Invite, fresh_record}
use anope_mods_contrib.GroupServ.Text.{is_empty, normalize_key, split_first, unescape_value}
use anope_mods_contrib.GroupServ.State.{clamp_memos}
use anope_mods_contrib.GroupServ.Invariant.Base.{IsFlags}
use anope_mods_contrib.GroupServ.Load.Current.Finish.{
  finish_group, finish_groups, finish_invites, load_current,
}
use anope_mods_contrib.GroupServ.Load.Loaded.{IsLoaded, IsLoadedOr, parse_flags-IsFlags}
use anope_mods_contrib.GroupServ.Load.Current.Fields.{
  Reading, InviteTmp, or_new, read_access, read_memo, set_field, read_group, read_invite,
  read_parts, read_pair, read_line, read_lines, is_own_field, is_comment, until_nul,
}

-- Groups by ascending key, without memos, as they are while the file is read.
abbrev pub IsBare : Dict Str GroupRecord → Type 0
IsBare groups = IsSorted groups × Each (λ _ (g : GroupRecord). length g.memos ≡ 0) groups

abbrev Kept : Reading → Type 0
Kept r = IsBare r.groups

module _ ⦃lib : Anope⦄ where
  read_access-groups :
      (gkey : Str) (rest : List Str) (val : Str) (r : Reading)
      → (read_access gkey rest val r).groups ≡ r.groups
  unfolding read_access
  read_access-groups gkey [] val r = refl
  read_access-groups gkey (index ∷ []) val r = refl
  read_access-groups gkey (index ∷ afield ∷ rest) val r = ground arith

  read_memo-groups :
      (gkey : Str) (rest : List Str) (val : Str) (r : Reading)
      → (read_memo gkey rest val r).groups ≡ r.groups
  unfolding read_memo
  read_memo-groups gkey [] val r = refl
  read_memo-groups gkey (index ∷ []) val r = refl
  read_memo-groups gkey (index ∷ mfield ∷ rest) val r = ground arith

  read_invite-groups :
      (index field val : Str) (r : Reading) → (read_invite index field val r).groups ≡ r.groups
  unfolding read_invite
  read_invite-groups index field val r = ground arith

  set_field-memos : (field val : Str) (g : GroupRecord) → (set_field field val g).memos ≡ g.memos
  unfolding set_field
  set_field-memos field val g = ground arith

  or_new-memos :
      (gkey : Str) (groups : Dict Str GroupRecord)
      → IsBare groups
      → length (or_new fresh_record (lookup gkey groups)).memos ≡ 0
  or_new-memos gkey groups h = elim (Option-cases (lookup gkey groups)) [
    | inl e ↦ ground (arith, e)
    | inr (g, e) ↦
        ground
          (arith, e, lookup-Each (λ _ (g : GroupRecord). length g.memos ≡ 0) gkey g groups h.1 e)
  ]

  insert-IsBare :
      (gkey : Str) (g : GroupRecord) (groups : Dict Str GroupRecord)
      → length g.memos ≡ 0
      → IsBare groups
      → IsBare (insert gkey g groups)
  insert-IsBare gkey g groups m h = (
    insert-IsSorted gkey g groups h.0,
    insert-Each (λ _ (g : GroupRecord). length g.memos ≡ 0) gkey g groups m h.1,
  )

  read_group-IsBare :
      (name field : Str) (rest : List Str) (val : Str) (r : Reading)
      → IsBare r.groups
      → IsBare (read_group name field rest val r).groups
  unfolding read_group
  read_group-IsBare name field rest val r h =
      let gkey = normalize_key name in
      let g = or_new fresh_record (lookup gkey r.groups) in
      let m = or_new-memos gkey r.groups h in
      let made = record r { groups = insert gkey g r.groups } in
      let k = insert-IsBare gkey g r.groups m h in
      if-keeps Kept (is_own_field field) _ _
        (insert-IsBare gkey (set_field field val g) r.groups
          (omega (arith, m, ap length (set_field-memos field val g))) h)
        (if-keeps Kept (lib.equals_ci field (codes "joinflags")) _ _ k (
          if-keeps Kept (lib.equals_ci field (codes "access")) _ _
            (subst IsBare (sym (read_access-groups gkey rest val made)) k)
            (if-keeps Kept (lib.equals_ci field (codes "memo")) _ _
              (subst IsBare (sym (read_memo-groups gkey rest val made)) k) k)))

  read_parts-IsBare :
      (parts : List Str) (val : Str) (r : Reading)
      → IsBare r.groups
      → IsBare (read_parts parts val r).groups
  unfolding read_parts
  read_parts-IsBare [] val r h = h
  read_parts-IsBare (part ∷ []) val r h = h
  read_parts-IsBare (part ∷ name ∷ []) val r h = h
  read_parts-IsBare (part ∷ name ∷ field ∷ rest) val r h =
      if-keeps Kept (lib.equals_ci part (codes "group")) _ _
        (read_group-IsBare name field rest val r h)
        (if-keeps Kept (lib.equals_ci part (codes "invite")) _ _
          (subst IsBare (sym (read_invite-groups name field val r)) h) h)

  read_pair-IsBare :
      (key val : Str) (r : Reading) → IsBare r.groups → IsBare (read_pair key val r).groups
  unfolding read_pair
  read_pair-IsBare key val r h =
      if-keeps Kept (lib.equals_ci key (codes "version")) _ _ h
        (read_parts-IsBare (lib.get_tokens key b'.') val r h)

  read_line-IsBare : (raw : Str) (r : Reading) → IsBare r.groups → IsBare (read_line raw r).groups
  unfolding read_line
  read_line-IsBare raw r h =
      if-keeps Kept (is_comment (lib.trim (until_nul raw))) _ _ h
        (elim (split_first b'=' (lib.trim (until_nul raw))) as (λ o. Kept (paired o)) [
          | none ↦ h
          | some kv ↦ read_pair-IsBare (lib.trim kv.0) (lib.trim (unescape_value kv.1)) r h
        ])
    where
      paired : Option (Str × Str) → Reading
      paired o = elim o [
        | none ↦ r
        | some kv ↦ read_pair (lib.trim kv.0) (lib.trim (unescape_value kv.1)) r
      ]

  read_lines-IsBare :
      (lines : List Str) (r : Reading) → IsBare r.groups → IsBare (read_lines lines r).groups
  unfolding read_lines
  read_lines-IsBare [] r h = h
  read_lines-IsBare (raw ∷ lines) r h =
      read_lines-IsBare lines (read_line raw r) (read_line-IsBare raw r h)

  clamp_memos-length :
      (limit : ℕ) (g : GroupRecord) → limit ≢ 0 → length (clamp_memos limit g).memos ≤ limit
  unfolding clamp_memos
  clamp_memos-length limit g n = ground (arith, n, length-drop (length g.memos - limit) g.memos)

  clamp_memos-joinflags :
      (limit : ℕ) (g : GroupRecord) → (clamp_memos limit g).joinflags ≡ g.joinflags
  unfolding clamp_memos
  clamp_memos-joinflags limit g = ground arith

  finish_group-IsLoaded :
      (limit : ℕ) (r : Reading) (gkey : Str) (g : GroupRecord)
      → length g.memos ≡ 0
      → IsLoaded limit (finish_group limit r gkey g)
  unfolding finish_group
  finish_group-IsLoaded limit r gkey g m =
      let flags = parse_flags-IsFlags (or_new [] (lookup gkey r.joinflags_tmp)) in
      elim (Option-cases (lookup gkey r.access_tmp)) [
        | inl e ↦ rw (e, finish_group) (flags, λ n. omega (arith, m))
        | inr (entries, e) ↦ elim (Option-cases (lookup gkey r.memos_tmp)) [
          | inl f ↦ rw (e, f, finish_group) (flags, λ n. omega arith)
          | inr (memos, f) ↦
              rw (e, f, finish_group)
                (
                  subst IsFlags (sym (clamp_memos-joinflags limit _)) flags,
                  λ n. clamp_memos-length limit _ n,
                )
        ]
      ]

  finish_groups-Above :
      (limit : ℕ) (r : Reading) (k : Str) (groups : Dict Str GroupRecord)
      → Above k groups
      → Above k (finish_groups limit r groups)
  unfolding finish_groups
  finish_groups-Above limit r k [] h = tt
  finish_groups-Above limit r k ((gkey, g) ∷ groups) h =
      (h.0, finish_groups-Above limit r k groups h.1)

  finish_groups-IsSorted :
      (limit : ℕ) (r : Reading) (groups : Dict Str GroupRecord)
      → IsSorted groups
      → IsSorted (finish_groups limit r groups)
  unfolding finish_groups
  finish_groups-IsSorted limit r [] h = tt
  finish_groups-IsSorted limit r ((gkey, g) ∷ groups) h =
      (finish_groups-Above limit r gkey groups h.0, finish_groups-IsSorted limit r groups h.1)

  finish_groups-Each :
      (limit : ℕ) (r : Reading) (groups : Dict Str GroupRecord)
      → Each (λ _ (g : GroupRecord). length g.memos ≡ 0) groups
      → Each (λ _ g. IsLoaded limit g) (finish_groups limit r groups)
  unfolding finish_groups
  finish_groups-Each limit r [] h = tt
  finish_groups-Each limit r ((gkey, g) ∷ groups) h =
      (finish_group-IsLoaded limit r gkey g h.0, finish_groups-Each limit r groups h.1)

  finish_invites-IsSorted :
      (invs : Dict ℕ InviteTmp) (invites : Dict Str Invite)
      → IsSorted invites
      → IsSorted (finish_invites invs invites)
  unfolding finish_invites
  finish_invites-IsSorted [] invites h = h
  finish_invites-IsSorted ((i, inv) ∷ invs) invites h = finish_invites-IsSorted invs _ (
      if-keeps IsSorted (is_empty inv.account || is_empty inv.group) _ _ h
        (insert-IsSorted (normalize_key inv.account) _ invites h))

  pub load_current-IsLoaded :
      (limit : ℕ) (lines : List Str) → IsLoadedOr limit (load_current limit lines)
  unfolding load_current
  load_current-IsLoaded limit lines =
      let start : Reading = record {
        version = 0;
        groups = [];
        joinflags_tmp = [];
        access_tmp = [];
        memos_tmp = [];
        invites_tmp = [];
      } in
      let r = read_lines lines start in
      let bare = read_lines-IsBare lines start (tt, tt) in
      if-keeps (IsLoadedOr limit) (not (r.version == 0) && not (r.version == 1)) _ _ tt (
        finish_groups-IsSorted limit r r.groups bare.0,
        finish_groups-Each limit r r.groups bare.1,
        finish_invites-IsSorted r.invites_tmp [] tt,
      )
