-- ===== src/GroupServ/Load/Legacy.antt =====
-- `load_legacy` of LoadDB: lines of fields between bars, behind a `groupserv|...` header.
pub mod Kept
use anope_mods_contrib.Base.{
  ℕ, ◌%◌, ◌^◌, Bool, false, none, some, List, [], ◌∷◌, Str, codes, if◌then◌else◌, is_some,
}
use anope_mods_contrib.Base.Order.{text_order}
use anope_mods_contrib.Dict.{Dict, lookup, insert}
use anope_mods_contrib.Anope.{Anope}
use anope_mods_contrib.GroupServ.AccessFlag
use anope_mods_contrib.GroupServ.Types.{GroupRecord, Invite, fresh_record}
use anope_mods_contrib.GroupServ.Text.{is_empty, unescape_value, normalize_key}
use anope_mods_contrib.GroupServ.Flags.{parse_flags}

-- `new_groups` and `new_invites`.
pub record Tables : Type 0 where
  pub groups : Dict Str GroupRecord
  pub invites : Dict Str Invite

module _ ⦃lib : Anope⦄ where
  -- ParseU64 and its `out`, which is 0 where the text is no number.
  unfoldable pub parse_u64 : Str → ℕ
  parse_u64 s = elim (lib.convert s) [ none ↦ 0 | some n ↦ n ]

  unfoldable pub is_legacy_header : List Str → Bool
  is_legacy_header [] = false
  is_legacy_header (magic ∷ []) = false
  is_legacy_header (magic ∷ version ∷ parts) = lib.equals_ci magic (codes "groupserv")

  -- A `G` line of nine fields or more. `emplace` keeps a group that is there.
  legacy_group : Str → Str → Str → Str → Str → Str → Str → Str → Tables → Tables
  unfolding parse_u64 unescape_value normalize_key
  legacy_group name reg gflags desc url email channel joinflags t =
      let key = normalize_key (unescape_value name) in
      let g : GroupRecord = record fresh_record {
        name = unescape_value name;
        regtime = parse_u64 reg;
        flags = parse_u64 gflags % 2 ^ 32;
        description = unescape_value desc;
        url = unescape_value url;
        email = unescape_value email;
        channel = unescape_value channel;
        joinflags = parse_flags (unescape_value joinflags) false AccessFlag.none;
      } in
      if is_some (lookup key t.groups) then t else record t { groups = insert key g t.groups }

  -- An `A` line of four fields or more.
  legacy_access : Str → Str → Str → Tables → Tables
  unfolding parse_u64 unescape_value normalize_key
  legacy_access group account flags t =
      let key = normalize_key (unescape_value group) in
      elim (lookup key t.groups) [
        | none ↦ t
        | some g ↦ record t {
          groups =
              insert key
                (record g {
                  access =
                      insert (normalize_key (unescape_value account)) (parse_u64 flags % 2 ^ 32)
                        g.access;
                })
                t.groups;
        }
      ]

  -- An `I` line of five fields or more.
  legacy_invite : Str → Str → Str → Str → Tables → Tables
  unfolding parse_u64 unescape_value normalize_key
  legacy_invite account group created expires t =
      let inv : Invite = record {
        group = unescape_value group;
        created = parse_u64 created;
        expires = parse_u64 expires;
      } in
      record t { invites = insert (normalize_key (unescape_value account)) inv t.invites }

  legacy_group_line : List Str → Tables → Tables
  unfolding legacy_group
  legacy_group_line (a ∷ b ∷ c ∷ d ∷ e ∷ f ∷ g ∷ h ∷ rest) t = legacy_group a b c d e f g h t
  legacy_group_line _ t = t

  legacy_access_line : List Str → Tables → Tables
  unfolding legacy_access
  legacy_access_line (a ∷ b ∷ c ∷ rest) t = legacy_access a b c t
  legacy_access_line _ t = t

  legacy_invite_line : List Str → Tables → Tables
  unfolding legacy_invite
  legacy_invite_line (a ∷ b ∷ c ∷ d ∷ rest) t = legacy_invite a b c d t
  legacy_invite_line _ t = t

  -- The fields of one line behind the header.
  unfoldable pub legacy_line : List Str → Tables → Tables
  unfolding legacy_group_line legacy_access_line legacy_invite_line
  legacy_line [] t = t
  legacy_line (type ∷ []) t = t
  legacy_line (type ∷ field ∷ fields) t =
      if lib.equals_ci type (codes "G")
      then legacy_group_line (field ∷ fields) t
      else if lib.equals_ci type (codes "A")
      then legacy_access_line (field ∷ fields) t
      else if lib.equals_ci type (codes "I")
      then legacy_invite_line (field ∷ fields) t
      else t

  unfoldable pub legacy_body : List Str → Tables → Tables
  unfolding legacy_line
  legacy_body [] t = t
  legacy_body (raw ∷ lines) t =
      let line = lib.trim raw in
      legacy_body lines (if is_empty line then t else legacy_line (lib.get_tokens line b'|') t)

  -- Up to the header; a first line that is no header ends the reading.
  unfoldable pub load_legacy : List Str → Tables
  unfolding is_legacy_header legacy_body
  load_legacy [] = record { groups = []; invites = [] }
  load_legacy (raw ∷ lines) =
      let nothing : Tables = record { groups = []; invites = [] } in
      let rest = load_legacy lines in
      let body = legacy_body lines nothing in
      let line = lib.trim raw in
      if is_empty line
      then rest
      else if is_legacy_header (lib.get_tokens line b'|')
      then body
      else nothing
