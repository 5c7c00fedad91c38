-- ===== src/GroupServ/Load/Current/Fields.antt =====
-- One line of the key=value file: `version=`, `group.<key>.<field>...=` or `invite.<n>.<field>=`.
use anope_mods_contrib.Base.{
  ℕ, ◌%◌, ◌^◌, Bool, true, ◌||◌, Option, none, some, List, [], ◌∷◌, Str, codes, ltb, ◌==◌,
  if◌then◌else◌,
}
use anope_mods_contrib.Base.Order.{text_order, nat_order}
use anope_mods_contrib.Dict.{Dict, lookup, insert}
use anope_mods_contrib.Anope.{Anope}
use anope_mods_contrib.GroupServ.Types.{GroupRecord, Memo, fresh_record}
use anope_mods_contrib.GroupServ.Text.{unescape_value, normalize_key, split_first}
use anope_mods_contrib.GroupServ.Load.Legacy.{parse_u64}

-- `Anope::string s(raw.c_str())` ends at the first NUL.
unfoldable pub until_nul : Str → Str
until_nul [] = []
until_nul (c ∷ s) = let rest = until_nul s in if c == 0 then [] else c ∷ rest

pub record AccessTmp : Type 0 where
  pub account : Str
  pub flags : ℕ

pub record InviteTmp : Type 0 where
  pub account : Str
  pub group : Str
  pub created : ℕ
  pub expires : ℕ

-- The tables that LoadDB fills as it reads.
pub record Reading : Type 0 where
  pub version : ℕ
  pub groups : Dict Str GroupRecord
  pub joinflags_tmp : Dict Str Str
  pub access_tmp : Dict Str (Dict ℕ AccessTmp)
  pub memos_tmp : Dict Str (Dict ℕ Memo)
  pub invites_tmp : Dict ℕ InviteTmp

-- `m[k]`, which makes an entry where there is none.
abbrev pub or_new {ℓ} : {V : Type ℓ} → V → Option V → V
or_new new none = new
or_new new (some v) = v

abbrev pub new_access : AccessTmp
new_access = record { account = []; flags = 0 }

abbrev pub new_memo : Memo
new_memo = record { sender = []; time = 0; text = [] }

abbrev pub new_invite : InviteTmp
new_invite = record { account = []; group = []; created = 0; expires = 0 }

module _ ⦃lib : Anope⦄ where
  set_access : Str → Str → AccessTmp → AccessTmp
  unfolding parse_u64 normalize_key
  set_access afield val entry =
      if lib.equals_ci afield (codes "account")
      then record entry { account = normalize_key val }
      else if lib.equals_ci afield (codes "flags")
      then record entry { flags = parse_u64 val }
      else entry

  set_memo : Str → Str → Memo → Memo
  unfolding parse_u64
  set_memo mfield val memo =
      if lib.equals_ci mfield (codes "sender")
      then record memo { sender = val }
      else if lib.equals_ci mfield (codes "time")
      then record memo { time = parse_u64 val }
      else if lib.equals_ci mfield (codes "text")
      then record memo { text = val }
      else memo

  -- `group.<gkey>.access.<index>.<afield>=<val>`; an index above 100000 is skipped.
  unfoldable pub read_access : Str → List Str → Str → Reading → Reading
  unfolding set_access
  read_access gkey (index ∷ afield ∷ rest) val r = elim (lib.convert index) [
    | none ↦ r
    | some idx ↦
        let entries = or_new [] (lookup gkey r.access_tmp) in
        let entry = set_access afield val (or_new new_access (lookup idx entries)) in
        if ltb 100000 idx
        then r
        else record r { access_tmp = insert gkey (insert idx entry entries) r.access_tmp }
  ]
  read_access gkey _ val r = r

  -- `group.<gkey>.memo.<index>.<mfield>=<val>`; an index above 1000000 is skipped.
  unfoldable pub read_memo : Str → List Str → Str → Reading → Reading
  unfolding set_memo
  read_memo gkey (index ∷ mfield ∷ rest) val r = elim (lib.convert index) [
    | none ↦ r
    | some idx ↦
        let entries = or_new [] (lookup gkey r.memos_tmp) in
        let memo = set_memo mfield val (or_new new_memo (lookup idx entries)) in
        if ltb 1000000 idx
        then r
        else record r { memos_tmp = insert gkey (insert idx memo entries) r.memos_tmp }
  ]
  read_memo gkey _ val r = r

  -- A field that stands in the group's record itself; a number that does not parse is skipped.
  unfoldable pub set_field : Str → Str → GroupRecord → GroupRecord
  set_field field val g =
      if lib.equals_ci field (codes "name")
      then record g { name = val }
      else if lib.equals_ci field (codes "regtime")
      then elim (lib.convert val) [ none ↦ g | some ts ↦ record g { regtime = ts } ]
      else if lib.equals_ci field (codes "flags")
      then elim (lib.convert val) [ none ↦ g | some n ↦ record g { flags = n % 2 ^ 32 } ]
      else if lib.equals_ci field (codes "description")
      then record g { description = val }
      else if lib.equals_ci field (codes "url")
      then record g { url = val }
      else if lib.equals_ci field (codes "email")
      then record g { email = val }
      else if lib.equals_ci field (codes "channel")
      then record g { channel = val }
      else if lib.equals_ci field (codes "vhost")
      then record g { vhost = val }
      else g

  pub is_own_field : Str → Bool
  is_own_field field =
      lib.equals_ci field (codes "name")
      || lib.equals_ci field (codes "regtime")
      || lib.equals_ci field (codes "flags")
      || lib.equals_ci field (codes "description")
      || lib.equals_ci field (codes "url")
      || lib.equals_ci field (codes "email")
      || lib.equals_ci field (codes "channel")
      || lib.equals_ci field (codes "vhost")

  -- `group.<name>.<field>...=<val>`, which makes the group whatever the field is.
  unfoldable pub read_group : Str → Str → List Str → Str → Reading → Reading
  unfolding read_access read_memo set_field is_own_field normalize_key
  read_group name field rest val r =
      let gkey = normalize_key name in
      let g = or_new fresh_record (lookup gkey r.groups) in
      let made = record r { groups = insert gkey g r.groups } in
      if is_own_field field
      then record r { groups = insert gkey (set_field field val g) r.groups }
      else if lib.equals_ci field (codes "joinflags")
      then record made { joinflags_tmp = insert gkey val r.joinflags_tmp }
      else if lib.equals_ci field (codes "access")
      then read_access gkey rest val made
      else if lib.equals_ci field (codes "memo")
      then read_memo gkey rest val made
      else made

  set_invite : Str → Str → InviteTmp → InviteTmp
  unfolding parse_u64 normalize_key
  set_invite field val inv =
      if lib.equals_ci field (codes "account")
      then record inv { account = normalize_key val }
      else if lib.equals_ci field (codes "group")
      then record inv { group = val }
      else if lib.equals_ci field (codes "created")
      then record inv { created = parse_u64 val }
      else if lib.equals_ci field (codes "expires")
      then record inv { expires = parse_u64 val }
      else inv

  -- `invite.<index>.<field>=<val>`; an index above 100000 is skipped.
  unfoldable pub read_invite : Str → Str → Str → Reading → Reading
  unfolding set_invite
  read_invite index field val r = elim (lib.convert index) [
    | none ↦ r
    | some idx ↦
        let inv = set_invite field val (or_new new_invite (lookup idx r.invites_tmp)) in
        if ltb 100000 idx then r else record r { invites_tmp = insert idx inv r.invites_tmp }
  ]

  -- The parts of the key between its dots, three or more.
  unfoldable pub read_parts : List Str → Str → Reading → Reading
  unfolding read_group read_invite
  read_parts (part ∷ name ∷ field ∷ rest) val r =
      if lib.equals_ci part (codes "group")
      then read_group name field rest val r
      else if lib.equals_ci part (codes "invite")
      then read_invite name field val r
      else r
  read_parts _ val r = r

  unfoldable pub read_pair : Str → Str → Reading → Reading
  unfolding read_parts parse_u64
  read_pair key val r =
      if lib.equals_ci key (codes "version")
      then record r { version = parse_u64 val }
      else read_parts (lib.get_tokens key b'.') val r

  abbrev pub is_comment : Str → Bool
  is_comment [] = true
  is_comment (c ∷ s) = c == b'#'

  unfoldable pub read_line : Str → Reading → Reading
  unfolding read_pair until_nul split_first unescape_value
  read_line raw r =
      let s = lib.trim (until_nul raw) in
      if is_comment s then r else elim (split_first b'=' s) [
        | none ↦ r
        | some (key, val) ↦ read_pair (lib.trim key) (lib.trim (unescape_value val)) r
      ]

  unfoldable pub read_lines : List Str → Reading → Reading
  unfolding read_line
  read_lines [] r = r
  read_lines (raw ∷ lines) r = read_lines lines (read_line raw r)
