-- ===== src/GroupServ/Save.antt =====
-- SaveDB: the purge, the lines of groupserv.db, and the replacement of the file.
use anope_mods_contrib.Base.{
  ℕ, ◌+◌, ◌%◌, ◌^◌, not, ◌||◌, Option, none, some, List, [], ◌∷◌, ◌++◌, Str, codes, if◌then◌else◌,
}
use anope_mods_contrib.Base.Decimal.{decimal}
use anope_mods_contrib.Dict.{Dict}
use anope_mods_contrib.Anope.{Env}
use anope_mods_contrib.GroupServ.Types.{Core, Disk, GroupRecord, Memo, Invite}
use anope_mods_contrib.GroupServ.Text.{escape_value}
use anope_mods_contrib.GroupServ.Flags.{flags_to_string}
use anope_mods_contrib.GroupServ.State.{purge_expired_state}

abbrev pub database_version : ℕ
database_version = 1

-- `group.<key>.<field>=<value>`
unfoldable pub group_line : Str → Str → Str → Str
group_line gkey field value = codes "group." ++ gkey ++ codes "." ++ field ++ codes "=" ++ value

abbrev indexed : Str → ℕ → Str → Str
indexed list i field = list ++ codes "." ++ decimal i ++ codes "." ++ field

unfoldable pub access_lines : Str → ℕ → Dict Str ℕ → List Str
unfolding group_line decimal escape_value
access_lines gkey i [] = []
access_lines gkey i ((acct, flags) ∷ a) =
    group_line gkey (indexed (codes "access") i (codes "account")) (escape_value acct)
    ∷ group_line gkey (indexed (codes "access") i (codes "flags")) (decimal (flags % 2 ^ 32))
    ∷ access_lines gkey (i + 1) a

unfoldable pub memo_lines : Str → ℕ → List Memo → List Str
unfolding group_line decimal escape_value
memo_lines gkey i [] = []
memo_lines gkey i (m ∷ ms) =
    group_line gkey (indexed (codes "memo") i (codes "sender")) (escape_value m.sender)
    ∷ group_line gkey (indexed (codes "memo") i (codes "time")) (decimal m.time)
    ∷ group_line gkey (indexed (codes "memo") i (codes "text")) (escape_value m.text)
    ∷ memo_lines gkey (i + 1) ms

unfoldable pub group_lines : Str → GroupRecord → List Str
unfolding group_line decimal escape_value access_lines memo_lines
group_lines gkey g =
    group_line gkey (codes "name") (escape_value g.name)
    ∷ group_line gkey (codes "regtime") (decimal g.regtime)
    ∷ group_line gkey (codes "flags") (decimal (g.flags % 2 ^ 32))
    ∷ group_line gkey (codes "description") (escape_value g.description)
    ∷ group_line gkey (codes "url") (escape_value g.url)
    ∷ group_line gkey (codes "email") (escape_value g.email)
    ∷ group_line gkey (codes "channel") (escape_value g.channel)
    ∷ group_line gkey (codes "vhost") (escape_value g.vhost)
    ∷ group_line gkey (codes "joinflags") (escape_value (flags_to_string g.joinflags))
    ∷ (access_lines gkey 0 g.access ++ memo_lines gkey 0 g.memos)

unfoldable pub all_group_lines : Dict Str GroupRecord → List Str
unfolding group_lines
all_group_lines [] = []
all_group_lines ((gkey, g) ∷ groups) = group_lines gkey g ++ all_group_lines groups

-- `invite.<index>.<field>=<value>`
unfoldable pub invite_line : ℕ → Str → Str → Str
unfolding decimal
invite_line i field value = codes "invite." ++ decimal i ++ codes "." ++ field ++ codes "=" ++ value

unfoldable pub invite_lines : ℕ → Dict Str Invite → List Str
unfolding invite_line decimal escape_value
invite_lines i [] = []
invite_lines i ((acct, inv) ∷ invs) =
    invite_line i (codes "account") (escape_value acct)
    ∷ invite_line i (codes "group") (escape_value inv.group)
    ∷ invite_line i (codes "created") (decimal inv.created)
    ∷ invite_line i (codes "expires") (decimal inv.expires)
    ∷ invite_lines (i + 1) invs

unfoldable pub database_lines : Core → List Str
unfolding all_group_lines invite_lines decimal
database_lines core =
    codes "# GroupServ database"
    ∷ (codes "version=" ++ decimal database_version)
    ∷ (all_group_lines core.groups ++ invite_lines 0 core.invites)

-- The rename of the .tmp file, with the lines that reached it; the source does not ask whether these
-- are all. Where it fails, the old file is removed and the rename
-- is tried once more.
unfoldable pub replace_file : Env → List Str → Disk → Disk
replace_file env lines disk =
    let kept : Option (List Str) = if env.removes then none else disk.db in
    let again : Disk =
      if env.renames_again
      then record { db = some lines; tmp = none }
      else record { db = kept; tmp = some lines } in
    if env.renames then record { db = some lines; tmp = none } else again

unfoldable pub save_db : Env → Core → Core
unfolding purge_expired_state replace_file
save_db env core =
    let purged = purge_expired_state env core in
    let saved = record purged {
      disk = replace_file env (env.writes (database_lines purged)) core.disk;
    } in
    if not core.initialized || env.read_only then core else if env.can_open then saved else purged
