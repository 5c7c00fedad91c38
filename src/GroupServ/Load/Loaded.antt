-- ===== src/GroupServ/Load/Loaded.antt =====
-- What holds of the groups and invitations that either reader of LoadDB makes.
use anope_mods_contrib.Base.{ℕ, ◌≤◌, ◌≢◌, false, Option, none, some, Str, length, arith}
use anope_mods_contrib.Base.Order.{text_order}
use anope_mods_contrib.Dict.Laws.{IsSorted}
use anope_mods_contrib.Dict.Entries.{Each}
use anope_mods_contrib.Anope.{Anope}
use anope_mods_contrib.GroupServ.AccessFlag
use anope_mods_contrib.GroupServ.Types.{GroupRecord}
use anope_mods_contrib.GroupServ.Flags.{parse_flags}
use anope_mods_contrib.GroupServ.Flags.Parse.{parse_flags-IsClosed, parse_flags-lt}
use anope_mods_contrib.GroupServ.Invariant.Base.{IsFlags}
use anope_mods_contrib.GroupServ.Load.Legacy.{Tables}

-- Proper join flags, and no more memos than the limit.
abbrev pub IsLoaded : ℕ → GroupRecord → Type 0
IsLoaded limit g = IsFlags g.joinflags × (limit ≢ 0 → length g.memos ≤ limit)

abbrev pub IsLoadedOr : ℕ → Option Tables → Type 0
IsLoadedOr limit none = Unit
IsLoadedOr limit (some t) =
    IsSorted t.groups × Each (λ _ g. IsLoaded limit g) t.groups × IsSorted t.invites

pub parse_flags-IsFlags : ⦃lib : Anope⦄ (s : Str) → IsFlags (parse_flags s false AccessFlag.none)
parse_flags-IsFlags s = (parse_flags-lt s false 0 (omega arith), parse_flags-IsClosed s false 0)
