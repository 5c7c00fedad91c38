-- ===== src/GroupServ/Types.antt =====
-- The records of GroupServ/groupserv.h. A `std::map` is a `Dict`, a `time_t` a number (no time
-- before 1970), and an enum of flags the unsigned int that it is.
use anope_mods_contrib.Base.{ℕ, Bool, Option, List, [], Str}
use anope_mods_contrib.Dict.{Dict}
use anope_mods_contrib.GroupServ.AccessFlag
use anope_mods_contrib.GroupServ.GroupFlag

pub record Memo : Type 0 where
  pub sender : Str
  pub time : ℕ
  pub text : Str

pub record GroupRecord : Type 0 where
  pub name : Str
  pub regtime : ℕ
  pub flags : ℕ
  pub description : Str
  pub url : Str
  pub email : Str
  pub channel : Str
  pub vhost : Str
  pub joinflags : ℕ
  pub memos : List Memo
  pub access : Dict Str ℕ

-- `GSGroupRecord g;`
abbrev pub fresh_record : GroupRecord
fresh_record = record {
  name = [];
  regtime = 0;
  flags = GroupFlag.none;
  description = [];
  url = [];
  email = [];
  channel = [];
  vhost = [];
  joinflags = AccessFlag.none;
  memos = [];
  access = [];
}

pub record Invite : Type 0 where
  pub group : Str
  pub created : ℕ
  pub expires : ℕ

pub record DropChallenge : Type 0 where
  pub token : Str
  pub created : ℕ

pub record Config : Type 0 where
  pub admin_priv : Str
  pub auspex_priv : Str
  pub exceed_priv : Str
  pub maxgroups : ℕ
  pub maxgroupacs : ℕ
  pub maxgroupmemos : ℕ
  pub enable_open_groups : Bool
  pub opers_only : Bool
  pub default_joinflags : ℕ
  pub default_vhostauto : Bool

-- The lines of groupserv.db and of groupserv.db.tmp, where the file is there.
pub record Disk : Type 0 where
  pub db : Option (List Str)
  pub tmp : Option (List Str)

-- `class GroupServCore`, and the files that it keeps. `bot` is the nick of the service's client.
pub record Core : Type 0 where
  pub config : Config
  pub open config use *
  pub bot : Option Str
  pub groups : Dict Str GroupRecord
  pub invites : Dict Str Invite
  pub drop_challenges : Dict Str DropChallenge
  pub initialized : Bool
  pub disk : Disk
