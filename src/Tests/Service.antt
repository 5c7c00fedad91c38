-- ===== src/Tests/Service.antt =====
-- The groups, accounts and callers of the tests.
use anope_mods_contrib.Base.{
  ℕ, ◌+◌, ◌≡◌, ◌<◌, refl, true, false, none, some, [], ◌∷◌, Str, codes, if◌then◌else◌, arith,
}
use anope_mods_contrib.Base.Order.{text_order, ◌=?◌}
use anope_mods_contrib.Bits.{bit}
use anope_mods_contrib.Anope.{Env, Source}
use anope_mods_contrib.GroupServ.AccessFlag
use anope_mods_contrib.GroupServ.GroupFlag
use anope_mods_contrib.GroupServ.Types.{Memo, GroupRecord, Config, Core, fresh_record}
use anope_mods_contrib.GroupServ.Text.{normalize_key}
use anope_mods_contrib.GroupServ.Invariant.Base.{IsFlags, IsValid, IsFlags-all}
use anope_mods_contrib.GroupServ.Flags.{has_flag}
use anope_mods_contrib.Tests.Ascii.{ascii}

abbrev pub now : ℕ
now = 1700000000

-- Accounts `Amy` to `Eve`; the database can be written.
abbrev pub env : Env
env = record {
  cur_time = now;
  read_only = false;
  random = codes "a1b2c3d4e5f6";
  alias_account = λ n.
      if n =? codes "bob"
      then some (codes "Bob")
      else if n =? codes "cat"
      then some (codes "Cat")
      else none;
  core_account = λ n. none;
  find_user = λ n. none;
  account_users = λ n. [];
  has_ircd = true;
  can_set_vhost = true;
  can_set_vident = true;
  is_ident_valid = λ s. true;
  is_host_valid = λ s. true;
  max_host = 63;
  has_chanaccess = true;
  channels = [];
  can_open = true;
  writes = λ lines. lines;
  renames = true;
  removes = true;
  renames_again = true;
}

abbrev pub user : Str → Source
user name = record { account = some name; has_priv = λ p. false; is_oper = false; nick = name }

abbrev pub memo : Str → Memo
memo text = record { sender = codes "Amy"; time = now; text = text }

-- An open group: Amy is the founder, Bob has FLAGS and SET.
abbrev pub dev : GroupRecord
dev = record fresh_record {
  name = codes "!dev";
  regtime = now;
  flags = GroupFlag.openly;
  memos = memo (codes "one") ∷ memo (codes "two") ∷ [];
  access = (codes "amy", AccessFlag.all) ∷ (codes "bob", AccessFlag.flags + AccessFlag.set) ∷ [];
}

abbrev pub settings : Config
settings = record {
  admin_priv = codes "groupserv/admin";
  auspex_priv = codes "groupserv/auspex";
  exceed_priv = codes "groupserv/exceed";
  maxgroups = 5;
  maxgroupacs = 0;
  maxgroupmemos = 50;
  enable_open_groups = true;
  opers_only = false;
  default_joinflags = AccessFlag.memo;
  default_vhostauto = false;
}

-- Cat is invited, and Amy has asked for the drop.
abbrev pub core : Core
core = record {
  config = settings;
  bot = some (codes "GroupServ");
  groups = (codes "!dev", dev) ∷ [];
  invites =
      (codes "cat", record { group = codes "!dev"; created = now; expires = now + 604800 }) ∷ [];
  drop_challenges = (codes "amy|!dev", record { token = codes "k"; created = now }) ∷ [];
  initialized = true;
  disk = record { db = none; tmp = none };
}

plain-IsFlags : (f : ℕ) → f < 512 → bit f 0 ≡ 0 → IsFlags f
plain-IsFlags f l h = (l, λ b. absurd (omega (arith, h, b)))

pub core-IsValid : IsValid ⦃lib = ascii⦄ core
unfolding normalize_key has_flag
core-IsValid = (
  (tt, tt),
  (
    (
      refl,
      (
        ((refl, tt), (tt, tt)),
        (IsFlags-all, (plain-IsFlags 66 (omega arith) refl, tt)),
        omega arith,
      ),
      plain-IsFlags 0 (omega arith) refl,
      λ _. omega arith,
    ),
    tt,
  ),
  (tt, tt),
  (tt, tt),
  plain-IsFlags 8 (omega arith) refl,
)
