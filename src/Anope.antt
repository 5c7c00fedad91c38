-- ===== src/Anope.antt =====
-- What GroupServ takes from Anope itself, whose code is not in this repository: text functions of
-- `Anope::string`, `sepstream`, `Anope::Convert` and `Anope::Match`, and the state of the network
-- at the time of a call. All of it is a parameter.
use anope_mods_contrib.Base.{
  ℕ, ◌-◌, ◌≡◌, Bool, true, false, ◌&&◌, Option, List, [], ◌∷◌, Str, map, ltb, leb, if◌then◌else◌,
}
use anope_mods_contrib.Base.Order.{text_order, ◌=?◌}

pub record Anope : Type 0 where
  -- `Anope::string::trim`, `lower`, `upper`
  pub trim : Str → Str
  pub lower : Str → Str
  pub upper : Str → Str
  -- `Anope::string::equals_ci`
  pub equals_ci : Str → Str → Bool
  -- `sepstream(s, c).GetTokens`
  pub get_tokens : Str → ℕ → List Str
  -- `Anope::Convert<uint64_t>`, `none` where it throws
  pub convert : Str → Option ℕ
  -- `Anope::string::replace_all_cs`: text, what is replaced, by what
  pub replace_all_cs : Str → Str → Str → Str
  -- `Anope::Match`
  pub wildcard : Str → Str → Bool

-- A registered channel: its name, and the group that GSChanAccessData holds for it.
pub record Channel : Type 0 where
  pub name : Str
  pub group : Option Str

-- The services and the network while one call runs.
pub record Env : Type 0 where
  -- `Anope::CurTime`, `Anope::ReadOnly`
  pub cur_time : ℕ
  pub read_only : Bool
  -- what `Anope::Random(12)` gives
  pub random : Str
  -- `NickAlias::Find(n)->nc` and `NickCore::Find(n)`, as the account's display name
  pub alias_account : Str → Option Str
  pub core_account : Str → Option Str
  -- `User::Find(n, true)` and `NickCore::users` of an account, as UIDs; a user pointer may be null
  pub find_user : Str → Option Str
  pub account_users : Str → List (Option Str)
  -- `IRCD`: no protocol module is `false`
  pub has_ircd : Bool
  pub can_set_vhost : Bool
  pub can_set_vident : Bool
  pub is_ident_valid : Str → Bool
  pub is_host_valid : Str → Bool
  pub max_host : ℕ
  -- whether the extension item for channels is registered, and `RegisteredChannelList`
  pub has_chanaccess : Bool
  pub channels : List (Option Channel)
  -- whether groupserv.db.tmp opens for writing, what of the lines that are put into the stream
  -- reaches the file, and how the calls of `fs::rename` and `fs::remove` in SaveDB end
  pub can_open : Bool
  pub writes : List Str → List Str
  pub renames : Bool
  pub removes : Bool
  pub renames_again : Bool

-- `CommandSource`: the account's display name, the privileges, the nick.
pub record Source : Type 0 where
  pub account : Option Str
  pub has_priv : Str → Bool
  pub is_oper : Bool
  pub nick : Str

-- ASCII upper case.
abbrev pub ascii_upper : ℕ → ℕ
ascii_upper c = if leb b'a' c && leb c b'z' then c - 32 else c

-- The text is not empty, and every character is above the space and below DEL.
abbrev pub is_word : Str → Bool
is_word [] = false
is_word (c ∷ []) = ltb b' ' c && ltb c 127
is_word (c ∷ d ∷ s) = ltb b' ' c && ltb c 127 && is_word (d ∷ s)

-- What GroupServ relies on of Anope's text functions, on ASCII words.
pub record IsTextual (lib : Anope) : Type 0 where
  pub trim_word : (w : Str) → is_word w ≡ true → lib.trim w ≡ w
  pub tokens_word : (w : Str) → is_word w ≡ true → lib.get_tokens w b' ' ≡ w ∷ []
  pub upper_ascii : (s : Str) → lib.upper s ≡ map ascii_upper s
  pub equals_ascii : (s t : Str) → lib.equals_ci s t ≡ (map ascii_upper s =? map ascii_upper t)
