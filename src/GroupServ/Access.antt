-- ===== src/GroupServ/Access.antt =====
-- HasAccess and IsMemberOfGroup: who may do what, by the flags of an account.
use anope_mods_contrib.Base.{
  ℕ, zero, suc, Bool, Str, ◌^◌, ◌<◌, ◌≡◌, true, false, not, ◌&&◌, ◌||◌, arith,
}
use anope_mods_contrib.Anope.{Anope}
use anope_mods_contrib.Bits.{bit}
use anope_mods_contrib.GroupServ.AccessFlag
use anope_mods_contrib.GroupServ.Flags.{has_flag, parse_flags}
use anope_mods_contrib.GroupServ.Flags.Bitwise.{has_flag-bit, test-has_flag}
use anope_mods_contrib.GroupServ.Flags.Parse.{IsClosed, parse_flags-IsClosed, parse_flags-Grows}
use anope_mods_contrib.GroupServ.State.{allows, is_member}

module _ ⦃lib : Anope⦄ where
  -- One flag is granted exactly where it is set and no ban stands against it; a founder's ban
  -- does not count.
  pub allows_one :
      (flags k : ℕ)
      → allows flags (2 ^ k) ≡ (
          has_flag flags (2 ^ k)
          && (has_flag flags AccessFlag.founder || not (has_flag flags AccessFlag.ban)))
  unfolding allows
  allows_one flags k = ground (arith, test-has_flag flags k)

  founder-bit : (flags : ℕ) → has_flag flags AccessFlag.founder ≡ true → bit flags 0 ≡ 1
  founder-bit flags h = ground (arith, has_flag-bit flags 0, h)

  founder_flag :
      (flags k : ℕ)
      → IsClosed flags
      → has_flag flags AccessFlag.founder ≡ true
      → k < 8
      → has_flag flags (2 ^ k) ≡ true
  founder_flag flags zero c h l = h
  founder_flag flags (suc k) c h l =
      ground (arith, has_flag-bit flags (suc k), c (founder-bit flags h) (suc k) (omega arith) l)

  -- An entry with the founder flag and its powers grants each single flag but the ban, whether it
  -- is banned or not.
  pub founder_allowed :
      (flags k : ℕ)
      → IsClosed flags
      → has_flag flags AccessFlag.founder ≡ true
      → k < 8
      → allows flags (2 ^ k) ≡ true
  founder_allowed flags k c h l = ground (arith, allows_one flags k, founder_flag flags k c h l, h)

  -- With the ban flag an entry is no membership for IsMemberOfGroup, though a founder's entry still
  -- grants the founder's power.
  pub banned_founder :
      (flags : ℕ)
      → has_flag flags AccessFlag.founder ≡ true
      → has_flag flags AccessFlag.ban ≡ true
      → (is_member flags ≡ false) × (allows flags AccessFlag.founder ≡ true)
  unfolding is_member
  banned_founder flags f b = (ground (arith, b), ground (arith, allows_one flags 0, f))

  -- Whatever the changes say and whatever the flags were: flags with founder that ParseFlags gives
  -- have every other flag but, perhaps, the ban.
  pub parse_flags-founder :
      (s : Str) (allow_minus : Bool) (current k : ℕ)
      → has_flag (parse_flags s allow_minus current) AccessFlag.founder ≡ true
      → k < 8
      → has_flag (parse_flags s allow_minus current) (2 ^ k) ≡ true
  parse_flags-founder s allow_minus current k h l =
      founder_flag (parse_flags s allow_minus current) k
        (parse_flags-IsClosed s allow_minus current) h l

  -- Where minus is not allowed, ParseFlags takes no flag away.
  pub parse_flags-keeps :
      (s : Str) (current k : ℕ)
      → has_flag current (2 ^ k) ≡ true
      → has_flag (parse_flags s false current) (2 ^ k) ≡ true
  parse_flags-keeps s current k h = ground (
    arith,
    h,
    has_flag-bit current k,
    has_flag-bit (parse_flags s false current) k,
    parse_flags-Grows s current k,
  )
