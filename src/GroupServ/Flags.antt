-- ===== src/GroupServ/Flags.antt =====
-- HasFlag, FlagsToString, GroupFlagsToString and ParseFlags.
pub mod Bitwise
pub mod Print
pub mod Parse
use Prim.Native.Nat.{bit_and, bit_or}
use anope_mods_contrib.Base.{
  ℕ, ◌+◌, ◌-◌, ◌^◌, Bool, true, false, not, ◌&&◌, ◌||◌, Option, none, some, List, [], ◌∷◌, ◌++◌,
  Str, codes, ltb, ◌==◌, if◌then◌else◌, length,
}
use anope_mods_contrib.Base.Order.{text_order, ◌=?◌}
use anope_mods_contrib.Anope.{Anope}
use anope_mods_contrib.GroupServ.AccessFlag
use anope_mods_contrib.GroupServ.GroupFlag
use anope_mods_contrib.GroupServ.Text.{is_empty, is_alpha}

unfoldable pub has_flag : ℕ → ℕ → Bool
has_flag value flag = not (bit_and value flag == 0)

-- `value | bits` and `value & ~bits` on unsigned int.
unfoldable pub add_flags : ℕ → ℕ → ℕ
add_flags value bits = bit_or value bits

unfoldable pub remove_flags : ℕ → ℕ → ℕ
remove_flags value bits = bit_and value (2 ^ 32 - 1 - bits)

abbrev letter_if : ℕ → ℕ → ℕ → Str
letter_if flags flag c = if has_flag flags flag then c ∷ [] else []

or_dash : Str → Str
or_dash out = if is_empty out then codes "-" else out

unfoldable pub flags_to_string : ℕ → Str
unfolding has_flag or_dash
flags_to_string flags = or_dash (
    letter_if flags AccessFlag.founder b'F'
    ++ letter_if flags AccessFlag.flags b'f'
    ++ letter_if flags AccessFlag.aclview b'A'
    ++ letter_if flags AccessFlag.memo b'm'
    ++ letter_if flags AccessFlag.chanaccess b'c'
    ++ letter_if flags AccessFlag.vhost b'v'
    ++ letter_if flags AccessFlag.set b's'
    ++ letter_if flags AccessFlag.invite b'i'
    ++ letter_if flags AccessFlag.ban b'b')

abbrev add_word : Bool → Str → Str → Str
add_word false s out = out
add_word true s out = (if is_empty out then [] else out ++ codes " ") ++ s

unfoldable pub group_flags_to_string : ℕ → Str
unfolding has_flag or_dash
group_flags_to_string flags =
    let one = add_word (has_flag flags GroupFlag.regnolimit) (codes "REGNOLIMIT") [] in
    let two = add_word (has_flag flags GroupFlag.acsnolimit) (codes "ACSNOLIMIT") one in
    let three = add_word (has_flag flags GroupFlag.openly) (codes "OPEN") two in
    let four = add_word (has_flag flags GroupFlag.public) (codes "PUBLIC") three in
    or_dash (add_word (has_flag flags GroupFlag.vhostauto) (codes "VHOSTAUTO") four)

-- The switch on a token of one character.
letter_bit : ℕ → Option ℕ
letter_bit ch =
    if ch == b'*'
    then some AccessFlag.all
    else if ch == b'F'
    then some AccessFlag.founder
    else if ch == b'f'
    then some AccessFlag.flags
    else if ch == b'A'
    then some AccessFlag.aclview
    else if ch == b'm'
    then some AccessFlag.memo
    else if ch == b'c'
    then some AccessFlag.chanaccess
    else if ch == b'v'
    then some AccessFlag.vhost
    else if ch == b's'
    then some AccessFlag.set
    else if ch == b'i'
    then some AccessFlag.invite
    else if ch == b'b'
    then some AccessFlag.ban
    else none

-- The ladder on an upper-cased token: its second half, and the whole.
late_word_bit : Str → Option ℕ
late_word_bit u =
    if u =? codes "CHAN" || u =? codes "CHANACCESS"
    then some AccessFlag.chanaccess
    else if u =? codes "VHOST"
    then some AccessFlag.vhost
    else if u =? codes "SET"
    then some AccessFlag.set
    else if u =? codes "INVITE"
    then some AccessFlag.invite
    else if u =? codes "BAN"
    then some AccessFlag.ban
    else none

word_bit : Str → Option ℕ
word_bit u =
    if u =? codes "ALL"
    then some AccessFlag.all
    else if u =? codes "FOUNDER"
    then some AccessFlag.founder
    else if u =? codes "FLAGS" || u =? codes "MANAGE"
    then some AccessFlag.flags
    else if u =? codes "ACLVIEW" || u =? codes "VIEW"
    then some AccessFlag.aclview
    else if u =? codes "MEMO"
    then some AccessFlag.memo
    else late_word_bit u

-- The functions of this section take `Anope::string::upper` alone.
module _ (upper : Str → Str) where
  unfoldable pub token_bit : Str → Option ℕ
  unfolding letter_bit word_bit late_word_bit
  token_bit [] = word_bit (upper [])
  token_bit (ch ∷ []) = letter_bit ch
  token_bit (ch ∷ ch' ∷ s) = word_bit (upper (ch ∷ ch' ∷ s))

  -- The lambda `apply_one`; `none` where it returns false, and the flags stay.
  unfoldable pub apply_one : Str → ℕ → ℕ → Option ℕ
  unfolding token_bit add_flags remove_flags
  apply_one token dir flags = elim (token_bit token) [
    | none ↦ none
    | some bit ↦ some (if dir == b'-' then remove_flags flags bit else add_flags flags bit)
  ]

  -- The loop over the letters of a token such as `+VI`.
  unfoldable pub apply_compact : Str → ℕ → ℕ → ℕ
  unfolding apply_one is_alpha
  apply_compact [] dir flags = flags
  apply_compact (ch ∷ s) dir flags =
      let one : ℕ = elim (apply_one (ch ∷ []) dir flags) [ none ↦ flags | some f ↦ f ] in
      apply_compact s dir (if is_alpha ch then one else flags)

  -- The body of the loop behind the sign.
  unfoldable pub apply_signed : Bool → ℕ → Str → ℕ → ℕ
  unfolding apply_compact
  apply_signed allow_minus dir token flags =
      if dir == b'-' && not allow_minus
      then flags
      else if is_empty token
      then (if dir == b'-' then AccessFlag.none else add_flags flags AccessFlag.all_nofounder)
      else elim (apply_one token dir flags) [
        | some f ↦ f
        | none ↦ if ltb 1 (length token) then apply_compact token dir flags else flags
      ]

  -- One round of the loop, on a trimmed token.
  unfoldable pub apply_token : Bool → Str → ℕ → ℕ
  unfolding apply_signed
  apply_token allow_minus [] flags = flags
  apply_token allow_minus (c ∷ s) flags =
      if c == b'+' || c == b'-'
      then apply_signed allow_minus c s flags
      else apply_signed allow_minus b'+' (c ∷ s) flags

-- `Founder implies management powers.`
unfoldable pub close_founder : ℕ → ℕ
unfolding has_flag add_flags
close_founder flags =
    if has_flag flags AccessFlag.founder then add_flags flags AccessFlag.all_nofounder else flags

module _ ⦃lib : Anope⦄ where
  unfoldable pub apply_tokens : Bool → List Str → ℕ → ℕ
  unfolding apply_token
  apply_tokens allow_minus [] flags = flags
  apply_tokens allow_minus (t ∷ ts) flags =
      apply_tokens allow_minus ts (apply_token lib.upper allow_minus (lib.trim t) flags)

  unfoldable pub flag_tokens : Str → List Str
  flag_tokens s = elim (lib.get_tokens s b' ') [
    | [] ↦ if is_empty s then [] else s ∷ []
    | t ∷ ts ↦ t ∷ ts
  ]

  unfoldable pub parse_flags : Str → Bool → ℕ → ℕ
  unfolding apply_tokens flag_tokens close_founder
  parse_flags flagstring allow_minus current =
      close_founder (apply_tokens allow_minus (flag_tokens flagstring) current)
