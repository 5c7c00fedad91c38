-- ===== src/Tests/Flags.antt =====
-- The theorems on flags, text and the configuration at concrete flags, texts and settings.
use anope_mods_contrib.Base.{◌+◌, ◌^◌, ◌<◌, ◌≡◌, refl, true, false, [], ◌∷◌, All, codes, arith}
use anope_mods_contrib.Base.Order.{text_order}
use anope_mods_contrib.GroupServ.AccessFlag
use anope_mods_contrib.GroupServ.Text.{is_alpha, escape_value, unescape_value}
use anope_mods_contrib.GroupServ.Text.Escape.{
  without_cr, FitsLine, unescape_value-escape_value, escape_value-FitsLine,
}
use anope_mods_contrib.GroupServ.Flags.{
  has_flag, add_flags, remove_flags, flags_to_string, token_bit, apply_one, apply_compact,
  apply_signed, apply_token, apply_tokens, flag_tokens, close_founder, parse_flags,
}
use anope_mods_contrib.GroupServ.Flags.Print.{parse_flags-flags_to_string}
use anope_mods_contrib.GroupServ.Flags.Parse.{parse_flags-lt}
use anope_mods_contrib.GroupServ.State.{allows, is_member}
use anope_mods_contrib.GroupServ.Access.{
  founder_allowed, banned_founder, parse_flags-founder, parse_flags-keeps,
}
use anope_mods_contrib.GroupServ.Invariant.Base.{IsFlags-all}
use anope_mods_contrib.Tests.Ascii.{ascii, ascii-IsTextual}

test_parse :
    parse_flags ⦃lib = ascii⦄ (codes "+fm -i") true AccessFlag.invite
    ≡ AccessFlag.flags + AccessFlag.memo
unfolding parse_flags apply_tokens apply_token apply_signed apply_compact apply_one token_bit
    add_flags remove_flags close_founder has_flag flag_tokens is_alpha
test_parse = refl

parse_flags-flags_to_string_example :
    parse_flags ⦃lib = ascii⦄ (flags_to_string 66) false 0 ≡ close_founder 66
parse_flags-flags_to_string_example =
    parse_flags-flags_to_string ⦃lib = ascii⦄ ascii-IsTextual 66 (omega arith)

parse_flags-lt_example : parse_flags ⦃lib = ascii⦄ (codes "+Fb -i") true 128 < 512
parse_flags-lt_example = parse_flags-lt ⦃lib = ascii⦄ (codes "+Fb -i") true 128 (omega arith)

parse_flags-founder_example :
    has_flag (parse_flags ⦃lib = ascii⦄ (codes "+F") true 0) (2 ^ 6) ≡ true
unfolding parse_flags apply_tokens apply_token apply_signed apply_compact apply_one token_bit
    add_flags remove_flags close_founder has_flag flag_tokens is_alpha
parse_flags-founder_example =
    parse_flags-founder ⦃lib = ascii⦄ (codes "+F") true 0 6 refl (omega arith)

parse_flags-keeps_example :
    has_flag (parse_flags ⦃lib = ascii⦄ (codes "+m -i") false 128) (2 ^ 7) ≡ true
unfolding has_flag
parse_flags-keeps_example = parse_flags-keeps ⦃lib = ascii⦄ (codes "+m -i") 128 7 refl

founder_allowed_example : allows ⦃lib = ascii⦄ 255 (2 ^ 7) ≡ true
unfolding has_flag
founder_allowed_example = founder_allowed ⦃lib = ascii⦄ 255 7 IsFlags-all.1 refl (omega arith)

banned_founder_example :
    (is_member ⦃lib = ascii⦄ 511 ≡ false) × (allows ⦃lib = ascii⦄ 511 AccessFlag.founder ≡ true)
unfolding has_flag
banned_founder_example = banned_founder ⦃lib = ascii⦄ 511 refl refl

unescape_value-escape_value_example :
    unescape_value (escape_value (b'a' ∷ 10 ∷ b'\\' ∷ [])) ≡ without_cr (b'a' ∷ 10 ∷ b'\\' ∷ [])
unescape_value-escape_value_example = unescape_value-escape_value (b'a' ∷ 10 ∷ b'\\' ∷ [])

escape_value-FitsLine_example : All FitsLine (escape_value (b'a' ∷ 10 ∷ 13 ∷ []))
escape_value-FitsLine_example = escape_value-FitsLine (b'a' ∷ 10 ∷ 13 ∷ [])
