-- ===== src/DiceServ/Output.antt =====
-- The texts of a roll, and the checks of their length.
use anope_mods_contrib.Base.{
  ℕ, ◌+◌, ◌-◌, Bool, not, ◌&&◌, ◌||◌, [], ◌∷◌, ◌++◌, Str, codes, leb, if◌then◌else◌, length, is_nil,
}
use anope_mods_contrib.Base.Int.{ℤ, pos_part, neg_part}
use anope_mods_contrib.GroupServ.Text.{is_empty}
use anope_mods_contrib.DiceServ.Platform.{Platform}
use anope_mods_contrib.DiceServ.Results.{
  OperatorResult, joined, map_list, long_string, short_string,
}
use anope_mods_contrib.DiceServ.Data.{DiceServData}

-- The bot that answers.
pub record Bot : Type 0 where
  pub nick : Str
  pub ident : Str
  pub host : Str

-- `a - b` of an int and a length.
unfoldable pub less : ℤ → ℕ → ℤ
less a b =
    if leb (neg_part a + b) (pos_part a)
    then ℤ.pos (pos_part a - (neg_part a + b))
    else ℤ.negsuc (neg_part a + b - pos_part a - 1)

-- `a <= 0`
unfoldable pub is_used_up : ℤ → Bool
is_used_up a = leb (pos_part a) 0

-- The room that is left of an IRC line of 510 bytes: the prefix, the command and the target go.
unfoldable pub line_room : Bot → Str → Bool → Str → ℤ
unfolding less
line_room bot chan_str source_is_bot user_nick =
    let to_channel = not (is_empty chan_str) in
    let target = if to_channel then length chan_str else length user_nick in
    let command = if to_channel && source_is_bot then 7 else 6 in
    less
      (less
        (less
          (less (less (less (ℤ.pos 510) (length bot.nick)) (length bot.ident)) (length bot.host)) 7)
        command)
      target

module _ {T : Type 0} where
  -- The room for the results themselves.
  unfoldable pub rest_room : Str → DiceServData T → ℤ
  unfolding less
  rest_room user_nick roll =
      let fixed = less roll.max_message_length 7 in
      let prefixes = less (less fixed (length roll.roll_prefix)) (length roll.dice_prefix) in
      let dice = less (less prefixes (length roll.dice_str)) (length roll.dice_suffix) in
      let named = if is_empty roll.chan_str then dice else less (less dice 4) (length user_nick) in
      if is_empty roll.comment_str then named else less named (length roll.comment_str + 1)

  -- CheckMessageLengthPreProcess: the new maximum, and whether the roll goes on.
  unfoldable pub check_message_length_pre_process :
      Bot → Str → DiceServData T → DiceServData T × Bool
  unfolding line_room rest_room is_used_up
  check_message_length_pre_process bot user_nick roll =
      let room = line_room bot roll.chan_str roll.source_is_bot user_nick in
      let sized = record roll { max_message_length = room } in
      (sized, not (is_used_up (rest_room user_nick sized)))

  unfoldable pub check_message_length_post_process : DiceServData T → Str → Bool
  unfolding less is_used_up
  check_message_length_post_process roll output =
      not (is_used_up (less roll.max_message_length (length output)))

module _ ⦃p : Platform⦄ where
  -- The results in braces, each written by `one`.
  unfoldable pub extended : (OperatorResult p.Double → Str) → DiceServData p.Double → Str
  extended one roll =
      let times =
        if is_nil roll.times_results
        then []
        else joined (codes " ") (map_list one roll.times_results) ++ codes " ~ " in
      let ops =
        joined (codes " | ")
          (map_list (λ rs. joined (codes " ") (map_list one rs)) roll.op_results) in
      let nothing = is_nil roll.times_results && is_nil roll.op_results in
      if not roll.is_extended || nothing then [] else codes "{" ++ (times ++ (ops ++ codes "} "))

  -- The line, with what stands between the colon and the results.
  unfoldable pub line : Str → DiceServData p.Double → Str
  line middle roll =
      let comment = if is_empty roll.comment_str then [] else b' ' ∷ roll.comment_str in
      codes "<"
      ++ (roll.roll_prefix
          ++ (codes " ["
              ++ (roll.dice_prefix
                  ++ (roll.dice_str
                      ++ (roll.dice_suffix
                          ++ (codes "]: "
                              ++ (middle
                                  ++ (joined (codes " ") (map_list p.show roll.results)
                                      ++ (codes ">" ++ comment)))))))))

  unfoldable pub generate_long_ex_output : DiceServData p.Double → Str
  unfolding extended line long_string
  generate_long_ex_output roll = line (extended long_string roll) roll

  unfoldable pub generate_short_ex_output : DiceServData p.Double → Str
  unfolding extended line short_string
  generate_short_ex_output roll = line (extended short_string roll) roll

  unfoldable pub generate_no_ex_output : DiceServData p.Double → Str
  unfolding line
  generate_no_ex_output roll = line [] roll
