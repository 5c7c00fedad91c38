-- ===== src/DiceServ/Commands.antt =====
-- ErrorHandler, SendReply, and the commands of ds_roll.cpp and ds_calc.cpp.
use anope_mods_contrib.Base.{
  Bool, true, false, not, Option, none, some, List, [], ◌∷◌, ◌++◌, Str, codes, ltb, if◌then◌else◌,
  length, is_some,
}
use anope_mods_contrib.Base.Int.{ℤ, ltb_ℤ}
use anope_mods_contrib.Anope.{Anope}
use anope_mods_contrib.GroupServ.Text.{is_empty}
use anope_mods_contrib.DiceServ.Types.{DiceError, Detail, Place, Attempt}
use anope_mods_contrib.DiceServ.Platform.{Platform}
use anope_mods_contrib.DiceServ.Data.{DiceServData, Caller, has_extended, pre_parse}
use anope_mods_contrib.DiceServ.Output.{
  Bot, check_message_length_pre_process, check_message_length_post_process, generate_long_ex_output,
  generate_short_ex_output, generate_no_ex_output,
}
use anope_mods_contrib.DiceServ.Roller.{Data, Rolled, roller}

-- What is sent: the texts, and a line to the user or to a channel.
pub data Reply : Type 0 where
  overflow not_understood divided_by_zero undefined_value too_large not_evaluated : Reply
  parse_tip simpler_tip : Reply
  expression target comment : Str → Reply
  error_near marker : Place → Reply
  details : Detail → Reply
  dice_under dice_over sides_under sides_over times_under times_over : ℤ → Reply
  to_user : Str → Reply
  privmsg notice : Str → Str → Reply

abbrev optional : Str → (Str → Reply) → List Reply
optional s f = if is_empty s then [] else f s ∷ []

module _ {T : Type 0} where
  -- `errPos > diceStr.length() ? diceStr.length() : errPos`
  unfoldable pub caret_pos : DiceServData T → Place
  caret_pos roll = elim roll.err_pos [
    | none ↦ none
    | some q ↦ some (if ltb (length roll.dice_str) q then length roll.dice_str else q)
  ]

  abbrev detail_of : DiceServData T → List Reply
  detail_of roll = elim roll.err_str [ none ↦ [] | some d ↦ Reply.details d ∷ [] ]

  -- `errNum <= 0`
  abbrev under_or_over : (ℤ → Reply) → (ℤ → Reply) → DiceServData T → List Reply
  under_or_over under over roll =
      (if ltb_ℤ roll.err_num (ℤ.pos 1) then under roll.err_num else over roll.err_num) ∷ []

  unfoldable pub error_handler : DiceServData T → List Reply
  unfolding caret_pos
  error_handler roll = elim roll.err_code [
    | none ↦ []
    | some DiceError.parse ↦
        Reply.not_understood
        ∷ Reply.expression roll.dice_str
        ∷ (optional roll.chan_str Reply.target
            ++ (optional roll.comment_str Reply.comment
                ++ Reply.error_near (caret_pos roll)
                  ∷ Reply.marker (caret_pos roll)
                  ∷ (detail_of roll ++ Reply.parse_tip ∷ [])))
    | some DiceError.div0 ↦ Reply.divided_by_zero ∷ Reply.expression roll.dice_str ∷ []
    | some DiceError.undefined ↦ Reply.undefined_value ∷ Reply.expression roll.dice_str ∷ []
    | some DiceError.unacceptable_dice ↦ under_or_over Reply.dice_under Reply.dice_over roll
    | some DiceError.unacceptable_sides ↦ under_or_over Reply.sides_under Reply.sides_over roll
    | some DiceError.unacceptable_times ↦ under_or_over Reply.times_under Reply.times_over roll
    | some DiceError.overunderflow ↦ Reply.too_large ∷ Reply.expression roll.dice_str ∷ []
    | some DiceError.stack ↦
        Reply.not_evaluated
        ∷ Reply.expression roll.dice_str
        ∷ (detail_of roll ++ Reply.simpler_tip ∷ [])
  ]

  unfoldable pub send_reply : DiceServData T → Str → List Reply
  send_reply roll output =
      if is_empty roll.chan_str
      then Reply.to_user output ∷ []
      else if roll.source_is_bot
      then Reply.privmsg roll.chan_str output ∷ []
      else Reply.notice roll.chan_str output ∷ []

  abbrev pub failed : DiceServData T → Bool
  failed roll = is_some roll.err_code

module _ ⦃lib : Anope⦄ ⦃p : Platform⦄ where
  -- DiceServData(), with what a command writes into it.
  abbrev pub blank : Bool → Bool → Str → Data
  blank is_extended round_results roll_prefix = record {
    is_extended = is_extended;
    round_results = round_results;
    source_is_bot = false;
    roll_prefix = roll_prefix;
    dice_prefix = [];
    dice_str = [];
    times_part = [];
    dice_part = [];
    dice_suffix = [];
    extra_str = [];
    chan_str = [];
    comment_str = [];
    max_message_length = ℤ.pos 510;
    times_results = [];
    op_results = [];
    results = [];
    err_code = none;
    err_str = none;
    err_pos = some 0;
    err_num = ℤ.pos 0;
  }

  -- The end of ROLL and CALC: a check that fails replies, and HandleError follows.
  unfoldable pub answer_plain : Data → List Reply
  unfolding generate_no_ex_output check_message_length_post_process send_reply error_handler
  answer_plain roll =
      let output = generate_no_ex_output roll in
      if failed roll
      then error_handler roll
      else if check_message_length_post_process roll output
      then send_reply roll output
      else Reply.overflow ∷ error_handler roll

  -- The end of EXROLL and EXCALC: the long output, else the short one, else the one without, which
  -- has the prefix of the plain command.
  unfoldable pub answer_extended : Str → Data → List Reply
  unfolding answer_plain generate_long_ex_output generate_short_ex_output has_extended
  answer_extended plain_prefix roll =
      let long = generate_long_ex_output roll in
      let short = generate_short_ex_output roll in
      let plain = answer_plain (record roll { roll_prefix = plain_prefix }) in
      if failed roll
      then error_handler roll
      else if not (has_extended roll)
      then plain
      else if check_message_length_post_process roll long
      then send_reply roll long
      else if check_message_length_post_process roll short
      then Reply.overflow ∷ send_reply roll short
      else Reply.overflow ∷ Reply.overflow ∷ plain

  -- The answer to what the roller leaves; `none` where it calls `top` or `pop` on an empty stack.
  abbrev pub answered : (Data → List Reply) → Rolled → Option (List Reply)
  answered answer (Attempt.done (roll, g)) = some (answer roll)
  answered answer (Attempt.failed e) = none
  answered answer Attempt.out_of_bounds = none

  -- A command behind PreParse.
  unfoldable pub play : (Data → List Reply) → Bot → Str → p.Rng → Data → Option (List Reply)
  unfolding check_message_length_pre_process roller
  play answer bot user_nick rng roll =
      let (sized, goes_on) = check_message_length_pre_process bot user_nick roll in
      if goes_on then answered answer (roller rng sized) else some (Reply.overflow ∷ [])

  abbrev pub on_parsed : (Data → Option (List Reply)) → Option (Option Data) → Option (List Reply)
  on_parsed next none = none
  on_parsed next (some none) = some []
  on_parsed next (some (some roll)) = next roll

  -- A command up to its answer; `none` also where PreParse reads a parameter that is not there. The
  -- reply of PreParse to who is not in the channel is left out.
  unfoldable pub execute :
      (Data → List Reply) → Caller → Bot → Str → List Str → p.Rng → Data → Option (List Reply)
  unfolding pre_parse play
  execute answer caller bot user_nick params rng roll =
      on_parsed (play answer bot user_nick rng) (pre_parse caller params 1 roll)

  unfoldable pub roll_command : Caller → Bot → Str → List Str → p.Rng → Option (List Reply)
  unfolding execute
  roll_command caller bot user_nick params rng =
      execute answer_plain caller bot user_nick params rng (blank false true (codes "Roll"))

  unfoldable pub exroll_command : Caller → Bot → Str → List Str → p.Rng → Option (List Reply)
  unfolding execute
  exroll_command caller bot user_nick params rng =
      execute (answer_extended (codes "Roll")) caller bot user_nick params rng
        (blank true true (codes "Exroll"))

  unfoldable pub calc_command : Caller → Bot → Str → List Str → p.Rng → Option (List Reply)
  unfolding execute
  calc_command caller bot user_nick params rng =
      execute answer_plain caller bot user_nick params rng (blank false false (codes "Calc"))

  unfoldable pub excalc_command : Caller → Bot → Str → List Str → p.Rng → Option (List Reply)
  unfolding execute
  excalc_command caller bot user_nick params rng =
      execute (answer_extended (codes "Calc")) caller bot user_nick params rng
        (blank true false (codes "Excalc"))
