-- ===== src/DiceServ/Fitting.antt =====
-- The commands: the length of the line with the result.
use anope_mods_contrib.Base.{
  ℕ, zero, suc, is_nil, codes, Option, none, some, ◌+◌, ◌<◌, ◌≡◌, refl, Bool, true, false, not,
  ◌&&◌, ◌||◌, subst, List, [], ◌∷◌, ◌++◌, Str, length, All, if◌then◌else◌, if-keeps, if-keeps_given,
  arith,
}
use anope_mods_contrib.Base.Int.{ℤ, ltb_ℤ, pos_part}
use anope_mods_contrib.Anope.{Anope}
use anope_mods_contrib.GroupServ.Text.{is_empty}
use anope_mods_contrib.DiceServ.Types.{Fault, Attempt, catch}
use anope_mods_contrib.DiceServ.Platform.{Platform}
use anope_mods_contrib.DiceServ.Data.{
  DiceServData, Caller, has_extended, note_fault, shift_place, pre_parse,
}
use anope_mods_contrib.DiceServ.Output.{
  Bot, less, is_used_up, line_room, check_message_length_pre_process,
  check_message_length_post_process, generate_long_ex_output, generate_short_ex_output,
  generate_no_ex_output,
}
use anope_mods_contrib.DiceServ.Roller.{
  Data, Rolled, do_parse, add_set, roll_sets, roll_dice, roll_times, roller,
}
use anope_mods_contrib.DiceServ.Commands.{
  Reply, failed, error_handler, send_reply, answer_plain, answer_extended, answered, play, blank,
  on_parsed, execute, roll_command, exroll_command, calc_command, excalc_command,
}
use anope_mods_contrib.DiceServ.Postfix.{PostfixValue}
use anope_mods_contrib.DiceServ.Evaluate.{dice_max_times, do_evaluate}

-- What a line takes beside its text and its target: the nick, user and host of the bot, and seven
-- characters around them; then the command.
abbrev around : Bot → ℕ
around bot = length bot.nick + length bot.ident + length bot.host + 7

-- The line with a result, to the user or to a channel, has fewer than 510 bytes as it is sent. Nothing
-- is said of the other replies.
abbrev pub Fits : Bot → Str → Reply → Type 0
Fits bot nick (Reply.to_user s) = around bot + 6 + length nick + length s < 510
Fits bot nick (Reply.privmsg chan s) = around bot + 7 + length chan + length s < 510
Fits bot nick (Reply.notice chan s) = around bot + 6 + length chan + length s < 510
Fits bot nick _ = Unit

less-lt : (n : ℕ) (a : ℤ) (b : ℕ) → n < pos_part (less a b) → n + b < pos_part a
unfolding less
less-lt n (ℤ.pos a) b h = ground (arith, h)
less-lt n (ℤ.negsuc a) b h = ground (arith, h)

-- The length that is left for a target and a text.
line_room-lt :
    (n : ℕ) (bot : Bot) (chan : Str) (is_bot : Bool) (nick : Str)
    → n < pos_part (line_room bot chan is_bot nick)
    → n
        + (if not (is_empty chan) then length chan else length nick)
        + (if not (is_empty chan) && is_bot then 7 else 6)
        + around bot
      < 510
unfolding line_room
line_room-lt n bot chan is_bot nick h =
    let target = if not (is_empty chan) then length chan else length nick in
    let command = if not (is_empty chan) && is_bot then 7 else 6 in
    let a1 = less (ℤ.pos 510) (length bot.nick) in
    let a2 = less a1 (length bot.ident) in
    let a3 = less a2 (length bot.host) in
    let a4 = less a3 7 in
    let e1 = less-lt n (less a4 command) target h in
    let e2 = less-lt (n + target) a4 command e1 in
    let e3 = less-lt (n + target + command) a3 7 e2 in
    let e4 = less-lt (n + target + command + 7) a2 (length bot.host) e3 in
    let e5 = less-lt (n + target + command + 7 + length bot.host) a1 (length bot.ident) e4 in
    let e6 =
      less-lt (n + target + command + 7 + length bot.host + length bot.ident) (ℤ.pos 510)
        (length bot.nick) e5 in
    omega (arith, e6)

All-append {ℓ κ} :
    {A : Type ℓ} (P : A → Type κ) (xs ys : List A) → All P xs → All P ys → All P (xs ++ ys)
All-append P [] ys h k = k
All-append P (x ∷ xs) ys h k = (h.0, All-append P xs ys h.1 k)

module _ {T : Type 0} (bot : Bot) (nick : Str) where
  -- The room was counted for the target that the roll has.
  abbrev IsSized : DiceServData T → Type 0
  IsSized roll = roll.max_message_length ≡ line_room bot roll.chan_str roll.source_is_bot nick

  check_message_length_lt :
      (roll : DiceServData T) (output : Str)
      → check_message_length_post_process roll output ≡ true
      → length output < pos_part roll.max_message_length
  unfolding check_message_length_post_process less is_used_up
  check_message_length_lt roll output h = ground (arith, h)

  send_reply-Fits :
      (roll : DiceServData T) (output : Str)
      → IsSized roll
      → check_message_length_post_process roll output ≡ true
      → All (Fits bot nick) (send_reply roll output)
  unfolding send_reply
  send_reply-Fits roll output s h =
      let room =
        line_room-lt (length output) bot roll.chan_str roll.source_is_bot nick
          (subst (λ z. length output < pos_part z) s (check_message_length_lt roll output h)) in
      ground (arith, room)

  error_handler-Fits : (roll : DiceServData T) → All (Fits bot nick) (error_handler roll)
  unfolding error_handler
  error_handler-Fits roll = ground arith

module _ ⦃lib : Anope⦄ ⦃p : Platform⦄ (bot : Bot) (nick : Str) where
  answer_plain-Fits :
      (roll : Data) → IsSized bot nick roll → All (Fits bot nick) (answer_plain roll)
  unfolding answer_plain
  answer_plain-Fits roll s =
      if-keeps (All (Fits bot nick)) (failed roll) _ _ (error_handler-Fits bot nick roll) (
        if-keeps_given (All (Fits bot nick))
          (check_message_length_post_process roll (generate_no_ex_output roll)) _ _
          (λ e. send_reply-Fits bot nick roll (generate_no_ex_output roll) s e)
          (λ e. (tt, error_handler-Fits bot nick roll)))

  answer_extended-Fits :
      (plain_prefix : Str) (roll : Data)
      → IsSized bot nick roll
      → All (Fits bot nick) (answer_extended plain_prefix roll)
  unfolding answer_extended
  answer_extended-Fits plain_prefix roll s =
      let plain = answer_plain-Fits (record roll { roll_prefix = plain_prefix }) s in
      if-keeps (All (Fits bot nick)) (failed roll) _ _ (error_handler-Fits bot nick roll) (
        if-keeps (All (Fits bot nick)) (not (has_extended roll)) _ _ plain (
          if-keeps_given (All (Fits bot nick))
            (check_message_length_post_process roll (generate_long_ex_output roll)) _ _
            (λ e. send_reply-Fits bot nick roll (generate_long_ex_output roll) s e)
            (λ e.
              if-keeps_given (All (Fits bot nick))
                (check_message_length_post_process roll (generate_short_ex_output roll)) _ _
                (λ f. (tt, send_reply-Fits bot nick roll (generate_short_ex_output roll) s f))
                (λ f. (tt, (tt, plain))))))

  -- What holds of the roll where the roller returns.
  abbrev Leaves : Rolled → Type 0
  Leaves (Attempt.done (roll, g)) = IsSized bot nick roll
  Leaves (Attempt.failed e) = Unit
  Leaves Attempt.out_of_bounds = Unit

  Leaves-catch :
      {A : Type 0} (x : Attempt A) (recover : Fault → Rolled) (f : A → Rolled)
      → ((e : Fault) → Leaves (recover e))
      → ((a : A) → Leaves (f a))
      → Leaves (catch x recover f)
  Leaves-catch (Attempt.done a) recover f h k = k a
  Leaves-catch (Attempt.failed e) recover f h k = h e
  Leaves-catch Attempt.out_of_bounds recover f h k = tt

  shift_place-IsSized : (roll : Data) → IsSized bot nick roll → IsSized bot nick (shift_place roll)
  unfolding shift_place
  shift_place-IsSized roll s = if-keeps (IsSized bot nick) (is_empty roll.times_part) _ _ s s

  roll_sets-Leaves :
      (n : ℕ) (postfix : List (PostfixValue p.Double)) (rng : p.Rng) (roll : Data)
      → IsSized bot nick roll
      → Leaves (roll_sets n postfix rng roll)
  unfolding roll_sets
  roll_sets-Leaves zero postfix rng roll s = s
  roll_sets-Leaves (suc n) postfix rng roll s =
      Leaves-catch (do_evaluate postfix rng) _ _ (λ e. shift_place-IsSized (note_fault e roll) s)
        (λ (v, t). roll_sets-Leaves n postfix t.rng (add_set v t roll) s)

  roll_dice-Leaves :
      (n : ℕ) (rng : p.Rng) (roll : Data) → IsSized bot nick roll → Leaves (roll_dice n rng roll)
  unfolding roll_dice
  roll_dice-Leaves n rng roll s =
      Leaves-catch (do_parse roll.dice_part) _ _ (λ e. shift_place-IsSized (note_fault e roll) s)
        (λ postfix.
          if-keeps Leaves (is_nil postfix) _ _ (shift_place-IsSized roll s)
            (roll_sets-Leaves n postfix rng roll s))

  roller-Leaves : (rng : p.Rng) (roll : Data) → IsSized bot nick roll → Leaves (roller rng roll)
  unfolding roller roll_times
  roller-Leaves rng roll s =
      if-keeps Leaves (is_empty roll.times_part) _ _ (roll_dice-Leaves 1 rng roll s) (
        if-keeps Leaves (is_empty roll.dice_part) _ _ s (
          Leaves-catch (do_parse roll.times_part) _ _ (λ e. s)
            (λ postfix. if-keeps Leaves (is_nil postfix) _ _ s (
              Leaves-catch (do_evaluate postfix rng) _ _ (λ e. s)
                (λ (v, t).
                  if-keeps Leaves
                    (ltb_ℤ (p.to_int v) (ℤ.pos 1) || ltb_ℤ (ℤ.pos dice_max_times) (p.to_int v)) _ _
                    s
                    (roll_dice-Leaves (pos_part (p.to_int v)) t.rng
                      (record roll { times_results = t.op_results; op_results = [] }) s))))))

  abbrev pub AllFit : Option (List Reply) → Type 0
  AllFit none = Unit
  AllFit (some replies) = All (Fits bot nick) replies

  module _ (answer : Data → List Reply)
      (fits : (d : Data) → IsSized bot nick d → All (Fits bot nick) (answer d)) where
    answered-AllFit : (x : Rolled) → Leaves x → AllFit (answered answer x)
    answered-AllFit (Attempt.done (roll, g)) s = fits roll s
    answered-AllFit (Attempt.failed e) s = tt
    answered-AllFit Attempt.out_of_bounds s = tt

    play-AllFit : (rng : p.Rng) (roll : Data) → AllFit (play answer bot nick rng roll)
    unfolding play check_message_length_pre_process
    play-AllFit rng roll =
        let sized = (check_message_length_pre_process bot nick roll).0 in
        if-keeps AllFit (check_message_length_pre_process bot nick roll).1 _ _
          (answered-AllFit (roller rng sized) (roller-Leaves rng sized refl)) (tt, tt)

    on_parsed-AllFit :
        (rng : p.Rng) (o : Option (Option Data)) → AllFit (on_parsed (play answer bot nick rng) o)
    on_parsed-AllFit rng none = tt
    on_parsed-AllFit rng (some none) = tt
    on_parsed-AllFit rng (some (some roll)) = play-AllFit rng roll

    execute-AllFit :
        (caller : Caller) (params : List Str) (rng : p.Rng) (roll : Data)
        → AllFit (execute answer caller bot nick params rng roll)
    unfolding execute
    execute-AllFit caller params rng roll = on_parsed-AllFit rng (pre_parse caller params 1 roll)

  -- The line with the result that ROLL, EXROLL, CALC or EXCALC sends to the user or to the channel has,
  -- with the name of the bot, the command and the target in front of it, fewer than 510 bytes.
  pub commands-AllFit :
      (caller : Caller) (params : List Str) (rng : p.Rng)
      → AllFit (roll_command caller bot nick params rng)
        × AllFit (exroll_command caller bot nick params rng)
        × AllFit (calc_command caller bot nick params rng)
        × AllFit (excalc_command caller bot nick params rng)
  unfolding roll_command exroll_command calc_command excalc_command
  commands-AllFit caller params rng = (
    execute-AllFit answer_plain answer_plain-Fits caller params rng
        (blank false true (codes "Roll")),
    execute-AllFit (answer_extended (codes "Roll")) (answer_extended-Fits (codes "Roll")) caller
        params rng (blank true true (codes "Exroll")),
    execute-AllFit answer_plain answer_plain-Fits caller params rng
        (blank false false (codes "Calc")),
    execute-AllFit (answer_extended (codes "Calc")) (answer_extended-Fits (codes "Calc")) caller
        params rng (blank true false (codes "Excalc")),
  )
