-- ===== src/DiceServ/Roller.antt =====
-- DoParse and Roller.
use anope_mods_contrib.Base.{
  ℕ, zero, suc, ◌+◌, Bool, ◌||◌, Option, none, some, List, [], ◌∷◌, ◌++◌, Str, if◌then◌else◌,
  length, is_nil,
}
use anope_mods_contrib.Base.Int.{ℤ, ltb_ℤ, pos_part}
use anope_mods_contrib.Anope.{Anope}
use anope_mods_contrib.GroupServ.Text.{is_empty}
use anope_mods_contrib.DiceServ.Types.{
  DiceError, Detail, Fault, Attempt, then_do, catch, parse_fault,
}
use anope_mods_contrib.DiceServ.Fix.{fix_infix}
use anope_mods_contrib.DiceServ.Check.{check_infix}
use anope_mods_contrib.DiceServ.Tokens.{tokenize_infix}
use anope_mods_contrib.DiceServ.Platform.{Platform}
use anope_mods_contrib.DiceServ.Postfix.{PostfixValue, infix_to_postfix}
use anope_mods_contrib.DiceServ.Functions.{my_round}
use anope_mods_contrib.DiceServ.Evaluate.{dice_max_times, Eval, do_evaluate}
use anope_mods_contrib.DiceServ.Data.{DiceServData, note_fault, shift_place}

module _ ⦃lib : Anope⦄ ⦃p : Platform⦄ where
  -- DoParse; an empty list is an expression that is empty or does not parse.
  unfoldable pub do_parse : Str → Attempt (List (PostfixValue p.Double))
  unfolding fix_infix check_infix tokenize_infix infix_to_postfix
  do_parse infix_text =
      let fixed = fix_infix lib.equals_ci infix_text in
      let tokenized = tokenize_infix lib.equals_ci fixed in
      if is_empty fixed.str
      then Attempt.done []
      else then_do (check_infix lib.equals_ci fixed) (λ checked.
        if is_empty tokenized.str then Attempt.done [] else infix_to_postfix tokenized)

  abbrev pub Data : Type 0
  Data = DiceServData p.Double

  -- Where the roller returns, with the generator where nothing failed.
  abbrev pub Rolled : Type 0
  Rolled = Attempt (Data × Option p.Rng)

  -- `roundResults ? static_cast<int>(my_round(v)) : v`
  unfoldable pub shown_value : Bool → p.Double → p.Double
  unfolding my_round
  shown_value rounds v = if rounds then p.of_ℤ (p.to_int (my_round v 0)) else v

  -- The two `push_back` of a round.
  abbrev pub add_set : p.Double → Eval p.Double p.Rng → Data → Data
  add_set v s roll = record roll {
    op_results = roll.op_results ++ s.op_results ∷ [];
    results = roll.results ++ shown_value roll.round_results v ∷ [];
  }

  -- The loop: `n` evaluations, each with its own list of results.
  unfoldable pub roll_sets : ℕ → List (PostfixValue p.Double) → p.Rng → Data → Rolled
  unfolding do_evaluate shown_value note_fault shift_place
  roll_sets zero postfix rng roll = Attempt.done (roll, some rng)
  roll_sets (suc n) postfix rng roll =
      catch (do_evaluate postfix rng) (λ e. Attempt.done (shift_place (note_fault e roll), none))
        (λ (v, s). roll_sets n postfix s.rng (add_set v s roll))

  -- The second half of the roller, once the number of sets is known.
  unfoldable pub roll_dice : ℕ → p.Rng → Data → Rolled
  unfolding do_parse roll_sets note_fault shift_place
  roll_dice n rng roll =
      catch (do_parse roll.dice_part) (λ e. Attempt.done (shift_place (note_fault e roll), none))
        (λ postfix.
          if is_nil postfix
          then Attempt.done (shift_place roll, none)
          else roll_sets n postfix rng roll)

  -- The number of sets: `n < 1 || n > DICE_MAX_TIMES` is refused.
  unfoldable pub roll_times : p.Double → Eval p.Double p.Rng → Data → Rolled
  unfolding roll_dice note_fault
  roll_times v s roll =
      let n = p.to_int v in
      let timed = record roll { times_results = s.op_results; op_results = [] } in
      let bad : Fault = record {
        code = DiceError.unacceptable_times;
        detail = none;
        place = none;
        num = some n;
      } in
      if ltb_ℤ n (ℤ.pos 1) || ltb_ℤ (ℤ.pos dice_max_times) n
      then Attempt.done (note_fault bad timed, none)
      else roll_dice (pos_part n) s.rng timed

  -- Roller, on data that were reset; a generator comes back where all went well.
  unfoldable pub roller : p.Rng → Data → Rolled
  unfolding do_parse do_evaluate roll_dice roll_times note_fault
  roller rng roll =
      let no_dice = parse_fault Detail.no_dice (some (length roll.times_part + 1)) in
      let refuse : Fault → Rolled = λ e. Attempt.done (note_fault e roll, none) in
      let timed = catch (do_parse roll.times_part) refuse (λ postfix.
        if is_nil postfix
        then Attempt.done (roll, none)
        else catch (do_evaluate postfix rng) refuse (λ (times, s). roll_times times s roll)) in
      if is_empty roll.times_part
      then roll_dice 1 rng roll
      else if is_empty roll.dice_part
      then Attempt.done (note_fault no_dice roll, none)
      else timed
