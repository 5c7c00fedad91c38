-- ===== src/Tests/Dice.antt =====
-- Runs of DiceServ on whole numbers.
use anope_mods_contrib.Base.{
  length, some, ℕ, suc, ◌+◌, ◌-◌, ◌*◌, ◌/◌, ◌%◌, ◌^◌, ◌≤◌, ◌<◌, ◌≡◌, refl, true, false, List, [],
  ◌∷◌, Str, codes, ltb, leb, ◌==◌, if◌then◌else◌, arith, none, Option,
}
use anope_mods_contrib.Base.Int.{ℤ, pos_part}
use anope_mods_contrib.Base.Decimal.{decimal}
use anope_mods_contrib.DiceServ.Types.{Infix, Attempt, then_do}
use anope_mods_contrib.DiceServ.Chars.{is_function, is_constant, does_pop, function_argument_count}
use anope_mods_contrib.DiceServ.Platform.{Platform, IsPlatform}
use anope_mods_contrib.DiceServ.Results.{throw_dice}
use anope_mods_contrib.DiceServ.Postfix.{PostfixValue, infix_to_postfix}
use anope_mods_contrib.DiceServ.Evaluate.{evaluate_postfix}
use anope_mods_contrib.DiceServ.Data.{DiceServData, Caller}
use anope_mods_contrib.DiceServ.Roller.{roller}
use anope_mods_contrib.DiceServ.Stacks.{Safe, Anything}
use anope_mods_contrib.DiceServ.Operands.{evaluate_postfix-Safe}
use anope_mods_contrib.DiceServ.Expr.{BinOp, Expr, tokens, rpn, IsWellFormed}
use anope_mods_contrib.DiceServ.ShuntingYard.{infix_to_postfix-rpn}
use anope_mods_contrib.DiceServ.Value.{value}
use anope_mods_contrib.DiceServ.Rounds.{with_stack}
use anope_mods_contrib.DiceServ.Evaluation.{start, evaluate_postfix-value}
use anope_mods_contrib.DiceServ.Fix.{fix_infix}
use anope_mods_contrib.DiceServ.Check.{check_infix}
use anope_mods_contrib.DiceServ.Alignment.{fix_infix-length}
use anope_mods_contrib.DiceServ.Places.{HasPlace, check_infix-HasPlace}
use anope_mods_contrib.DiceServ.Output.{Bot}
use anope_mods_contrib.DiceServ.Commands.{
  Reply, answer_extended, roll_command, exroll_command, calc_command, excalc_command,
}
use anope_mods_contrib.DiceServ.Fitting.{AllFit, commands-AllFit}
use anope_mods_contrib.DiceServ.Sums.{IsThrow, throw_dice-IsThrow}
use anope_mods_contrib.Tests.Ascii.{ascii, ascii-IsTextual}

abbrev digits_from : ℕ → Str → ℕ
digits_from n [] = n
digits_from n (c ∷ s) = digits_from (n * 10 + (c - b'0')) s

-- Doubles as whole numbers, and a generator that shows the lowest and the highest number in turn.
abbrev naturals : Platform
naturals = record {
  Double = ℕ;
  Rng = ℕ;
  of_ℕ = λ n. n;
  of_ℤ = pos_part;
  to_int = ℤ.pos;
  to_nat = λ n. n;
  is_lt = ltb;
  is_eq = λ a b. a == b;
  is_le = leb;
  is_infinite = λ n. false;
  is_nan = λ n. false;
  nan = 0;
  neg = λ n. 0;
  add = λ a b. a + b;
  sub = λ a b. a - b;
  mul = λ a b. a * b;
  div = λ a b. a / b;
  fmod = λ a b. a % b;
  pow = λ a b. a ^ b;
  abs = λ n. n;
  acos = λ n. n;
  acosh = λ n. n;
  asin = λ n. n;
  asinh = λ n. n;
  atan = λ n. n;
  atan2 = λ a b. a;
  atanh = λ n. n;
  cbrt = λ n. n;
  ceil = λ n. n;
  cos = λ n. n;
  cosh = λ n. n;
  exp = λ n. n;
  floor = λ n. n;
  log = λ n. n;
  log10 = λ n. n;
  sin = λ n. n;
  sinh = λ n. n;
  sqrt = λ n. n;
  tan = λ n. n;
  tanh = λ n. n;
  convert_double = digits_from 0;
  convert_int = λ s. ℤ.pos (digits_from 0 s % 2 ^ 31);
  show = decimal;
  show_short = decimal;
  random = λ g low high. (if g % 2 == 0 then low else high, suc g);
}

naturals-IsPlatform : IsPlatform naturals
naturals-IsPlatform = record { convert_int_fits = λ s. omega arith; random_within = within }
  where
    within :
        (g low high : ℕ)
        → 1 ≤ low
        → low ≤ high
        → high < 2 ^ 31
        → (r : ℕ) × ((if g % 2 == 0 then ℤ.pos low else ℤ.pos high) ≡ ℤ.pos r)
          × (low ≤ r)
          × (r ≤ high)
    within g low high h k l =
        (if g % 2 == 0 then low else high, ground arith, ground arith, ground arith)

abbrev three_plus_max : List (PostfixValue ℕ)
three_plus_max =
    PostfixValue.number 3
    ∷ PostfixValue.number 1
    ∷ PostfixValue.number 2
    ∷ PostfixValue.text (codes "max_2")
    ∷ PostfixValue.text (codes "+")
    ∷ []

evaluate_postfix-Safe_example :
    Safe Anything (evaluate_postfix ⦃lib = ascii⦄ ⦃p = naturals⦄ three_plus_max 7)
evaluate_postfix-Safe_example =
    evaluate_postfix-Safe ⦃lib = ascii⦄ ⦃p = naturals⦄ three_plus_max 7 naturals-IsPlatform refl

-- 2*(1+2d6)-sqrt(9)
abbrev attack : Expr
attack =
    Expr.binary BinOp.minus
      (Expr.binary BinOp.times (Expr.number (codes "2")) (
        Expr.binary BinOp.plus (Expr.number (codes "1"))
          (Expr.binary BinOp.dice (Expr.number (codes "2")) (Expr.number (codes "6")))))
      (Expr.call (codes "sqrt") (Expr.number (codes "9")))

attack-IsWellFormed : IsWellFormed ⦃lib = ascii⦄ ⦃p = naturals⦄ attack
unfolding is_function function_argument_count
attack-IsWellFormed = (
  (
    (refl, refl, refl, refl),
    ((refl, refl, refl, refl), ((refl, refl, refl, refl), (refl, refl, refl, refl))),
  ),
  ((λ e. absurd (omega arith), refl, refl, refl), (refl, refl, refl, refl)),
)

abbrev attack_infix : Infix
attack_infix = record { str = codes "2 * ( 1 + 2 d 6 ) - sqrt ( 9 )"; positions = [] }

infix_to_postfix-rpn_example :
    infix_to_postfix ⦃lib = ascii⦄ ⦃p = naturals⦄ attack_infix
    ≡ Attempt.done (rpn ⦃p = naturals⦄ attack)
unfolding tokens
infix_to_postfix-rpn_example =
    infix_to_postfix-rpn ⦃lib = ascii⦄ ⦃p = naturals⦄ attack attack_infix ascii-IsTextual
      attack-IsWellFormed refl

evaluate_postfix-value_example :
    evaluate_postfix ⦃lib = ascii⦄ ⦃p = naturals⦄ (rpn ⦃p = naturals⦄ attack) 0
    ≡ then_do
        (value ⦃lib = ascii⦄ ⦃p = naturals⦄ attack (start ⦃lib = ascii⦄ ⦃p = naturals⦄ 0))
        (λ (v, w). Attempt.done (v, with_stack ⦃lib = ascii⦄ ⦃p = naturals⦄ w (v ∷ [])))
evaluate_postfix-value_example =
    evaluate_postfix-value ⦃lib = ascii⦄ ⦃p = naturals⦄ attack 0 ascii-IsTextual attack-IsWellFormed

throw_dice-IsThrow_example : IsThrow ⦃p = naturals⦄ 3 6 (throw_dice ⦃p = naturals⦄ (ℤ.pos 3) 6 0).0
throw_dice-IsThrow_example =
    throw_dice-IsThrow ⦃p = naturals⦄ 3 6 0 naturals-IsPlatform (omega arith) (omega arith)
      (omega arith)

abbrev three_rolls : DiceServData ℕ
three_rolls = record {
  is_extended = false;
  round_results = true;
  source_is_bot = false;
  roll_prefix = [];
  dice_prefix = [];
  dice_str = codes "3~2d6";
  times_part = codes "3";
  dice_part = codes "2d6";
  dice_suffix = [];
  extra_str = [];
  chan_str = [];
  comment_str = [];
  max_message_length = ℤ.pos 0;
  times_results = [];
  op_results = [];
  results = [];
  err_code = none;
  err_str = none;
  err_pos = none;
  err_num = ℤ.pos 0;
}

-- Each set of 2d6 is 1 and 6.
abbrev results_of : Attempt (DiceServData ℕ × Option ℕ) → List ℕ
results_of (Attempt.done (roll, g)) = roll.results
results_of (Attempt.failed e) = []
results_of Attempt.out_of_bounds = []

three_rolls_results :
    results_of (roller ⦃lib = ascii⦄ ⦃p = naturals⦄ 0 three_rolls) ≡ 7 ∷ 7 ∷ 7 ∷ []
unfolding roller is_function is_constant does_pop function_argument_count
three_rolls_results = refl

-- The arity of `max` is lost where a closing parenthesis pops it.
sqrt_max :
    infix_to_postfix ⦃lib = ascii⦄ ⦃p = naturals⦄
      (record { str = codes "sqrt ( max ( 1 , 2 ) )"; positions = [] })
    ≡ Attempt.done (
        PostfixValue.number 1
        ∷ PostfixValue.number 2
        ∷ PostfixValue.text (codes "max")
        ∷ PostfixValue.text (codes "sqrt")
        ∷ [])
unfolding infix_to_postfix is_function is_constant does_pop function_argument_count
sqrt_max = refl

fix_infix-length_example :
    length (fix_infix ascii.equals_ci (codes "2(3)")).positions
    ≡ length (fix_infix ascii.equals_ci (codes "2(3)")).str + 1
fix_infix-length_example = fix_infix-length ⦃lib = ascii⦄ ascii-IsTextual (codes "2(3)") refl

check_infix-HasPlace_example :
    HasPlace (check_infix ascii.equals_ci (fix_infix ascii.equals_ci (codes "2+sqrt")))
check_infix-HasPlace_example =
    check_infix-HasPlace ⦃lib = ascii⦄ (codes "2+sqrt") ascii-IsTextual refl

-- Two `d%` leave fewer positions than characters.
two_percent :
    (length (fix_infix ascii.equals_ci (codes "d%+d%")).str ≡ 11)
    × (length (fix_infix ascii.equals_ci (codes "d%+d%")).positions ≡ 10)
unfolding fix_infix is_function is_constant
two_percent = (refl, refl)

-- The last round of CheckInfix reads behind the last of them.
two_percent_read :
    check_infix ascii.equals_ci (fix_infix ascii.equals_ci (codes "d%+d%")) ≡ Attempt.out_of_bounds
unfolding fix_infix check_infix is_function is_constant
two_percent_read = refl

-- A times part and a dice part that are both empty: no error, and no set.
blank_roll :
    results_of (
      roller ⦃lib = ascii⦄ ⦃p = naturals⦄ 0
        (record three_rolls { times_part = []; dice_part = [] }))
    ≡ []
unfolding roller
blank_roll = refl

abbrev service_bot : Bot
service_bot = record { nick = codes "DiceServ"; ident = codes "services"; host = codes "a.net" }

abbrev alice : Caller
alice = record {
  is_ignored = false;
  is_account_ignored = false;
  channel = none;
  find_channel = λ s. none;
}

commands-AllFit_example :
    AllFit ⦃lib = ascii⦄ ⦃p = naturals⦄ service_bot (codes "alice") (
      roll_command ⦃lib = ascii⦄ ⦃p = naturals⦄ alice service_bot
        (codes "alice")
        (codes "2d6" ∷ [])
        0)
    × AllFit ⦃lib = ascii⦄ ⦃p = naturals⦄ service_bot (codes "alice") (
        exroll_command ⦃lib = ascii⦄ ⦃p = naturals⦄ alice service_bot
          (codes "alice")
          (codes "2d6" ∷ [])
          0)
    × AllFit ⦃lib = ascii⦄ ⦃p = naturals⦄ service_bot (codes "alice") (
        calc_command ⦃lib = ascii⦄ ⦃p = naturals⦄ alice service_bot
          (codes "alice")
          (codes "2d6" ∷ [])
          0)
    × AllFit ⦃lib = ascii⦄ ⦃p = naturals⦄ service_bot (codes "alice") (
        excalc_command ⦃lib = ascii⦄ ⦃p = naturals⦄ alice service_bot
          (codes "alice")
          (codes "2d6" ∷ [])
          0)
commands-AllFit_example =
    commands-AllFit ⦃lib = ascii⦄ ⦃p = naturals⦄ service_bot (codes "alice") alice
      (codes "2d6" ∷ []) 0

exroll_run :
    exroll_command ⦃lib = ascii⦄ ⦃p = naturals⦄ alice service_bot
      (codes "alice")
      (codes "2d6" ∷ [])
      0
    ≡ some (Reply.to_user (codes "<Exroll [2d6]: {2d6=(1 6)} 7>") ∷ [])
unfolding exroll_command answer_extended is_function is_constant does_pop function_argument_count
    decimal
exroll_run = refl
