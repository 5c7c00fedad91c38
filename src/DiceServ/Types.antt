-- ===== src/DiceServ/Types.antt =====
-- Errors and the values that the steps of a roll hand on.
use anope_mods_contrib.Base.{ℕ, Option, List, Str, get_elem?, none, some}
use anope_mods_contrib.Base.Int.{ℤ}

-- `DiceErrorCode` but for `DICE_ERROR_NONE`, which is the `none` of `err_code`.
pub data DiceError : Type 0 where
  parse div0 undefined unacceptable_dice unacceptable_sides unacceptable_times : DiceError
  overunderflow stack : DiceError

-- The texts of `errStr`.
pub data Detail : Type 0 where
  function_without_open comma_before comma_after operator_before operator_after : Detail
  missing_operator number_after_open number_before_close operator_after_close : Detail
  invalid_character operator_needs_number close_without_open comma_outside open_without_close :
      Detail
  empty_token function_operands operator_operands too_many_numbers no_dice : Detail
  too_few_arguments : ℕ → ℤ → Detail

-- A position in the text that the user typed; `none` is what a read outside of the vector of
-- positions gives, which the language leaves open.
abbrev pub Place : Type 0
Place = Option ℕ

-- What a step that fails writes into `errCode`, `errStr`, `errPos` and `errNum`; `none` is what it
-- leaves alone.
pub record Fault : Type 0 where
  pub code : DiceError
  pub detail : Option Detail
  pub place : Option Place
  pub num : Option ℤ

-- The end of a step: a result, a failure, or a call of `top` or `pop` on an empty stack or a read
-- outside of the positions, which the language leaves undefined.
pub data Attempt {ℓ} (A : Type ℓ) : Type ℓ where
  done : A → Attempt A
  failed : Fault → Attempt A
  out_of_bounds : Attempt A

abbrev pub then_do {ℓ κ} : {A : Type ℓ} {B : Type κ} → Attempt A → (A → Attempt B) → Attempt B
then_do (Attempt.done a) f = f a
then_do (Attempt.failed e) f = Attempt.failed e
then_do Attempt.out_of_bounds f = Attempt.out_of_bounds

-- Where a failure has its own way on.
abbrev pub catch {ℓ κ} :
    {A : Type ℓ} {B : Type κ} → Attempt A → (Fault → Attempt B) → (A → Attempt B) → Attempt B
catch (Attempt.done a) recover f = f a
catch (Attempt.failed e) recover f = recover e
catch Attempt.out_of_bounds recover f = Attempt.out_of_bounds

abbrev pub fault : DiceError → Fault
fault code = record { code = code; detail = none; place = none; num = none }

-- `errPos`, `errCode` and `errStr` of an expression that does not parse.
abbrev pub parse_fault : Detail → Place → Fault
parse_fault detail place = record {
  code = DiceError.parse;
  detail = some detail;
  place = some place;
  num = none;
}

-- `struct Infix`
pub record Infix : Type 0 where
  pub str : Str
  pub positions : List Place

-- `positions[x]`
abbrev pub position_at : List Place → ℕ → Place
position_at positions x = elim (get_elem? positions x) [ none ↦ none | some p ↦ p ]
