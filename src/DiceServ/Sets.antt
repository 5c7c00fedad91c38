-- ===== src/DiceServ/Sets.antt =====
-- Roller: the ways in which a roll ends, and how many sets it has.
use anope_mods_contrib.Base.{ℕ, ◌≤◌, ◌≡◌, ◌⊎◌, true, [], length}
use anope_mods_contrib.Anope.{Anope}
use anope_mods_contrib.DiceServ.Types.{Attempt}
use anope_mods_contrib.DiceServ.Platform.{Platform}
use anope_mods_contrib.DiceServ.Evaluate.{dice_max_times}
use anope_mods_contrib.DiceServ.Commands.{failed}
use anope_mods_contrib.DiceServ.Roller.{Data, Rolled, do_parse}

module _ ⦃lib : Anope⦄ ⦃p : Platform⦄ where
  -- A roll ends with an error code, or is blank, or has a number of sets, each with its results.
  abbrev pub HasSets : Type 0 → (ℕ → Type 0) → Rolled → Type 0
  HasSets B P (Attempt.done (roll, g)) =
      (failed roll ≡ true)
      ⊎ B
      ⊎ (P (length roll.results) × (length roll.op_results ≡ length roll.results))
  HasSets B P (Attempt.failed e) = ⊥
  HasSets B P Attempt.out_of_bounds = Unit

  -- One of the two parts has no tokens.
  abbrev pub IsBlank : Data → Type 0
  IsBlank roll =
      (do_parse roll.dice_part ≡ Attempt.done []) ⊎ (do_parse roll.times_part ≡ Attempt.done [])

  abbrev pub IsEven : Data → Type 0
  IsEven roll = length roll.op_results ≡ length roll.results

  -- The number of sets is one that may be asked for.
  abbrev pub IsAllowed : ℕ → Type 0
  IsAllowed n = (1 ≤ n) × (n ≤ dice_max_times)
