-- ===== src/DiceServ/Data.antt =====
-- DiceServData: what a command knows of a roll, Join, PreParse, and the faults that are noted.
use anope_mods_contrib.Base.{
  ℕ, zero, suc, ◌+◌, ◌-◌, Bool, true, false, not, ◌&&◌, ◌||◌, Option, none, some, List, [], ◌∷◌,
  ◌++◌, Str, codes, ltb, ◌==◌, if◌then◌else◌, length, get_elem?, is_some,
}
use anope_mods_contrib.Base.Int.{ℤ}
use anope_mods_contrib.GroupServ.Text.{is_empty, split_first}
use anope_mods_contrib.DiceServ.Types.{DiceError, Detail, Place, Fault}
use anope_mods_contrib.DiceServ.Chars.{first}
use anope_mods_contrib.DiceServ.Results.{OperatorResult}

pub record DiceServData (T : Type 0) : Type 0 where
  pub is_extended : Bool
  pub round_results : Bool
  pub source_is_bot : Bool
  pub roll_prefix : Str
  pub dice_prefix : Str
  pub dice_str : Str
  pub times_part : Str
  pub dice_part : Str
  pub dice_suffix : Str
  pub extra_str : Str
  pub chan_str : Str
  pub comment_str : Str
  pub max_message_length : ℤ
  pub times_results : List (OperatorResult T)
  pub op_results : List (List (OperatorResult T))
  pub results : List T
  pub err_code : Option DiceError
  pub err_str : Option Detail
  pub err_pos : Place
  pub err_num : ℤ

-- A channel as PreParse looks at it, with respect to the caller.
pub record ChannelView : Type 0 where
  pub has_user : Bool
  pub is_ignored : Bool
  pub is_ci_ignored : Bool
  pub is_quieted : Bool
  pub is_moderated : Bool

-- The caller: whether the user or the account is ignored, the channel of a fantasy command, and
-- `Channel::Find`.
pub record Caller : Type 0 where
  pub is_ignored : Bool
  pub is_account_ignored : Bool
  pub channel : Option ChannelView
  pub find_channel : Str → Option ChannelView

module _ {T : Type 0} where
  unfoldable pub reset : DiceServData T → DiceServData T
  reset roll = record roll {
    times_results = [];
    op_results = [];
    results = [];
    err_code = none;
    err_str = none;
    err_pos = some 0;
    err_num = ℤ.pos 0;
  }

  -- What a step that fails writes.
  unfoldable pub note_fault : Fault → DiceServData T → DiceServData T
  note_fault e roll = record roll {
    err_code = some e.code;
    err_str = elim e.detail [ none ↦ roll.err_str | some d ↦ some d ];
    err_pos = elim e.place [ none ↦ roll.err_pos | some q ↦ q ];
    err_num = elim e.num [ none ↦ roll.err_num | some n ↦ n ];
  }

  -- `if (!timesPart.empty()) errPos += timesPart.length() + 1`
  unfoldable pub shift_place : DiceServData T → DiceServData T
  shift_place roll =
      let shifted : Place = elim roll.err_pos [
        | none ↦ none
        | some q ↦ some (q + (length roll.times_part + 1))
      ] in
      if is_empty roll.times_part then roll else record roll { err_pos = shifted }

  unfoldable pub has_extended : DiceServData T → Bool
  has_extended roll =
      (not (is_empty roll.times_part) && is_some (get_elem? roll.times_results 0))
      || any_filled roll.op_results
    where
      any_filled : List (List (OperatorResult T)) → Bool
      any_filled [] = false
      any_filled (rs ∷ rss) = is_some (get_elem? rs 0) || any_filled rss

-- The parameters from `x` on, `n` of them, with a space between two; `none` where one of them is not
-- there, whose read is undefined.
unfoldable pub join_params : List Str → ℕ → ℕ → Option Str
join_params params x zero = some []
join_params params x (suc zero) = get_elem? params x
join_params params x (suc (suc n)) = elim (get_elem? params x) [
  | none ↦ none
  | some s ↦ elim (join_params params (suc x) (suc n)) [
    | none ↦ none
    | some r ↦ some (s ++ b' ' ∷ r)
  ]
]

-- `Join(params, firstParam, lastParam)`
unfoldable pub join : List Str → ℕ → ℕ → Option Str
unfolding join_params
join params first_param last_param = join_params params first_param (suc last_param - first_param)

abbrev param_or_empty : List Str → ℕ → Str
param_or_empty params i = elim (get_elem? params i) [ none ↦ [] | some s ↦ s ]

abbrev with_comment : Str → Str → Str
with_comment chan comment = chan ++ ((if is_empty comment then [] else codes " ") ++ comment)

abbrev last_of : Str → ℕ
last_of [] = 0
last_of (c ∷ []) = c
last_of (c ∷ d ∷ s) = last_of (d ∷ s)

abbrev but_last : Str → Str
but_last [] = []
but_last (c ∷ []) = []
but_last (c ∷ d ∷ s) = c ∷ but_last (d ∷ s)

-- `x[y]` becomes `x~y`.
unfoldable pub group_format : Str → Str
unfolding split_first
group_format dice_str = elim (split_first b'[' dice_str) [
  | none ↦ dice_str
  | some (times, rest) ↦
      if last_of dice_str == b']' then times ++ b'~' ∷ but_last rest else dice_str
]

-- The part before the first `~`, if there is one, and the part behind it.
unfoldable pub split_times : Str → Option (Str × Str)
unfolding split_first
split_times dice_str = split_first b'~' dice_str

module _ {T : Type 0} where
  -- The first lines of PreParse: which parameter is what.
  unfoldable pub take_params : Bool → List Str → ℕ → DiceServData T → Option (DiceServData T)
  unfolding join
  take_params in_channel params expected roll =
      let fantasy : Option Str =
        if expected == 1 then some roll.extra_str else join params 2 expected in
      let direct : Option Str =
        if expected == 1 then some roll.extra_str else join params 1 (expected - 1) in
      let comment = param_or_empty params (expected + 1) in
      if in_channel
      then elim fantasy [
        | none ↦ none
        | some extra ↦ some (record roll {
          chan_str = param_or_empty params 0;
          dice_str = param_or_empty params 1;
          extra_str = extra;
          comment_str = comment;
          source_is_bot = true;
        })
      ]
      else elim (get_elem? params 0) [
        | none ↦ none
        | some dice_str ↦ elim direct [
          | none ↦ none
          | some extra ↦ some (record roll {
            dice_str = dice_str;
            extra_str = extra;
            chan_str = param_or_empty params expected;
            comment_str = comment;
            source_is_bot = false;
          })
        ]
      ]

  -- A channel's name that does not begin with `#` is the start of the comment.
  unfoldable pub settle_channel : DiceServData T → DiceServData T
  settle_channel roll =
      if not (is_empty roll.chan_str) && not (first roll.chan_str == b'#')
      then record roll { comment_str = with_comment roll.chan_str roll.comment_str; chan_str = [] }
      else roll

  -- The checks on the channel; `none` where PreParse returns false.
  unfoldable pub admit_channel : Caller → DiceServData T → Option (DiceServData T)
  admit_channel caller roll =
      let quiet = record roll { chan_str = [] } in
      let channel : Option ChannelView = elim caller.channel [
        | none ↦ caller.find_channel roll.chan_str
        | some c ↦ some c
      ] in
      let checked : Option (DiceServData T) = elim channel [
        | none ↦ some quiet
        | some c ↦
            if not c.has_user
            then none
            else if c.is_ignored || c.is_ci_ignored || c.is_quieted || c.is_moderated
            then (if is_some caller.channel then none else some quiet)
            else some roll
      ] in
      if is_empty roll.chan_str then some roll else checked

  -- The times part and the dice part.
  unfoldable pub split_parts : DiceServData T → DiceServData T
  unfolding group_format split_times
  split_parts roll =
      let dice_str = group_format roll.dice_str in
      elim (split_times dice_str) [
        | none ↦ record roll { dice_str = dice_str; dice_part = dice_str }
        | some (times, part) ↦ record roll {
          dice_str = dice_str;
          times_part = times;
          dice_part = part;
        }
      ]

  -- PreParse: the inner option is `none` where it returns false, the outer one where it reads a
  -- parameter that is not there.
  unfoldable pub pre_parse :
      Caller → List Str → ℕ → DiceServData T → Option (Option (DiceServData T))
  unfolding take_params settle_channel admit_channel split_parts
  pre_parse caller params expected roll =
      let taken = take_params (is_some caller.channel) params expected roll in
      let admitted : Option (Option (DiceServData T)) = elim taken [
        | none ↦ none
        | some d ↦ elim (admit_channel caller (settle_channel d)) [
          | none ↦ some none
          | some d' ↦ some (some (split_parts d'))
        ]
      ] in
      if caller.is_ignored || caller.is_account_ignored
      then some none
      else if is_some caller.channel && ltb (length params) 2
      then some none
      else admitted
