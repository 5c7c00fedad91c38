-- ===== src/Lib.antt =====
-- GroupServ and DiceServ of the Anope contrib modules, from GroupServ/groupserv_core.cpp and
-- GroupServ/groupserv.h, and from DiceServ/diceserv.cpp, DiceServ/diceserv.h, DiceServ/ds_roll.cpp
-- and DiceServ/ds_calc.cpp. The two modules do not call each other; they share the text functions of
-- Anope.
--
-- GroupServ keeps groups of accounts (`!group`). A group has an access list of accounts with flags,
-- settings, and memos. Beside the groups the service keeps invitations and the tokens of drops that
-- wait for a confirmation, and writes groups and invitations to groupserv.db after each change. The
-- command classes of GroupServ/groupserv.cpp call one method of GroupServCore each.
--
-- The state of GroupServCore is the record `Core`. A method is a function from the state of the
-- network (`Env`), the caller (`Source`), the arguments and the object to the object, the returned
-- Boolean and the replies in order (`Outcome`); a reply is the constructor of its format string
-- with the arguments. A method of many branches is several functions, each for a piece of it.
--
-- - Base, Dict, Bits: the shared library; a `std::map` is a list of entries by ascending key.
-- - Anope: what the code takes from Anope, which is not part of the repository: text functions, the
--   accounts, users, channels and the outcome of file operations, what of a write reaches the file among them. All of it is a parameter.
-- - GroupServ/AccessFlag, GroupFlag, Types: the enums and structs of groupserv.h.
-- - GroupServ/Text: EscapeValue, UnescapeValue, NormalizeKey, DropChallengeKey, IsValidGroupName,
--   ParseHostMask.
-- - GroupServ/Flags: HasFlag, FlagsToString, GroupFlagsToString, ParseFlags.
-- - GroupServ/State: PurgeExpiredState, FindGroup, GetAccessFor, HasAccess, IsMemberOfGroup,
--   CountGroupsFoundedBy, IsAdmin, IsAuspex, CanExceedLimits, ClampMemos and the getters.
-- - GroupServ/Save, Load: SaveDB, and LoadDB with both formats of the database.
-- - GroupServ/Register: RegisterGroup, DropGroup, SetGroupFlag, GetOrCreateGroup.
-- - GroupServ/Members: JoinGroup, InviteToGroup, SetFlags.
-- - GroupServ/Settings: SetOption, by setting. GroupServ/Memos: the four memo calls.
-- - GroupServ/Show: ShowInfo, ShowFlags, ListGroups, ListChans, GetGroupsForAccount.
-- - GroupServ/Reload: OnReload. GroupServ/Service: one call, and sequences of calls.
-- - GroupServ/Invariant, Atomic, Authority, Founders, Joining, Access, Dropping, Registering,
--   MemoBox, Storing, Loading, Load/Loaded, Load/Legacy/Kept, Load/Current/Kept, Renaming, JoinFlags,
--   Flags/Bitwise, Flags/Parse, Flags/Print, Text/Escape: theorems.
-- - Tests: Anope's text functions on ASCII, a small service, whole numbers in place of double, and
--   the theorems on them.
--
-- DiceServ rolls expressions such as `3~2d6+1`: three sets of two dice of six sides, and one. The text
-- goes through FixInfix (what is left out is written in), CheckInfix (what may stand next to what),
-- TokenizeInfix (spaces), InfixToPostfix (the shunting yard) and EvaluatePostfix (a stack of numbers);
-- Roller does so for the number of sets and for each set, with the result in a DiceServData.
--
-- A step of DiceServ is a function to `Attempt`: a result, a `Fault` (what the step writes into the
-- four error fields), or `out_of_bounds`, where the source would call top or pop on an empty stack or
-- CheckInfix would read behind the positions. A stack is a list with its top first. The position of a
-- failure is a `Place`, which is `none` where TokenizeInfix or InfixToPostfix would read outside of
-- the vector of positions.
--
-- - DiceServ/Platform: double, <cmath>, the generator and the conversions of text, all parameters;
--   `IsPlatform` is what the code relies on.
-- - DiceServ/Types, Results, Data: the structs of diceserv.h, Reset, HasExtended, Join, PreParse.
-- - DiceServ/Chars: is_number to is_constant, function_argument_count, would_pop.
-- - DiceServ/Fix, Check, Tokens: FixInfix, CheckInfix, TokenizeInfix.
-- - DiceServ/Postfix: InfixToPostfix. DiceServ/Functions, Evaluate: EvaluatePostfix and DoEvaluate.
-- - DiceServ/Roller: DoParse and Roller. DiceServ/Output: the outputs and the checks of their length.
-- - DiceServ/Expr, Value: expressions as trees with their tokens, postfix form and value, which the
--   code is measured by.
-- - DiceServ/Stacks, Calls, Operands: the stacks. DiceServ/Precedence, Pending, Conversion, Grouping,
--   ShuntingYard: the shunting yard on trees. DiceServ/Rounds, Evaluation: the evaluation of trees.
--   DiceServ/Sums, Sets: sizes of throws and of rolls. DiceServ/Alignment, Places: positions.
-- - DiceServ/Commands: ErrorHandler, SendReply, and ROLL, EXROLL, CALC and EXCALC of
--   DiceServ/ds_roll.cpp and DiceServ/ds_calc.cpp. DiceServ/Fitting: the length of their lines.
--
-- Numbers: flags are unsigned int, and `~` is taken on 32 bits; the counts of founders are taken
-- modulo 2 ^ 32. A `time_t` is a number without a bound, so no time lies before 1970 and no sum of
-- times wraps. A uint64_t is printed with twenty digits at most, which is all that 2 ^ 64 needs.
-- Text is a list of bytes. Every loop of the source is a recursion on a list, or on the number of
-- its rounds. An int of DiceServ is a `ℤ`, and a sum of dice is taken modulo 2 ^ 32.
--
-- Not modelled: the transport of replies (Reply and SendToUser, and the cut at 1024 bytes in
-- ReplyF), the reply mode, the interval of the periodic save, and the log. Of DiceServ: the help
-- texts, the reply of PreParse to who is not in the channel, the marks of who is ignored and the
-- events that keep them (PreParse takes their state from `Caller`), the classes that only pass
-- calls on, and the class dSFMT216091, which is another project's generator. A step that fails
-- drops the results of its evaluation and the state of the generator, which nothing reads in that
-- case before they are reset, except for the next numbers of the generator. A parameter that Join
-- reads and that is not there is `none`. The other command classes and modules of the repository
-- are not modelled.
pub mod Base
pub mod Dict
pub mod Bits
pub mod Anope
pub mod GroupServ
pub mod DiceServ
pub mod Tests
