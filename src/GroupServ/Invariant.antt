-- ===== src/GroupServ/Invariant.antt =====
-- The calls of GroupServCore, and sequences of them, under the invariant of Invariant/Base.
pub mod Base
pub mod Register
pub mod Members
pub mod SetFlags
pub mod Settings
pub mod Memos
use anope_mods_contrib.Base.{ℕ, ◌≡◌, sym, subst, List, [], ◌∷◌, Str, arith}
use anope_mods_contrib.Anope.{Anope, Env, Source}
use anope_mods_contrib.GroupServ.Types.{Core}
use anope_mods_contrib.GroupServ.Memos.{list_memos, read_memo}
use anope_mods_contrib.GroupServ.Show.{show_info, show_flags, list_groups, list_chans}
use anope_mods_contrib.GroupServ.Service.{Command, step, run}
use Base.{IsValid}
use Register.{register_group-IsValid, drop_group-IsValid, set_group_flag-IsValid}
use Members.{join_group-IsValid, invite_to_group-IsValid}
use SetFlags.{set_flags-IsValid}
use Settings.{set_option-IsValid}
use Memos.{send_memo-IsValid, del_memo-IsValid}

module _ ⦃lib : Anope⦄ where
  read_memo-same :
      (source : Source) (groupname : Str) (index : ℕ) (core : Core)
      → (read_memo source groupname index core).0 ≡ core
  unfolding read_memo
  read_memo-same source groupname index core = ground arith

  list_memos-same :
      (source : Source) (groupname : Str) (core : Core)
      → (list_memos source groupname core).0 ≡ core
  unfolding list_memos
  list_memos-same source groupname core = ground arith

  show_info-same :
      (source : Source) (groupname : Str) (core : Core) → (show_info source groupname core).0 ≡ core
  unfolding show_info
  show_info-same source groupname core = ground arith

  show_flags-same :
      (source : Source) (groupname : Str) (core : Core)
      → (show_flags source groupname core).0 ≡ core
  unfolding show_flags
  show_flags-same source groupname core = ground arith

  list_groups-same :
      (source : Source) (pattern : Str) (core : Core) → (list_groups source pattern core).0 ≡ core
  unfolding list_groups
  list_groups-same source pattern core = ground arith

  list_chans-same :
      (env : Env) (source : Source) (groupname : Str) (core : Core)
      → (list_chans env source groupname core).0 ≡ core
  unfolding list_chans
  list_chans-same env source groupname core = ground arith

  -- Every call keeps the invariant, whatever the caller, the arguments and the network are, and
  -- whether the call is refused or not.
  pub step-IsValid :
      (env : Env) (source : Source) (c : Command) (core : Core)
      → IsValid core
      → IsValid (step env source c core).0
  unfolding step
  step-IsValid env source (Command.register n) core v = register_group-IsValid env source n core v
  step-IsValid env source (Command.join n) core v = join_group-IsValid env source n core v
  step-IsValid env source (Command.drop n k f) core v = drop_group-IsValid env source n k f core v
  step-IsValid env source (Command.group_flag n f b) core v =
      set_group_flag-IsValid env source n f b core v
  step-IsValid env source (Command.invite n a) core v =
      invite_to_group-IsValid env source n a core v
  step-IsValid env source (Command.flags n a c f) core v =
      set_flags-IsValid env source n a c f core v
  step-IsValid env source (Command.option n s x) core v = set_option-IsValid env source n s x core v
  step-IsValid env source (Command.send n t) core v = send_memo-IsValid env source n t core v
  step-IsValid env source (Command.delete n i) core v = del_memo-IsValid env source n i core v
  step-IsValid env source (Command.read n i) core v =
      subst IsValid (sym (read_memo-same source n i core)) v
  step-IsValid env source (Command.memos n) core v =
      subst IsValid (sym (list_memos-same source n core)) v
  step-IsValid env source (Command.info n) core v =
      subst IsValid (sym (show_info-same source n core)) v
  step-IsValid env source (Command.show n) core v =
      subst IsValid (sym (show_flags-same source n core)) v
  step-IsValid env source (Command.list p) core v =
      subst IsValid (sym (list_groups-same source p core)) v
  step-IsValid env source (Command.chans n) core v =
      subst IsValid (sym (list_chans-same env source n core)) v

  -- After any sequence of calls that starts in a valid state, the state is valid: the maps are
  -- sorted, every group stands under the key of its name, has a founder, flags of the nine kinds
  -- with no half-set founder, and no more memos than the limit.
  pub run-IsValid :
      (calls : List (Env × Source × Command)) (core : Core)
      → IsValid core
      → IsValid (run calls core)
  unfolding run
  run-IsValid [] core v = v
  run-IsValid ((env, source, c) ∷ calls) core v =
      run-IsValid calls (step env source c core).0 (step-IsValid env source c core v)
