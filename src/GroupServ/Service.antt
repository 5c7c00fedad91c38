-- ===== src/GroupServ/Service.antt =====
-- The calls of GroupServCore that commands make, and sequences of them.
use anope_mods_contrib.Base.{ℕ, Bool, List, [], ◌∷◌, Str}
use anope_mods_contrib.Anope.{Anope, Env, Source}
use anope_mods_contrib.GroupServ.Types.{Core}
use anope_mods_contrib.GroupServ.Message.{Outcome}
use anope_mods_contrib.GroupServ.Register.{register_group, drop_group, set_group_flag}
use anope_mods_contrib.GroupServ.Members.{join_group, invite_to_group, set_flags}
use anope_mods_contrib.GroupServ.Settings.{set_option}
use anope_mods_contrib.GroupServ.Memos.{send_memo, list_memos, read_memo, del_memo}
use anope_mods_contrib.GroupServ.Show.{show_info, show_flags, list_groups, list_chans}

pub data Command : Type 0 where
  register join : Str → Command
  drop : Str → Str → Bool → Command
  group_flag : Str → ℕ → Bool → Command
  invite : Str → Str → Command
  flags : Str → Str → Str → Bool → Command
  option : Str → Str → Str → Command
  send : Str → Str → Command
  delete : Str → ℕ → Command
  read : Str → ℕ → Command
  memos info show list chans : Str → Command

module _ ⦃lib : Anope⦄ where
  unfoldable pub step : Env → Source → Command → Core → Outcome
  step env source (Command.register groupname) = register_group env source groupname
  step env source (Command.join groupname) = join_group env source groupname
  step env source (Command.drop groupname key force) = drop_group env source groupname key force
  step env source (Command.group_flag groupname flag enabled) =
      set_group_flag env source groupname flag enabled
  step env source (Command.invite groupname account) = invite_to_group env source groupname account
  step env source (Command.flags groupname account changes force) =
      set_flags env source groupname account changes force
  step env source (Command.option groupname setting value) =
      set_option env source groupname setting value
  step env source (Command.send groupname text) = send_memo env source groupname text
  step env source (Command.delete groupname index) = del_memo env source groupname index
  step env source (Command.read groupname index) = read_memo source groupname index
  step env source (Command.memos groupname) = list_memos source groupname
  step env source (Command.info groupname) = show_info source groupname
  step env source (Command.show groupname) = show_flags source groupname
  step env source (Command.list pattern) = list_groups source pattern
  step env source (Command.chans groupname) = list_chans env source groupname

  -- Calls one after the other, each with the network and the caller of its time.
  unfoldable pub run : List (Env × Source × Command) → Core → Core
  run [] core = core
  run ((env, source, c) ∷ calls) core = run calls (step env source c core).0
