-- ===== src/GroupServ/Memos.antt =====
-- SendMemo, ListMemos, ReadMemo and DelMemo.
use anope_mods_contrib.Base.{
  ℕ, ◌+◌, ◌-◌, Bool, true, not, ◌&&◌, ◌||◌, Option, none, some, List, [], ◌∷◌, ◌++◌, Str, ltb, ◌==◌,
  if◌then◌else◌, length, get_elem?, erase_at,
}
use anope_mods_contrib.Anope.{Anope, Env, Source}
use anope_mods_contrib.GroupServ.AccessFlag
use anope_mods_contrib.GroupServ.Types.{Core, GroupRecord, Memo}
use anope_mods_contrib.GroupServ.Text.{is_empty}
use anope_mods_contrib.GroupServ.Message.{Message, Output, reply, Outcome, refuse, accept}
use anope_mods_contrib.GroupServ.State.{is_auspex, clamp_memos, find_group, put_group, has_access}
use anope_mods_contrib.GroupServ.Save.{save_db}

module _ ⦃lib : Anope⦄ where
  abbrev is_allowed : Core → Source → GroupRecord → ℕ → Bool
  is_allowed core source g required = has_access g source.account required || is_auspex core source

  abbrev is_locked : Env → Source → Bool
  is_locked env source = env.read_only && not source.is_oper

  -- The checks of SendMemo on the text and the limit, and the write.
  unfoldable pub store_memo : Env → Str → Str → Str → GroupRecord → Core → Outcome
  unfolding put_group
  store_memo env display groupname text g core =
      let m : Memo = record { sender = display; time = env.cur_time; text = text } in
      let filled = record g { memos = g.memos ++ m ∷ [] } in
      if is_empty text
      then refuse Message.memo_empty core
      else if not (core.maxgroupmemos == 0) && not (ltb (length g.memos) core.maxgroupmemos)
      then refuse (Message.too_many_memos g.name core.maxgroupmemos) core
      else accept (Message.memo_sent g.name)
          (save_db env (put_group core groupname (clamp_memos core.maxgroupmemos filled)))

  unfoldable pub send_memo : Env → Source → Str → Str → Core → Outcome
  unfolding find_group has_access is_auspex
  send_memo env source groupname text core = elim source.account [
    | none ↦ refuse Message.identify_to_use core
    | some display ↦
        if is_locked env source
        then refuse Message.read_only_mode core
        else elim (find_group core groupname) [
          | none ↦ refuse (Message.no_group groupname) core
          | some g ↦
              if not (is_allowed core source g AccessFlag.memo)
              then refuse Message.access_denied core
              else store_memo env display groupname text g core
        ]
  ]

  abbrev memo_listing : ℕ → List Memo → List Output
  memo_listing i [] = []
  memo_listing i (m ∷ ms) =
      reply (Message.memo_line (i + 1) m.sender m.time) ∷ memo_listing (i + 1) ms

  unfoldable pub list_memos : Source → Str → Core → Outcome
  unfolding find_group has_access is_auspex
  list_memos source groupname core = elim source.account [
    | none ↦ refuse Message.identify_to_use core
    | some display ↦ elim (find_group core groupname) [
      | none ↦ refuse (Message.no_group groupname) core
      | some g ↦
          if not (is_allowed core source g AccessFlag.memo)
          then refuse Message.access_denied core
          else elim g.memos [
            | [] ↦ accept (Message.no_memos g.name) core
            | m ∷ ms ↦ (core, true, reply (Message.memos_for g.name) ∷ memo_listing 0 (m ∷ ms))
          ]
    ]
  ]

  -- `index == 0 || index > memos.size()`, else the memo that the index stands for.
  unfoldable pub memo_at : ℕ → List Memo → Option Memo
  memo_at index memos =
      if index == 0 || ltb (length memos) index then none else get_elem? memos (index - 1)

  unfoldable pub read_memo : Source → Str → ℕ → Core → Outcome
  unfolding find_group has_access is_auspex memo_at
  read_memo source groupname index core = elim source.account [
    | none ↦ refuse Message.identify_to_use core
    | some display ↦ elim (find_group core groupname) [
      | none ↦ refuse (Message.no_group groupname) core
      | some g ↦
          if not (is_allowed core source g AccessFlag.memo)
          then refuse Message.access_denied core
          else elim (memo_at index g.memos) [
            | none ↦ refuse Message.invalid_memo core
            | some m ↦ (
              core,
              true,
              reply (Message.memo_title index g.name)
                  ∷ reply (Message.memo_from m.sender)
                  ∷ reply (Message.memo_date m.time)
                  ∷ reply (Message.memo_text m.text)
                  ∷ [],
            )
          ]
    ]
  ]

  unfoldable pub remove_memo : Env → Str → ℕ → GroupRecord → Core → Outcome
  unfolding put_group
  remove_memo env groupname index g core =
      if index == 0 || ltb (length g.memos) index
      then refuse Message.invalid_memo core
      else accept (Message.memo_deleted index g.name) (
          save_db env
            (put_group core groupname (record g { memos = erase_at (index - 1) g.memos })))

  unfoldable pub del_memo : Env → Source → Str → ℕ → Core → Outcome
  unfolding find_group has_access is_auspex
  del_memo env source groupname index core = elim source.account [
    | none ↦ refuse Message.identify_to_use core
    | some display ↦
        if is_locked env source
        then refuse Message.read_only_mode core
        else elim (find_group core groupname) [
          | none ↦ refuse (Message.no_group groupname) core
          | some g ↦
              if not (is_allowed core source g AccessFlag.set)
              then refuse Message.access_denied core
              else remove_memo env groupname index g core
        ]
  ]
