-- ===== src/GroupServ/MemoBox.antt =====
-- The memo box of a group: what a sent and a deleted memo leave of it.
use anope_mods_contrib.Base.{
  ℕ, suc, ◌-◌, ◌≤◌, ◌≡◌, ap, true, some, Str, arith, if◌then◌else◌, ltb, [], ◌∷◌, ◌++◌, List,
  length, get_elem?, erase_at, length-append, length-erase_at, get_elem?-erase_at_lt,
  get_elem?-erase_at_le,
}
use anope_mods_contrib.Base.Order.{text_order}
use anope_mods_contrib.Dict.Laws.{lookup-insert}
use anope_mods_contrib.Anope.{Anope, Env, Source}
use anope_mods_contrib.GroupServ.Types.{Core, GroupRecord, Memo}
use anope_mods_contrib.GroupServ.Text.{normalize_key}
use anope_mods_contrib.GroupServ.State.{find_group, put_group, clamp_memos}
use anope_mods_contrib.GroupServ.Save.{save_db}
use anope_mods_contrib.GroupServ.Memos.{store_memo, send_memo, memo_at, remove_memo, del_memo}
use anope_mods_contrib.GroupServ.Groups.{key_self}

module _ ⦃lib : Anope⦄ where
  -- A memo from the account, sent now.
  abbrev pub memo_from : Env → Str → Str → Memo
  memo_from env display text = record { sender = display; time = env.cur_time; text = text }

  store_memo-find :
      (env : Env) (display groupname text : Str) (g : GroupRecord) (core : Core)
      → (store_memo env display groupname text g core).1 ≡ true
      → find_group (store_memo env display groupname text g core).0 groupname
        ≡ some (record g { memos = g.memos ++ memo_from env display text ∷ [] })
  unfolding store_memo clamp_memos save_db find_group put_group
  store_memo-find env display groupname text g core h = ground (
    arith,
    h,
    key_self (normalize_key groupname),
    length-append g.memos (memo_from env display text ∷ []),
    lookup-insert (normalize_key groupname) (normalize_key groupname)
        (record g { memos = g.memos ++ memo_from env display text ∷ [] }) core.groups,
  )

  -- A memo that is sent comes behind the ones that are there, of which none goes.
  pub send_memo-find :
      (env : Env) (source : Source) (groupname text display : Str) (g : GroupRecord) (core : Core)
      → source.account ≡ some display
      → find_group core groupname ≡ some g
      → (send_memo env source groupname text core).1 ≡ true
      → find_group (send_memo env source groupname text core).0 groupname
        ≡ some (record g { memos = g.memos ++ memo_from env display text ∷ [] })
  unfolding send_memo
  send_memo-find env source groupname text display g core a e h =
      ground (arith, a, e, h, store_memo-find env display groupname text g core)

  down : (i : ℕ) → 1 ≤ i → suc (i - 1) ≡ suc i - 1
  down i q = omega (arith, q)

  memo_at-erase_at :
      (n i : ℕ) (memos : List Memo)
      → 1 ≤ n
      → n ≤ length memos
      → 1 ≤ i
      → memo_at i (erase_at (n - 1) memos)
        ≡ (if ltb i n then memo_at i memos else memo_at (suc i) memos)
  unfolding memo_at
  memo_at-erase_at n i memos p l q = ground (
    arith,
    p,
    l,
    q,
    length-erase_at (n - 1) memos,
    get_elem?-erase_at_lt (n - 1) (i - 1) memos,
    get_elem?-erase_at_le (n - 1) (i - 1) memos,
    ap (get_elem? memos) (down i q),
  )

  del_memo-find :
      (env : Env) (source : Source) (groupname : Str) (index : ℕ) (g : GroupRecord) (core : Core)
      → find_group core groupname ≡ some g
      → (del_memo env source groupname index core).1 ≡ true
      → find_group (del_memo env source groupname index core).0 groupname
        ≡ some (record g { memos = erase_at (index - 1) g.memos })
  unfolding del_memo remove_memo save_db find_group put_group
  del_memo-find env source groupname index g core e h = ground (
    arith,
    e,
    h,
    key_self (normalize_key groupname),
    lookup-insert (normalize_key groupname) (normalize_key groupname)
        (record g { memos = erase_at (index - 1) g.memos }) core.groups,
  )

  in_range :
      (env : Env) (source : Source) (groupname : Str) (index : ℕ) (g : GroupRecord) (core : Core)
      → find_group core groupname ≡ some g
      → (del_memo env source groupname index core).1 ≡ true
      → (1 ≤ index) × (index ≤ length g.memos)
  unfolding del_memo remove_memo
  in_range env source groupname index g core e h = ground (arith, e, h)

  -- After DelMemo of memo n goes through, the group is what it was but for its memos, and the numbers
  -- by which users read them: below n they are what they were, and behind n each moves down by one.
  pub del_memo-memo_at :
      (env : Env) (source : Source) (groupname : Str) (n : ℕ) (g : GroupRecord) (core : Core)
      (i : ℕ)
      → find_group core groupname ≡ some g
      → (del_memo env source groupname n core).1 ≡ true
      → 1 ≤ i
      → (memos : List Memo) × (find_group (del_memo env source groupname n core).0 groupname
          ≡ some (record g { memos = memos }))
        × (memo_at i memos ≡ (if ltb i n then memo_at i g.memos else memo_at (suc i) g.memos))
  del_memo-memo_at env source groupname n g core i e h q =
      let r = in_range env source groupname n g core e h in
      (
        erase_at (n - 1) g.memos,
        del_memo-find env source groupname n g core e h,
        memo_at-erase_at n i g.memos r.0 r.1 q,
      )
