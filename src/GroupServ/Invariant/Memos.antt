-- ===== src/GroupServ/Invariant/Memos.antt =====
-- The memo calls under the invariant.
use anope_mods_contrib.Base.{
  ℕ, ◌-◌, ◌<◌, List, [], ◌∷◌, ◌++◌, Str, arith, inl, inr, Option-cases, length, length-drop,
  length-erase_at, erase_at,
}
use anope_mods_contrib.Base.Order.{text_order}
use anope_mods_contrib.Anope.{Anope, Env, Source}
use anope_mods_contrib.GroupServ.Types.{Core, GroupRecord, Memo}
use anope_mods_contrib.GroupServ.Text.{normalize_key}
use anope_mods_contrib.GroupServ.State.{find_group, clamp_memos}
use anope_mods_contrib.GroupServ.Memos.{store_memo, send_memo, remove_memo, del_memo}
use anope_mods_contrib.GroupServ.Invariant.Base.{
  IsGood, IsValid, saved_put-IsValid, find_group-IsGood,
}

module _ ⦃lib : Anope⦄ (env : Env) (groupname : Str) (g : GroupRecord) (core : Core)
    (v : IsValid core) (good : IsGood core.config (normalize_key groupname) g) where
  -- The memo calls, once the group is found and the caller is allowed.
  clamp_memos-IsGood :
      (memos : List Memo)
      → IsGood core.config
          (normalize_key groupname)
          (clamp_memos core.maxgroupmemos (record g { memos = memos }))
  unfolding clamp_memos
  clamp_memos-IsGood memos =
      ground (arith, good, length-drop (length memos - core.maxgroupmemos) memos)

  store_memo-IsValid :
      (display text : Str) → IsValid (store_memo env display groupname text g core).0
  unfolding store_memo
  store_memo-IsValid display text = ground (
    arith,
    v,
    saved_put-IsValid env core groupname
        (clamp_memos core.maxgroupmemos (record g { memos = memos })) v (clamp_memos-IsGood memos),
  )
    where
      memos : List Memo
      memos = g.memos ++ record { sender = display; time = env.cur_time; text = text } ∷ []

  remove_memo-IsValid : (index : ℕ) → IsValid (remove_memo env groupname index g core).0
  unfolding remove_memo
  remove_memo-IsValid index = ground (
    arith,
    v,
    λ (h : index - 1 < length g.memos).
        saved_put-IsValid env core groupname (record g { memos = erase_at (index - 1) g.memos }) v
          (
            good.0,
            good.1,
            good.2,
            λ m. omega (arith, good.3 m, length-erase_at (index - 1) g.memos h),
          ),
  )

module _ ⦃lib : Anope⦄ where
  pub send_memo-IsValid :
      (env : Env) (source : Source) (groupname text : Str) (core : Core)
      → IsValid core
      → IsValid (send_memo env source groupname text core).0
  unfolding send_memo
  send_memo-IsValid env source groupname text core v =
      elim (Option-cases (find_group core groupname)) [
        | inl e ↦ ground (arith, v, e)
        | inr (g, e) ↦ elim (Option-cases source.account) [
          | inl n ↦ ground (arith, v, n)
          | inr (display, n) ↦ ground (
            arith,
            v,
            e,
            n,
            store_memo-IsValid env groupname g core v (find_group-IsGood core groupname g v e)
                display text,
          )
        ]
      ]

  pub del_memo-IsValid :
      (env : Env) (source : Source) (groupname : Str) (index : ℕ) (core : Core)
      → IsValid core
      → IsValid (del_memo env source groupname index core).0
  unfolding del_memo
  del_memo-IsValid env source groupname index core v =
      elim (Option-cases (find_group core groupname)) [
        | inl e ↦ ground (arith, v, e)
        | inr (g, e) ↦ ground (
          arith,
          v,
          e,
          remove_memo-IsValid env groupname g core v (find_group-IsGood core groupname g v e) index,
        )
      ]
