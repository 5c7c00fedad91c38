-- ===== src/Tests/Members.antt =====
-- The theorems on members of a group, on the group of the tests.
use anope_mods_contrib.Base.{
  ◌≡◌, ◌↔◌, ◌⊎◌, refl, true, false, some, [], ◌∷◌, ◌++◌, Str, codes, arith, ltb, suc, List,
  if◌then◌else◌,
}
use anope_mods_contrib.Base.Order.{text_order}
use anope_mods_contrib.GroupServ.Types.{Memo}
use anope_mods_contrib.GroupServ.Text.{normalize_key, is_alpha}
use anope_mods_contrib.GroupServ.Flags.{
  has_flag, add_flags, remove_flags, token_bit, apply_one, apply_compact, apply_signed, apply_token,
  apply_tokens, flag_tokens, close_founder, parse_flags,
}
use anope_mods_contrib.GroupServ.State.{
  is_expired, is_list_full, can_exceed_limits, is_admin, find_group, put_group, access_of,
  get_access_for, allows, has_access,
}
use anope_mods_contrib.GroupServ.State.{purge_expired_state}
use anope_mods_contrib.GroupServ.Save.{save_db}
use anope_mods_contrib.GroupServ.Members.{find_invite, add_member, join_as, join_group, set_flags}
use anope_mods_contrib.GroupServ.Settings.{
  store, set_joinflags, apply_text, apply_setting, required_for, set_option,
}
use anope_mods_contrib.GroupServ.Memos.{store_memo, send_memo, memo_at, remove_memo, del_memo}
use anope_mods_contrib.GroupServ.Joining.{
  HasInvite, IsOpenTo, with_member, join_group_iff, join_group-find,
}
use anope_mods_contrib.GroupServ.Founders.{is_founder_of, set_flags-founders}
use anope_mods_contrib.GroupServ.JoinFlags.{chosen, joinflags-founder}
use anope_mods_contrib.GroupServ.MemoBox.{memo_from, send_memo-find, del_memo-memo_at}
use anope_mods_contrib.GroupServ.Invariant.Base.{is_founder}
use anope_mods_contrib.Tests.Ascii.{ascii}
use anope_mods_contrib.Tests.Service.{env, user, dev, core}

abbrev name : Str
name = codes "!Dev"

join_group_iff_example :
    ((join_group ⦃lib = ascii⦄ env (user (codes "Cat")) name core).1 ≡ true) ↔ (
      HasInvite ⦃lib = ascii⦄ env (normalize_key ⦃lib = ascii⦄ (codes "Cat")) dev core
      ⊎ IsOpenTo ⦃lib = ascii⦄ core (user (codes "Cat")) dev)
unfolding find_group normalize_key
join_group_iff_example =
    join_group_iff ⦃lib = ascii⦄ env (user (codes "Cat")) name (codes "Cat") dev core refl refl refl

join_group-find_example :
    find_group ⦃lib = ascii⦄ (join_group ⦃lib = ascii⦄ env (user (codes "Cat")) name core).0 name
    ≡ some (with_member ⦃lib = ascii⦄ core (normalize_key ⦃lib = ascii⦄ (codes "Cat")) dev)
unfolding find_group normalize_key join_group join_as find_invite is_expired is_list_full has_flag
    can_exceed_limits is_admin add_member
join_group-find_example =
    join_group-find ⦃lib = ascii⦄ env (user (codes "Cat")) name (codes "Cat") dev core refl refl
      refl

set_flags-founders_example :
    is_founder_of ⦃lib = ascii⦄
      (set_flags ⦃lib = ascii⦄ env
        (user (codes "Bob"))
        name
        (codes "bob")
        (codes "+F")
        false
        core).0
      name
      (codes "bob")
    ≡ is_founder_of ⦃lib = ascii⦄ core name (codes "bob")
unfolding find_group normalize_key has_flag
set_flags-founders_example =
    set_flags-founders ⦃lib = ascii⦄ env (user (codes "Bob")) name (codes "bob") (codes "+F")
      (codes "Bob") core (codes "bob") refl refl

test_chosen : is_founder (chosen ⦃lib = ascii⦄ (codes "F")) ≡ true
unfolding parse_flags apply_tokens apply_token apply_signed apply_compact apply_one token_bit
    add_flags remove_flags close_founder has_flag flag_tokens is_alpha
test_chosen = refl

joinflags-founder_example :
    is_founder_of ⦃lib = ascii⦄
      (join_group ⦃lib = ascii⦄ env
        (user (codes "Eve"))
        name
        (set_option ⦃lib = ascii⦄ env
          (user (codes "Bob"))
          name
          (codes "joinflags")
          (codes "F")
          core).0).0
      name
      (normalize_key ⦃lib = ascii⦄ (codes "Eve"))
    ≡ is_founder (chosen ⦃lib = ascii⦄ (codes "F"))
unfolding find_group normalize_key join_group join_as find_invite is_expired is_list_full has_flag
    can_exceed_limits is_admin add_member set_option required_for apply_setting apply_text
    set_joinflags store has_access allows get_access_for access_of put_group save_db
    purge_expired_state
joinflags-founder_example =
    joinflags-founder ⦃lib = ascii⦄ env env (user (codes "Bob")) (user (codes "Eve")) name
      (codes "joinflags") (codes "F") (codes "Bob") (codes "Eve") dev core refl refl refl refl
      (λ e. absurd (ground (arith, e))) refl refl refl refl

send_memo-find_example :
    find_group ⦃lib = ascii⦄
      (send_memo ⦃lib = ascii⦄ env (user (codes "Amy")) name (codes "three") core).0
      name
    ≡ some (record dev {
      memos = dev.memos ++ memo_from ⦃lib = ascii⦄ env (codes "Amy") (codes "three") ∷ [];
    })
unfolding find_group normalize_key send_memo store_memo has_access allows get_access_for access_of
    has_flag
send_memo-find_example =
    send_memo-find ⦃lib = ascii⦄ env (user (codes "Amy")) name (codes "three") (codes "Amy") dev
      core refl refl refl

del_memo-memo_at_example :
    (memos : List Memo) × (find_group ⦃lib = ascii⦄
        (del_memo ⦃lib = ascii⦄ env (user (codes "Bob")) name 1 core).0
        name
      ≡ some (record dev { memos = memos }))
    × (memo_at ⦃lib = ascii⦄ 1 memos ≡ (
        if ltb 1 1
        then memo_at ⦃lib = ascii⦄ 1 dev.memos
        else memo_at ⦃lib = ascii⦄ (suc 1) dev.memos))
unfolding find_group normalize_key del_memo remove_memo has_access allows get_access_for access_of
    has_flag
del_memo-memo_at_example =
    del_memo-memo_at ⦃lib = ascii⦄ env (user (codes "Bob")) name 1 dev core 1 refl refl
      (omega arith)
