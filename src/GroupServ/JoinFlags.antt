-- ===== src/GroupServ/JoinFlags.antt =====
-- SET JOINFLAGS: the flags that later members get.
use anope_mods_contrib.Base.{
  ℕ, ◌≡◌, ◌≢◌, refl, ap, ◌∙◌, true, false, ◌==◌, Option, some, none, Str, codes, arith,
  if◌then◌else◌, [],
}
use anope_mods_contrib.Base.Order.{text_order}
use anope_mods_contrib.Dict.{lookup}
use anope_mods_contrib.Dict.Laws.{lookup-insert}
use anope_mods_contrib.Anope.{Anope, Env, Source}
use anope_mods_contrib.GroupServ.AccessFlag
use anope_mods_contrib.GroupServ.Types.{Core, GroupRecord}
use anope_mods_contrib.GroupServ.Text.{normalize_key}
use anope_mods_contrib.GroupServ.Flags.{parse_flags}
use anope_mods_contrib.GroupServ.State.{find_group, has_access}
use anope_mods_contrib.GroupServ.Message.{Message, refuse}
use anope_mods_contrib.GroupServ.Members.{join_group}
use anope_mods_contrib.GroupServ.Settings.{
  store, set_joinflags, apply_text, apply_setting, required_for, set_option,
}
use anope_mods_contrib.GroupServ.Groups.{key_self, find_group-saved}
use anope_mods_contrib.GroupServ.Joining.{member_flags, with_member, join_group-find}
use anope_mods_contrib.GroupServ.Founders.{founds, is_founder_of}
use anope_mods_contrib.GroupServ.Invariant.Base.{is_founder}

module _ ⦃lib : Anope⦄ where
  -- The join flags for a text that is neither OFF nor NONE.
  abbrev pub chosen : Str → ℕ
  chosen v =
      let parsed = parse_flags v false AccessFlag.none in
      if parsed == AccessFlag.none then AccessFlag.all_nofounder else parsed

  abbrev pub with_joinflags : Str → GroupRecord → GroupRecord
  with_joinflags v g = record g { joinflags = chosen v }

  set_joinflags-find :
      (env : Env) (groupname value : Str) (g : GroupRecord) (core : Core)
      → lib.trim value ≢ []
      → lib.equals_ci (lib.trim value) (codes "OFF") ≡ false
      → lib.equals_ci (lib.trim value) (codes "NONE") ≡ false
      → (set_joinflags env groupname value g core).1 ≡ true
      → find_group (set_joinflags env groupname value g core).0 groupname
        ≡ some (record g { joinflags = chosen (lib.trim value) })
  unfolding set_joinflags store
  set_joinflags-find env groupname value g core n o x h = ground (
    arith,
    n,
    o,
    x,
    h,
    find_group-saved env core groupname (record g { joinflags = chosen (lib.trim value) }),
  )

  -- SetOption of JOINFLAGS asks for the flag SET and no more.
  set_option-joinflags :
      (env : Env) (source : Source) (groupname setting value display : Str) (g : GroupRecord)
      (core : Core)
      → source.account ≡ some display
      → find_group core groupname ≡ some g
      → lib.upper setting ≡ codes "JOINFLAGS"
      → set_option env source groupname setting value core ≡ (
          if has_access g source.account AccessFlag.set
          then set_joinflags env groupname value g core
          else refuse Message.access_denied core)
  unfolding set_option apply_setting apply_text required_for
  set_option-joinflags env source groupname setting value display g core a e u =
      rw (set_option, e, a, u) refl

  option-find :
      (env : Env) (source : Source) (groupname setting value display : Str) (g : GroupRecord)
      (core : Core)
      → source.account ≡ some display
      → find_group core groupname ≡ some g
      → lib.upper setting ≡ codes "JOINFLAGS"
      → lib.trim value ≢ []
      → lib.equals_ci (lib.trim value) (codes "OFF") ≡ false
      → lib.equals_ci (lib.trim value) (codes "NONE") ≡ false
      → (set_option env source groupname setting value core).1 ≡ true
      → find_group (set_option env source groupname setting value core).0 groupname
        ≡ some (with_joinflags (lib.trim value) g)
  option-find env source groupname setting value display g core a e u n o x h = ground (
    arith,
    h,
    set_option-joinflags env source groupname setting value display g core a e u,
    set_joinflags-find env groupname value g core n o x,
  )

  member-founds :
      (core : Core) (acct v : Str) (g : GroupRecord)
      → founds (lookup acct (with_member core acct (with_joinflags v g)).access)
        ≡ is_founder (chosen v)
  member-founds core acct v g = ground (
    arith,
    lookup-insert acct acct (member_flags core (with_joinflags v g)) g.access,
    key_self acct,
  )

  -- After a SetOption of JOINFLAGS that goes through, with a text that is neither empty nor OFF nor
  -- NONE, the next account that joins the group is a founder of it exactly where the flags of the
  -- text have founder.
  pub joinflags-founder :
      (env later : Env) (source joiner : Source) (groupname setting value display newcomer : Str)
      (g : GroupRecord) (core : Core)
      → source.account ≡ some display
      → joiner.account ≡ some newcomer
      → find_group core groupname ≡ some g
      → lib.upper setting ≡ codes "JOINFLAGS"
      → lib.trim value ≢ []
      → lib.equals_ci (lib.trim value) (codes "OFF") ≡ false
      → lib.equals_ci (lib.trim value) (codes "NONE") ≡ false
      → (set_option env source groupname setting value core).1 ≡ true
      → (join_group later joiner groupname (set_option env source groupname setting value core).0).1
        ≡ true
      → is_founder_of
          (join_group later joiner groupname
            (set_option env source groupname setting value core).0).0
          groupname
          (normalize_key newcomer)
        ≡ is_founder (chosen (lib.trim value))
  joinflags-founder env later source joiner groupname setting value display newcomer g core a b e u
        n o x h k =
      let after = (set_option env source groupname setting value core).0 in
      let acct = normalize_key newcomer in
      ap
        (λ (found : Option GroupRecord). elim found [
          | none ↦ false
          | some g ↦ founds (lookup acct g.access)
        ])
        (join_group-find later joiner groupname newcomer (with_joinflags (lib.trim value) g) after b
          (option-find env source groupname setting value display g core a e u n o x h) k)
      ∙ member-founds after acct (lib.trim value) g
