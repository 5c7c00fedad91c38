-- ===== src/GroupServ/Load.antt =====
-- LoadDB: how the format is told, and what each of the two readers makes of the file.
pub mod Legacy
pub mod Current
pub mod Loaded
use anope_mods_contrib.Base.{
  ℕ, ◌%◌, ◌^◌, Bool, true, false, not, ◌&&◌, ◌||◌, Option, none, some, List, [], ◌∷◌, Str, codes,
  ltb, ◌==◌, if◌then◌else◌, length,
}
use anope_mods_contrib.Anope.{Anope, Env}
use anope_mods_contrib.GroupServ.Types.{Core}
use anope_mods_contrib.GroupServ.Text.{is_empty, contains}
use anope_mods_contrib.GroupServ.State.{purge_expired_state}
use Legacy.{is_legacy_header, load_legacy}
use Current.{until_nul, load_current}

abbrev starts_with_hash : Str → Bool
starts_with_hash [] = false
starts_with_hash (c ∷ s) = c == b'#'

module _ ⦃lib : Anope⦄ where
  -- Whether the first line that is neither empty nor a comment is `groupserv|...`.
  unfoldable pub is_legacy : List Str → Bool
  unfolding contains until_nul
  is_legacy [] = false
  is_legacy (raw ∷ lines) =
      let rest = is_legacy lines in
      let s = lib.trim (until_nul raw) in
      if is_empty s || starts_with_hash s
      then rest
      else contains b'|' s && is_legacy_header (lib.get_tokens s b'|')

  unfoldable pub load_db : Env → Core → Core
  unfolding is_legacy
  load_db env core = elim core.disk.db [
    | none ↦ core
    | some lines ↦
        let old = load_legacy lines in
        let replaced = record core { groups = old.groups; invites = old.invites } in
        if is_legacy lines
        then purge_expired_state env replaced
        else elim (load_current core.maxgroupmemos lines) [
          | none ↦ core
          | some new ↦
              purge_expired_state env (record core { groups = new.groups; invites = new.invites })
        ]
  ]
