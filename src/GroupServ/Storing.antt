-- ===== src/GroupServ/Storing.antt =====
-- PurgeExpiredState and SaveDB: what a purge takes and what a save leaves on disk.
use anope_mods_contrib.Base.{
  ◌≡◌, ◌≤◌, ◌+◌, ◌⊎◌, ◌↔◌, inl, inr, true, false, not, some, Str, arith, [], ◌∷◌, List,
  Option-cases,
}
use anope_mods_contrib.Base.Order.{text_order}
use anope_mods_contrib.Dict.{lookup}
use anope_mods_contrib.Dict.Laws.{IsSorted, lookup-retain}
use anope_mods_contrib.Anope.{Anope, Env}
use anope_mods_contrib.GroupServ.Types.{Core, Invite, DropChallenge}
use anope_mods_contrib.GroupServ.State.{is_expired, is_stale, purge_expired_state}
use anope_mods_contrib.GroupServ.Load.{is_legacy, load_db}
use anope_mods_contrib.GroupServ.Load.Legacy.{is_legacy_header, load_legacy}
use anope_mods_contrib.GroupServ.Load.Current.{until_nul}

module _ (env : Env) (core : Core) where
  purge-invites_iff :
      (acct : Str) (inv : Invite)
      → IsSorted core.invites
      → (lookup acct (purge_expired_state env core).invites ≡ some inv) ↔ (
          (lookup acct core.invites ≡ some inv)
          × ((inv.expires ≡ 0) ⊎ (env.cur_time ≤ inv.expires)))
  unfolding purge_expired_state is_expired
  purge-invites_iff acct inv s =
      let e = lookup-retain (λ _ inv. not (is_expired env.cur_time inv)) acct core.invites s in
      elim (Option-cases (lookup acct core.invites)) [
        | inl n ↦ ground (arith, e, n)
        | inr (i, n) ↦ ground (arith, e, n)
      ]

  purge-challenges_iff :
      (key : Str) (c : DropChallenge)
      → IsSorted core.drop_challenges
      → (lookup key (purge_expired_state env core).drop_challenges ≡ some c) ↔ (
          (lookup key core.drop_challenges ≡ some c)
          × ((c.created ≡ 0) ⊎ (env.cur_time ≤ c.created + 1800)))
  unfolding purge_expired_state is_stale
  purge-challenges_iff key c s =
      let e = lookup-retain (λ _ c. not (is_stale env.cur_time c)) key core.drop_challenges s in
      elim (Option-cases (lookup key core.drop_challenges)) [
        | inl n ↦ ground (arith, e, n)
        | inr (i, n) ↦ ground (arith, e, n)
      ]

  -- What a purge of sorted tables leaves: the invitations that were there and have no time of expiry
  -- or one that is not past, and the challenges that were there and have no time of creation or one
  -- that is at most 1800 seconds ago.
  pub purge_expired_state_iff :
      (acct key : Str) (inv : Invite) (c : DropChallenge)
      → IsSorted core.invites
      → IsSorted core.drop_challenges
      → ((lookup acct (purge_expired_state env core).invites ≡ some inv) ↔ (
          (lookup acct core.invites ≡ some inv)
          × ((inv.expires ≡ 0) ⊎ (env.cur_time ≤ inv.expires))))
        × ((lookup key (purge_expired_state env core).drop_challenges ≡ some c) ↔ (
            (lookup key core.drop_challenges ≡ some c)
            × ((c.created ≡ 0) ⊎ (env.cur_time ≤ c.created + 1800))))
  purge_expired_state_iff acct key inv c s t =
      (purge-invites_iff acct inv s, purge-challenges_iff key c t)

module _ ⦃lib : Anope⦄ where
  -- A comment in front of a file in the old format: LoadDB still takes the file for one in the old
  -- format, and reads no group and no invitation from it.
  pub load_db-comment :
      (env : Env) (core : Core) (raw s : Str) (lines : List Str)
      → core.disk.db ≡ some (raw ∷ lines)
      → until_nul raw ≡ raw
      → lib.trim raw ≡ b'#' ∷ s
      → is_legacy_header (lib.get_tokens (lib.trim raw) b'|') ≡ false
      → is_legacy lines ≡ true
      → ((load_db env core).groups ≡ []) × ((load_db env core).invites ≡ [])
  unfolding load_db is_legacy load_legacy purge_expired_state
  load_db-comment env core raw s lines d n t h l =
      (ground (arith, d, n, t, h, l), ground (arith, d, n, t, h, l))
