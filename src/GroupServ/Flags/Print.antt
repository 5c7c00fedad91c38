-- ===== src/GroupServ/Flags/Print.antt =====
-- FlagsToString, and ParseFlags on what it prints: join flags in the database.
use mathlib.Core.Path.{fun_ext}
use anope_mods_contrib.Base.{
  ℕ, ◌<◌, ◌≡◌, ◌∙◌, refl, ap, Bool, true, false, [], ◌∷◌, Str, map, ◌==◌, ==_iff, all_below,
  all_below_sound,
}
use anope_mods_contrib.Anope.{Anope, IsTextual, ascii_upper, is_word}
use anope_mods_contrib.GroupServ.Flags.{
  flags_to_string, apply_token, apply_tokens, flag_tokens, close_founder, parse_flags,
}

abbrev prints_word : ℕ → Bool
prints_word f = is_word (flags_to_string f)

abbrev reads_back : ℕ → Bool
reads_back f =
    close_founder (apply_token (map ascii_upper) false (flags_to_string f) 0) == close_founder f

word_table : all_below 512 prints_word ≡ true
unfolding all_below flags_to_string
word_table = refl

read_table : all_below 512 reads_back ≡ true
unfolding all_below flags_to_string apply_token close_founder
read_table = refl

module _ ⦃lib : Anope⦄ (laws : IsTextual lib) where
  flag_tokens-word : (w : Str) → is_word w ≡ true → flag_tokens w ≡ w ∷ []
  unfolding flag_tokens
  flag_tokens-word w h = rw (laws.tokens_word w h, flag_tokens)

  -- On one word the loop over the tokens makes one round.
  pub parse_flags-word :
      (w : Str) (allow_minus : Bool) (current : ℕ)
      → is_word w ≡ true
      → parse_flags w allow_minus current
        ≡ close_founder (apply_token (map ascii_upper) allow_minus w current)
  unfolding parse_flags apply_tokens
  parse_flags-word w allow_minus current h =
      ap (λ ts. close_founder (apply_tokens allow_minus ts current)) (flag_tokens-word w h)
      ∙ ap (λ t. close_founder (apply_token lib.upper allow_minus t current)) (laws.trim_word w h)
      ∙ ap (λ u. close_founder (apply_token u allow_minus w current)) (fun_ext laws.upper_ascii)

  -- Flags of the nine kinds that are printed and parsed again come back, with the powers that
  -- founder implies.
  pub parse_flags-flags_to_string :
      (f : ℕ) → f < 512 → parse_flags (flags_to_string f) false 0 ≡ close_founder f
  parse_flags-flags_to_string f h =
      parse_flags-word (flags_to_string f) false 0 word
      ∙ (==_iff _ (close_founder f)).0 (all_below_sound 512 reads_back f read_table h)
    where
      word : prints_word f ≡ true
      word = all_below_sound 512 prints_word f word_table h
