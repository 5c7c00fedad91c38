-- ===== src/GroupServ/Flags/Parse.antt =====
-- What ParseFlags does to the flags of an account, whatever the text is.
use anope_mods_contrib.Base.{
  ℕ, ◌-◌, ◌^◌, ◌<◌, ◌≡◌, refl, inl, inr, Bool, true, false, not, ◌&&◌, ◌||◌, subst, Option, some,
  none, List, [], ◌∷◌, Str, length, ltb, ◌==◌, all_below, all_below_sound, arith, Bool-cases,
  Option-cases, if◌then◌else◌,
}
use anope_mods_contrib.Bits.{bit, bit-bit_or, bit-le-one, bit_or-lt, bit_and-le}
use anope_mods_contrib.Anope.{Anope}
use anope_mods_contrib.GroupServ.AccessFlag
use anope_mods_contrib.GroupServ.Text.{is_alpha, is_empty}
use anope_mods_contrib.GroupServ.Flags.{
  has_flag, add_flags, remove_flags, letter_bit, word_bit, late_word_bit, token_bit, apply_one,
  apply_compact, apply_signed, apply_token, apply_tokens, flag_tokens, close_founder, parse_flags,
}
use anope_mods_contrib.GroupServ.Flags.Bitwise.{has_flag-bit}

-- Founder comes with every other flag but the ban.
abbrev pub IsClosed : ℕ → Type 0
IsClosed f = bit f 0 ≡ 1 → (k : ℕ) → 0 < k → k < 8 → bit f k ≡ 1

powers_table : all_below 8 (λ k. k == 0 || bit AccessFlag.all_nofounder k == 1) ≡ true
unfolding all_below
powers_table = refl

power : (k : ℕ) → 0 < k → k < 8 → bit AccessFlag.all_nofounder k ≡ 1
power k h l =
    ground (
      arith,
      all_below_sound 8 (λ k. k == 0 || bit AccessFlag.all_nofounder k == 1) k powers_table l,
    )

unset : (f : ℕ) → has_flag f AccessFlag.founder ≡ false → bit f 0 ≡ 1 → ⊥
unset f e b = ground (arith, has_flag-bit f 0)

close_founder-IsClosed : (f : ℕ) → IsClosed (close_founder f)
unfolding close_founder
close_founder-IsClosed f = elim (Bool-cases (has_flag f AccessFlag.founder)) [
  | inl e ↦
      rw (e, close_founder)
        (λ _ k h l.
          omega (arith, bit-bit_or f AccessFlag.all_nofounder k, power k h l, bit-le-one f k))
  | inr e ↦ rw (e, close_founder) (λ b. absurd (unset f e b))
]

-- Whatever the changes are, the result is closed: who has founder has all its powers.
pub parse_flags-IsClosed :
    ⦃lib : Anope⦄ (s : Str) (allow_minus : Bool) (current : ℕ)
    → IsClosed (parse_flags s allow_minus current)
unfolding parse_flags
parse_flags-IsClosed s allow_minus current =
    close_founder-IsClosed (apply_tokens allow_minus (flag_tokens s) current)

-- No flag is lost.
abbrev pub Grows : ℕ → ℕ → Type 0
Grows f g = (k : ℕ) → bit f k ≡ 1 → bit g k ≡ 1

no_confusion : false ≡ true → ⊥
no_confusion e = cc

add_flags-Grows : (f m : ℕ) → Grows f (add_flags f m)
unfolding add_flags
add_flags-Grows f m k h = omega (arith, bit-bit_or f m k, bit-le-one m k)

close_founder-Grows : (f : ℕ) → Grows f (close_founder f)
unfolding close_founder
close_founder-Grows f k h = ground (arith, add_flags-Grows f AccessFlag.all_nofounder k)

letter_bit-lt : (c b : ℕ) → letter_bit c ≡ some b → b < 512
unfolding letter_bit
letter_bit-lt c b h = ground arith

late_word_bit-lt : (u : Str) (b : ℕ) → late_word_bit u ≡ some b → b < 512
unfolding late_word_bit
late_word_bit-lt u b h = ground arith

word_bit-lt : (u : Str) (b : ℕ) → word_bit u ≡ some b → b < 512
unfolding word_bit
word_bit-lt u b h = ground (arith, late_word_bit-lt u b)

token_bit-lt : (upper : Str → Str) (t : Str) (b : ℕ) → token_bit upper t ≡ some b → b < 512
unfolding token_bit
token_bit-lt upper [] b h = word_bit-lt (upper []) b h
token_bit-lt upper (c ∷ []) b h = letter_bit-lt c b h
token_bit-lt upper (c ∷ d ∷ t) b h = word_bit-lt (upper (c ∷ d ∷ t)) b h

-- A property of flags that each single change keeps holds after any number of changes.
module _ (P : ℕ → Type 0) (allow_minus : Bool)
    (adds : (f m : ℕ) → m < 512 → P f → P (add_flags f m))
    (removes : allow_minus ≡ true → (f m : ℕ) → P f → P (remove_flags f m))
    (clears : allow_minus ≡ true → P AccessFlag.none) where
  -- The direction is allowed.
  abbrev Allows : ℕ → Type 0
  Allows dir = (dir == b'-') ≡ true → allow_minus ≡ true

  apply_one-keeps :
      (upper : Str → Str) (t : Str) (dir f g : ℕ)
      → Allows dir
      → apply_one upper t dir f ≡ some g
      → P f
      → P g
  unfolding apply_one
  apply_one-keeps upper t dir f g ok e p = elim (Option-cases (token_bit upper t)) [
    | inl missing ↦ ground arith
    | inr (m, found) ↦ elim (Bool-cases (dir == b'-')) [
      | inl minus ↦ subst P (ground arith) (removes (ok minus) f m p)
      | inr plus ↦ subst P (ground arith) (adds f m (token_bit-lt upper t m found) p)
    ]
  ]

  apply_compact-keeps :
      (upper : Str → Str) (t : Str) (dir f : ℕ) → Allows dir → P f → P (apply_compact upper t dir f)
  unfolding apply_compact
  apply_compact-keeps upper [] dir f ok p = p
  apply_compact-keeps upper (c ∷ t) dir f ok p =
      apply_compact-keeps upper t dir _ ok
        (round (is_alpha c) (apply_one upper (c ∷ []) dir f) refl)
    where
      round :
          (alpha : Bool) (r : Option ℕ)
          → apply_one upper (c ∷ []) dir f ≡ r
          → P (if alpha then (elim r [ none ↦ f | some g ↦ g ]) else f)
      round false r e = p
      round true none e = p
      round true (some g) e = apply_one-keeps upper (c ∷ []) dir f g ok e p

  -- The three ends of `apply_signed`, where the direction is allowed.
  bare-keeps :
      (dir f : ℕ)
      → Allows dir
      → P f
      → P (if dir == b'-' then AccessFlag.none else add_flags f AccessFlag.all_nofounder)
  bare-keeps dir f ok p = elim (Bool-cases (dir == b'-')) [
    | inl e ↦ rw e (clears (ok e))
    | inr e ↦ rw e (adds f AccessFlag.all_nofounder (omega arith) p)
  ]

  long-keeps :
      (upper : Str → Str) (dir : ℕ) (t : Str) (f : ℕ)
      → Allows dir
      → P f
      → P (if ltb 1 (length t) then apply_compact upper t dir f else f)
  long-keeps upper dir t f ok p = elim (Bool-cases (ltb 1 (length t))) [
    | inl e ↦ rw e (apply_compact-keeps upper t dir f ok p)
    | inr e ↦ rw e p
  ]

  named-keeps :
      (upper : Str → Str) (dir : ℕ) (t : Str) (f : ℕ) (r : Option ℕ)
      → Allows dir
      → P f
      → apply_one upper t dir f ≡ r
      → P (elim r [
        | some g ↦ g
        | none ↦ if ltb 1 (length t) then apply_compact upper t dir f else f
      ])
  named-keeps upper dir t f (some g) ok p e = apply_one-keeps upper t dir f g ok e p
  named-keeps upper dir t f none ok p e = long-keeps upper dir t f ok p

  apply_signed-keeps :
      (upper : Str → Str) (dir : ℕ) (t : Str) (f : ℕ)
      → P f
      → P (apply_signed upper allow_minus dir t f)
  unfolding apply_signed
  apply_signed-keeps upper dir t f p = elim (Bool-cases (dir == b'-' && not allow_minus)) [
    | inl skip ↦ rw skip p
    | inr act ↦ rw act (elim (Bool-cases (is_empty t)) [
      | inl bare ↦ rw bare (bare-keeps dir f (λ m. ground arith) p)
      | inr named ↦ rw named (named-keeps upper dir t f _ (λ m. ground arith) p refl)
    ])
  ]

  apply_token-keeps :
      (upper : Str → Str) (t : Str) (f : ℕ) → P f → P (apply_token upper allow_minus t f)
  unfolding apply_token
  apply_token-keeps upper [] f p = p
  apply_token-keeps upper (c ∷ t) f p = elim (Bool-cases (c == b'+' || c == b'-')) [
    | inl e ↦ rw e (apply_signed-keeps upper c t f p)
    | inr e ↦ rw e (apply_signed-keeps upper b'+' (c ∷ t) f p)
  ]

  apply_tokens-keeps :
      ⦃lib : Anope⦄ (ts : List Str) (f : ℕ) → P f → P (apply_tokens allow_minus ts f)
  unfolding apply_tokens
  apply_tokens-keeps [] f p = p
  apply_tokens-keeps ⦃lib⦄ (t ∷ ts) f p =
      apply_tokens-keeps ts _ (apply_token-keeps lib.upper (lib.trim t) f p)

module _ ⦃lib : Anope⦄ where
  -- Without leave to take flags away, every flag that was set stays set.
  pub parse_flags-Grows : (s : Str) (current : ℕ) → Grows current (parse_flags s false current)
  unfolding parse_flags
  parse_flags-Grows s current k h = close_founder-Grows _ k (
      apply_tokens-keeps (Grows current) false (λ f m _ p j b. add_flags-Grows f m j (p j b))
        (λ e. absurd (no_confusion e)) (λ e. absurd (no_confusion e)) (flag_tokens s) current
        (λ j b. b) k h)

  -- Flags of the nine kinds stay so.
  pub parse_flags-lt :
      (s : Str) (allow_minus : Bool) (current : ℕ)
      → current < 512
      → parse_flags s allow_minus current < 512
  unfolding parse_flags close_founder add_flags remove_flags
  parse_flags-lt s allow_minus current h =
      close (apply_tokens allow_minus (flag_tokens s) current) (
        apply_tokens-keeps (λ f. f < 512) allow_minus (λ f m l p. bit_or-lt 9 f m p l)
          (λ _ f m p. omega (arith, bit_and-le f (2 ^ 32 - 1 - m))) (λ _. omega arith)
          (flag_tokens s) current h)
    where
      close : (f : ℕ) → f < 512 → close_founder f < 512
      close f p = ground (arith, bit_or-lt 9 f 254)
