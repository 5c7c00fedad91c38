-- ===== src/GroupServ/Text/Escape.antt =====
-- EscapeValue and UnescapeValue as an encoding of one line of the database.
use anope_mods_contrib.Base.{
  ℕ, ◌≡◌, refl, sym, ap, ◌≢◌, ◌∙◌, [], ◌∷◌, Str, arith, ◌==◌, All, keep_if, not,
}
use anope_mods_contrib.GroupServ.Text.{
  newline, carriage_return, backslash, escape_value, unescape_value,
}

-- The text less its carriage returns.
abbrev pub without_cr : Str → Str
without_cr = keep_if (λ c. not (c == carriage_return))

unescape_plain : (c : ℕ) (s : Str) → c ≢ backslash → unescape_value (c ∷ s) ≡ c ∷ unescape_value s
unfolding unescape_value
unescape_plain c [] h = refl
unescape_plain c (d ∷ s) h = ground arith

-- Reading back what was written gives the text less its carriage returns.
pub unescape_value-escape_value : (s : Str) → unescape_value (escape_value s) ≡ without_cr s
unfolding escape_value unescape_value
unescape_value-escape_value [] = refl
unescape_value-escape_value (c ∷ s) =
    ground (arith, unescape_value-escape_value s, unescape_plain c (escape_value s))

-- A character that neither ends a line nor is lost.
abbrev pub FitsLine : ℕ → Type 0
FitsLine c = (c ≢ newline) × (c ≢ carriage_return)

-- What is written stays on one line.
pub escape_value-FitsLine : (s : Str) → All FitsLine (escape_value s)
unfolding escape_value
escape_value-FitsLine [] = tt
escape_value-FitsLine (c ∷ s) = ground (arith, escape_value-FitsLine s)

without_cr-id : (s : Str) → All FitsLine s → without_cr s ≡ s
without_cr-id [] h = refl
without_cr-id (c ∷ s) h = ground (arith, without_cr-id s h.1)

-- Two texts without carriage returns that are written alike are one.
pub escape_value_injective :
    (s t : Str) → All FitsLine s → All FitsLine t → escape_value s ≡ escape_value t → s ≡ t
escape_value_injective s t h k e =
    sym (without_cr-id s h)
    ∙ sym (unescape_value-escape_value s)
    ∙ ap unescape_value e
    ∙ unescape_value-escape_value t
    ∙ without_cr-id t k
