-- ===== src/Tests/Ascii.antt =====
-- Anope's text functions on ASCII, as an instance of what GroupServ takes from Anope.
use anope_mods_contrib.Base.{
  ℕ, zero, suc, ◌+◌, ◌*◌, ◌-◌, ◌≡◌, refl, ap, ◌∙◌, Bool, true, false, ◌&&◌, ◌||◌, ◌==◌, Option,
  none, some, List, [], ◌∷◌, ◌++◌, Str, codes, map, leb, length, if◌then◌else◌, arith,
}
use anope_mods_contrib.Base.Order.{text_order, ◌=?◌}
use anope_mods_contrib.Anope.{Anope, IsTextual, ascii_upper, is_word}

abbrev ascii_lower : ℕ → ℕ
ascii_lower c = if leb b'A' c && leb c b'Z' then c + 32 else c

abbrev trim_left : Str → Str
trim_left [] = []
trim_left (c ∷ s) = let rest = trim_left s in if leb c b' ' then rest else c ∷ s

abbrev trim_right : Str → Str
trim_right [] = []
trim_right (c ∷ s) = elim (trim_right s) [
  | [] ↦ if leb c b' ' then [] else c ∷ []
  | d ∷ r ↦ c ∷ d ∷ r
]

-- A token in front of the ones behind it, where it is not empty.
abbrev push : Str → List Str → List Str
push [] ts = ts
push (c ∷ s) ts = (c ∷ s) ∷ ts

-- The token that is open at the front, and the closed ones behind it.
abbrev split : ℕ → Str → Str × List Str
split sep [] = ([], [])
split sep (c ∷ s) =
    let (open_token, tokens) = split sep s in
    if c == sep then ([], push open_token tokens) else (c ∷ open_token, tokens)

abbrev tokens_of : Str → ℕ → List Str
tokens_of s sep = push (split sep s).0 (split sep s).1

abbrev read_digits : Str → ℕ → Option ℕ
read_digits [] n = some n
read_digits (c ∷ s) n =
    let rest = read_digits s (n * 10 + (c - b'0')) in
    if leb b'0' c && leb c b'9' then rest else none

abbrev starts_with : Str → Str → Bool
starts_with [] s = true
starts_with (p ∷ ps) [] = false
starts_with (p ∷ ps) (c ∷ s) = p == c && starts_with ps s

-- `n` characters of a match are still to be passed over.
abbrev replace_from : ℕ → Str → Str → Str → Str
replace_from n [] pat by = []
replace_from (suc n) (c ∷ s) pat by = replace_from n s pat by
replace_from zero (c ∷ s) pat by =
    let matched = replace_from (length pat - 1) s pat by in
    let rest = replace_from zero s pat by in
    if starts_with pat (c ∷ s) then by ++ matched else c ∷ rest

abbrev pub ascii : Anope
ascii = record {
  trim = λ s. trim_right (trim_left s);
  lower = map ascii_lower;
  upper = map ascii_upper;
  equals_ci = λ s t. map ascii_upper s =? map ascii_upper t;
  get_tokens = tokens_of;
  convert = λ s. elim s [ [] ↦ none | c ∷ r ↦ read_digits (c ∷ r) 0 ];
  replace_all_cs = λ s pat by. replace_from 0 s pat by;
  wildcard = λ s mask. mask =? codes "*" || s =? mask;
}

trim_right_word : (w : Str) → is_word w ≡ true → trim_right w ≡ w
trim_right_word [] h = refl
trim_right_word (c ∷ []) h = ground (arith, h)
trim_right_word (c ∷ d ∷ s) h = ground (arith, h, trim_right_word (d ∷ s))

trim_left_word : (w : Str) → is_word w ≡ true → trim_left w ≡ w
trim_left_word [] h = refl
trim_left_word (c ∷ []) h = ground (arith, h)
trim_left_word (c ∷ d ∷ s) h = ground (arith, h)

split_word : (w : Str) → is_word w ≡ true → split b' ' w ≡ (w, [])
split_word [] h = refl
split_word (c ∷ []) h = ground (arith, h)
split_word (c ∷ d ∷ s) h = ground (arith, h, split_word (d ∷ s))

tokens_word : (w : Str) → is_word w ≡ true → tokens_of w b' ' ≡ w ∷ []
tokens_word w h = ap (λ (p : Str × List Str). push p.0 p.1) (split_word w h) ∙ one w h
  where
    one : (w : Str) → is_word w ≡ true → push w [] ≡ w ∷ []
    one [] h = absurd (ground (arith, h))
    one (c ∷ s) h = refl

pub ascii-IsTextual : IsTextual ascii
ascii-IsTextual = record {
  trim_word = λ w h. ap trim_right (trim_left_word w h) ∙ trim_right_word w h;
  tokens_word = tokens_word;
  upper_ascii = λ s. refl;
  equals_ascii = λ s t. refl;
}
