-- ===== src/GroupServ/Text.antt =====
-- EscapeValue, UnescapeValue, NormalizeKey, DropChallengeKey, IsValidGroupName and ParseHostMask.
pub mod Escape
use anope_mods_contrib.Base.{
  ℕ, suc, ◌≤◌, Bool, true, false, not, ◌&&◌, ◌||◌, Option, none, some, List, [], ◌∷◌, ◌++◌, Str,
  codes, leb, ltb, ◌==◌, if◌then◌else◌, length,
}
use anope_mods_contrib.Anope.{Anope}

abbrev pub newline : ℕ
newline = 10

abbrev pub carriage_return : ℕ
carriage_return = 13

abbrev pub backslash : ℕ
backslash = 92

abbrev pub bar : ℕ
bar = 124

abbrev pub is_empty : Str → Bool
is_empty [] = true
is_empty (c ∷ s) = false

escape_char : ℕ → Str
escape_char ch =
    if ch == backslash
    then backslash ∷ backslash ∷ []
    else if ch == newline
    then backslash ∷ b'n' ∷ []
    else if ch == carriage_return
    then []
    else if ch == bar
    then backslash ∷ bar ∷ []
    else ch ∷ []

unfoldable pub escape_value : Str → Str
unfolding escape_char
escape_value [] = []
escape_value (ch ∷ s) = escape_char ch ++ escape_value s

unescape_char : ℕ → ℕ
unescape_char next = if next == b'n' then newline else next

unfoldable pub unescape_value : Str → Str
unfolding unescape_char
unescape_value [] = []
unescape_value (ch ∷ []) = ch ∷ []
unescape_value (ch ∷ next ∷ s) =
    let escaped = unescape_char next ∷ unescape_value s in
    let plain = ch ∷ unescape_value (next ∷ s) in if ch == backslash then escaped else plain

-- `isalpha` and `isalnum` in the C locale.
unfoldable pub is_alpha : ℕ → Bool
is_alpha c = (leb b'A' c && leb c b'Z') || (leb b'a' c && leb c b'z')

unfoldable pub is_alnum : ℕ → Bool
unfolding is_alpha
is_alnum c = is_alpha c || (leb b'0' c && leb c b'9')

is_name_char : ℕ → Bool
unfolding is_alnum
is_name_char c = is_alnum c || c == b'_' || c == b'-'

all_name_chars : Str → Bool
unfolding is_name_char
all_name_chars [] = true
all_name_chars (c ∷ s) = is_name_char c && all_name_chars s

starts_group : Str → Bool
unfolding all_name_chars
starts_group [] = false
starts_group (c ∷ s) = c == b'!' && all_name_chars s

unfoldable pub is_valid_group_name : Str → Bool
unfolding starts_group
is_valid_group_name name =
    if ltb (length name) 2 || ltb 32 (length name) then false else starts_group name

-- The text before and behind the first `c`: `find`, then two calls of `substr`.
unfoldable pub split_first : ℕ → Str → Option (Str × Str)
split_first c [] = none
split_first c (d ∷ s) =
    let rest = split_first c s in
    if d == c then some ([], s) else elim rest [ none ↦ none | some (a, b) ↦ some (d ∷ a, b) ]

unfoldable pub contains : ℕ → Str → Bool
contains c [] = false
contains c (d ∷ s) = d == c || contains c s

module _ ⦃lib : Anope⦄ where
  unfoldable pub normalize_key : Str → Str
  normalize_key s = lib.lower (lib.trim s)

  unfoldable pub drop_challenge_key : Str → Str → Str
  drop_challenge_key account group = normalize_key account ++ bar ∷ normalize_key group

  -- The user, empty without an `@`, and the host; `none` is a mask that is refused.
  unfoldable pub parse_host_mask : Str → Option (Str × Str)
  unfolding contains split_first
  parse_host_mask rawhostmask =
      let raw = lib.trim rawhostmask in
      let parts : Str × Str = elim (split_first b'@' raw) [ none ↦ ([], raw) | some p ↦ p ] in
      if is_empty raw
      then none
      else if contains b' ' raw
      then none
      else if is_empty parts.1
      then none
      else some parts
