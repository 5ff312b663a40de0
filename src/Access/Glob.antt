-- ===== src/Access/Glob.antt =====
-- Ant-style patterns: `compile_pattern`, `matches` and `is_universal` of
-- backend/app/core/access_control.py. The regular expression that the source builds holds four
-- kinds of piece, which are the constructors of `Piece`; `regex_match` is the anchored match of
-- such an expression, with the `s` flag, by backtracking.
pub mod Denotes
pub mod Readings
pub mod Universal
pub mod Slashes
use rotsy.Base.{
  ℕ, Bool, true, false, not, ◌&&◌, ◌||◌, List, [], ◌∷◌, Text, ◌==◌, if◌then◌else◌, all,
}

pub data Piece : Type 0 where
  -- `re.escape` of one character
  exactly : ℕ → Piece
  -- `.*`
  any_run : Piece
  -- `[^/]*`
  segment_run : Piece
  -- `[^/]`
  segment_char : Piece

abbrev pub not_slash : ℕ → Bool
not_slash c = not (c == b'/')

-- `_TRANSLATION` for one character that is not half of a `**`, or the character itself.
abbrev pub translate_char : ℕ → Piece
translate_char c = if c == b'*' then segment_run else if c == b'?' then segment_char else exactly c

abbrev pub both_stars : ℕ → ℕ → Bool
both_stars c d = c == b'*' && d == b'*'

-- The loop of `compile_pattern`: `_WILDCARD.finditer` takes `**` before `*`, left to right.
unfoldable pub compile_pattern : Text → List Piece
compile_pattern [] = []
compile_pattern (c ∷ []) = translate_char c ∷ []
compile_pattern (c ∷ d ∷ s) =
    let double = any_run ∷ compile_pattern s in
    let single = translate_char c ∷ compile_pattern (d ∷ s) in
    if both_stars c d then double else single

-- A run of characters that pass `ok`, of any length, before what `rest` matches.
unfoldable pub run_match : (ℕ → Bool) → (Text → Bool) → Text → Bool
run_match ok rest [] = rest []
run_match ok rest (c ∷ s) = rest (c ∷ s) || (ok c && run_match ok rest s)

unfoldable pub regex_match : List Piece → Text → Bool
unfolding run_match
regex_match [] [] = true
regex_match [] (c ∷ s) = false
regex_match (exactly x ∷ ps) [] = false
regex_match (exactly x ∷ ps) (c ∷ s) = c == x && regex_match ps s
regex_match (any_run ∷ ps) s = run_match (λ c. true) (regex_match ps) s
regex_match (segment_run ∷ ps) s = run_match not_slash (regex_match ps) s
regex_match (segment_char ∷ ps) [] = false
regex_match (segment_char ∷ ps) (c ∷ s) = not_slash c && regex_match ps s

unfoldable pub matches : Text → Text → Bool
matches pattern value = regex_match (compile_pattern pattern) value

abbrev pub is_star : ℕ → Bool
is_star c = c == b'*'

-- `"**" in pattern`
unfoldable pub has_double_star : Text → Bool
has_double_star [] = false
has_double_star (c ∷ []) = false
has_double_star (c ∷ d ∷ s) = both_stars c d || has_double_star (d ∷ s)

-- `bool(pattern) and set(pattern) == {"*"} and "**" in pattern`: once the pattern has a
-- character, the set is `{"*"}` when every character is a star.
unfoldable pub is_universal : Text → Bool
unfolding has_double_star
is_universal [] = false
is_universal (c ∷ s) = all is_star (c ∷ s) && has_double_star (c ∷ s)
