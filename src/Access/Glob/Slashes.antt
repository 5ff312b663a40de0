-- ===== src/Access/Glob/Slashes.antt =====
-- Without `**` a pattern cannot reach into another path segment, and without any wildcard it is
-- the name itself.
use rotsy.Base.{
  ℕ, ◌+◌, ◌≡◌, refl, ◌∙◌, ◌≢◌, inl, inr, true, false, List, [], ◌∷◌, ◌++◌, Text, ◌==◌,
  if◌then◌else◌, All, arith, Bool-cases,
}
use rotsy.Access.Glob.{
  Piece, exactly, any_run, segment_run, segment_char, compile_pattern, both_stars, translate_char,
  matches, has_double_star,
}
use rotsy.Access.Glob.Denotes.{Denotes, InPiece, regex_match_iff}

-- The number of `/` in a name.
abbrev pub slashes : Text → ℕ
slashes [] = 0
slashes (c ∷ s) = (if c == b'/' then 1 else 0) + slashes s

slashes-append : (u v : Text) → slashes (u ++ v) ≡ slashes u + slashes v
slashes-append [] v = omega arith
slashes-append (c ∷ u) v = omega (arith, slashes-append u v)

slashes_none : (u : Text) → All (λ c. c ≢ b'/') u → slashes u ≡ 0
slashes_none [] h = refl
slashes_none (c ∷ u) (p, h) = ground (arith, slashes_none u h)

abbrev IsLocal : Piece → Type 0
IsLocal (exactly c) = Unit
IsLocal any_run = ⊥
IsLocal segment_run = Unit
IsLocal segment_char = Unit

abbrev piece_slashes : Piece → ℕ
piece_slashes (exactly c) = if c == b'/' then 1 else 0
piece_slashes _ = 0

abbrev sum_slashes : List Piece → ℕ
sum_slashes [] = 0
sum_slashes (p ∷ ps) = piece_slashes p + sum_slashes ps

InPiece-slashes : (p : Piece) (u : Text) → IsLocal p → InPiece p u → slashes u ≡ piece_slashes p
InPiece-slashes (exactly c) u l e = rw e (omega arith)
InPiece-slashes any_run u l e = absurd l
InPiece-slashes segment_run u l h = slashes_none u h
InPiece-slashes segment_char u l (c, e, n) = rw e (ground arith)

Denotes-slashes :
    (ps : List Piece) (v : Text) → All IsLocal ps → Denotes ps v → slashes v ≡ sum_slashes ps
Denotes-slashes [] v l e = rw e
Denotes-slashes (p ∷ ps) v (l, ls) (u, w, e, i, d) =
    rw (e, slashes-append u w) (omega (arith, InPiece-slashes p u l i, Denotes-slashes ps w ls d))

translate-IsLocal : (c : ℕ) → IsLocal (translate_char c)
translate-IsLocal c = ground arith

translate-slashes : (c : ℕ) → piece_slashes (translate_char c) ≡ (if c == b'/' then 1 else 0)
translate-slashes c = ground arith

compile-IsLocal : (p : Text) → has_double_star p ≡ false → All IsLocal (compile_pattern p)
unfolding has_double_star compile_pattern
compile-IsLocal [] h = tt
compile-IsLocal (c ∷ []) h = (translate-IsLocal c, tt)
compile-IsLocal (c ∷ d ∷ s) h = elim (Bool-cases (both_stars c d)) [
  | inl b ↦ ground arith
  | inr b ↦ rw b (translate-IsLocal c, compile-IsLocal (d ∷ s) (ground arith))
]

compile-slashes :
    (p : Text) → has_double_star p ≡ false → sum_slashes (compile_pattern p) ≡ slashes p
unfolding has_double_star compile_pattern
compile-slashes [] h = refl
compile-slashes (c ∷ []) h = omega (arith, translate-slashes c)
compile-slashes (c ∷ d ∷ s) h = elim (Bool-cases (both_stars c d)) [
  | inl b ↦ ground arith
  | inr b ↦ rw b (omega (arith, translate-slashes c, compile-slashes (d ∷ s) (ground arith)))
]

-- A pattern without `**` matches only names with as many slashes as the pattern itself.
pub matches-slashes :
    (pattern value : Text)
    → has_double_star pattern ≡ false
    → matches pattern value ≡ true
    → slashes value ≡ slashes pattern
unfolding matches
matches-slashes pattern value h m =
    let d = (regex_match_iff _ value).0 m in
    Denotes-slashes _ value (compile-IsLocal pattern h) d ∙ compile-slashes pattern h
