-- ===== src/Access/Glob/Universal.antt =====
-- `is_universal` recognises exactly the patterns that match every name.
use rotsy.Base.{ℕ, ◌≡◌, refl, ◌↔◌, Bool, true, List, [], ◌∷◌, Text, text, all, arith}
use rotsy.Access.Glob.{
  Piece, any_run, compile_pattern, regex_match, run_match, matches, is_universal, has_double_star,
  is_star,
}

abbrev MatchesAll : List Piece → Type 0
MatchesAll ps = (v : Text) → regex_match ps v ≡ true

-- A run in front may stand for nothing.
run-MatchesAll :
    (ok : ℕ → Bool) (ps : List Piece) (v : Text)
    → regex_match ps v ≡ true
    → run_match ok (regex_match ps) v ≡ true
unfolding run_match
run-MatchesAll ok ps [] h = h
run-MatchesAll ok ps (c ∷ v) h = ground arith

-- A free run before pieces that match the empty text matches anything.
any_run-MatchesAll : (ps : List Piece) → regex_match ps [] ≡ true → MatchesAll (any_run ∷ ps)
unfolding regex_match
any_run-MatchesAll ps h [] = h
any_run-MatchesAll ps h (c ∷ v) = ground (arith, any_run-MatchesAll ps h v)

-- Stars alone match the empty text.
stars_match_nil : (p : Text) → all is_star p ≡ true → regex_match (compile_pattern p) [] ≡ true
unfolding compile_pattern regex_match
stars_match_nil [] h = refl
stars_match_nil (c ∷ []) h = ground arith
stars_match_nil (c ∷ d ∷ s) h = ground (arith, stars_match_nil s, stars_match_nil (d ∷ s))

universal_sound :
    (p : Text) → all is_star p ≡ true → has_double_star p ≡ true → MatchesAll (compile_pattern p)
unfolding has_double_star compile_pattern
universal_sound [] h k v = cc
universal_sound (c ∷ []) h k v = cc
universal_sound (c ∷ d ∷ s) h k v =
    ground (arith, any_run-MatchesAll (compile_pattern s) (stars_match_nil s (ground arith)) v)

-- A pattern that matches the empty name is stars alone.
stars_of_match_nil : (p : Text) → regex_match (compile_pattern p) [] ≡ true → all is_star p ≡ true
unfolding compile_pattern regex_match
stars_of_match_nil [] h = refl
stars_of_match_nil (c ∷ []) h = ground arith
stars_of_match_nil (c ∷ d ∷ s) h = ground (arith, stars_of_match_nil s, stars_of_match_nil (d ∷ s))

-- Stars with no two side by side do not match "/".
double_of_match_slash :
    (p : Text)
    → all is_star p ≡ true
    → regex_match (compile_pattern p) (text "/") ≡ true
    → has_double_star p ≡ true
unfolding compile_pattern regex_match has_double_star
double_of_match_slash [] a h = cc
double_of_match_slash (c ∷ []) a h = ground arith
double_of_match_slash (c ∷ d ∷ s) a h = ground arith

-- A pattern is universal exactly when every name matches it.
pub is_universal_iff :
    (p : Text) → (is_universal p ≡ true) ↔ ((value : Text) → matches p value ≡ true)
unfolding is_universal matches
is_universal_iff [] = (λ h. cc, λ h. unfold compile_pattern regex_match in cc (h (text "/")))
is_universal_iff (c ∷ s) = (
  λ h v. universal_sound (c ∷ s) (ground arith) (ground arith) v,
  λ h.
      let stars = stars_of_match_nil (c ∷ s) (h []) in
      ground (arith, double_of_match_slash (c ∷ s) stars (h (text "/"))),
)
