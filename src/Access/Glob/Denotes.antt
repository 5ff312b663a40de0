-- ===== src/Access/Glob/Denotes.antt =====
-- The language of a pattern, as the table in the module's docstring gives it, and the proof that
-- the backtracking matcher decides it.
use rotsy.Base.{
  ℕ, ◌≡◌, refl, ap, ◌≢◌, ◌↔◌, inl, inr, Bool, true, List, [], ◌∷◌, ◌++◌, Text, All, arith,
  Bool-cases,
}
use rotsy.Access.Glob.{
  Piece, exactly, any_run, segment_run, segment_char, not_slash, run_match, regex_match,
}

-- What one piece stands for, as a set of texts.
abbrev pub InPiece : Piece → Text → Type 0
InPiece (exactly c) u = u ≡ c ∷ []
InPiece any_run u = Unit
InPiece segment_run u = All (λ c. c ≢ b'/') u
InPiece segment_char u = (c : ℕ) × (u ≡ c ∷ []) × (c ≢ b'/')

-- A sequence of pieces stands for the concatenations of what they stand for.
abbrev pub Denotes : List Piece → Text → Type 0
Denotes [] s = s ≡ []
Denotes (p ∷ ps) s = (u v : Text) × (s ≡ u ++ v) × InPiece p u × Denotes ps v

-- `run_match` finds a split if there is one, where the run passes the test throughout.
module _ (ok : ℕ → Bool) (rest : Text → Bool) where
  run_match_sound :
      (s : Text)
      → run_match ok rest s ≡ true
      → (u v : Text) × (s ≡ u ++ v) × All (λ c. ok c ≡ true) u × (rest v ≡ true)
  unfolding run_match
  run_match_sound [] h = ([], [], refl, tt, h)
  run_match_sound (c ∷ s) h = elim (Bool-cases (rest (c ∷ s))) [
    | inl now ↦ ([], c ∷ s, refl, tt, now)
    | inr later ↦
        let (u, v, e, passed, hit) = run_match_sound s (ground arith) in
        (c ∷ u, v, ap (λ t. c ∷ t) e, (ground arith, passed), hit)
  ]

  run_match_complete :
      (u v : Text) → All (λ c. ok c ≡ true) u → rest v ≡ true → run_match ok rest (u ++ v) ≡ true
  unfolding run_match
  run_match_complete [] [] h hit = hit
  run_match_complete [] (c ∷ v) h hit = rw hit
  run_match_complete (c ∷ u) v (p, h) hit = ground (arith, run_match_complete u v h hit)

slash_passes : (u : Text) → All (λ c. not_slash c ≡ true) u → All (λ c. c ≢ b'/') u
slash_passes [] h = tt
slash_passes (c ∷ u) (p, h) = (ground arith, slash_passes u h)

no_slash_passes : (u : Text) → All (λ c. c ≢ b'/') u → All (λ c. not_slash c ≡ true) u
no_slash_passes [] h = tt
no_slash_passes (c ∷ u) (p, h) = (ground arith, no_slash_passes u h)

All-pass : (u : Text) → All (λ c. true ≡ true) u
All-pass [] = tt
All-pass (c ∷ u) = (refl, All-pass u)

regex_match_sound : (ps : List Piece) (s : Text) → regex_match ps s ≡ true → Denotes ps s
unfolding regex_match
regex_match_sound [] [] h = refl
regex_match_sound [] (c ∷ s) h = cc
regex_match_sound (exactly x ∷ ps) [] h = cc
regex_match_sound (exactly x ∷ ps) (c ∷ s) h =
    (c ∷ [], s, refl, ground arith, regex_match_sound ps s (ground arith))
regex_match_sound (any_run ∷ ps) s h =
    let (u, v, e, _, hit) = run_match_sound (λ c. true) (regex_match ps) s h in
    (u, v, e, tt, regex_match_sound ps v hit)
regex_match_sound (segment_run ∷ ps) s h =
    let (u, v, e, passed, hit) = run_match_sound not_slash (regex_match ps) s h in
    (u, v, e, slash_passes u passed, regex_match_sound ps v hit)
regex_match_sound (segment_char ∷ ps) [] h = cc
regex_match_sound (segment_char ∷ ps) (c ∷ s) h =
    (c ∷ [], s, refl, (c, refl, ground arith), regex_match_sound ps s (ground arith))

regex_match_complete : (ps : List Piece) (s : Text) → Denotes ps s → regex_match ps s ≡ true
unfolding regex_match
regex_match_complete [] s e = rw e
regex_match_complete (exactly x ∷ ps) s (u, v, e, p, d) =
    rw (e, p) (ground (arith, regex_match_complete ps v d))
regex_match_complete (any_run ∷ ps) s (u, v, e, p, d) =
    rw e (
      run_match_complete (λ c. true) (regex_match ps) u v (All-pass u)
        (regex_match_complete ps v d))
regex_match_complete (segment_run ∷ ps) s (u, v, e, p, d) = rw e (
    run_match_complete not_slash (regex_match ps) u v (no_slash_passes u p)
      (regex_match_complete ps v d))
regex_match_complete (segment_char ∷ ps) s (u, v, e, (c, q, n), d) =
    rw (e, q) (ground (arith, regex_match_complete ps v d))

pub regex_match_iff : (ps : List Piece) (s : Text) → (regex_match ps s ≡ true) ↔ Denotes ps s
regex_match_iff ps s = (regex_match_sound ps s, regex_match_complete ps s)
