-- ===== src/Access/Glob/Readings.antt =====
-- `compile_pattern` reads a pattern greedily. Here the table of wildcards is a relation that lets
-- `**` be read as one wildcard or as two `*`, and the greedy reading is shown to lose nothing.
use rotsy.Base.{
  ℕ, ◌≡◌, refl, sym, ap, subst, ◌∙◌, ◌≢◌, ◌↔◌, inl, inr, true, false, List, [], ◌∷◌, ◌++◌, Text,
  ◌==◌, arith, Bool-cases,
}
use mathlib.Core.List.{append_assoc}
use rotsy.Access.Glob.{
  Piece, exactly, any_run, segment_run, segment_char, compile_pattern, both_stars, translate_char,
  matches,
}
use rotsy.Access.Glob.Denotes.{Denotes, regex_match_iff}

-- `Reads pattern pieces`: the pattern can be read as these pieces, by the table.
pub data Reads : Text → List Piece → Type 0 where
  done : Reads [] []
  plain :
      {c : ℕ} {s : Text} {ps : List Piece}
      → c ≢ b'*'
      → c ≢ b'?'
      → Reads s ps
      → Reads (c ∷ s) (exactly c ∷ ps)
  question :
      {c : ℕ} {s : Text} {ps : List Piece}
      → c ≡ b'?'
      → Reads s ps
      → Reads (c ∷ s) (segment_char ∷ ps)
  star :
      {c : ℕ} {s : Text} {ps : List Piece}
      → c ≡ b'*'
      → Reads s ps
      → Reads (c ∷ s) (segment_run ∷ ps)
  double_star :
      {c d : ℕ} {s : Text} {ps : List Piece}
      → c ≡ b'*'
      → d ≡ b'*'
      → Reads s ps
      → Reads (c ∷ d ∷ s) (any_run ∷ ps)

-- The three shapes of what `compile_pattern` returns.
compile-double :
    (c d : ℕ) (s : Text)
    → both_stars c d ≡ true
    → compile_pattern (c ∷ d ∷ s) ≡ any_run ∷ compile_pattern s
unfolding compile_pattern
compile-double c d s h = ground arith

compile-single :
    (c d : ℕ) (s : Text)
    → both_stars c d ≡ false
    → compile_pattern (c ∷ d ∷ s) ≡ translate_char c ∷ compile_pattern (d ∷ s)
unfolding compile_pattern
compile-single c d s h = ground arith

compile-ne_star :
    (c : ℕ) (s : Text) → c ≢ b'*' → compile_pattern (c ∷ s) ≡ translate_char c ∷ compile_pattern s
compile-ne_star c [] h = unfold compile_pattern in refl
compile-ne_star c (d ∷ s) h = compile-single c d s (ground arith)

translate-star : (c : ℕ) → c ≡ b'*' → translate_char c ≡ segment_run
translate-star c h = ground arith

Reads-translate :
    (c : ℕ) {s : Text} {ps : List Piece} → Reads s ps → Reads (c ∷ s) (translate_char c ∷ ps)
Reads-translate c {s} {ps} r = elim (Bool-cases (c == b'*')) [
  | inl e ↦ let q : c ≡ b'*' = ground arith in rw (translate-star c q) (star q r)
  | inr e ↦ elim (Bool-cases (c == b'?')) [
    | inl q ↦ rw (e, q) (question (ground arith) r)
    | inr q ↦ rw (e, q) (plain (ground arith) (ground arith) r)
  ]
]

compile-Reads : (p : Text) → Reads p (compile_pattern p)
compile-Reads [] = unfold compile_pattern in done
compile-Reads (c ∷ []) = unfold compile_pattern in Reads-translate c done
compile-Reads (c ∷ d ∷ s) = elim (Bool-cases (both_stars c d)) [
  | inl h ↦
      rw (compile-double c d s h) (double_star (ground arith) (ground arith) (compile-Reads s))
  | inr h ↦ rw (compile-single c d s h) (Reads-translate c (compile-Reads (d ∷ s)))
]

-- The language of the greedy reading.
abbrev InPattern : Text → Text → Type 0
InPattern p v = Denotes (compile_pattern p) v

-- A leading star adds at most a run in front, and may stand for nothing.
absorbed_nil :
    (c : ℕ) (v : Text) → InPattern (c ∷ []) v → c ≡ b'*' → Denotes (any_run ∷ compile_pattern []) v
unfolding compile_pattern
absorbed_nil c v h e =
    let (u, w, q, _, k) = subst (λ x. Denotes (x ∷ []) v) (translate-star c e) h in (u, w, q, tt, k)

skip_run :
    (c : ℕ) (ps : List Piece) (v : Text)
    → c ≡ b'*'
    → Denotes ps v
    → Denotes (translate_char c ∷ ps) v
skip_run c ps v e h = rw (translate-star c e) ([], v, refl, tt, h)

skipped_nil : (c : ℕ) (v : Text) → InPattern [] v → c ≡ b'*' → InPattern (c ∷ []) v
unfolding compile_pattern
skipped_nil c v h e = skip_run c [] v e h

mutual
  star_absorbed :
      (c : ℕ) (s v : Text)
      → c ≡ b'*'
      → InPattern (c ∷ s) v
      → Denotes (any_run ∷ compile_pattern s) v
  star_absorbed c [] v e h = absorbed_nil c v h e
  star_absorbed c (d ∷ s) v e h = elim (Bool-cases (both_stars c d)) [
    | inl b ↦
        let (u, w, q, _, k) = subst (λ ps. Denotes ps v) (compile-double c d s b) h in
        (u, w, q, tt, star_skipped d s w (ground arith) k)
    | inr b ↦
        let (u, w, q, _, k) = subst (λ ps. Denotes ps v) (compile-single c d s b) h in
        (u, w, q, tt, k)
  ]

  star_skipped : (c : ℕ) (s v : Text) → c ≡ b'*' → InPattern s v → InPattern (c ∷ s) v
  star_skipped c [] v e h = skipped_nil c v h e
  star_skipped c (d ∷ s) v e h = elim (Bool-cases (both_stars c d)) [
    | inl b ↦ rw (compile-double c d s b) (star_absorbed d s v (ground arith) h)
    | inr b ↦ rw (compile-single c d s b) (skip_run c (compile_pattern (d ∷ s)) v e h)
  ]

translate-question : (c : ℕ) → c ≡ b'?' → translate_char c ≡ segment_char
translate-question c h = ground arith

translate-plain : (c : ℕ) → c ≢ b'*' → c ≢ b'?' → translate_char c ≡ exactly c
translate-plain c h k = ground arith

-- A star that is read alone may be the first half of the `**` of the greedy reading.
star_single :
    (c : ℕ) (s v : Text)
    → c ≡ b'*'
    → Denotes (segment_run ∷ compile_pattern s) v
    → InPattern (c ∷ s) v
star_single c [] v e h = star_single_nil c v e h
  where
    star_single_nil :
        (a : ℕ) (t : Text)
        → a ≡ b'*'
        → Denotes (segment_run ∷ compile_pattern []) t
        → InPattern (a ∷ []) t
    star_single_nil a t q k = unfold compile_pattern in rw (translate-star a q) k
star_single c (d ∷ s) v e (u, w, q, i, k) = elim (Bool-cases (both_stars c d)) [
  | inl b ↦
      let (u', w', q', _, k') = star_absorbed d s w (ground arith) k in
      rw (compile-double c d s b)
        (u ++ u', w', q ∙ (ap (λ t. u ++ t) q' ∙ sym (append_assoc u u' w')), tt, k')
  | inr b ↦ rw (compile-single c d s b, translate-star c e) (u, w, q, i, k)
]

-- Whatever a reading of the pattern stands for, the greedy reading stands for too.
Reads-greedy : {p : Text} {ps : List Piece} → Reads p ps → (v : Text) → Denotes ps v → InPattern p v
Reads-greedy done v h = unfold compile_pattern in h
Reads-greedy (plain {c} {s} n m r) v (u, w, e, i, k) =
    rw (compile-ne_star c s n) (u, w, e, rw (translate-plain c n m) i, Reads-greedy r w k)
Reads-greedy (question {c} {s} q r) v (u, w, e, i, k) =
    rw (compile-ne_star c s (ground arith))
      (u, w, e, rw (translate-question c q) i, Reads-greedy r w k)
Reads-greedy (star {c} {s} q r) v (u, w, e, i, k) =
    star_single c s v q (u, w, e, i, Reads-greedy r w k)
Reads-greedy (double_star {c} {d} {s} q q' r) v (u, w, e, i, k) =
    rw (compile-double c d s (ground arith)) (u, w, e, tt, Reads-greedy r w k)

-- A name matches a pattern exactly when the pattern has a reading, by the documented table, that
-- stands for the whole name.
pub matches_iff_Reads :
    (pattern value : Text)
    → (matches pattern value ≡ true) ↔ ((ps : List Piece) × Reads pattern ps × Denotes ps value)
unfolding matches
matches_iff_Reads pattern value = (
  λ h. (compile_pattern pattern, compile-Reads pattern, (regex_match_iff _ value).0 h),
  λ w. (regex_match_iff _ value).1 (Reads-greedy w.1 value w.2),
)
