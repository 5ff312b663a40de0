-- ===== src/Scanners/Highest.antt =====
-- The score of a finding is the highest of the scores that its report gives.
use rotsy.Base.{ℕ, max, ◌≡◌, ◌≤◌, ◌⊎◌, Option, List, [], ◌∷◌, ◌++◌, All, Any}
use rotsy.Scanners.Reports.{
  Score, absent, number, unreadable, Vendor, not_a_dict, vendor_scores, TrivyEntry, or_empty,
  GrypeScore, or_score, GrypeMatch,
}

-- The numbers that are read of a score.
abbrev readable : Score → List ℕ
readable absent = []
readable (number n) = n ∷ []
readable unreadable = []

abbrev vendor_numbers : List Vendor → List ℕ
vendor_numbers [] = []
vendor_numbers (not_a_dict ∷ vendors) = vendor_numbers vendors
vendor_numbers (vendor_scores v3 v2 ∷ vendors) =
    readable v3 ++ (readable v2 ++ vendor_numbers vendors)

-- The readable scores that Trivy's report gives an entry.
abbrev pub trivy_scores : TrivyEntry → List ℕ
trivy_scores entry = vendor_numbers (or_empty entry.cvss)

abbrev score_numbers : List GrypeScore → List ℕ
score_numbers [] = []
score_numbers (s ∷ scores) = readable (or_score s.base_score s.score) ++ score_numbers scores

abbrev related_numbers : List (Option (List GrypeScore)) → List ℕ
related_numbers [] = []
related_numbers (related ∷ rest) = score_numbers (or_empty related) ++ related_numbers rest

-- The readable scores of Grype's related vulnerabilities, the base score first where there is one.
abbrev pub grype_scores : GrypeMatch → List ℕ
grype_scores found = related_numbers (or_empty found.related_vulnerabilities)

-- The number is at least each of the list, and one of them unless it is 0.
abbrev pub IsHighest : ℕ → List ℕ → Type 0
IsHighest n ns = All (λ m. m ≤ n) ns × ((n ≡ 0) ⊎ Any (λ m. n ≡ m) ns)

abbrev max_from : ℕ → List ℕ → ℕ
max_from best [] = best
max_from best (n ∷ ns) = max_from (max best n) ns
