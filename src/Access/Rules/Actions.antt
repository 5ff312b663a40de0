-- ===== src/Access/Rules/Actions.antt =====
-- The stored form of a set of actions.
use rotsy.Base.{
  ◌≡◌, refl, inl, inr, Bool, true, some, List, [], ◌∷◌, Text, keep_if, keep_if_congr, has_text,
  arith, text, text_eq_iff, join_with, Bool-cases,
}
use rotsy.Access.Rules.{read, scan, delete, actions, parse_actions, format_actions}

has-keep_if :
    (p : Text → Bool) (a : Text) (xs : List Text)
    → p a ≡ true
    → has_text a (keep_if p xs) ≡ has_text a xs
has-keep_if p a [] h = refl
has-keep_if p a (x ∷ xs) h = ground (arith, has-keep_if p a xs, text_eq_iff a x)

stored :
    (p : Text → Bool)
    → parse_actions (some (join_with (text ",") (keep_if p actions))) ≡ keep_if p actions
unfolding parse_actions join_with
stored p = elim (Bool-cases (p read)) [
  | inl a ↦ elim (Bool-cases (p scan)) [
    | inl b ↦ elim (Bool-cases (p delete)) [ inl c ↦ rw (a, b, c) | inr c ↦ rw (a, b, c) ]
    | inr b ↦ elim (Bool-cases (p delete)) [ inl c ↦ rw (a, b, c) | inr c ↦ rw (a, b, c) ]
  ]
  | inr a ↦ elim (Bool-cases (p scan)) [
    | inl b ↦ elim (Bool-cases (p delete)) [ inl c ↦ rw (a, b, c) | inr c ↦ rw (a, b, c) ]
    | inr b ↦ elim (Bool-cases (p delete)) [ inl c ↦ rw (a, b, c) | inr c ↦ rw (a, b, c) ]
  ]
]

kept_known :
    (given : List Text)
    → keep_if (λ a. has_text a (keep_if (λ b. has_text b actions) given)) actions
      ≡ keep_if (λ a. has_text a given) actions
kept_known given =
    let known = λ (b : Text). has_text b actions in
    keep_if_congr (λ x. has_text x (keep_if known given)) (λ x. has_text x given) actions
      (
        has-keep_if known read given refl,
        (has-keep_if known scan given refl, (has-keep_if known delete given refl, tt)),
      )

-- Reading back what was written gives the known actions of the set, in order of danger.
pub parse-format :
    (given : List Text)
    → parse_actions (some (format_actions given)) ≡ keep_if (λ a. has_text a given) actions
unfolding format_actions
parse-format given = rw (kept_known given) (stored (λ a. has_text a given))
