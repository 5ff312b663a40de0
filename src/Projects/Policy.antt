-- ===== src/Projects/Policy.antt =====
-- The double gate of a project action: the permission and the membership.
use rotsy.Base.{
  ℕ, ◌≡◌, ◌↔◌, ◌⊎◌, inl, inr, Bool, true, false, Option, none, some, List, Text, has_text, leb,
  arith, Option-cases,
}
use rotsy.Projects.{
  User, ProjectMember, Answer, refused, done, role_rank, meets, is_global_admin, get_membership,
  assert_project_access, assert_project_permission,
}

abbrev pub is_done : {A : Type 0} → Answer A → Bool
is_done (refused why) = false
is_done (done a) = true

-- The user's rank in the project reaches a rank.
abbrev pub reaches : ℕ → Option ProjectMember → Bool
reaches rank none = false
reaches rank (some m) = elim (role_rank m.project_role) [ none ↦ false | some r ↦ leb rank r ]

-- For a known minimum role, an action is permitted exactly when the user holds its permission and
-- is a global admin or a member of the project of at least that rank.
pub assert_project_permission_iff :
    (user : User) (project_id : ℕ) (permission minimum : Text) (rank : ℕ)
    (members : List ProjectMember)
    → role_rank minimum ≡ some rank
    → (is_done (assert_project_permission user project_id permission minimum members) ≡ true) ↔ (
        (has_text permission user.permissions ≡ true)
        × ((is_global_admin user ≡ true)
            ⊎ (reaches rank (get_membership project_id user.id members) ≡ true)))
unfolding assert_project_permission assert_project_access meets
assert_project_permission_iff user project_id permission minimum rank members h =
    elim (Option-cases (get_membership project_id user.id members)) [
      | inl e ↦ (λ k. ground (arith, e, h), λ k. ground (arith, e, h))
      | inr (m, e) ↦ elim (Option-cases (role_rank m.project_role)) [
        | inl q ↦ (λ k. ground (arith, e, h, q), λ k. ground (arith, e, h, q))
        | inr (r, q) ↦ (λ k. ground (arith, e, h, q), λ k. ground (arith, e, h, q))
      ]
    ]
