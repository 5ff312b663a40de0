-- ===== src/Projects/Admins.antt =====
-- Every project has an admin, through creation, deletion and the membership operations.
use rotsy.Base.{
  ℕ, ◌+◌, ◌≤◌, ◌≡◌, refl, inl, inr, Bool, false, not, ◌&&◌, some, List, [], ◌∷◌, ◌++◌, Text,
  text_eq, ◌==◌, if◌then◌else◌, keep_if, length, arith, Bool-cases,
}
use rotsy.Projects.{ProjectMember, admin}
use rotsy.Projects.Members.{get_row, is_other_admin, set_role, delete_row}

abbrev pub is_admin_of : ℕ → ProjectMember → Bool
is_admin_of project_id m = m.project_id == project_id && text_eq m.project_role admin

-- The number of admins of a project.
abbrev pub admins : ℕ → List ProjectMember → ℕ
admins project_id [] = 0
admins project_id (m ∷ members) =
    (if is_admin_of project_id m then 1 else 0) + admins project_id members

pub admins-append :
    (p : ℕ) (members : List ProjectMember) (row : ProjectMember)
    → admins p (members ++ row ∷ []) ≡ admins p members + (if is_admin_of p row then 1 else 0)
admins-append p [] row = ground arith
admins-append p (m ∷ members) row = ground (arith, admins-append p members row)

pub admins-delete_project :
    (p gone : ℕ) (members : List ProjectMember)
    → (p == gone) ≡ false
    → admins p (keep_if (λ (m : ProjectMember). not (m.project_id == gone)) members)
      ≡ admins p members
admins-delete_project p gone [] h = refl
admins-delete_project p gone (m ∷ members) h =
    ground (arith, h, admins-delete_project p gone members h)

pub get_row-id :
    (id : ℕ) (members : List ProjectMember) (m : ProjectMember)
    → get_row id members ≡ some m
    → m.id ≡ id
unfolding get_row
get_row-id id [] m h = cc
get_row-id id (x ∷ members) m h = elim (Bool-cases (x.id == id)) [
  | inl e ↦ ground (arith, e, h)
  | inr e ↦ ground (arith, e, get_row-id id members m)
]

unfoldable pub others : ℕ → ℕ → List ProjectMember → ℕ
others p exclude members = length (keep_if (is_other_admin p exclude) members)

-- A change of one row keeps the admins with other ids, and the rest where that row was none.
module _ (p id : ℕ) where
  others-admins : (members : List ProjectMember) → others p id members ≤ admins p members
  unfolding others
  others-admins [] = ground arith
  others-admins (m ∷ members) = ground (arith, others-admins members)

  pub others-set_role :
      (role : Text) (members : List ProjectMember)
      → others p id members ≤ admins p (set_role id role members)
  unfolding set_role others
  others-set_role role [] = ground arith
  others-set_role role (m ∷ members) =
      ground (arith, others-set_role role members, others-admins members)

  pub others-delete_row :
      (members : List ProjectMember) → others p id members ≤ admins p (delete_row id members)
  unfolding delete_row others
  others-delete_row [] = ground arith
  others-delete_row (m ∷ members) = ground (arith, others-delete_row members, others-admins members)

  pub admins-set_role :
      (role : Text) (members : List ProjectMember) (m : ProjectMember)
      → get_row id members ≡ some m
      → (is_admin_of p m && not (text_eq role admin)) ≡ false
      → admins p members ≤ admins p (set_role id role members)
  unfolding set_role get_row
  admins-set_role role [] m h k = cc
  admins-set_role role (x ∷ members) m h k = elim (Bool-cases (x.id == id)) [
    | inl e ↦ let same : some x ≡ some m = ground (arith, e, h) in ground (arith, e, k, same)
    | inr e ↦ ground (arith, e, admins-set_role role members m)
  ]

  pub admins-delete_row :
      (members : List ProjectMember) (m : ProjectMember)
      → get_row id members ≡ some m
      → is_admin_of p m ≡ false
      → admins p members ≤ admins p (delete_row id members)
  unfolding delete_row get_row
  admins-delete_row [] m h k = cc
  admins-delete_row (x ∷ members) m h k = elim (Bool-cases (x.id == id)) [
    | inl e ↦ let same : some x ≡ some m = ground (arith, e, h) in ground (arith, e, k, same)
    | inr e ↦ ground (arith, e, admins-delete_row members m)
  ]
