-- ===== src/Projects.antt =====
-- Who may do what to which project: backend/app/core/project_access.py and
-- backend/app/core/policy.py. The table of members is a list of rows. A request that is refused
-- leaves it as it was; the refusals are the HTTP statuses.
pub mod Members
pub mod Policy
pub mod Admins
pub mod Reachable
mod Tests
use rotsy.Base.{
  ℕ, zero, suc, ◌≡◌, Bool, true, false, not, ◌&&◌, ◌||◌, Option, none, some, List, [], ◌∷◌, ◌++◌,
  Text, text, text_eq, has_text, ltb, leb, ◌==◌, if◌then◌else◌, any, keep_if, length,
}

abbrev pub viewer : Text
viewer = text "viewer"

abbrev pub member : Text
member = text "member"

abbrev pub admin : Text
admin = text "admin"

-- `_ROLE_RANK.get(role)`
unfoldable pub role_rank : Text → Option ℕ
role_rank role =
    if text_eq role viewer
    then some 0
    else if text_eq role member
    then some 1
    else if text_eq role admin
    then some 2
    else none

unfoldable pub is_valid_project_role : Text → Bool
unfolding role_rank
is_valid_project_role role = elim (role_rank role) [ none ↦ false | some _ ↦ true ]

-- An unknown role ranks below all; an unknown minimum is a `KeyError`.
unfoldable pub meets : Text → Text → Option Bool
unfolding role_rank
meets role minimum = elim (role_rank minimum) [
  | none ↦ none
  | some m ↦ elim (role_rank role) [ none ↦ some false | some r ↦ some (leb m r) ]
]

pub record ProjectMember : Type 0 where
  pub id : ℕ
  pub project_id : ℕ
  pub user_id : ℕ
  pub project_role : Text

-- A user as a request resolves it, with the permissions that are attached.
pub record User : Type 0 where
  pub id : ℕ
  pub role_names : List Text
  pub permissions : List Text

pub data Refusal : Type 0 where
  forbidden not_found conflict bad_request : Refusal
  -- an exception that no handler expects: `KeyError` or `ValueError`
  raised : Refusal

pub data Answer (A : Type 0) : Type 0 where
  refused : Refusal → Answer A
  done : A → Answer A

infixl 5 ◌>>=◌ ◌>>◌
abbrev pub ◌>>=◌ : {A B : Type 0} → Answer A → (A → Answer B) → Answer B
refused why >>= f = refused why
done a >>= f = f a

abbrev pub ◌>>◌ : {A B : Type 0} → Answer A → Answer B → Answer B
m >> k = m >>= λ _. k

unfoldable pub is_global_admin : User → Bool
is_global_admin user = any (λ name. text_eq name admin) user.role_names

unfoldable pub get_membership : ℕ → ℕ → List ProjectMember → Option ProjectMember
get_membership project_id user_id [] = none
get_membership project_id user_id (m ∷ members) =
    if m.project_id == project_id && m.user_id == user_id
    then some m
    else get_membership project_id user_id members

-- `none` stands for every project.
unfoldable pub accessible_project_ids : User → List ProjectMember → Option (List ℕ)
unfolding is_global_admin
accessible_project_ids user members = if is_global_admin user then none else some (own members)
  where
    own : List ProjectMember → List ℕ
    own [] = []
    own (m ∷ rest) =
        let others = own rest in if m.user_id == user.id then m.project_id ∷ others else others

-- The membership of a user who is admitted, if there is one.
unfoldable pub assert_project_access :
    User → ℕ → Text → List ProjectMember → Answer (Option ProjectMember)
unfolding is_global_admin get_membership meets
assert_project_access user project_id min_role members =
    let membership = get_membership project_id user.id members in
    if is_global_admin user then done membership else elim membership [
      | none ↦ refused forbidden
      | some m ↦ elim (meets m.project_role min_role) [
        | none ↦ refused raised
        | some true ↦ done (some m)
        | some false ↦ refused forbidden
      ]
    ]

-- `require_project_access`: the factory raises on an unknown role.
unfoldable pub require_project_access :
    User → ℕ → Text → List ℕ → List ProjectMember → Answer (Option ProjectMember)
unfolding is_valid_project_role assert_project_access
require_project_access user project_id min_role projects members =
    if is_valid_project_role min_role
    then (if any (λ id. id == project_id) projects
        then assert_project_access user project_id min_role members
        else refused not_found)
    else refused raised

-- `assert_project_permission`
unfoldable pub assert_project_permission :
    User → ℕ → Text → Text → List ProjectMember → Answer (Option ProjectMember)
unfolding assert_project_access
assert_project_permission user project_id permission project_role members =
    if has_text permission user.permissions
    then assert_project_access user project_id project_role members
    else refused forbidden

abbrev pub projects_read : Text
projects_read = text "projects:read"

abbrev pub projects_write : Text
projects_write = text "projects:write"

module _ (user : User) (project_id : ℕ) (members : List ProjectMember) where
  unfoldable pub assert_can_view_project : Answer (Option ProjectMember)
  unfolding assert_project_permission
  assert_can_view_project = assert_project_permission user project_id projects_read viewer members

  unfoldable pub assert_can_manage_project : Answer (Option ProjectMember)
  unfolding assert_project_permission
  assert_can_manage_project =
      assert_project_permission user project_id projects_write member members

  unfoldable pub assert_can_manage_members : Answer (Option ProjectMember)
  unfolding assert_project_permission
  assert_can_manage_members = assert_project_permission user project_id projects_write admin members

  unfoldable pub assert_can_run_analysis : Answer (Option ProjectMember)
  unfolding assert_project_permission
  assert_can_run_analysis = assert_project_permission user project_id projects_write member members
