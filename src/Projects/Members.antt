-- ===== src/Projects/Members.antt =====
-- The operations on projects and memberships: backend/app/core/projects.py, and `delete_user` of
-- backend/app/routers/users.py. The tables are lists of rows.
use rotsy.Base.{
  ℕ, suc, Bool, not, ◌&&◌, Option, none, some, List, [], ◌∷◌, ◌++◌, Text, text_eq, ◌==◌,
  if◌then◌else◌, any, keep_if, length,
}
use rotsy.Projects.{
  admin, ProjectMember, User, not_found, conflict, bad_request, Answer, refused, done, ◌>>=◌, ◌>>◌,
  get_membership,
}

pub record Db : Type 0 where
  pub projects : List ℕ
  pub users : List ℕ
  pub members : List ProjectMember
  pub next_id : ℕ
  pub next_project : ℕ

-- The creator becomes an admin of the new project.
unfoldable pub create_project : User → Db → Db
create_project creator db =
    let row : ProjectMember = record {
      id = db.next_id;
      project_id = db.next_project;
      user_id = creator.id;
      project_role = admin;
    } in
    record db {
      projects = db.projects ++ db.next_project ∷ [];
      members = db.members ++ row ∷ [];
      next_id = suc db.next_id;
      next_project = suc db.next_project;
    }

-- The memberships go with their project, by the cascade of the foreign key.
unfoldable pub delete_project : ℕ → Db → Answer Db
delete_project project_id db =
    if any (λ id. id == project_id) db.projects
    then done (record db {
      projects = keep_if (λ id. not (id == project_id)) db.projects;
      members = keep_if (λ (m : ProjectMember). not (m.project_id == project_id)) db.members;
    })
    else refused not_found

-- `delete_user` of backend/app/routers/users.py: the memberships go by the same cascade.
unfoldable pub delete_user : ℕ → Db → Answer Db
delete_user user_id db =
    if any (λ id. id == user_id) db.users
    then done (record db {
      users = keep_if (λ id. not (id == user_id)) db.users;
      members = keep_if (λ (m : ProjectMember). not (m.user_id == user_id)) db.members;
    })
    else refused not_found

-- `session.get(ProjectMember, id)`
unfoldable pub get_row : ℕ → List ProjectMember → Option ProjectMember
get_row id [] = none
get_row id (m ∷ members) = if m.id == id then some m else get_row id members

unfoldable pub get_member_or_404 : ℕ → ℕ → Db → Answer ProjectMember
unfolding get_row
get_member_or_404 project_id member_id db = elim (get_row member_id db.members) [
  | none ↦ refused not_found
  | some m ↦ if m.project_id == project_id then done m else refused not_found
]

-- The rows that `_assert_not_last_admin` counts.
abbrev pub is_other_admin : ℕ → ℕ → ProjectMember → Bool
is_other_admin project_id exclude m =
    m.project_id == project_id && text_eq m.project_role admin && not (m.id == exclude)

unfoldable pub assert_not_last_admin : ℕ → ℕ → Db → Answer (Unit {0})
assert_not_last_admin project_id exclude db =
    if length (keep_if (is_other_admin project_id exclude) db.members) == 0
    then refused bad_request
    else done tt

unfoldable pub add_member : ℕ → ℕ → Text → Db → Answer Db
unfolding get_membership
add_member project_id user_id project_role db =
    if any (λ id. id == project_id) db.projects
    then (if any (λ id. id == user_id) db.users
        then elim (get_membership project_id user_id db.members) [
          | some _ ↦ refused conflict
          | none ↦
              let row : ProjectMember = record {
                id = db.next_id;
                project_id = project_id;
                user_id = user_id;
                project_role = project_role;
              } in
              done (record db { members = db.members ++ row ∷ []; next_id = suc db.next_id })
        ]
        else refused not_found)
    else refused not_found

-- `member.project_role = …` on the row of that id.
unfoldable pub set_role : ℕ → Text → List ProjectMember → List ProjectMember
set_role id role [] = []
set_role id role (m ∷ members) =
    if m.id == id then record m { project_role = role } ∷ members else m ∷ set_role id role members

unfoldable pub delete_row : ℕ → List ProjectMember → List ProjectMember
delete_row id [] = []
delete_row id (m ∷ members) = if m.id == id then members else m ∷ delete_row id members

unfoldable pub update_member_role : ℕ → ℕ → Text → Db → Answer Db
unfolding get_member_or_404 assert_not_last_admin set_role
update_member_role project_id member_id project_role db = do
  m ← get_member_or_404 project_id member_id db
  if text_eq m.project_role admin && not (text_eq project_role admin)
      then assert_not_last_admin project_id m.id db
      else done tt
  done (record db { members = set_role m.id project_role db.members })

unfoldable pub remove_member : ℕ → ℕ → Db → Answer Db
unfolding get_member_or_404 assert_not_last_admin delete_row
remove_member project_id member_id db = do
  m ← get_member_or_404 project_id member_id db
  if text_eq m.project_role admin then assert_not_last_admin project_id m.id db else done tt
  done (record db { members = delete_row m.id db.members })
