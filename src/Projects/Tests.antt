-- ===== src/Projects/Tests.antt =====
-- The theorems about projects on a small table, and what deleting a user leaves.
use rotsy.Base.{ℕ, ◌≡◌, refl, ◌↔◌, ◌⊎◌, true, List, [], ◌∷◌, Text, has_text, arith}
use rotsy.Projects.{
  User, ProjectMember, done, role_rank, is_global_admin, get_membership, assert_project_permission,
  projects_write, member, admin, viewer,
}
use rotsy.Projects.Members.{
  Db, delete_user, update_member_role, get_member_or_404, assert_not_last_admin, get_row, set_role,
}
use rotsy.Projects.Policy.{is_done, reaches, assert_project_permission_iff}
use rotsy.Projects.Admins.{admins}
use rotsy.Projects.Reachable.{Reaches, here, after, handle, update, HasAdmins, Reaches-HasAdmins}

abbrev ada : User
ada = record { id = 1; role_names = []; permissions = projects_write ∷ [] }

abbrev row : ℕ → ℕ → Text → ProjectMember
row id user_id project_role = record {
  id = id;
  project_id = 8;
  user_id = user_id;
  project_role = project_role;
}

abbrev tables : List ProjectMember → Db
tables members = record {
  projects = 8 ∷ [];
  users = 1 ∷ 2 ∷ [];
  members = members;
  next_id = 5;
  next_project = 9;
}

abbrev before : Db
before = tables (row 3 1 admin ∷ row 4 2 admin ∷ [])

abbrev demoted : Db
demoted = tables (row 3 1 viewer ∷ row 4 2 admin ∷ [])

assert_project_permission_iff_example :
    (is_done (assert_project_permission ada 8 projects_write member before.members) ≡ true) ↔ (
      (has_text projects_write ada.permissions ≡ true)
      × ((is_global_admin ada ≡ true) ⊎ (reaches 1 (get_membership 8 1 before.members) ≡ true)))
unfolding role_rank
assert_project_permission_iff_example =
    assert_project_permission_iff ada 8 projects_write member 1 before.members refl

demotion : Reaches before demoted
unfolding handle update_member_role get_member_or_404 assert_not_last_admin get_row set_role
demotion = after here (update 8 3 viewer) refl

Reaches-HasAdmins_example : HasAdmins demoted
Reaches-HasAdmins_example = Reaches-HasAdmins before demoted demotion (omega arith, tt)

-- Deleting the user who is the only admin leaves the project without one.
orphaned :
    delete_user 2 demoted ≡ done (record demoted { users = 1 ∷ []; members = row 3 1 viewer ∷ [] })
unfolding delete_user
orphaned = refl

no_admin_left : admins 8 (row 3 1 viewer ∷ []) ≡ 0
no_admin_left = refl
