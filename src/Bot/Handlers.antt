-- ===== src/Bot/Handlers.antt =====
-- What the buttons do: the handlers of dispatcher.py over the tables, with the screen that each shows.
-- Of a screen are kept what is shown of which project and what decides its buttons (Bot/Keyboards); texts,
-- names and the rows of lists are not. `run_repository_analysis` is that of
-- backend/app/services/analysis.py, to which the rate limit, the cache and the head of the repository
-- are given.
mod Tables
unfoldable pub use Tables.*
use rotsy.Base.{
  ℕ, ◌+◌, ◌*◌, Bool, true, false, not, ◌&&◌, Option, none, some, List, [], ◌∷◌, ◌++◌, Text, text,
  has_text, ltb, any, keep_if, length, drop, take, map, ◌==◌, if◌then◌else◌,
}
use rotsy.Projects.{
  User, ProjectMember, forbidden, not_found, raised, Answer, refused, done, ◌>>=◌, ◌>>◌,
  is_global_admin, get_membership, accessible_project_ids, assert_project_access, meets, viewer,
  member, admin, projects_read, projects_write, assert_can_manage_members, assert_can_run_analysis,
}
use rotsy.Projects.Members.{Db, add_member, update_member_role, remove_member}

module _ (user : User) where
  -- `_require_read`
  unfoldable pub require_read : Answer (Unit {0})
  require_read = if has_text projects_read user.permissions then done tt else refused forbidden

  -- `_require_admin`
  unfoldable pub require_admin : Answer (Unit {0})
  require_admin = if has_text system_execute user.permissions then done tt else refused forbidden

  -- `is_global_admin(user) or (membership is not None and meets(membership.project_role, role))`; the
  -- call raises on an unknown minimum.
  unfoldable pub is_at_least : Text → Option ProjectMember → Answer Bool
  unfolding is_global_admin meets
  is_at_least minimum membership = if is_global_admin user then done true else elim membership [
    | none ↦ done false
    | some m ↦ elim (meets m.project_role minimum) [ none ↦ refused raised | some b ↦ done b ]
  ]

  abbrev pub may_write : Bool
  may_write = has_text projects_write user.permissions

  abbrev pub is_panel_admin : Bool
  is_panel_admin = has_text system_execute user.permissions

  -- `get_project`
  unfoldable pub get_project : ℕ → World → Answer (Unit {0})
  get_project project_id w = check_row (has_row project_id w.db.projects)

  -- The projects of `list_projects`, in the order of the table.
  unfoldable pub visible_projects : World → List ℕ
  unfolding accessible_project_ids
  visible_projects w = elim (accessible_project_ids user w.db.members) [
    | none ↦ w.db.projects
    | some ids ↦ keep_if (λ p. has_row p ids) w.db.projects
  ]

  abbrev pub project_row : World → ℕ → ℕ × Option Text
  project_row w p = (p, role_of (get_membership p user.id w.db.members))

  -- The menu where the page is empty, or the page.
  abbrev pub projects_screen : ℕ → World → List ℕ → List ℕ → Screen
  projects_screen page w all [] = no_projects is_panel_admin
  projects_screen page w all (p ∷ ps) =
      projects_list (map (project_row w) (p ∷ ps)) page (has_more page all)

  unfoldable pub projects_list_of : ℕ → World → Shown
  unfolding get_membership
  projects_list_of page w =
      let all = visible_projects w in
      require_read >> done (projects_screen page w all (page_of page all), w)

  unfoldable pub project_detail_of : ℕ → World → Shown
  project_detail_of project_id w = do
    require_read
    membership ← assert_project_access user project_id viewer w.db.members
    get_project project_id w
    is_admin ← is_at_least admin membership
    done (project_detail project_id (role_of membership) (is_admin && may_write), w)

  unfoldable pub members_list_of : ℕ → World → Shown
  members_list_of project_id w = do
    require_read
    membership ← assert_project_access user project_id viewer w.db.members
    is_admin ← is_at_least admin membership
    get_project project_id w
    done (
      members_list project_id
          (map (λ (m : ProjectMember). m.id)
            (keep_if (λ (m : ProjectMember). m.project_id == project_id) w.db.members))
          (is_admin && may_write),
      w,
    )

  -- `_require_project_admin_write`
  abbrev pub require_project_admin_write : ℕ → World → Answer (Option ProjectMember)
  require_project_admin_write project_id w = assert_can_manage_members user project_id w.db.members

  unfoldable pub candidates_list_of : ℕ → ℕ → World → Shown
  candidates_list_of project_id page w = do
    require_project_admin_write project_id w
    get_project project_id w
    done (candidates project_id page, w)

  unfoldable pub pick_candidate : ℕ → ℕ → World → Shown
  pick_candidate project_id target_user_id w = do
    require_project_admin_write project_id w
    check_row (has_row target_user_id w.db.users)
    done (role_picker (text "mr") project_id target_user_id, w)

  unfoldable pub confirm_add : ℕ → ℕ → Text → World → Shown
  confirm_add project_id target_user_id role w = do
    require_project_admin_write project_id w
    db ← add_member project_id target_user_id role w.db
    done (success (text "mm"), record w { db = db })

  unfoldable pub show_member_actions : ℕ → ℕ → World → Shown
  show_member_actions project_id member_id w =
      require_project_admin_write project_id w >> done (member_actions project_id member_id, w)

  unfoldable pub role_picker_for_existing : ℕ → ℕ → World → Shown
  role_picker_for_existing project_id member_id w =
      require_project_admin_write project_id w
      >> done (role_picker (text "mu") project_id member_id, w)

  unfoldable pub change_role : ℕ → ℕ → Text → World → Shown
  change_role project_id member_id role w = do
    require_project_admin_write project_id w
    db ← update_member_role project_id member_id role w.db
    done (success (text "mm"), record w { db = db })

  unfoldable pub confirm_remove_prompt : ℕ → ℕ → World → Shown
  confirm_remove_prompt project_id member_id w =
      require_project_admin_write project_id w >> done (confirm_remove project_id member_id, w)

  unfoldable pub do_remove : ℕ → ℕ → World → Shown
  do_remove project_id member_id w = do
    require_project_admin_write project_id w
    db ← remove_member project_id member_id w.db
    done (success (text "mm"), record w { db = db })

  unfoldable pub repos_list_of : ℕ → ℕ → World → Shown
  repos_list_of project_id page w = do
    require_read
    membership ← assert_project_access user project_id viewer w.db.members
    is_member ← is_at_least member membership
    get_project project_id w
    done (repos_list project_id page (is_member && may_write), w)

  -- `run_repository_analysis`: whether the limit and the cache let it pass, and whether the head of
  -- the repository is found, are given.
  unfoldable pub run_repository_analysis : Bool → Bool → ℕ → World → Answer World
  run_repository_analysis allowed has_head sonar_project_id w = do
    sp ← or_404 (find_sonar sonar_project_id w.sonar_projects)
    assert_can_run_analysis user sp.project_id w.db.members
    if allowed && has_head then done tt else refused raised
    done (record w {
      analyses =
          w.analyses
          ++ (record { project_id = sp.project_id; sonar_project_id = sp.id; by = user.id } ∷ []);
    })

  unfoldable pub run_analysis : Bool → Bool → ℕ → World → Shown
  run_analysis allowed has_head sonar_project_id w = do
    or_404 (find_sonar sonar_project_id w.sonar_projects)
    after ← run_repository_analysis allowed has_head sonar_project_id w
    done (success (text "pr"), after)

  unfoldable pub admin_home_of : World → Shown
  admin_home_of w = require_admin >> done (admin_home (length w.links), w)

  -- `_admin_links_list`; the links of accounts that are there.
  unfoldable pub admin_links_list_of : ℕ → World → Shown
  admin_links_list_of page w =
      require_admin
      >> let rows = keep_if (λ (link : Link). has_row link.user_id w.db.users) w.links in
        done (
          admin_links (map (λ (link : Link). link.id) (page_of page rows)) page
              (has_more page rows),
          w,
        )

  unfoldable pub admin_unlink_prompt : ℕ → World → Shown
  admin_unlink_prompt link_id w = do
    require_admin
    or_404 (find_link link_id w.links)
    done (confirm_unlink link_id, w)

  unfoldable pub admin_unlink_confirmed : ℕ → World → Shown
  admin_unlink_confirmed link_id w =
      require_admin
      >> done (success (text "adl"), record w { links = delete_link_row link_id w.links })

  unfoldable pub show_main_menu : World → Shown
  show_main_menu w = done (main_menu is_panel_admin, w)
