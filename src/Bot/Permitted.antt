-- ===== src/Bot/Permitted.antt =====
-- What a tap may change, and who may.
mod Changes
pub use Changes.*
use rotsy.Base.{
  ℕ, ◌≡◌, refl, sym, subst, Bool, true, ◌&&◌, Option, [], ◌∷◌, ◌++◌, Text, has_text, if◌then◌else◌,
  All, arith,
}
use rotsy.Projects.{
  User, ProjectMember, Answer, refused, done, raised, ◌>>=◌, viewer, member, admin,
  assert_project_access, assert_can_manage_members, assert_can_run_analysis,
}
use rotsy.Projects.Policy.{is_done}
use rotsy.Projects.Members.{Db, add_member, update_member_role, remove_member}
use rotsy.Projects.Reachable.{Request, create, delete, add, update, remove, handle}
use rotsy.Bot.Handlers.{
  Analysis, World, Shown, SonarProject, find_sonar, find_link, delete_link_row, has_row, or_404,
  check_row, system_execute, require_read, require_admin, is_at_least, get_project,
  projects_list_of, project_detail_of, members_list_of, candidates_list_of, pick_candidate,
  confirm_add, show_member_actions, role_picker_for_existing, change_role, confirm_remove_prompt,
  do_remove, repos_list_of, run_repository_analysis, run_analysis, admin_home_of,
  admin_links_list_of, admin_unlink_prompt, admin_unlink_confirmed, show_main_menu,
}
use rotsy.Bot.Dispatch.{Handler, plain, with_id, with_ids, with_role, handlers}

module _ (user : User) (w : World) where
  bind-IfShown :
      {A : Type 0} (m : Answer A) (f : A → Shown)
      → ((a : A) → m ≡ done a → IfShown user w (f a))
      → IfShown user w (m >>= f)
  bind-IfShown (refused why) f h = tt
  bind-IfShown (done a) f h = h a refl

  is_done-done : {A : Type 0} (m : Answer A) (a : A) → m ≡ done a → is_done m ≡ true
  is_done-done m a e = subst (λ x. is_done x ≡ true) (sym e) refl

  projects_list-IfShown : (page : ℕ) → IfShown user w (projects_list_of user page w)
  unfolding projects_list_of
  projects_list-IfShown page = bind-IfShown (require_read user) _ (λ a e. unchanged)

  project_detail-IfShown : (project_id : ℕ) → IfShown user w (project_detail_of user project_id w)
  unfolding project_detail_of
  project_detail-IfShown project_id = bind-IfShown (require_read user) _ (λ a e.
      bind-IfShown (assert_project_access user project_id viewer w.db.members) _ (λ m e.
        bind-IfShown (get_project user project_id w) _
          (λ a e. bind-IfShown (is_at_least user admin m) _ (λ b e. unchanged))))

  members_list-IfShown : (project_id : ℕ) → IfShown user w (members_list_of user project_id w)
  unfolding members_list_of
  members_list-IfShown project_id = bind-IfShown (require_read user) _ (λ a e.
      bind-IfShown (assert_project_access user project_id viewer w.db.members) _ (λ m e.
        bind-IfShown (is_at_least user admin m) _
          (λ b e. bind-IfShown (get_project user project_id w) _ (λ a e. unchanged))))

  repos_list-IfShown : (project_id page : ℕ) → IfShown user w (repos_list_of user project_id page w)
  unfolding repos_list_of
  repos_list-IfShown project_id page = bind-IfShown (require_read user) _ (λ a e.
      bind-IfShown (assert_project_access user project_id viewer w.db.members) _ (λ m e.
        bind-IfShown (is_at_least user member m) _
          (λ b e. bind-IfShown (get_project user project_id w) _ (λ a e. unchanged))))

  -- What follows the check that the user may manage the members of the project.
  manage-IfShown :
      (project_id : ℕ) (f : Option ProjectMember → Shown)
      → ((m : Option ProjectMember)
          → is_done (assert_can_manage_members user project_id w.db.members) ≡ true
          → IfShown user w (f m))
      → IfShown user w (assert_can_manage_members user project_id w.db.members >>= f)
  manage-IfShown project_id f h =
      bind-IfShown (assert_can_manage_members user project_id w.db.members) f
        (λ m e. h m (is_done-done (assert_can_manage_members user project_id w.db.members) m e))

  candidates-IfShown :
      (project_id page : ℕ) → IfShown user w (candidates_list_of user project_id page w)
  unfolding candidates_list_of
  candidates-IfShown project_id page =
      manage-IfShown project_id _
        (λ m e. bind-IfShown (get_project user project_id w) _ (λ a e. unchanged))

  pick_candidate-IfShown :
      (project_id id : ℕ) → IfShown user w (pick_candidate user project_id id w)
  unfolding pick_candidate
  pick_candidate-IfShown project_id id =
      manage-IfShown project_id _
        (λ m e. bind-IfShown (check_row (has_row id w.db.users)) _ (λ a e. unchanged))

  confirm_add-IfShown :
      (project_id id : ℕ) (role : Text) → IfShown user w (confirm_add user project_id id role w)
  unfolding confirm_add handle
  confirm_add-IfShown project_id id role = manage-IfShown project_id _ (λ m e.
      bind-IfShown (add_member project_id id role w.db) _
        (λ db f. managed project_id (add project_id id role) db e refl f))

  change_role-IfShown :
      (project_id id : ℕ) (role : Text) → IfShown user w (change_role user project_id id role w)
  unfolding change_role handle
  change_role-IfShown project_id id role = manage-IfShown project_id _ (λ m e.
      bind-IfShown (update_member_role project_id id role w.db) _
        (λ db f. managed project_id (update project_id id role) db e refl f))

  do_remove-IfShown : (project_id id : ℕ) → IfShown user w (do_remove user project_id id w)
  unfolding do_remove handle
  do_remove-IfShown project_id id = manage-IfShown project_id _ (λ m e.
      bind-IfShown (remove_member project_id id w.db) _
        (λ db f. managed project_id (remove project_id id) db e refl f))

  -- The tables after an analysis is queued are permitted.
  abbrev IfQueued : Answer World → Type 0
  IfQueued (refused why) = Unit
  IfQueued (done after) = Permitted user w after

  bind-IfQueued :
      {A : Type 0} (m : Answer A) (f : A → Answer World)
      → ((a : A) → m ≡ done a → IfQueued (f a))
      → IfQueued (m >>= f)
  bind-IfQueued (refused why) f h = tt
  bind-IfQueued (done a) f h = h a refl

  analysis-IfQueued :
      (allowed has_head : Bool) (id : ℕ)
      → IfQueued (run_repository_analysis user allowed has_head id w)
  unfolding run_repository_analysis
  analysis-IfQueued allowed has_head id =
      bind-IfQueued (or_404 (find_sonar id w.sonar_projects)) _ (λ sp e.
        bind-IfQueued (assert_can_run_analysis user sp.project_id w.db.members) _ (λ m e.
          bind-IfQueued (if allowed && has_head then done tt else refused raised) _ (λ a f.
            analysed sp
              (is_done-done (assert_can_run_analysis user sp.project_id w.db.members) m e))))

  run_analysis-IfShown :
      (allowed has_head : Bool) (id : ℕ) → IfShown user w (run_analysis user allowed has_head id w)
  unfolding run_analysis
  run_analysis-IfShown allowed has_head id =
      bind-IfShown (or_404 (find_sonar id w.sonar_projects)) _ (λ sp e.
        bind-IfShown (run_repository_analysis user allowed has_head id w) _
          (λ after f. subst IfQueued f (analysis-IfQueued allowed has_head id)))

  require_admin-may :
      (a : Unit) → require_admin user ≡ done a → has_text system_execute user.permissions ≡ true
  unfolding require_admin
  require_admin-may a e = ground (arith, e)

  unlink-IfShown : (id : ℕ) → IfShown user w (admin_unlink_confirmed user id w)
  unfolding admin_unlink_confirmed
  unlink-IfShown id =
      bind-IfShown (require_admin user) _ (λ a e. unlinked id (require_admin-may a e))

  member_actions-IfShown :
      (project_id id : ℕ) → IfShown user w (show_member_actions user project_id id w)
  unfolding show_member_actions
  member_actions-IfShown project_id id = manage-IfShown project_id _ (λ m e. unchanged)

  role_picker-IfShown :
      (project_id id : ℕ) → IfShown user w (role_picker_for_existing user project_id id w)
  unfolding role_picker_for_existing
  role_picker-IfShown project_id id = manage-IfShown project_id _ (λ m e. unchanged)

  remove_prompt-IfShown :
      (project_id id : ℕ) → IfShown user w (confirm_remove_prompt user project_id id w)
  unfolding confirm_remove_prompt
  remove_prompt-IfShown project_id id = manage-IfShown project_id _ (λ m e. unchanged)

  admin_home-IfShown : IfShown user w (admin_home_of user w)
  unfolding admin_home_of
  admin_home-IfShown = bind-IfShown (require_admin user) _ (λ a e. unchanged)

  admin_links-IfShown : (page : ℕ) → IfShown user w (admin_links_list_of user page w)
  unfolding admin_links_list_of
  admin_links-IfShown page = bind-IfShown (require_admin user) _ (λ a e. unchanged)

  unlink_prompt-IfShown : (id : ℕ) → IfShown user w (admin_unlink_prompt user id w)
  unfolding admin_unlink_prompt
  unlink_prompt-IfShown id =
      bind-IfShown (require_admin user) _
        (λ a e. bind-IfShown (or_404 (find_link id w.links)) _ (λ link f. unchanged))

  main_menu-IfShown : IfShown user w (show_main_menu user w)
  unfolding show_main_menu
  main_menu-IfShown = unchanged

  -- Whatever arguments a handler is given, what it leaves is permitted.
  abbrev pub IsSafe : Handler → Type 0
  IsSafe (plain f) = IfShown user w (f w)
  IsSafe (with_id f) = (a : ℕ) → IfShown user w (f a w)
  IsSafe (with_ids f) = (a b : ℕ) → IfShown user w (f a b w)
  IsSafe (with_role f) = (a b : ℕ) (role : Text) → IfShown user w (f a b role w)

  pub handlers-IsSafe :
      (allowed has_head : Bool)
      → All (λ (e : Text × Handler). IsSafe e.1) (handlers user allowed has_head)
  handlers-IsSafe allowed has_head = (
    projects_list-IfShown,
    (
      project_detail-IfShown,
      (
        members_list-IfShown,
        (
          candidates-IfShown,
          (
            pick_candidate-IfShown,
            (
              confirm_add-IfShown,
              (
                member_actions-IfShown,
                (
                  role_picker-IfShown,
                  (
                    change_role-IfShown,
                    (
                      remove_prompt-IfShown,
                      (
                        do_remove-IfShown,
                        (
                          repos_list-IfShown,
                          (
                            run_analysis-IfShown allowed has_head,
                            (
                              main_menu-IfShown,
                              (
                                admin_home-IfShown,
                                (
                                  admin_links-IfShown,
                                  (unlink_prompt-IfShown, (unlink-IfShown, tt)),
                                ),
                              ),
                            ),
                          ),
                        ),
                      ),
                    ),
                  ),
                ),
              ),
            ),
          ),
        ),
      ),
    ),
  )
