-- ===== src/Bot/Shown.antt =====
-- The buttons that a screen shows and the policy that decides what they do.
use rotsy.Base.{
  ℕ, ◌≡◌, refl, ap, ◌∙◌, inl, inr, Bool, true, not, ◌&&◌, Option, some, List, Text, text, any,
  Option-cases, arith,
}
use rotsy.Projects.{
  User, ProjectMember, Answer, refused, done, ◌>>=◌, viewer, member, admin, role_rank, meets,
  get_membership, assert_project_access, assert_project_permission, projects_write,
  assert_can_manage_members, assert_can_run_analysis,
}
use rotsy.Projects.Policy.{is_done}
use rotsy.Bot.Handlers.{
  World, Shown, project_detail, members_list, repos_list, require_read, is_at_least, get_project,
  may_write, project_detail_of, members_list_of, repos_list_of,
}
use rotsy.Bot.Keyboards.{
  project_keyboard, members_keyboard, is_connected, repos_keyboard, offers, is_empty,
  project_keyboard-mm, members_keyboard-mc, members_keyboard-me, repos_keyboard-ra,
}

-- What the keyboards of the screens offer, and what the policy decides: the button that opens the
-- members of the project and the one that adds a member, by whoever may manage the members; the
-- buttons that run an analysis, by whoever may run one, where a repository of the page is connected; and
-- the button of a member, whoever looks.
abbrev pub ButtonsAgree : User → World → List (Option ℕ) → Bool → Shown → Type 0
ButtonsAgree user w repos more (done (project_detail p role can_manage, left)) =
    offers (text "mm") (project_keyboard p can_manage true)
    ≡ is_done (assert_can_manage_members user p w.db.members)
ButtonsAgree user w repos more (done (members_list p ids can_manage, left)) =
    (offers (text "mc") (members_keyboard p ids can_manage)
      ≡ is_done (assert_can_manage_members user p w.db.members))
    × (offers (text "me") (members_keyboard p ids can_manage) ≡ not (is_empty ids))
ButtonsAgree user w repos more (done (repos_list p page can_run, left)) =
    offers (text "ra") (repos_keyboard p repos page more can_run)
    ≡ is_done (assert_can_run_analysis user p w.db.members) && any is_connected repos
ButtonsAgree user w repos more _ = Unit

module _ (user : User) (w : World) (repos : List (Option ℕ)) (more : Bool) where
  -- The flag that is computed from the membership, where the access was granted.
  flag_of_membership :
      (p : ℕ) (rank : Text) (r : ℕ) (m : Option ProjectMember) (b : Bool)
      → role_rank rank ≡ some r
      → assert_project_access user p viewer w.db.members ≡ done m
      → is_at_least user rank m ≡ done b
      → b && may_write user
        ≡ is_done (assert_project_permission user p projects_write rank w.db.members)
  unfolding assert_project_access assert_project_permission is_at_least meets
  flag_of_membership p rank r m b k e q =
      elim (Option-cases (get_membership p user.id w.db.members)) [
        | inl n ↦ ground (arith, k, e, q, n)
        | inr (row, n) ↦ elim (Option-cases (role_rank row.project_role)) [
          | inl t ↦ ground (arith, k, e, q, n, t)
          | inr (rr, t) ↦ ground (arith, k, e, q, n, t)
        ]
      ]

  bind-ButtonsAgree :
      {A : Type 0} (m : Answer A) (f : A → Shown)
      → ((a : A) → m ≡ done a → ButtonsAgree user w repos more (f a))
      → ButtonsAgree user w repos more (m >>= f)
  bind-ButtonsAgree (refused why) f h = tt
  bind-ButtonsAgree (done a) f h = h a refl

  -- Where the screens of a project are shown, its Members button and the button that adds a member are
  -- offered exactly to whom the policy lets manage the members, and, where a repository on the page is
  -- connected to an analysis, a button that runs one exactly to whom the policy lets run it; the button
  -- of a member, which leads to the actions that manage it, is offered to everyone who sees the list.
  pub screens-ButtonsAgree :
      (p page : ℕ)
      → ButtonsAgree user w repos more (project_detail_of user p w)
        × ButtonsAgree user w repos more (members_list_of user p w)
        × ButtonsAgree user w repos more (repos_list_of user p page w)
  unfolding project_detail_of members_list_of repos_list_of assert_can_manage_members
      assert_can_run_analysis role_rank
  screens-ButtonsAgree p page = (
    bind-ButtonsAgree (require_read user) _ (λ a e.
        bind-ButtonsAgree (assert_project_access user p viewer w.db.members) _ (λ m f.
          bind-ButtonsAgree (get_project user p w) _ (λ a g.
            bind-ButtonsAgree (is_at_least user admin m) _ (λ b h.
              project_keyboard-mm p (b && may_write user) true
              ∙ flag_of_membership p admin 2 m b refl f h)))),
    bind-ButtonsAgree (require_read user) _ (λ a e.
        bind-ButtonsAgree (assert_project_access user p viewer w.db.members) _ (λ m f.
          bind-ButtonsAgree (is_at_least user admin m) _ (λ b h.
            bind-ButtonsAgree (get_project user p w) _ (λ a g. (
              members_keyboard-mc p _ (b && may_write user)
                  ∙ flag_of_membership p admin 2 m b refl f h,
              members_keyboard-me p _ (b && may_write user),
            ))))),
    bind-ButtonsAgree (require_read user) _ (λ a e.
        bind-ButtonsAgree (assert_project_access user p viewer w.db.members) _ (λ m f.
          bind-ButtonsAgree (is_at_least user member m) _ (λ b h.
            bind-ButtonsAgree (get_project user p w) _ (λ a g.
              repos_keyboard-ra p repos page more (b && may_write user)
              ∙ ap (λ t. t && any is_connected repos)
                  (flag_of_membership p member 1 m b refl f h))))),
  )
