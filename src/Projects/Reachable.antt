-- ===== src/Projects/Reachable.antt =====
-- The operations on projects as steps, and what holds in every state that they reach.
use rotsy.Base.{
  ℕ, ◌≤◌, ◌≡◌, refl, sym, ap, subst, ◌∙◌, ◌⊎◌, inl, inr, Bool, true, false, not, ◌&&◌, some, List,
  [], ◌∷◌, ◌++◌, Text, text_eq, ◌==◌, any, keep_if, keep_if_yes, keep_if_no, length, All, All-map,
  arith, Bool-cases, Option-cases,
}
use rotsy.Projects.{
  User, ProjectMember, Answer, refused, done, Refusal, not_found, admin, get_membership,
}
use rotsy.Projects.Members.{
  Db, create_project, delete_project, add_member, update_member_role, remove_member, get_row,
  get_member_or_404, assert_not_last_admin, set_role, delete_row, is_other_admin,
}
use rotsy.Projects.Admins.{
  admins, others, admins-append, admins-delete_project, get_row-id, others-set_role,
  others-delete_row, admins-set_role, admins-delete_row,
}

-- A request that changes projects or memberships.
pub data Request : Type 0 where
  create : User → Request
  delete : ℕ → Request
  add : ℕ → ℕ → Text → Request
  update : ℕ → ℕ → Text → Request
  remove : ℕ → ℕ → Request

unfoldable pub handle : Request → Db → Answer Db
unfolding create_project delete_project add_member update_member_role remove_member
handle (create creator) db = done (create_project creator db)
handle (delete project_id) db = delete_project project_id db
handle (add project_id user_id role) db = add_member project_id user_id role db
handle (update project_id member_id role) db = update_member_role project_id member_id role db
handle (remove project_id member_id) db = remove_member project_id member_id db

-- `Reaches db db'`: requests that are granted lead from one state of the tables to the other.
pub data Reaches (db : Db) : Db → Type 0 where
  here : Reaches db db
  after :
      {mid db' : Db}
      → Reaches db mid
      → (request : Request) → handle request mid ≡ done db'
      → Reaches db db'

abbrev pub HasAdmins : Db → Type 0
HasAdmins db = All (λ p. 1 ≤ admins p db.members) db.projects

abbrev Keeps : Answer Db → Type 0
Keeps (refused why) = Unit
Keeps (done db) = HasAdmins db

module _ (db : Db) (h : HasAdmins db) where
  abbrev creator_row : User → ProjectMember
  creator_row creator = record {
    id = db.next_id;
    project_id = db.next_project;
    user_id = creator.id;
    project_role = admin;
  }

  create-Keeps : (creator : User) → HasAdmins (create_project creator db)
  unfolding create_project
  create-Keeps creator = snoc db.projects (All-map more db.projects h)
    where
      more :
          (p : ℕ) → 1 ≤ admins p db.members → 1 ≤ admins p (db.members ++ creator_row creator ∷ [])
      more p k = omega (arith, k, admins-append p db.members (creator_row creator))

      snoc :
          (ps : List ℕ)
          → All (λ p. 1 ≤ admins p (db.members ++ creator_row creator ∷ [])) ps
          → All
              (λ p. 1 ≤ admins p (db.members ++ creator_row creator ∷ []))
              (ps ++ db.next_project ∷ [])
      snoc [] k =
          (ground (arith, admins-append db.next_project db.members (creator_row creator)), tt)
      snoc (p ∷ ps) (k, ks) = (k, snoc ps ks)

  abbrev rows_after : ℕ → List ProjectMember
  rows_after gone = keep_if (λ (m : ProjectMember). not (m.project_id == gone)) db.members

  delete-Keeps : (gone : ℕ) → Keeps (delete_project gone db)
  unfolding delete_project
  delete-Keeps gone = elim (Bool-cases (any (λ id. id == gone) db.projects)) [
    | inl e ↦ rw e (kept db.projects h)
    | inr e ↦ rw e tt
  ]
    where
      kept :
          (ps : List ℕ)
          → All (λ p. 1 ≤ admins p db.members) ps
          → All (λ p. 1 ≤ admins p (rows_after gone)) (keep_if (λ id. not (id == gone)) ps)
      kept [] k = tt
      kept (p ∷ ps) (k, ks) = elim (Bool-cases (p == gone)) [
        | inl e ↦ rw (keep_if_no (λ id. not (id == gone)) p ps (ground (arith, e))) (kept ps ks)
        | inr e ↦
            rw (keep_if_yes (λ id. not (id == gone)) p ps (ground (arith, e)))
              (subst (λ n. 1 ≤ n) (sym (admins-delete_project p gone db.members e)) k, kept ps ks)
      ]

  abbrev added_row : ℕ → ℕ → Text → ProjectMember
  added_row project_id user_id role = record {
    id = db.next_id;
    project_id = project_id;
    user_id = user_id;
    project_role = role;
  }

  add-Keeps : (project_id user_id : ℕ) (role : Text) → Keeps (add_member project_id user_id role db)
  unfolding add_member
  add-Keeps project_id user_id role = elim (Bool-cases (any (λ id. id == project_id) db.projects)) [
    | inr e ↦ rw e tt
    | inl e ↦ elim (Bool-cases (any (λ id. id == user_id) db.users)) [
      | inr f ↦ rw (e, f) tt
      | inl f ↦ elim (Option-cases (get_membership project_id user_id db.members)) [
        | inr (m, g) ↦ rw (e, f, g) tt
        | inl g ↦ rw (e, f, g) (All-map more db.projects h)
      ]
    ]
  ]
    where
      more :
          (p : ℕ)
          → 1 ≤ admins p db.members
          → 1 ≤ admins p (db.members ++ added_row project_id user_id role ∷ [])
      more p k = omega (arith, k, admins-append p db.members (added_row project_id user_id role))

  -- A row that may lose its role: either it loses no admin, or another one is left.
  abbrev Spared : ℕ → Bool → ProjectMember → Type 0
  Spared project_id loses m =
      (m.project_id ≡ project_id)
      × (((text_eq m.project_role admin && loses) ≡ false)
          ⊎ (1 ≤ others project_id m.id db.members))

  Spared-set_role :
      (project_id : ℕ) (role : Text) (m : ProjectMember) (p : ℕ)
      → get_row m.id db.members ≡ some m
      → Spared project_id (not (text_eq role admin)) m
      → 1 ≤ admins p db.members
      → 1 ≤ admins p (set_role m.id role db.members)
  Spared-set_role project_id role m p found (own, inl e) k =
      ground (arith, e, admins-set_role p m.id role db.members m found)
  Spared-set_role project_id role m p found (own, inr left) k =
      elim (Bool-cases (p == project_id)) [
        | inl e ↦
            let same : project_id ≡ p = ground arith in
            let left' = subst (λ q. 1 ≤ others q m.id db.members) same left in
            omega (arith, left', others-set_role p m.id role db.members)
        | inr e ↦ ground (arith, e, own, admins-set_role p m.id role db.members m found)
      ]

  Spared-delete_row :
      (project_id : ℕ) (m : ProjectMember) (p : ℕ)
      → get_row m.id db.members ≡ some m
      → Spared project_id true m
      → 1 ≤ admins p db.members
      → 1 ≤ admins p (delete_row m.id db.members)
  Spared-delete_row project_id m p found (own, inl e) k =
      ground (arith, e, admins-delete_row p m.id db.members m found)
  Spared-delete_row project_id m p found (own, inr left) k = elim (Bool-cases (p == project_id)) [
    | inl e ↦
        let same : project_id ≡ p = ground arith in
        let left' = subst (λ q. 1 ≤ others q m.id db.members) same left in
        omega (arith, left', others-delete_row p m.id db.members)
    | inr e ↦ ground (arith, e, own, admins-delete_row p m.id db.members m found)
  ]

  -- The row that a request names, in its project.
  get_member-cases :
      (project_id member_id : ℕ)
      → ((why : Refusal) × (get_member_or_404 project_id member_id db ≡ refused why))
        ⊎ ((m : ProjectMember) × (get_member_or_404 project_id member_id db ≡ done m)
            × (get_row m.id db.members ≡ some m)
            × (m.project_id ≡ project_id))
  unfolding get_member_or_404
  get_member-cases project_id member_id = elim (Option-cases (get_row member_id db.members)) [
    | inl e ↦ inl (not_found, ground (arith, e))
    | inr (m, e) ↦
        let same = get_row-id member_id db.members m e in
        elim (Bool-cases (m.project_id == project_id)) [
          | inr n ↦ inl (not_found, ground (arith, e, n))
          | inl y ↦
              inr (m, ground (arith, e, y), ap (λ i. get_row i db.members) same ∙ e, ground arith)
        ]
  ]

  last_admin-cases :
      (project_id exclude : ℕ)
      → ((why : Refusal) × (assert_not_last_admin project_id exclude db ≡ refused why))
        ⊎ ((assert_not_last_admin project_id exclude db ≡ done tt)
            × (1 ≤ others project_id exclude db.members))
  unfolding assert_not_last_admin others
  last_admin-cases project_id exclude =
      elim (Bool-cases (length (keep_if (is_other_admin project_id exclude) db.members) == 0)) [
        | inl e ↦ rw e (inl (_, refl))
        | inr e ↦ rw e (inr (refl, ground arith))
      ]

  update-Keeps :
      (project_id member_id : ℕ) (role : Text)
      → Keeps (update_member_role project_id member_id role db)
  unfolding update_member_role
  update-Keeps project_id member_id role = elim (get_member-cases project_id member_id) [
    | inl (why, e) ↦ rw (e, update_member_role) tt
    | inr (m, e, found, own) ↦
        let more = λ (s : Spared project_id (not (text_eq role admin)) m).
          All-map (λ p k. Spared-set_role project_id role m p found s k) db.projects h in
        elim (Bool-cases (text_eq m.project_role admin && not (text_eq role admin))) [
          | inr n ↦ rw (e, n, update_member_role) (more (own, inl n))
          | inl y ↦ elim (last_admin-cases project_id m.id) [
            | inl (why, l) ↦ rw (e, y, l, update_member_role) tt
            | inr (l, left) ↦ rw (e, y, l, update_member_role) (more (own, inr left))
          ]
        ]
  ]

  remove-Keeps : (project_id member_id : ℕ) → Keeps (remove_member project_id member_id db)
  unfolding remove_member
  remove-Keeps project_id member_id = elim (get_member-cases project_id member_id) [
    | inl (why, e) ↦ rw (e, remove_member) tt
    | inr (m, e, found, own) ↦
        let more = λ (s : Spared project_id true m).
          All-map (λ p k. Spared-delete_row project_id m p found s k) db.projects h in
        elim (Bool-cases (text_eq m.project_role admin)) [
          | inr n ↦ rw (e, n, remove_member) (more (own, inl (ground (arith, n))))
          | inl y ↦ elim (last_admin-cases project_id m.id) [
            | inl (why, l) ↦ rw (e, y, l, remove_member) tt
            | inr (l, left) ↦ rw (e, y, l, remove_member) (more (own, inr left))
          ]
        ]
  ]

  handle-Keeps : (request : Request) → Keeps (handle request db)
  unfolding handle
  handle-Keeps (create creator) = create-Keeps creator
  handle-Keeps (delete project_id) = delete-Keeps project_id
  handle-Keeps (add project_id user_id role) = add-Keeps project_id user_id role
  handle-Keeps (update project_id member_id role) = update-Keeps project_id member_id role
  handle-Keeps (remove project_id member_id) = remove-Keeps project_id member_id

-- Where every project has an admin, every project has one in every state that creating and
-- deleting projects and adding, changing and removing members lead to.
pub Reaches-HasAdmins : (db db' : Db) → Reaches db db' → HasAdmins db → HasAdmins db'
Reaches-HasAdmins db db' here h = h
Reaches-HasAdmins db db' (after {mid} r request e) h =
    subst Keeps e (handle-Keeps mid (Reaches-HasAdmins db mid r h) request)
