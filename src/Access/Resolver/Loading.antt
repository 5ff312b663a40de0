-- ===== src/Access/Resolver/Loading.antt =====
-- `load_access` hands every role exactly its own rules, so a request is decided by the tables.
use rotsy.Base.{
  ℕ, ◌≡◌, refl, sym, ap, subst, ◌∙◌, ◌≢◌, ◌↔◌, inl, inr, true, List, [], ◌∷◌, ◌++◌, map, Text,
  nat_eq, Dict, insert, lookup-insert, any, keep_if, keep_if_yes, keep_if_no, All, Any, arith,
  Bool-cases, ◌==◌, keep_if-keep_if, if◌then◌else◌,
}
use mathlib.Core.List.{append_assoc, append-nil}
use rotsy.Access.Resolver.{
  RoleAccessRule, Role, rules_of, group_rules, init, role_modes, load_access, allows, decide, repo,
}
use rotsy.Access.Resolver.Decision.{RoleGrants, decide-allows_iff}

-- The rows of the table that belong to a role.
abbrev pub rows_of : ℕ → List RoleAccessRule → List RoleAccessRule
rows_of id table = keep_if (λ (rule : RoleAccessRule). rule.role_id == id) table

rules_of-insert :
    (id other : ℕ) (rules : List RoleAccessRule) (by_role : Dict ℕ (List RoleAccessRule))
    → rules_of (insert other rules by_role) id
      ≡ (if other == id then rules else rules_of by_role id)
rules_of-insert id other rules by_role = ground (arith, lookup-insert other id rules by_role)

rules_of-group :
    (id : ℕ) (by_role : Dict ℕ (List RoleAccessRule)) (rows : List RoleAccessRule)
    → rules_of (group_rules by_role rows) id ≡ rules_of by_role id ++ rows_of id rows
unfolding group_rules
rules_of-group id by_role [] = sym (append-nil _)
rules_of-group id by_role (rule ∷ rows) =
    let old = rules_of by_role rule.role_id in
    let step = rules_of-insert id rule.role_id (old ++ rule ∷ []) by_role in
    rules_of-group id (insert rule.role_id (old ++ rule ∷ []) by_role) rows
    ∙ elim (Bool-cases (rule.role_id == id)) [
      | inl e ↦
          let same : rule.role_id ≡ id = ground arith in
          rw (step, e, ap (rules_of by_role) same, keep_if_yes (λ r. r.role_id == id) rule rows e)
            (append_assoc (rules_of by_role id) (rule ∷ []) (rows_of id rows))
      | inr e ↦ rw (step, e, keep_if_no (λ r. r.role_id == id) rule rows e)
    ]

-- The query's filter drops no rule of a role that the user holds.
rows_of-wanted :
    (roles : List Role) (id : ℕ) (table : List RoleAccessRule)
    → any (λ (role : Role). role.id == id) roles ≡ true
    → rows_of id (
        keep_if
          (λ (rule : RoleAccessRule). any (λ (role : Role). role.id == rule.role_id) roles)
          table)
      ≡ rows_of id table
rows_of-wanted roles id table h =
    keep_if-keep_if (λ (rule : RoleAccessRule). rule.role_id == id)
      (λ (rule : RoleAccessRule). any (λ (role : Role). role.id == rule.role_id) roles)
      (λ rule e. let same : rule.role_id ≡ id = ground arith in rw same h) table

load_access-rules :
    (roles : List Role) (table : List RoleAccessRule) (id : ℕ)
    → any (λ (role : Role). role.id == id) roles ≡ true
    → rules_of (load_access roles table).rules_by_role id ≡ rows_of id table
unfolding load_access init
load_access-rules [] table id h = cc
load_access-rules (role ∷ roles) table id h =
    rules_of-group id [] _ ∙ rows_of-wanted (role ∷ roles) id table h

-- The ids of the roles are different, as those of database rows are.
abbrev pub AreDistinct : List Role → Type 0
AreDistinct [] = Unit
AreDistinct (role ∷ roles) = All (λ (other : Role). other.id ≢ role.id) roles × AreDistinct roles

abbrev entry_of : Role → ℕ × Text
entry_of role = (role.id, role.access_mode)

absent_insert :
    (id : ℕ) (mode : Text) (modes : Dict ℕ Text)
    → All (λ (entry : ℕ × Text). entry.0 ≢ id) modes
    → insert id mode modes ≡ modes ++ (id, mode) ∷ []
absent_insert id mode [] h = refl
absent_insert id mode (entry ∷ modes) (n, h) = ground (arith, absent_insert id mode modes h)

All-snoc :
    (P : ℕ × Text → Type 0) (xs : Dict ℕ Text) (x : ℕ × Text)
    → All P xs
    → P x
    → All P (xs ++ x ∷ [])
All-snoc P [] x h p = (p, tt)
All-snoc P (y ∷ xs) x (q, h) p = (q, All-snoc P xs x h p)

-- Entries whose ids differ from those of all the roles still do with one role's entry added.
still_new :
    (modes : Dict ℕ Text) (role : Role) (roles : List Role)
    → All (λ (other : Role). other.id ≢ role.id) roles
    → All (λ (other : Role). All (λ (entry : ℕ × Text). entry.0 ≢ other.id) modes) roles
    → All
        (λ (other : Role).
          All (λ (entry : ℕ × Text). entry.0 ≢ other.id) (modes ++ entry_of role ∷ []))
        roles
still_new modes role [] new h = tt
still_new modes role (other ∷ roles) (n, new) (h, hs) = (
  All-snoc (λ entry. entry.0 ≢ other.id) modes (entry_of role) h (λ e. n (sym e)),
  still_new modes role roles new hs,
)

-- Each role keeps its own entry if no two ids agree.
role_modes-append :
    (modes : Dict ℕ Text) (roles : List Role)
    → AreDistinct roles
    → All (λ (role : Role). All (λ (entry : ℕ × Text). entry.0 ≢ role.id) modes) roles
    → role_modes modes roles ≡ modes ++ map entry_of roles
unfolding role_modes
role_modes-append modes [] d h = sym (append-nil _)
role_modes-append modes (role ∷ roles) (new, d) (h, hs) =
    rw (absent_insert role.id role.access_mode modes h) (
      role_modes-append (modes ++ entry_of role ∷ []) roles d (still_new modes role roles new hs)
      ∙ append_assoc modes (entry_of role ∷ []) (map entry_of roles))

All-new :
    (roles : List Role)
    → All (λ (role : Role). All (λ (entry : ℕ × Text). entry.0 ≢ role.id) []) roles
All-new [] = tt
All-new (role ∷ roles) = (tt, All-new roles)

load_access-modes :
    (roles : List Role) (table : List RoleAccessRule)
    → AreDistinct roles
    → (load_access roles table).modes ≡ map entry_of roles
unfolding load_access init
load_access-modes roles table d = role_modes-append [] roles d (All-new roles)

-- What the policy grants by the database tables.
module _ (name image_name action : Text) (table : List RoleAccessRule) where
  abbrev pub Granted : Role → Type 0
  Granted role = RoleGrants name image_name action role.access_mode (rows_of role.id table)

  abbrev Loaded : List Role → ℕ × Text → Type 0
  Loaded all_roles entry =
      RoleGrants name image_name action entry.1
        (rules_of (load_access all_roles table).rules_by_role entry.0)

  -- Entry by entry, for roles that the resolver was loaded for.
  entries_iff :
      (all_roles roles : List Role)
      → ((id : ℕ)
          → any (λ (role : Role). role.id == id) roles ≡ true
          → any (λ (role : Role). role.id == id) all_roles ≡ true)
      → Any (Loaded all_roles) (map entry_of roles) ↔ Any Granted roles
  entries_iff all_roles [] held = (λ h. h, λ h. h)
  entries_iff all_roles (role ∷ roles) held =
      let rules = load_access-rules all_roles table role.id (held role.id (ground arith)) in
      let rest = entries_iff all_roles roles (λ id h. held id (ground arith)) in
      let to =
        λ (rows : List RoleAccessRule). RoleGrants name image_name action role.access_mode rows in
      (
        elim [ inl h ↦ inl (subst to rules h) | inr h ↦ inr (rest.0 h) ],
        elim [ inl h ↦ inl (subst to (sym rules) h) | inr h ↦ inr (rest.1 h) ],
      )

  load_access-repo :
      (roles : List Role)
      → (repo name (load_access roles table)).0 ≡ decide (load_access roles table) name
  unfolding repo load_access init
  load_access-repo roles = refl

  -- A request of a user with these roles is allowed exactly when one role grants it by its rows.
  pub load_access-allows_iff :
      (roles : List Role)
      → AreDistinct roles
      → ((allows name image_name action (load_access roles table)).0 ≡ true) ↔ Any Granted roles
  unfolding allows
  load_access-allows_iff roles d =
      let resolver = load_access roles table in
      let decided = decide-allows_iff resolver name image_name action in
      let modes = load_access-modes roles table d in
      let each = entries_iff roles roles (λ id h. h) in
      rw (load_access-repo roles) (
        λ h. each.0 (subst (Any (Loaded roles)) modes (decided.0 h)),
        λ h. decided.1 (subst (Any (Loaded roles)) (sym modes) (each.1 h)),
      )
