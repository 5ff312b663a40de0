-- ===== src/Access/Resolver/Coverage.antt =====
-- Repository-wide questions asked of a decision: `covers_all` and `blocks_everything`.
use rotsy.Base.{ℕ, ◌≡◌, inl, inr, true, List, [], ◌∷◌, ◌++◌, Text, text_eq, Dict, All, Bool-cases}
use rotsy.Access.Glob.{matches}
use rotsy.Access.Glob.Universal.{is_universal_iff}
use rotsy.Access.Rules.{RoleRules, repo_allows, covers_all}
use rotsy.Access.Rules.Scope.{IsCompiled, covers_all-allows}
use rotsy.Access.Resolver.{
  RoleAccessRule, AccessResolver, compile_rule, split_rules, rules_of, decide_roles, decide,
  is_silent, mode_unrestricted, deny,
}

compile-IsCompiled : (rule : RoleAccessRule) → IsCompiled (compile_rule rule)
unfolding compile_rule matches
compile-IsCompiled rule u name = (is_universal_iff rule.image_pattern).0 u name

AllowsCompiled : RoleRules → Type 0
AllowsCompiled role = All IsCompiled role.allow

split-AllowsCompiled :
    (repo : Text) (rules : List RoleAccessRule) → AllowsCompiled (split_rules repo rules)
unfolding split_rules AllowsCompiled
split-AllowsCompiled repo [] = tt
split-AllowsCompiled repo (rule ∷ rules) =
    let rest = split-AllowsCompiled repo rules in
    elim (Bool-cases (matches rule.repo_pattern repo)) [
      | inr m ↦ rw (m, split_rules) rest
      | inl m ↦ elim (Bool-cases (text_eq rule.effect deny)) [
        | inl e ↦ rw (m, e, split_rules) rest
        | inr e ↦ rw (m, e, split_rules) (compile-IsCompiled rule, rest)
      ]
    ]

All-snoc :
    (roles : List RoleRules) (role : RoleRules)
    → All AllowsCompiled roles
    → AllowsCompiled role
    → All AllowsCompiled (roles ++ role ∷ [])
All-snoc [] role h p = (p, tt)
All-snoc (r ∷ roles) role (q, h) p = (q, All-snoc roles role h p)

decide_roles-AllowsCompiled :
    (by_role : Dict ℕ (List RoleAccessRule)) (repo : Text) (modes : Dict ℕ Text)
    (acc : List RoleRules)
    → All AllowsCompiled acc
    → All AllowsCompiled (decide_roles by_role repo modes acc).roles
unfolding decide_roles
decide_roles-AllowsCompiled by_role repo [] acc h = h
decide_roles-AllowsCompiled by_role repo ((role_id, mode) ∷ modes) acc h =
    let role = split_rules repo (rules_of by_role role_id) in
    let skipped = decide_roles-AllowsCompiled by_role repo modes acc h in
    let added =
      decide_roles-AllowsCompiled by_role repo modes (acc ++ role ∷ [])
        (All-snoc acc role h (split-AllowsCompiled repo (rules_of by_role role_id))) in
    elim (Bool-cases (is_silent role)) [
      | inr s ↦ rw (s, decide_roles) added
      | inl s ↦ elim (Bool-cases (text_eq mode mode_unrestricted)) [
        | inl m ↦ rw (s, m, decide_roles) tt
        | inr m ↦ rw (s, m, decide_roles) skipped
      ]
    ]

-- An action that a decision covers wholesale is permitted on every image of the repository.
pub covers_all-decide :
    (resolver : AccessResolver) (repo image_name action : Text)
    → covers_all action (decide resolver repo) ≡ true
    → repo_allows (decide resolver repo) image_name action ≡ true
unfolding decide AllowsCompiled
covers_all-decide resolver repo image_name action h =
    covers_all-allows action image_name (decide resolver repo)
      (decide_roles-AllowsCompiled resolver.rules_by_role repo resolver.modes [] tt) h
