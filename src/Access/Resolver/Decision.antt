-- ===== src/Access/Resolver/Decision.antt =====
-- `_decide` against the policy in the docstring of backend/app/core/access_control.py.
use rotsy.Base.{
  ℕ, ◌≡◌, refl, sym, ◌∙◌, ◌≢◌, ◌↔◌, ◌⊎◌, inl, inr, Bool, true, false, not, ◌&&◌, ◌||◌, List, [],
  ◌∷◌, ◌++◌, Text, text_eq, text_eq_iff, Dict, any, any_iff, any-append, any-eq-false_iff, All, Any,
  Any-map, All-map, has_text, arith, Bool-cases,
}
use rotsy.Access.Glob.{matches}
use rotsy.Access.Rules.{RoleRules, covers, grants, repo_allows, parse_actions}
use rotsy.Access.Resolver.{
  RoleAccessRule, AccessResolver, deny, mode_unrestricted, compile_rule, split_rules, is_silent,
  rules_of, decide_roles, decide,
}

-- The rule's repository pattern matches.
abbrev pub speaks : Text → RoleAccessRule → Bool
speaks repo rule = matches rule.repo_pattern repo

-- The rule names the action, and its image pattern matches.
abbrev pub hits : Text → Text → RoleAccessRule → Bool
hits image_name action rule =
    has_text action (parse_actions rule.actions) && matches rule.image_pattern image_name

-- One role's part of the policy: with no rule for the repository its mode decides; otherwise one
-- of its allows must hit, and none of its denies.
abbrev pub RoleGrants : Text → Text → Text → Text → List RoleAccessRule → Type 0
RoleGrants repo image_name action mode rules =
    (All (λ rule. matches rule.repo_pattern repo ≡ false) rules × (mode ≡ mode_unrestricted))
    ⊎ (Any
          (λ rule.
            (matches rule.repo_pattern repo ≡ true)
            × (rule.effect ≢ deny)
            × (has_text action (parse_actions rule.actions) ≡ true)
            × (matches rule.image_pattern image_name ≡ true))
          rules
        × All
            (λ rule.
              matches rule.repo_pattern repo ≡ true
              → rule.effect ≡ deny
              → has_text action (parse_actions rule.actions) ≡ true
              → matches rule.image_pattern image_name ≡ false)
            rules)

module _ (repo image_name action : Text) where
  abbrev pub allow_hit : RoleAccessRule → Bool
  allow_hit rule = speaks repo rule && not (text_eq rule.effect deny) && hits image_name action rule

  abbrev pub deny_hit : RoleAccessRule → Bool
  deny_hit rule = speaks repo rule && text_eq rule.effect deny && hits image_name action rule

  covers-compile :
      (rule : RoleAccessRule)
      → covers image_name action (compile_rule rule) ≡ hits image_name action rule
  unfolding covers compile_rule matches
  covers-compile rule = refl

  pub any-allow :
      (rules : List RoleAccessRule)
      → any (covers image_name action) (split_rules repo rules).allow ≡ any allow_hit rules
  unfolding split_rules
  any-allow [] = refl
  any-allow (r ∷ rs) = ground (arith, any-allow rs, covers-compile r)

  pub any-deny :
      (rules : List RoleAccessRule)
      → any (covers image_name action) (split_rules repo rules).deny ≡ any deny_hit rules
  unfolding split_rules
  any-deny [] = refl
  any-deny (r ∷ rs) = ground (arith, any-deny rs, covers-compile r)

  silent_iff :
      (rules : List RoleAccessRule)
      → (is_silent (split_rules repo rules) ≡ true) ↔ All (λ rule. speaks repo rule ≡ false) rules
  unfolding split_rules
  silent_iff [] = (λ h. tt, λ h. refl)
  silent_iff (r ∷ rs) =
      (λ h. ground (arith, (silent_iff rs).0), λ h. ground (arith, (silent_iff rs).1 h.1))

  -- What one entry of `self._modes` adds to the decision.
  abbrev role_test : Dict ℕ (List RoleAccessRule) → ℕ × Text → Bool
  role_test by_role (role_id, mode) =
      let role = split_rules repo (rules_of by_role role_id) in
      (is_silent role && text_eq mode mode_unrestricted) || grants image_name action role

  silent-grants : (role : RoleRules) → is_silent role ≡ true → grants image_name action role ≡ false
  unfolding grants
  silent-grants role h = ground arith

  -- The accumulator of the loop is the first part of the answer.
  decide_roles-allows :
      (by_role : Dict ℕ (List RoleAccessRule)) (modes : Dict ℕ Text) (acc : List RoleRules)
      → repo_allows (decide_roles by_role repo modes acc) image_name action
        ≡ (any (grants image_name action) acc || any (role_test by_role) modes)
  unfolding decide_roles repo_allows
  decide_roles-allows by_role [] acc = ground arith
  decide_roles-allows by_role ((role_id, mode) ∷ modes) acc =
      let role = split_rules repo (rules_of by_role role_id) in
      ground (
        arith,
        decide_roles-allows by_role modes acc,
        decide_roles-allows by_role modes (acc ++ role ∷ []),
        any-append (grants image_name action) acc (role ∷ []),
        silent-grants role,
      )

  allow_hit_iff :
      (rule : RoleAccessRule)
      → (allow_hit rule ≡ true) ↔ (
          (matches rule.repo_pattern repo ≡ true)
          × (rule.effect ≢ deny)
          × (has_text action (parse_actions rule.actions) ≡ true)
          × (matches rule.image_pattern image_name ≡ true))
  allow_hit_iff rule = (
    λ h. ground (arith, text_eq_iff rule.effect deny),
    λ h. ground (arith, text_eq_iff rule.effect deny),
  )

  deny_hit_iff :
      (rule : RoleAccessRule)
      → (deny_hit rule ≡ false) ↔ (
          matches rule.repo_pattern repo ≡ true
          → rule.effect ≡ deny
          → has_text action (parse_actions rule.actions) ≡ true
          → matches rule.image_pattern image_name ≡ false)
  deny_hit_iff rule = (
    λ h a b c. ground (arith, text_eq_iff rule.effect deny),
    λ h. ground (arith, text_eq_iff rule.effect deny, h),
  )

  split-grants_iff :
      (rules : List RoleAccessRule)
      → (grants image_name action (split_rules repo rules) ≡ true)
        ↔ ((any allow_hit rules ≡ true) × (any deny_hit rules ≡ false))
  unfolding grants
  split-grants_iff rules = (
    λ h. ground (arith, any-allow rules, any-deny rules),
    λ h. ground (arith, any-allow rules, any-deny rules),
  )

  role_test_sound :
      (by_role : Dict ℕ (List RoleAccessRule)) (entry : ℕ × Text)
      → role_test by_role entry ≡ true
      → RoleGrants repo image_name action entry.1 (rules_of by_role entry.0)
  role_test_sound by_role (role_id, mode) h =
      let rules = rules_of by_role role_id in
      elim (Bool-cases (grants image_name action (split_rules repo rules))) [
        | inl g ↦
            let (a, d) = (split-grants_iff rules).0 g in
            inr (
              Any-map (λ r. (allow_hit_iff r).0) rules ((any_iff allow_hit rules).0 a),
              All-map (λ r. (deny_hit_iff r).0) rules ((any-eq-false_iff deny_hit rules).0 d),
            )
        | inr g ↦ inl (
          (silent_iff rules).0 (ground arith),
          (text_eq_iff mode mode_unrestricted).0 (ground arith),
        )
      ]

  role_test_complete :
      (by_role : Dict ℕ (List RoleAccessRule)) (entry : ℕ × Text)
      → RoleGrants repo image_name action entry.1 (rules_of by_role entry.0)
      → role_test by_role entry ≡ true
  role_test_complete by_role (role_id, mode) (inl (quiet, unrestricted)) = ground (
    arith,
    (silent_iff (rules_of by_role role_id)).1 quiet,
    (text_eq_iff mode mode_unrestricted).1 unrestricted,
  )
  role_test_complete by_role (role_id, mode) (inr (a, d)) =
      let rules = rules_of by_role role_id in
      ground (
        arith,
        (split-grants_iff rules).1 (
          (any_iff allow_hit rules).1 (Any-map (λ r. (allow_hit_iff r).1) rules a),
          (any-eq-false_iff deny_hit rules).1 (All-map (λ r. (deny_hit_iff r).1) rules d),
        ),
      )

-- A decision permits an action on an image exactly when one of the user's roles grants it.
pub decide-allows_iff :
    (resolver : AccessResolver) (repo image_name action : Text)
    → (repo_allows (decide resolver repo) image_name action ≡ true)
      ↔ Any
          (λ entry.
            RoleGrants repo image_name action entry.1 (rules_of resolver.rules_by_role entry.0))
          resolver.modes
unfolding decide
decide-allows_iff resolver repo image_name action =
    let by_role = resolver.rules_by_role in
    let test = role_test repo image_name action by_role in
    let agree = decide_roles-allows repo image_name action by_role resolver.modes [] in
    (
      λ h.
          Any-map (role_test_sound repo image_name action by_role) resolver.modes
            ((any_iff test resolver.modes).0 (sym agree ∙ h)),
      λ h.
          agree
          ∙ (any_iff test resolver.modes).1
              (Any-map (role_test_complete repo image_name action by_role) resolver.modes h),
    )
