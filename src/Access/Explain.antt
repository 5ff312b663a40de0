-- ===== src/Access/Explain.antt =====
-- `explain` of backend/app/core/access_control.py: the "test this rule" answer of the admin UI.
use rotsy.Base.{
  ℕ, ◌≡◌, refl, Bool, not, ◌&&◌, ◌||◌, List, [], ◌∷◌, ◌++◌, Text, text_eq, text_eq_iff, has_text,
  keep_if, any, if◌then◌else◌, arith,
}
use rotsy.Access.Glob.{matches}
use rotsy.Access.Rules.{actions, parse_actions, grants}
use rotsy.Access.Resolver.{RoleAccessRule, deny, split_rules}
use rotsy.Access.Resolver.Decision.{any-allow, any-deny, allow_hit, deny_hit}

pub record RuleMatch : Type 0 where
  pub rule_id : ℕ
  pub role_id : ℕ
  pub effect : Text
  pub repo_pattern : Text
  pub image_pattern : Text
  pub actions : List Text
  pub matched_image : Bool

-- The three variables of the loop.
pub record Explained : Type 0 where
  pub applied : List RuleMatch
  pub allowed : List Text
  pub denied : List Text

abbrev rule_match : RoleAccessRule → Text → RuleMatch
rule_match rule image_name = record {
  rule_id = rule.id;
  role_id = rule.role_id;
  effect = rule.effect;
  repo_pattern = rule.repo_pattern;
  image_pattern = rule.image_pattern;
  actions = keep_if (λ a. has_text a (parse_actions rule.actions)) actions;
  matched_image = matches rule.image_pattern image_name;
}

-- One turn of the loop.
unfoldable pub explain_rule : Text → Text → RoleAccessRule → Explained → Explained
explain_rule repo image_name rule seen =
    let added = parse_actions rule.actions in
    if matches rule.repo_pattern repo
    then (let listed = record seen { applied = seen.applied ++ rule_match rule image_name ∷ [] } in
        if matches rule.image_pattern image_name
        then (if text_eq rule.effect deny
            then record listed { denied = seen.denied ++ added }
            else record listed { allowed = seen.allowed ++ added })
        else listed)
    else seen

unfoldable pub explain_loop : Text → Text → List RoleAccessRule → Explained → Explained
unfolding explain_rule
explain_loop repo image_name [] seen = seen
explain_loop repo image_name (rule ∷ rules) seen =
    explain_loop repo image_name rules (explain_rule repo image_name rule seen)

-- `allowed - denied`
unfoldable pub explain : List RoleAccessRule → Text → Text → List RuleMatch × List Text
unfolding explain_loop
explain rules repo image_name =
    let seen =
      explain_loop repo image_name rules (record { applied = []; allowed = []; denied = [] }) in
    (seen.applied, keep_if (λ a. not (has_text a seen.denied)) seen.allowed)

has-append :
    (a : Text) (xs ys : List Text) → has_text a (xs ++ ys) ≡ (has_text a xs || has_text a ys)
has-append a [] ys = refl
has-append a (x ∷ xs) ys = ground (arith, has-append a xs ys)

has-keep_if :
    (p : Text → Bool) (a : Text) (xs : List Text)
    → has_text a (keep_if p xs) ≡ (p a && has_text a xs)
has-keep_if p a [] = ground arith
has-keep_if p a (x ∷ xs) = ground (arith, has-keep_if p a xs, text_eq_iff a x)

module _ (repo image_name action : Text) where
  loop-allowed :
      (rules : List RoleAccessRule) (seen : Explained)
      → has_text action (explain_loop repo image_name rules seen).allowed
        ≡ (has_text action seen.allowed || any (allow_hit repo image_name action) rules)
  unfolding explain_loop
  loop-allowed [] seen = ground arith
  loop-allowed (rule ∷ rules) seen = ground (
    arith,
    loop-allowed rules (explain_rule repo image_name rule seen),
    has-append action seen.allowed (parse_actions rule.actions),
  )

  loop-denied :
      (rules : List RoleAccessRule) (seen : Explained)
      → has_text action (explain_loop repo image_name rules seen).denied
        ≡ (has_text action seen.denied || any (deny_hit repo image_name action) rules)
  unfolding explain_loop
  loop-denied [] seen = ground arith
  loop-denied (rule ∷ rules) seen = ground (
    arith,
    loop-denied rules (explain_rule repo image_name rule seen),
    has-append action seen.denied (parse_actions rule.actions),
  )

-- The actions that `explain` lists as surviving are the ones that the same rules, split as
-- `_decide` splits them, grant on the image.
pub explain-grants :
    (rules : List RoleAccessRule) (repo image_name action : Text)
    → has_text action (explain rules repo image_name).1
      ≡ grants image_name action (split_rules repo rules)
unfolding explain grants
explain-grants rules repo image_name action =
    let start : Explained = record { applied = []; allowed = []; denied = [] } in
    let seen = explain_loop repo image_name rules start in
    ground (
      arith,
      has-keep_if (λ a. not (has_text a seen.denied)) action seen.allowed,
      loop-allowed repo image_name action rules start,
      loop-denied repo image_name action rules start,
      any-allow repo image_name action rules,
      any-deny repo image_name action rules,
    )
