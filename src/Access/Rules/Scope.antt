-- ===== src/Access/Rules/Scope.antt =====
-- What the shortcuts of a decided access promise about every image name.
use rotsy.Base.{
  ◌≡◌, refl, ◌↔◌, inl, inr, true, false, List, [], ◌∷◌, Text, has_text, arith, Bool-cases, any,
  any_iff, All, Any, any-eq-false_iff, ◌&&◌,
}
use rotsy.Access.Rules.{
  CompiledRule, RoleRules, RepoAccess, covers, grants, grants_everything, repo_allows,
  blocks_everything, covers_all, has_allow,
}
use rotsy.Access.Glob.{regex_match}

-- A role grants an action on an image when one of its allows covers it and none of its denies does.
pub grants_iff :
    (image_name action : Text) (role : RoleRules)
    → (grants image_name action role ≡ true) ↔ (
        Any (λ rule. covers image_name action rule ≡ true) role.allow
        × All (λ rule. covers image_name action rule ≡ false) role.deny)
unfolding grants
grants_iff image_name action role = (
  λ h. ground (
    arith,
    (any_iff (covers image_name action) role.allow).0,
    (any-eq-false_iff (covers image_name action) role.deny).0,
  ),
  λ h. ground (
    arith,
    (any_iff (covers image_name action) role.allow).1 h.0,
    (any-eq-false_iff (covers image_name action) role.deny).1 h.1,
  ),
)

module _ (action : Text) where
  no_deny-covers :
      (image_name : Text) (rules : List CompiledRule)
      → any (λ (rule : CompiledRule). has_text action rule.actions) rules ≡ false
      → any (covers image_name action) rules ≡ false
  unfolding covers
  no_deny-covers image_name [] h = refl
  no_deny-covers image_name (r ∷ rs) h = ground (arith, no_deny-covers image_name rs)

-- A rule as `_decide` compiles it: its flag is set only where its pattern matches every name.
abbrev pub IsCompiled : CompiledRule → Type 0
IsCompiled rule = rule.universal ≡ true → (name : Text) → regex_match rule.image name ≡ true

module _ (action image_name : Text) where
  universal-covers :
      (rules : List CompiledRule)
      → All IsCompiled rules
      → any (λ (rule : CompiledRule). rule.universal && has_text action rule.actions) rules ≡ true
      → any (covers image_name action) rules ≡ true
  unfolding covers
  universal-covers [] c h = h
  universal-covers (r ∷ rs) (c, cs) h = elim (Bool-cases r.universal) [
    | inl u ↦ ground (arith, c u image_name, universal-covers rs cs)
    | inr u ↦ ground (arith, universal-covers rs cs)
  ]

  grants_everything-grants :
      (role : RoleRules)
      → All IsCompiled role.allow
      → grants_everything action role ≡ true
      → grants image_name action role ≡ true
  unfolding grants grants_everything
  grants_everything-grants role c h =
      ground (arith, no_deny-covers action image_name role.deny, universal-covers role.allow c)

  any_everything :
      (roles : List RoleRules)
      → All (λ (role : RoleRules). All IsCompiled role.allow) roles
      → any (grants_everything action) roles ≡ true
      → any (grants image_name action) roles ≡ true
  any_everything [] c h = h
  any_everything (r ∷ rs) (c, cs) h =
      ground (arith, grants_everything-grants r c, any_everything rs cs)

  -- With rules compiled as `_decide` does, an action that is covered wholesale is permitted.
  pub covers_all-allows :
      (access : RepoAccess)
      → All (λ (role : RoleRules). All IsCompiled role.allow) access.roles
      → covers_all action access ≡ true
      → repo_allows access image_name action ≡ true
  unfolding covers_all repo_allows
  covers_all-allows access c h = ground (arith, any_everything access.roles c)

  no_allow-grants :
      (role : RoleRules) → has_allow role ≡ false → grants image_name action role ≡ false
  unfolding grants
  no_allow-grants role h = ground arith

  any_no_allow :
      (roles : List RoleRules)
      → any has_allow roles ≡ false
      → any (grants image_name action) roles ≡ false
  any_no_allow [] h = refl
  any_no_allow (r ∷ rs) h = ground (arith, no_allow-grants r, any_no_allow rs)

  -- A user for whom a decided repository blocks everything is refused every action on every image.
  pub blocks_everything-allows :
      (access : RepoAccess)
      → blocks_everything access ≡ true
      → repo_allows access image_name action ≡ false
  unfolding blocks_everything repo_allows
  blocks_everything-allows access h = ground (arith, any_no_allow access.roles)
