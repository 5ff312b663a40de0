-- ===== src/Access/Resolver.antt =====
-- `AccessResolver` and `load_access` of backend/app/core/access_control.py. The two database
-- tables are lists of rows; a resolver carries the cache of the repositories it has decided.
pub mod Decision
pub mod Caching
pub mod Coverage
pub mod Loading
use rotsy.Base.{
  ℕ, Bool, true, false, not, ◌&&◌, ◌||◌, Option, none, some, List, [], ◌∷◌, ◌++◌, map, Text, text,
  text_eq, text_key, nat_eq, Dict, lookup, insert, if◌then◌else◌, ◌==◌, any, keep_if, non_empty,
}
use rotsy.Access.Glob.{compile_pattern, matches, is_universal}
use rotsy.Access.Rules.{
  CompiledRule, RoleRules, RepoAccess, parse_actions, repo_allows, visible, named_and,
}

abbrev pub deny : Text
deny = text "deny"

abbrev pub mode_unrestricted : Text
mode_unrestricted = text "unrestricted"

-- The columns of a `RoleAccessRule` row.
pub record RoleAccessRule : Type 0 where
  pub id : ℕ
  pub role_id : ℕ
  pub effect : Text
  pub repo_pattern : Text
  pub image_pattern : Text
  pub actions : Option Text

pub record Role : Type 0 where
  pub id : ℕ
  pub access_mode : Text

pub record AccessResolver : Type 0 where
  pub modes : Dict ℕ Text
  pub rules_by_role : Dict ℕ (List RoleAccessRule)
  pub cache : Dict Text RepoAccess

-- `{role.id: role.access_mode for role in user.roles}`
unfoldable pub role_modes : Dict ℕ Text → List Role → Dict ℕ Text
role_modes modes [] = modes
role_modes modes (role ∷ roles) = role_modes (insert role.id role.access_mode modes) roles

unfoldable pub init : List Role → Dict ℕ (List RoleAccessRule) → AccessResolver
unfolding role_modes
init roles rules_by_role = record {
  modes = role_modes [] roles;
  rules_by_role = rules_by_role;
  cache = [];
}

unfoldable pub compile_rule : RoleAccessRule → CompiledRule
compile_rule rule = record {
  image = compile_pattern rule.image_pattern;
  actions = parse_actions rule.actions;
  universal = is_universal rule.image_pattern;
}

-- The inner loop of `_decide`: one role's rules that speak of the repository.
unfoldable pub split_rules : Text → List RoleAccessRule → RoleRules
unfolding compile_rule
split_rules repo [] = record { allow = []; deny = [] }
split_rules repo (rule ∷ rules) =
    let rest = split_rules repo rules in
    if matches rule.repo_pattern repo
    then (if text_eq rule.effect deny
        then record rest { deny = compile_rule rule ∷ rest.deny }
        else record rest { allow = compile_rule rule ∷ rest.allow })
    else rest

-- `not allow and not deny`
abbrev pub is_silent : RoleRules → Bool
is_silent role = elim role.allow [
  | [] ↦ elim role.deny [ [] ↦ true | _ ∷ _ ↦ false ]
  | _ ∷ _ ↦ false
]

abbrev pub rules_of : Dict ℕ (List RoleAccessRule) → ℕ → List RoleAccessRule
rules_of rules_by_role role_id = elim (lookup role_id rules_by_role) [
  | none ↦ []
  | some rules ↦ rules
]

-- The outer loop of `_decide`, over the entries of `self._modes`.
unfoldable pub decide_roles :
    Dict ℕ (List RoleAccessRule) → Text → Dict ℕ Text → List RoleRules → RepoAccess
decide_roles rules_by_role repo [] role_rules = record {
  repo = repo;
  unrestricted = false;
  roles = role_rules;
}
decide_roles rules_by_role repo ((role_id, mode) ∷ modes) role_rules =
    let role = split_rules repo (rules_of rules_by_role role_id) in
    let skipped = decide_roles rules_by_role repo modes role_rules in
    let added = decide_roles rules_by_role repo modes (role_rules ++ role ∷ []) in
    if is_silent role
    then (if text_eq mode mode_unrestricted
        then record { repo = repo; unrestricted = true; roles = [] }
        else skipped)
    else added

unfoldable pub decide : AccessResolver → Text → RepoAccess
unfolding decide_roles
decide resolver name = decide_roles resolver.rules_by_role name resolver.modes []

-- `AccessResolver.repo`: the decision, and the resolver with its cache.
unfoldable pub repo : Text → AccessResolver → RepoAccess × AccessResolver
repo name resolver = elim (lookup name resolver.cache) [
  | some decided ↦ (decided, resolver)
  | none ↦
      let decided = decide resolver name in
      (decided, record resolver { cache = insert name decided resolver.cache })
]

unfoldable pub allows : Text → Text → Text → AccessResolver → Bool × AccessResolver
unfolding repo
allows name image_name action resolver =
    let (access, resolver') = repo name resolver in
    (repo_allows access image_name action, resolver')

unfoldable pub unrestricted_everywhere : AccessResolver → Bool
unrestricted_everywhere resolver = elim resolver.rules_by_role [
  | [] ↦ any (λ (entry : ℕ × Text). text_eq entry.1 mode_unrestricted) resolver.modes
  | _ ∷ _ ↦ false
]

unfoldable pub visible_repos : List Text → AccessResolver → List Text × AccessResolver
visible_repos [] resolver = ([], resolver)
visible_repos (name ∷ names) resolver =
    let (access, resolver') = repo name resolver in
    let (kept, resolver'') = visible_repos names resolver' in
    ((if visible access then name ∷ kept else kept), resolver'')

-- `filter_by_repo`. The items are read by two functions; `image_key` may be left out.
module _ {Item : Type 0} (repo_of : Item → Option Text) where
  abbrev pub keeps : Option (Item → Option Text) → Text → Item → RepoAccess → Bool
  keeps none action item access = visible access
  keeps (some image_of) action item access =
      named_and (λ name. repo_allows access name action) (image_of item)

  unfoldable pub filter_by_repo :
      Option (Item → Option Text) → Text → List Item → AccessResolver → List Item × AccessResolver
  filter_by_repo image_key action [] resolver = ([], resolver)
  filter_by_repo image_key action (item ∷ items) resolver = elim (non_empty (repo_of item)) [
    | none ↦ filter_by_repo image_key action items resolver
    | some name ↦
        let (access, resolver') = repo name resolver in
        let (kept, resolver'') = filter_by_repo image_key action items resolver' in
        ((if keeps image_key action item access then item ∷ kept else kept), resolver'')
  ]

-- `rules_by_role.setdefault(rule.role_id, []).append(rule)` for each row of the query.
unfoldable pub group_rules :
    Dict ℕ (List RoleAccessRule) → List RoleAccessRule → Dict ℕ (List RoleAccessRule)
group_rules rules_by_role [] = rules_by_role
group_rules rules_by_role (rule ∷ rows) =
    group_rules
      (insert rule.role_id (rules_of rules_by_role rule.role_id ++ rule ∷ []) rules_by_role) rows

-- `load_access`: `where role_id in role_ids` on the table of rules.
unfoldable pub load_access : List Role → List RoleAccessRule → AccessResolver
unfolding group_rules init
load_access roles table =
    let wanted = λ (rule : RoleAccessRule). any (λ (role : Role). role.id == rule.role_id) roles in
    init roles (elim roles [ [] ↦ [] | _ ∷ _ ↦ group_rules [] (keep_if wanted table) ])
