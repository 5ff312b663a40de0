-- ===== src/Access/Resolver/Caching.antt =====
-- The cache of decisions changes no answer, and what the bulk questions amount to.
use rotsy.Base.{
  ℕ, ◌≡◌, refl, sym, ap, ◌∙◌, inl, inr, Bool, true, false, Option, none, some, List, [], ◌∷◌, Text,
  text_eq, text_eq_iff, text_key, Dict, lookup, insert, lookup-insert, any, keep_if, keep_if_yes,
  keep_if_no, non_empty, arith, Bool-cases, Option-cases,
}
use rotsy.Access.Rules.{RoleRules, RepoAccess, repo_allows, visible}
use rotsy.Access.Resolver.{
  RoleAccessRule, AccessResolver, mode_unrestricted, split_rules, decide_roles, decide, repo,
  allows, unrestricted_everywhere, visible_repos, filter_by_repo, keeps,
}

-- Every cached decision is the one that would be made now.
pub IsCached : AccessResolver → Type 0
IsCached resolver =
    (name : Text) (access : RepoAccess)
    → lookup name resolver.cache ≡ some access
    → access ≡ decide resolver name

-- The rest of the resolver, on which decisions rest.
abbrev pub SameRules : AccessResolver → AccessResolver → Type 0
SameRules r s = (r.modes ≡ s.modes) × (r.rules_by_role ≡ s.rules_by_role)

decide-SameRules :
    (r s : AccessResolver) (name : Text) → SameRules r s → decide r name ≡ decide s name
unfolding decide
decide-SameRules r s name (m, b) = cc

insert-IsCached :
    (name : Text) (resolver : AccessResolver)
    → IsCached resolver
    → IsCached (record resolver { cache = insert name (decide resolver name) resolver.cache })
unfolding IsCached decide
insert-IsCached name resolver valid other access h =
    let law = lookup-insert name other (decide resolver name) resolver.cache in
    elim (Bool-cases (text_eq name other)) [
      | inl e ↦
          let q : name ≡ other = (text_eq_iff name other).0 e in
          let found : some (decide resolver name) ≡ some access = ground arith in
          let same : decide resolver name ≡ access = cc in sym same ∙ ap (decide resolver) q
      | inr n ↦ valid other access (ground arith)
    ]

-- A cached or a fresh decision: the same access, and the cache stays valid.
record Answers (name : Text) (resolver : AccessResolver) (access : RepoAccess)
    (after : AccessResolver) : Type 0 where
  decided : access ≡ decide resolver name
  valid : IsCached after
  rules : SameRules after resolver

repo-Answers :
    (name : Text) (resolver : AccessResolver)
    → IsCached resolver
    → Answers name resolver (repo name resolver).0 (repo name resolver).1
unfolding repo
repo-Answers name resolver valid = elim (Option-cases (lookup name resolver.cache)) [
  | inr (access, e) ↦
      rw (e, repo)
        (record {
          decided = unfold IsCached in valid name access e;
          valid = valid;
          rules = (refl, refl);
        })
  | inl e ↦
      rw (e, repo)
        (record {
          decided = refl;
          valid = insert-IsCached name resolver valid;
          rules = (refl, refl);
        })
]

SameRules-trans : (r s t : AccessResolver) → SameRules r s → SameRules s t → SameRules r t
SameRules-trans r s t (m, b) (m', b') = (m ∙ m', b ∙ b')

-- A lookup answers as `decide` would on any resolver with the same rules.
module _ (name : Text) (resolver fresh : AccessResolver) (valid : IsCached resolver)
    (same : SameRules resolver fresh) where
  repo-decide : (repo name resolver).0 ≡ decide fresh name
  repo-decide =
      (repo-Answers name resolver valid).decided ∙ decide-SameRules resolver fresh name same

  repo-IsCached : IsCached (repo name resolver).1
  repo-IsCached = (repo-Answers name resolver valid).valid

  repo-SameRules : SameRules (repo name resolver).1 fresh
  repo-SameRules =
      SameRules-trans (repo name resolver).1 resolver fresh (repo-Answers name resolver valid).rules
        same

visible_repos-keep :
    (names : List Text) (resolver fresh : AccessResolver)
    → IsCached resolver
    → SameRules resolver fresh
    → ((visible_repos names resolver).0 ≡ keep_if (λ name. visible (decide fresh name)) names)
      × IsCached (visible_repos names resolver).1
unfolding visible_repos
visible_repos-keep [] resolver fresh valid same = (refl, valid)
visible_repos-keep (name ∷ names) resolver fresh valid same =
    let later =
      visible_repos-keep names (repo name resolver).1 fresh
        (repo-IsCached name resolver fresh valid same)
        (repo-SameRules name resolver fresh valid same) in
    let now = repo-decide name resolver fresh valid same in
    let shows = λ (other : Text). visible (decide fresh other) in
    elim (Bool-cases (visible (decide fresh name))) [
      | inl v ↦ rw (now, v, keep_if_yes shows name names v) (ap (λ l. name ∷ l) later.0, later.1)
      | inr v ↦ rw (now, v, keep_if_no shows name names v) later
    ]

-- A listing is the names that a fresh decision would show, in their order, and the cache stays
-- valid.
pub visible_repos_uncached :
    (names : List Text) (resolver : AccessResolver)
    → IsCached resolver
    → ((visible_repos names resolver).0 ≡ keep_if (λ name. visible (decide resolver name)) names)
      × IsCached (visible_repos names resolver).1
visible_repos_uncached names resolver valid =
    visible_repos-keep names resolver resolver valid (refl, refl)

module _ {Item : Type 0} (repo_of : Item → Option Text) (image_key : Option (Item → Option Text))
    (action : Text) where
  -- What the filter asks of one item, against fresh decisions.
  abbrev pub passes : AccessResolver → Item → Bool
  passes fresh item = elim (non_empty (repo_of item)) [
    | none ↦ false
    | some name ↦ keeps repo_of image_key action item (decide fresh name)
  ]

  passes_unnamed :
      (fresh : AccessResolver) (item : Item)
      → non_empty (repo_of item) ≡ none
      → passes fresh item ≡ false
  passes_unnamed fresh item e = ground arith

  passes_named :
      (fresh : AccessResolver) (item : Item) (name : Text)
      → non_empty (repo_of item) ≡ some name
      → passes fresh item ≡ keeps repo_of image_key action item (decide fresh name)
  passes_named fresh item name e = ground arith

  filter_by_repo-keep :
      (items : List Item) (resolver fresh : AccessResolver)
      → IsCached resolver
      → SameRules resolver fresh
      → ((filter_by_repo repo_of image_key action items resolver).0 ≡ keep_if (passes fresh) items)
        × IsCached (filter_by_repo repo_of image_key action items resolver).1
  unfolding filter_by_repo
  filter_by_repo-keep [] resolver fresh valid same = (refl, valid)
  filter_by_repo-keep (item ∷ items) resolver fresh valid same =
      elim (Option-cases (non_empty (repo_of item))) [
        | inl e ↦
            let skip = keep_if_no (passes fresh) item items (passes_unnamed fresh item e) in
            rw (e, filter_by_repo, skip) (filter_by_repo-keep items resolver fresh valid same)
        | inr (name, e) ↦
            let later =
              filter_by_repo-keep items (repo name resolver).1 fresh
                (repo-IsCached name resolver fresh valid same)
                (repo-SameRules name resolver fresh valid same) in
            let now = repo-decide name resolver fresh valid same in
            elim (Bool-cases (keeps repo_of image_key action item (decide fresh name))) [
              | inl v ↦
                  let kept =
                    keep_if_yes (passes fresh) item items (passes_named fresh item name e ∙ v) in
                  rw (e, filter_by_repo, now, v, kept) (ap (λ l. item ∷ l) later.0, later.1)
              | inr v ↦
                  let skip =
                    keep_if_no (passes fresh) item items (passes_named fresh item name e ∙ v) in
                  rw (e, filter_by_repo, now, v, skip) later
            ]
      ]

  -- Filtering rows by their repositories keeps those that fresh decisions let through, in their
  -- order, and the cache stays valid.
  pub filter_by_repo_uncached :
      (items : List Item) (resolver : AccessResolver)
      → IsCached resolver
      → ((filter_by_repo repo_of image_key action items resolver).0
          ≡ keep_if (passes resolver) items)
        × IsCached (filter_by_repo repo_of image_key action items resolver).1
  filter_by_repo_uncached items resolver valid =
      filter_by_repo-keep items resolver resolver valid (refl, refl)

pub init-IsCached :
    (modes : Dict ℕ Text) (rules_by_role : Dict ℕ (List RoleAccessRule))
    → IsCached (record { modes = modes; rules_by_role = rules_by_role; cache = [] })
unfolding IsCached
init-IsCached modes rules_by_role name access h = cc

unruled_decide :
    (name : Text) (modes : Dict ℕ Text) (acc : List RoleRules)
    → any (λ (entry : ℕ × Text). text_eq entry.1 mode_unrestricted) modes ≡ true
    → (decide_roles [] name modes acc).unrestricted ≡ true
unfolding decide_roles split_rules
unruled_decide name [] acc h = cc
unruled_decide name ((role_id, mode) ∷ modes) acc h = ground (arith, unruled_decide name modes acc)

unruled-unrestricted :
    (rules_by_role : Dict ℕ (List RoleAccessRule)) (modes : Dict ℕ Text)
    (cache : Dict Text RepoAccess) (name : Text)
    → unrestricted_everywhere
        (record { modes = modes; rules_by_role = rules_by_role; cache = cache })
      ≡ true
    → (decide_roles rules_by_role name modes []).unrestricted ≡ true
unfolding unrestricted_everywhere
unruled-unrestricted [] modes cache name h = unruled_decide name modes [] h
unruled-unrestricted (_ ∷ _) modes cache name h = cc

-- With `unrestricted_everywhere` no repository, image or action is ever refused.
pub unrestricted_everywhere-allows :
    (resolver : AccessResolver) (name image_name action : Text)
    → IsCached resolver
    → unrestricted_everywhere resolver ≡ true
    → (allows name image_name action resolver).0 ≡ true
unfolding allows repo_allows decide
unrestricted_everywhere-allows resolver name image_name action valid h =
    let access = repo-decide name resolver resolver valid (refl, refl) in
    rw (
      access,
      repo_allows,
      unruled-unrestricted resolver.rules_by_role resolver.modes resolver.cache name h,
    )
