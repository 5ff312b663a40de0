-- ===== src/Access/Tests.antt =====
-- Runs of the access rules, and each theorem about them at a concrete policy.
use rotsy.Base.{ℕ, ◌≡◌, refl, ◌↔◌, true, false, Option, some, List, [], ◌∷◌, Text, text, Any, arith}
use rotsy.Access.Glob.{Piece, compile_pattern, regex_match, run_match, matches}
use rotsy.Access.Glob.Denotes.{Denotes}
use rotsy.Access.Glob.Readings.{Reads, matches_iff_Reads}
use rotsy.Access.Rules.{read, scan, parse_actions, grants, covers, repo_allows}
use rotsy.Access.Resolver.{
  RoleAccessRule, Role, AccessResolver, rules_of, decide, allows, load_access, decide_roles,
  split_rules, compile_rule, init, group_rules, role_modes, repo,
}
use rotsy.Access.Resolver.Decision.{RoleGrants, decide-allows_iff}
use rotsy.Access.Resolver.Caching.{IsCached, init-IsCached}
use rotsy.Access.Resolver.Loading.{Granted, load_access-allows_iff}

abbrev rule : ℕ → ℕ → Text → Text → Text → Text → RoleAccessRule
rule id role_id effect repo_pattern image_pattern given = record {
  id = id;
  role_id = role_id;
  effect = effect;
  repo_pattern = repo_pattern;
  image_pattern = image_pattern;
  actions = some given;
}

-- Developers may read and scan everything of the team but its secrets; the second role is closed.
abbrev table : List RoleAccessRule
table =
    rule 1 1 (text "allow") (text "team-*") (text "**") (text "read,scan")
    ∷ rule 2 1 (text "deny") (text "team-*") (text "secret/**") (text "read, scan,delete")
    ∷ rule 3 7 (text "allow") (text "**") (text "**") (text "delete")
    ∷ []

abbrev roles : List Role
roles =
    record { id = 1; access_mode = text "scoped" }
    ∷ record { id = 2; access_mode = text "scoped" }
    ∷ []

abbrev modes : List (ℕ × Text)
modes = (1, text "scoped") ∷ (2, text "restricted") ∷ []

abbrev resolver : AccessResolver
resolver = record { modes = modes; rules_by_role = (1, table) ∷ []; cache = [] }

-- A role with a rule for all images, and no deny.
abbrev wide : AccessResolver
wide = record {
  modes = modes;
  rules_by_role =
      (1, rule 1 1 (text "allow") (text "team-*") (text "**") (text "read,scan") ∷ []) ∷ [];
  cache = [];
}

-- Two roles, one of them open, and no rule at all.
abbrev open_modes : List (ℕ × Text)
open_modes = (1, text "scoped") ∷ (2, text "unrestricted") ∷ []

abbrev open_resolver : AccessResolver
open_resolver = record { modes = open_modes; rules_by_role = []; cache = [] }

allows_team : (allows (text "team-a") (text "app:1") read (load_access roles table)).0 ≡ true
unfolding allows repo load_access init role_modes group_rules decide decide_roles split_rules
    compile_rule repo_allows grants covers matches regex_match run_match compile_pattern
    parse_actions
allows_team = refl

refuses_secret :
    (allows (text "team-a") (text "secret/key:1") read (load_access roles table)).0 ≡ false
unfolding allows repo load_access init role_modes group_rules decide decide_roles split_rules
    compile_rule repo_allows grants covers matches regex_match run_match compile_pattern
    parse_actions
refuses_secret = refl

load_access-allows_iff_example :
    ((allows (text "team-a") (text "app:1") read (load_access roles table)).0 ≡ true)
    ↔ Any (Granted (text "team-a") (text "app:1") read table) roles
load_access-allows_iff_example =
    load_access-allows_iff (text "team-a") (text "app:1") read table roles
      (((λ e. omega arith), tt), (tt, tt))

decide-allows_iff_example :
    (repo_allows (decide resolver (text "team-a")) (text "secret/key:1") scan ≡ true)
    ↔ Any
        (λ (entry : ℕ × Text).
          RoleGrants
            (text "team-a")
            (text "secret/key:1")
            scan
            entry.1
            (rules_of resolver.rules_by_role entry.0))
        resolver.modes
decide-allows_iff_example = decide-allows_iff resolver (text "team-a") (text "secret/key:1") scan

resolver-IsCached : IsCached resolver
resolver-IsCached = init-IsCached modes ((1, table) ∷ [])

abbrev rows : List (Text × Text)
rows =
    (text "team-a", text "app:1")
    ∷ (text "team-a", text "secret/key:1")
    ∷ (text "other", text "x:1")
    ∷ []

abbrev repo_of : Text × Text → Option Text
repo_of row = some row.0

abbrev image_of : Option (Text × Text → Option Text)
image_of = some (λ row. some row.1)

matches_iff_Reads_example :
    (matches (text "***a?") (text "x/ab") ≡ true)
    ↔ ((ps : List Piece) × Reads (text "***a?") ps × Denotes ps (text "x/ab"))
matches_iff_Reads_example = matches_iff_Reads (text "***a?") (text "x/ab")
