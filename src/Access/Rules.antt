-- ===== src/Access/Rules.antt =====
-- Stored actions, compiled rules and one repository's decided access: `parse_actions`,
-- `format_actions`, `_CompiledRule`, `_RoleRules` and `RepoAccess` of
-- backend/app/core/access_control.py. A set of actions is a list, read by `has_text` alone.
pub mod Actions
pub mod Scope
use rotsy.Base.{
  ℕ, Bool, true, false, not, ◌&&◌, ◌||◌, Option, none, some, List, [], ◌∷◌, Text, text,
  if◌then◌else◌, any, keep_if, has_text, non_empty, strip, split_on, join_with, map,
}
use rotsy.Access.Glob.{Piece, regex_match}

abbrev pub read : Text
read = text "read"

abbrev pub scan : Text
scan = text "scan"

abbrev pub delete : Text
delete = text "delete"

abbrev pub actions : List Text
actions = read ∷ scan ∷ delete ∷ []

abbrev comma : Text
comma = text ","

-- The database column may be null; `""` splits to one empty name, which is unknown.
unfoldable pub parse_actions : Option Text → List Text
unfolding split_on strip
parse_actions none = []
parse_actions (some []) = []
parse_actions (some (c ∷ raw)) =
    keep_if (λ a. has_text a actions) (map strip (split_on b',' (c ∷ raw)))

unfoldable pub format_actions : List Text → Text
unfolding join_with
format_actions given =
    let known = keep_if (λ a. has_text a actions) given in
    join_with comma (keep_if (λ a. has_text a known) actions)

pub record CompiledRule : Type 0 where
  pub image : List Piece
  pub actions : List Text
  pub universal : Bool

unfoldable pub covers : Text → Text → CompiledRule → Bool
covers image_name action rule = has_text action rule.actions && regex_match rule.image image_name

pub record RoleRules : Type 0 where
  pub allow : List CompiledRule
  pub deny : List CompiledRule

unfoldable pub grants : Text → Text → RoleRules → Bool
grants image_name action role =
    if any (covers image_name action) role.deny
    then false
    else any (covers image_name action) role.allow

unfoldable pub grants_everything : Text → RoleRules → Bool
grants_everything action role =
    if any (λ (rule : CompiledRule). has_text action rule.actions) role.deny
    then false
    else any (λ (rule : CompiledRule). rule.universal && has_text action rule.actions) role.allow

pub record RepoAccess : Type 0 where
  pub repo : Text
  pub unrestricted : Bool
  pub roles : List RoleRules

-- `RepoAccess.allows`
unfoldable pub repo_allows : RepoAccess → Text → Text → Bool
repo_allows access image_name action =
    if access.unrestricted then true else any (grants image_name action) access.roles

abbrev pub has_allow : RoleRules → Bool
has_allow role = elim role.allow [ [] ↦ false | _ ∷ _ ↦ true ]

unfoldable pub blocks_everything : RepoAccess → Bool
blocks_everything access = not access.unrestricted && not (any has_allow access.roles)

unfoldable pub visible : RepoAccess → Bool
unfolding blocks_everything
visible access = not (blocks_everything access)

unfoldable pub covers_all : Text → RepoAccess → Bool
covers_all action access =
    if access.unrestricted then true else any (grants_everything action) access.roles

-- `name and test(name)`
abbrev pub named_and : (Text → Bool) → Option Text → Bool
named_and test name = elim (non_empty name) [ none ↦ false | some given ↦ test given ]

-- `RepoAccess.filter`; `read_name` is the callable, or the reading of the key.
module _ {ℓ} {Item : Type ℓ} where
  unfoldable pub filter : RepoAccess → (Item → Option Text) → Text → List Item → List Item
  filter access read_name action items =
      if access.unrestricted
      then items
      else keep_if (λ item. named_and (λ name. repo_allows access name action) (read_name item))
          items
