-- ===== src/Bot/Keyboards.antt =====
-- The keyboards of three screens: `project_detail`, `members_list` and `repos_list` of
-- backend/app/modules/telegram/keyboards.py. A button is the action and the numbers that its string is
-- built of; labels and the split into rows are left out.
use rotsy.Base.{
  ℕ, zero, suc, ◌-◌, ◌≡◌, refl, Bool, true, false, not, ◌&&◌, ◌||◌, Option, none, some, List, [],
  ◌∷◌, ◌++◌, Text, text, text_eq, any, map, ltb, if◌then◌else◌, arith, Bool-cases, inl, inr,
}

pub data Button : Type 0 where
  -- `build(action, ...)`
  tap : Text → List ℕ → Button
  -- `build("back", build(action, ...))`
  back : Text → List ℕ → Button

-- `_nav_row`
abbrev nav_row : Text → ℕ → ℕ → Bool → List Button
nav_row action project_id page more =
    (if ltb 0 page then tap action (project_id ∷ (page - 1) ∷ []) ∷ [] else [])
    ++ (if more then tap action (project_id ∷ suc page ∷ []) ∷ [] else [])

unfoldable pub project_keyboard : ℕ → Bool → Bool → List Button
project_keyboard project_id can_manage_members can_view_repos =
    (if can_manage_members then tap (text "mm") (project_id ∷ []) ∷ [] else [])
    ++ ((if can_view_repos then tap (text "pr") (project_id ∷ 0 ∷ []) ∷ [] else [])
        ++ (back (text "pl") (0 ∷ []) ∷ []))

abbrev member_button : ℕ → ℕ → Button
member_button project_id member_id = tap (text "me") (project_id ∷ member_id ∷ [])

unfoldable pub members_keyboard : ℕ → List ℕ → Bool → List Button
members_keyboard project_id members can_add =
    map (member_button project_id) members
    ++ ((if can_add then tap (text "mc") (project_id ∷ 0 ∷ []) ∷ [] else [])
        ++ (back (text "p") (project_id ∷ []) ∷ []))

-- `r.get("sonar_project_id")` is truthy.
abbrev pub is_connected : Option ℕ → Bool
is_connected none = false
is_connected (some zero) = false
is_connected (some (suc n)) = true

abbrev repo_button : Bool → Option ℕ → Button
repo_button can_run none = tap (text "noop") []
repo_button can_run (some zero) = tap (text "noop") []
repo_button can_run (some (suc n)) =
    if can_run then tap (text "ra") (suc n ∷ []) else tap (text "noop") []

-- The rows of a page, each with the id of its Sonar project, if it has one.
unfoldable pub repos_keyboard : ℕ → List (Option ℕ) → ℕ → Bool → Bool → List Button
repos_keyboard project_id repos page more can_run =
    map (repo_button can_run) repos
    ++ (nav_row (text "pr") project_id page more ++ (back (text "p") (project_id ∷ []) ∷ []))

-- Whether a tap on one of the buttons starts the action.
abbrev pub starts : Text → Button → Bool
starts action (tap a args) = text_eq a action
starts action (back a args) = false

abbrev pub offers : Text → List Button → Bool
offers action buttons = any (starts action) buttons

offers-append :
    (action : Text) (xs ys : List Button)
    → offers action (xs ++ ys) ≡ (offers action xs || offers action ys)
offers-append action [] ys = refl
offers-append action (x ∷ xs) ys = ground (arith, offers-append action xs ys)

abbrev pub is_empty : {A : Type 0} → List A → Bool
is_empty [] = true
is_empty (x ∷ xs) = false

pub project_keyboard-mm :
    (p : ℕ) (can view : Bool) → offers (text "mm") (project_keyboard p can view) ≡ can
unfolding project_keyboard
project_keyboard-mm p true true = refl
project_keyboard-mm p true false = refl
project_keyboard-mm p false true = refl
project_keyboard-mm p false false = refl

no_member-mc : (p : ℕ) (ids : List ℕ) → offers (text "mc") (map (member_button p) ids) ≡ false
no_member-mc p [] = refl
no_member-mc p (id ∷ ids) = no_member-mc p ids

member-me :
    (p : ℕ) (ids : List ℕ) → offers (text "me") (map (member_button p) ids) ≡ not (is_empty ids)
member-me p [] = refl
member-me p (id ∷ ids) = refl

pub members_keyboard-mc :
    (p : ℕ) (ids : List ℕ) (can : Bool) → offers (text "mc") (members_keyboard p ids can) ≡ can
unfolding members_keyboard
members_keyboard-mc p ids true =
    rw
      (
        offers-append (text "mc") (map (member_button p) ids)
            (tap (text "mc") (p ∷ 0 ∷ []) ∷ back (text "p") (p ∷ []) ∷ []),
        no_member-mc p ids,
      )
      refl
members_keyboard-mc p ids false =
    rw
      (
        offers-append (text "mc") (map (member_button p) ids) (back (text "p") (p ∷ []) ∷ []),
        no_member-mc p ids,
      )
      refl

pub members_keyboard-me :
    (p : ℕ) (ids : List ℕ) (can : Bool)
    → offers (text "me") (members_keyboard p ids can) ≡ not (is_empty ids)
unfolding members_keyboard
members_keyboard-me p [] true = refl
members_keyboard-me p [] false = refl
members_keyboard-me p (id ∷ ids) can = refl

repo-ra :
    (can : Bool) (repos : List (Option ℕ))
    → offers (text "ra") (map (repo_button can) repos) ≡ (can && any is_connected repos)
repo-ra true [] = refl
repo-ra false [] = refl
repo-ra can (none ∷ repos) = repo-ra can repos
repo-ra can (some zero ∷ repos) = repo-ra can repos
repo-ra true (some (suc n) ∷ repos) = refl
repo-ra false (some (suc n) ∷ repos) = repo-ra false repos

no_nav-ra :
    (p page : ℕ) (more : Bool)
    → offers (text "ra") (nav_row (text "pr") p page more ++ (back (text "p") (p ∷ []) ∷ []))
      ≡ false
no_nav-ra p page true = elim (Bool-cases (ltb 0 page)) [ inl e ↦ rw e refl | inr e ↦ rw e refl ]
no_nav-ra p page false = elim (Bool-cases (ltb 0 page)) [ inl e ↦ rw e refl | inr e ↦ rw e refl ]

or_false : (b : Bool) → (b || false) ≡ b
or_false b = ground arith

pub repos_keyboard-ra :
    (p : ℕ) (repos : List (Option ℕ)) (page : ℕ) (more can : Bool)
    → offers (text "ra") (repos_keyboard p repos page more can) ≡ (can && any is_connected repos)
unfolding repos_keyboard
repos_keyboard-ra p repos page more can =
    rw
      (
        offers-append (text "ra") (map (repo_button can) repos)
            (nav_row (text "pr") p page more ++ (back (text "p") (p ∷ []) ∷ [])),
        no_nav-ra p page more,
        repo-ra can repos,
      )
      (or_false (can && any is_connected repos))
