-- ===== src/Bot/Tests.antt =====
-- Taps in a small installation, and the theorems at concrete ones.
use rotsy.Base.{
  ℕ, ◌-◌, ◌≡◌, ◌≢◌, refl, true, false, Option, none, some, List, [], ◌∷◌, Text, text, length,
  split_on, join_with, arith,
}
use rotsy.Projects.{
  User, ProjectMember, forbidden, done, is_global_admin, get_membership, role_rank, meets,
  assert_project_access, assert_project_permission, assert_can_manage_members,
}
use rotsy.Projects.Members.{Db}
use rotsy.Projects.Reachable.{HasAdmins}
use rotsy.Bot.{parse, build, int_arg}
use rotsy.Bot.Handlers.{
  ℤ, pos, negsuc, Link, World, project_detail, do_remove, require_read, is_at_least, get_project,
  project_detail_of, members_list_of, repos_list_of, show_member_actions,
}
use rotsy.Bot.Dispatch.{
  call, dispatch, linked_user, not_linked, warned, handle_callback, handle_update, callback_query,
  message,
}
use rotsy.Bot.Links.{Linked, create_link, delete_link}
use rotsy.Bot.Tapped.{ByLinked, IfTold, handle_callback-ByLinked, handle_callback-HasAdmins}
use rotsy.Bot.RoundTrip.{parse-build, handle_callback-answers}
use rotsy.Bot.Shown.{ButtonsAgree, screens-ButtonsAgree}
use rotsy.Bot.Private.{IfLinked, links-IfLinked, LeavesAlone, handle_update-LeavesAlone}

-- The number of a text of one digit.
abbrev read_digit : Text → Option ℕ
read_digit [] = none
read_digit (c ∷ []) = some (c - 48)
read_digit (c ∷ d ∷ s) = none

abbrev both_permissions : List Text
both_permissions = text "projects:read" ∷ text "projects:write" ∷ []

abbrev alice : User
alice = record { id = 1; role_names = []; permissions = both_permissions }

abbrev bob : User
bob = record { id = 2; role_names = []; permissions = both_permissions }

abbrev row : ℕ → ℕ → Text → ProjectMember
row id user_id role = record { id = id; project_id = 7; user_id = user_id; project_role = role }

abbrev db : Db
db = record {
  projects = 7 ∷ [];
  users = 1 ∷ 2 ∷ 3 ∷ [];
  members = row 4 1 (text "admin") ∷ row 5 2 (text "member") ∷ [];
  next_id = 6;
  next_project = 8;
}

abbrev link : ℕ → ℕ → ℤ → Link
link id user_id chat_id = record { id = id; user_id = user_id; chat_id = chat_id }

abbrev world : World
world = record {
  db = db;
  links = link 1 1 (pos 100) ∷ link 2 2 (pos 200) ∷ [];
  accounts =
      record { user = alice; is_active = true } ∷ record { user = bob; is_active = true } ∷ [];
  sonar_projects = record { id = 9; project_id = 7 } ∷ [];
  analyses = [];
}

-- The last admin cannot be removed by a button, and a member removes nobody.
last_admin_stays :
    handle_callback read_digit true true 4 (pos 200) (text "back:mdc:7:5") world
    ≡ some (warned forbidden, world)
unfolding handle_callback linked_user parse split_on join_with dispatch call int_arg do_remove
    assert_can_manage_members assert_project_permission assert_project_access is_global_admin
    get_membership meets role_rank
last_admin_stays = refl

strangers_are_told :
    handle_callback read_digit true true 4 (pos 300) (text "mn") world ≡ some (not_linked, world)
unfolding handle_callback linked_user
strangers_are_told = refl

detail_of_member :
    project_detail_of bob 7 world ≡ done (project_detail 7 (some (text "member")) false, world)
unfolding project_detail_of require_read is_at_least get_project assert_project_access
    is_global_admin get_membership meets role_rank
detail_of_member = refl

handle_callback-ByLinked_example :
    IfTold
      (ByLinked (pos 100) world)
      (handle_callback read_digit true true 4 (pos 100) (text "mdc:7:5") world)
handle_callback-ByLinked_example =
    handle_callback-ByLinked read_digit true true 4 (pos 100) (text "mdc:7:5") world

world-HasAdmins : HasAdmins world.db
world-HasAdmins = (omega arith, tt)

handle_callback-HasAdmins_example :
    IfTold
      (λ left. HasAdmins left.db)
      (handle_callback read_digit true true 4 (pos 100) (text "mdc:7:4") world)
handle_callback-HasAdmins_example =
    handle_callback-HasAdmins read_digit true true 4 (pos 100) (text "mdc:7:4") world
      world-HasAdmins

handle_callback-answers_example :
    handle_callback read_digit true true
      (length (split_on 58 (text "back:back:mn")))
      (pos 100)
      (text "back:back:mn")
      world
    ≢ none
handle_callback-answers_example =
    handle_callback-answers read_digit true true (pos 100) (text "back:back:mn") world

role_button : build (text "mr") (text "7" ∷ text "3" ∷ text "v" ∷ []) ≡ some (text "mr:7:3:v")
unfolding build join_with
role_button = refl

parse-build_example :
    parse (text "mr:7:3:v")
    ≡ some (record { action = text "mr"; args = text "7" ∷ text "3" ∷ text "v" ∷ [] })
parse-build_example =
    parse-build 109 (text "r") (text "mr:7:3:v") (text "7" ∷ text "3" ∷ text "v" ∷ [])
      ((refl, (refl, tt)), ((refl, tt), ((refl, tt), ((refl, tt), tt)))) role_button

-- The button of a member, which every viewer of the list has, is refused to a member.
member_button_refused :
    handle_callback read_digit true true 4 (pos 200) (text "me:7:4") world
    ≡ some (warned forbidden, world)
unfolding handle_callback linked_user parse split_on join_with dispatch call int_arg
    show_member_actions assert_can_manage_members assert_project_permission assert_project_access
    is_global_admin get_membership meets role_rank
member_button_refused = refl

screens-ButtonsAgree_example :
    ButtonsAgree bob world (some 3 ∷ none ∷ []) true (project_detail_of bob 7 world)
    × ButtonsAgree bob world (some 3 ∷ none ∷ []) true (members_list_of bob 7 world)
    × ButtonsAgree bob world (some 3 ∷ none ∷ []) true (repos_list_of bob 7 0 world)
screens-ButtonsAgree_example = screens-ButtonsAgree bob world (some 3 ∷ none ∷ []) true 7 0

abbrev linked : Linked
linked = record { users = 1 ∷ 2 ∷ []; links = link 1 1 (pos 100) ∷ []; next_link = 2 }

links-IfLinked_example : IfLinked (create_link 2 (pos 200) linked) × IfLinked (delete_link 1 linked)
links-IfLinked_example = links-IfLinked 2 1 (pos 200) linked (refl, tt, tt)

handle_update-LeavesAlone_example :
    LeavesAlone world
      (handle_update read_digit true true 4 (callback_query (negsuc 5) (text "mdc:7:5")) world)
    × LeavesAlone world
        (handle_update read_digit true true 4 (message (negsuc 5) (text "group")) world)
handle_update-LeavesAlone_example =
    handle_update-LeavesAlone read_digit true true 4 (negsuc 5) (text "mdc:7:5") (text "group")
      world (refl, ((refl, refl), tt), (refl, tt, tt)) refl
