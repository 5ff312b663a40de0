-- ===== src/Bot/Dispatch.antt =====
-- From an update to a handler: `_dispatch`, `_handle_start`, `_handle_callback` and `handle_update` of
-- dispatcher.py, and `linked_user` of auth.py. A `back` button carries another callback string, so that
-- `_dispatch` calls itself; the model counts its calls.
use rotsy.Base.{
  ℕ, zero, suc, Bool, false, not, Option, none, some, List, [], ◌∷◌, Text, text, text_eq, ◌==◌,
  if◌then◌else◌,
}
use rotsy.Projects.{User, Refusal, refused, done}
use rotsy.Bot.{Callback, parse, joined, int_arg, role_arg}
use rotsy.Bot.Handlers.{
  ℤ, pos, negsuc, Account, Link, World, Screen, Shown, is_panel_admin, projects_list_of,
  project_detail_of, members_list_of, candidates_list_of, pick_candidate, confirm_add,
  show_member_actions, role_picker_for_existing, change_role, confirm_remove_prompt, do_remove,
  repos_list_of, run_analysis, admin_home_of, admin_links_list_of, admin_unlink_prompt,
  admin_unlink_confirmed, show_main_menu,
}

-- What a dispatch ends in: no more calls, a CallbackDataError, or what the handler answers.
pub data Outcome : Type 0 where
  out_of_calls : Outcome
  bad_callback : Outcome
  answered : Shown → Outcome

-- The handler of an action that takes ids and a role from the callback.
pub data Handler : Type 0 where
  plain : (World → Shown) → Handler
  with_id : (ℕ → World → Shown) → Handler
  with_ids : (ℕ → ℕ → World → Shown) → Handler
  with_role : (ℕ → ℕ → Text → World → Shown) → Handler

module _ (read_int : Text → Option ℕ) where
  -- The arguments of the handler; one that is missing or cannot be read is a CallbackDataError.
  unfoldable pub call : Callback → World → Handler → Outcome
  call cb w (plain f) = answered (f w)
  call cb w (with_id f) = elim (int_arg read_int 0 cb) [
    | none ↦ bad_callback
    | some a ↦ answered (f a w)
  ]
  call cb w (with_ids f) = elim (int_arg read_int 0 cb) [
    | none ↦ bad_callback
    | some a ↦ elim (int_arg read_int 1 cb) [ none ↦ bad_callback | some b ↦ answered (f a b w) ]
  ]
  call cb w (with_role f) = elim (int_arg read_int 0 cb) [
    | none ↦ bad_callback
    | some a ↦ elim (int_arg read_int 1 cb) [
      | none ↦ bad_callback
      | some b ↦ elim (role_arg 2 cb) [ none ↦ bad_callback | some role ↦ answered (f a b role w) ]
    ]
  ]

-- The branches of `_dispatch`, but for `back`.
abbrev pub handlers : User → Bool → Bool → List (Text × Handler)
handlers user allowed has_head =
    (text "pl", with_id (projects_list_of user))
    ∷ (text "p", with_id (project_detail_of user))
    ∷ (text "mm", with_id (members_list_of user))
    ∷ (text "mc", with_ids (candidates_list_of user))
    ∷ (text "ma", with_ids (pick_candidate user))
    ∷ (text "mr", with_role (confirm_add user))
    ∷ (text "me", with_ids (show_member_actions user))
    ∷ (text "mu_pick", with_ids (role_picker_for_existing user))
    ∷ (text "mu", with_role (change_role user))
    ∷ (text "md", with_ids (confirm_remove_prompt user))
    ∷ (text "mdc", with_ids (do_remove user))
    ∷ (text "pr", with_ids (repos_list_of user))
    ∷ (text "ra", with_id (run_analysis user allowed has_head))
    ∷ (text "mn", plain (show_main_menu user))
    ∷ (text "ad", plain (admin_home_of user))
    ∷ (text "adl", with_id (admin_links_list_of user))
    ∷ (text "adu", with_id (admin_unlink_prompt user))
    ∷ (text "aduc", with_id (admin_unlink_confirmed user))
    ∷ []

abbrev pub handler_of : Text → List (Text × Handler) → Option Handler
handler_of action [] = none
handler_of action ((name, h) ∷ rest) =
    if text_eq action name then some h else handler_of action rest

module _ (read_int : Text → Option ℕ) (allowed has_head : Bool) where
  unfoldable pub dispatch : ℕ → User → Callback → World → Outcome
  unfolding call
  dispatch zero user cb w = out_of_calls
  dispatch (suc calls) user cb w = elim (handler_of cb.action (handlers user allowed has_head)) [
    | some h ↦ call read_int cb w h
    | none ↦
        if text_eq cb.action (text "back")
        then elim (parse (joined cb.args)) [
          | none ↦ bad_callback
          | some inner ↦ dispatch calls user inner w
        ]
        else bad_callback
  ]

abbrev pub same_chat : ℤ → ℤ → Bool
same_chat (pos a) (pos b) = a == b
same_chat (negsuc a) (negsuc b) = a == b
same_chat a b = false

abbrev pub find_chat : ℤ → List Link → Option Link
find_chat chat_id [] = none
find_chat chat_id (link ∷ links) =
    if same_chat link.chat_id chat_id then some link else find_chat chat_id links

abbrev pub find_account : ℕ → List Account → Option Account
find_account id [] = none
find_account id (account ∷ accounts) =
    if account.user.id == id then some account else find_account id accounts

unfoldable pub linked_user : ℤ → World → Option User
linked_user chat_id w = elim (find_chat chat_id w.links) [
  | none ↦ none
  | some link ↦ elim (find_account link.user_id w.accounts) [
    | none ↦ none
    | some account ↦ if account.is_active then some account.user else none
  ]
]

-- What the chat is answered.
pub data Said : Type 0 where
  nothing : Said
  acknowledged : Said
  not_linked : Said
  menu : Bool → Said
  shown : Screen → Said
  warned : Refusal → Said
  invalid_button : Said

-- The answer and the tables after an outcome; what raises changes nothing.
abbrev pub told : World → Outcome → Option (Said × World)
told w out_of_calls = none
told w bad_callback = some (invalid_button, w)
told w (answered (refused why)) = some (warned why, w)
told w (answered (done (screen, after))) = some (shown screen, after)

-- A tap on a button and a message, as far as they are read.
pub data Update : Type 0 where
  callback_query : ℤ → Text → Update
  message : ℤ → Text → Update
  other : Update

unfoldable pub handle_start : ℤ → Text → World → Said
unfolding linked_user
handle_start chat_id chat_type w =
    if not (text_eq chat_type (text "private"))
    then nothing
    else elim (linked_user chat_id w) [ none ↦ not_linked | some user ↦ menu (is_panel_admin user) ]

module _ (read_int : Text → Option ℕ) (allowed has_head : Bool) where
  -- `none` where the calls do not suffice.
  unfoldable pub handle_callback : ℕ → ℤ → Text → World → Option (Said × World)
  unfolding linked_user parse
  handle_callback calls chat_id given w =
      if text_eq given (text "noop") then some (acknowledged, w) else elim (linked_user chat_id w) [
        | none ↦ some (not_linked, w)
        | some user ↦ elim (parse given) [
          | none ↦ some (invalid_button, w)
          | some cb ↦ told w (dispatch read_int allowed has_head calls user cb w)
        ]
      ]

  unfoldable pub handle_update : ℕ → Update → World → Option (Said × World)
  unfolding handle_callback handle_start
  handle_update calls (callback_query chat_id given) w = handle_callback calls chat_id given w
  handle_update calls (message chat_id chat_type) w = some (handle_start chat_id chat_type w, w)
  handle_update calls other w = some (nothing, w)
