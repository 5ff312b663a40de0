-- ===== src/Bot/Links.antt =====
-- The links of accounts to chats: `create_link`, `delete_link` and the check of the chat id of
-- backend/app/routers/telegram.py. The two unique constraints of the table refuse what the checks before
-- them would.
use rotsy.Base.{ℕ, suc, Bool, false, none, some, List, [], ◌∷◌, ◌++◌, any, leb, ◌==◌, if◌then◌else◌}
use rotsy.Projects.{Answer, refused, done, not_found, conflict, bad_request}
use rotsy.Bot.Handlers.{ℤ, pos, negsuc, Link, find_link, delete_link_row, has_row}
use rotsy.Bot.Dispatch.{same_chat}

-- The users and the links, with the next id.
pub record Linked : Type 0 where
  pub users : List ℕ
  pub links : List Link
  pub next_link : ℕ

-- `_chat_id_must_be_private`
abbrev pub is_private_chat : ℤ → Bool
is_private_chat (pos chat_id) = leb 1 chat_id
is_private_chat (negsuc chat_id) = false

unfoldable pub create_link : ℕ → ℤ → Linked → Answer Linked
create_link user_id chat_id db =
    if is_private_chat chat_id
    then (if has_row user_id db.users
        then (if any (λ (link : Link). link.user_id == user_id) db.links
            then refused conflict
            else if any (λ (link : Link). same_chat link.chat_id chat_id) db.links
            then refused conflict
            else done (record db {
              links =
                  db.links
                  ++ (record { id = db.next_link; user_id = user_id; chat_id = chat_id } ∷ []);
              next_link = suc db.next_link;
            }))
        else refused not_found)
    else refused bad_request

unfoldable pub delete_link : ℕ → Linked → Answer Linked
delete_link link_id db = elim (find_link link_id db.links) [
  | none ↦ refused not_found
  | some link ↦ done (record db { links = delete_link_row link_id db.links })
]
