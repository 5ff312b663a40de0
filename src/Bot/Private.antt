-- ===== src/Bot/Private.antt =====
-- Every link names one private chat and one account, and no group can act.
use rotsy.Base.{
  ℕ, ◌≡◌, refl, inl, inr, Bool, true, false, not, Option, none, some, List, [], ◌∷◌, ◌++◌, Text,
  text, text_eq, any, any-eq-false_iff, All, keep_if, keep_if_yes, keep_if_no, ◌==◌, Bool-cases,
  Option-cases, arith,
}
use rotsy.Projects.{Answer, refused, done}
use rotsy.Bot.Handlers.{ℤ, pos, negsuc, Link, World, find_link, has_row}
use rotsy.Bot.Dispatch.{
  same_chat, find_chat, linked_user, handle_callback, handle_update, Said, callback_query, message,
}
use rotsy.Bot.Links.{Linked, is_private_chat, create_link, delete_link}

-- Two links have another account and another chat.
abbrev pub AreApart : Link → Link → Type 0
AreApart l k = (l.user_id == k.user_id ≡ false) × (same_chat l.chat_id k.chat_id ≡ false)

-- Every chat is private, and no account and no chat is linked twice.
abbrev pub IsTable : List Link → Type 0
IsTable [] = Unit
IsTable (l ∷ links) = (is_private_chat l.chat_id ≡ true) × All (AreApart l) links × IsTable links

snoc-IsTable :
    (links : List Link) (k : Link)
    → is_private_chat k.chat_id ≡ true
    → All (λ (l : Link). l.user_id == k.user_id ≡ false) links
    → All (λ (l : Link). same_chat l.chat_id k.chat_id ≡ false) links
    → IsTable links
    → IsTable (links ++ (k ∷ []))
snoc-IsTable [] k p us cs h = (p, tt, tt)
snoc-IsTable (l ∷ links) k p (u, us) (c, cs) (q, apart, h) =
    (q, snoc links apart, snoc-IsTable links k p us cs h)
  where
    snoc : (ls : List Link) → All (AreApart l) ls → All (AreApart l) (ls ++ (k ∷ []))
    snoc [] a = ((u, c), tt)
    snoc (x ∷ ls) (a, rest) = (a, snoc ls rest)

All-keep_if :
    (P : Link → Type 0) (f : Link → Bool) (links : List Link)
    → All P links
    → All P (keep_if f links)
All-keep_if P f [] h = tt
All-keep_if P f (l ∷ links) (h, hs) = elim (Bool-cases (f l)) [
  | inl e ↦ rw (keep_if_yes f l links e) (h, All-keep_if P f links hs)
  | inr e ↦ rw (keep_if_no f l links e) (All-keep_if P f links hs)
]

keep_if-IsTable : (f : Link → Bool) (links : List Link) → IsTable links → IsTable (keep_if f links)
keep_if-IsTable f [] h = tt
keep_if-IsTable f (l ∷ links) (p, apart, h) = elim (Bool-cases (f l)) [
  | inl e ↦
      rw (keep_if_yes f l links e)
        (p, All-keep_if (AreApart l) f links apart, keep_if-IsTable f links h)
  | inr e ↦ rw (keep_if_no f l links e) (keep_if-IsTable f links h)
]

-- The links after a request that is granted.
abbrev pub IfLinked : Answer Linked → Type 0
IfLinked (refused why) = Unit
IfLinked (done db) = IsTable db.links

create_link-IfLinked :
    (user_id : ℕ) (chat_id : ℤ) (db : Linked)
    → IsTable db.links
    → IfLinked (create_link user_id chat_id db)
unfolding create_link
create_link-IfLinked user_id chat_id db h = elim (Bool-cases (is_private_chat chat_id)) [
  | inr p ↦ rw (p, create_link) tt
  | inl p ↦ elim (Bool-cases (has_row user_id db.users)) [
    | inr r ↦ rw (p, r, create_link) tt
    | inl r ↦ elim (Bool-cases (any (λ (link : Link). link.user_id == user_id) db.links)) [
      | inl u ↦ rw (p, r, u, create_link) tt
      | inr u ↦ elim (Bool-cases (any (λ (link : Link). same_chat link.chat_id chat_id) db.links)) [
        | inl c ↦ rw (p, r, u, c, create_link) tt
        | inr c ↦
            rw (p, r, u, c, create_link)
              (snoc-IsTable db.links
                (record { id = db.next_link; user_id = user_id; chat_id = chat_id }) p
                ((any-eq-false_iff (λ (link : Link). link.user_id == user_id) db.links).0 u)
                ((any-eq-false_iff (λ (link : Link). same_chat link.chat_id chat_id) db.links).0 c)
                h)
      ]
    ]
  ]
]

delete_link-IfLinked :
    (link_id : ℕ) (db : Linked) → IsTable db.links → IfLinked (delete_link link_id db)
unfolding delete_link
delete_link-IfLinked link_id db h = elim (Option-cases (find_link link_id db.links)) [
  | inl e ↦ rw (e, delete_link) tt
  | inr (link, e) ↦
      rw (e, delete_link) (keep_if-IsTable (λ (l : Link). not (l.id == link_id)) db.links h)
]

-- The creation and the removal of a link keep every chat private, and no account and no chat is linked
-- twice.
pub links-IfLinked :
    (user_id link_id : ℕ) (chat_id : ℤ) (db : Linked)
    → IsTable db.links
    → IfLinked (create_link user_id chat_id db) × IfLinked (delete_link link_id db)
links-IfLinked user_id link_id chat_id db h =
    (create_link-IfLinked user_id chat_id db h, delete_link-IfLinked link_id db h)

same_chat-private : (a b : ℤ) → same_chat a b ≡ true → is_private_chat a ≡ is_private_chat b
same_chat-private (pos a) (pos b) e = ground (arith, e)
same_chat-private (negsuc a) (negsuc b) e = refl
same_chat-private (pos a) (negsuc b) e = cc
same_chat-private (negsuc a) (pos b) e = cc

find_chat-none :
    (chat_id : ℤ) (links : List Link)
    → IsTable links
    → is_private_chat chat_id ≡ false
    → find_chat chat_id links ≡ none
find_chat-none chat_id [] h g = refl
find_chat-none chat_id (l ∷ links) (p, apart, h) g =
    elim (Bool-cases (same_chat l.chat_id chat_id)) [
      | inl e ↦ ground (arith, p, g, same_chat-private l.chat_id chat_id e)
      | inr e ↦ rw e (find_chat-none chat_id links h g)
    ]

-- The tables are as they were.
abbrev pub LeavesAlone : World → Option (Said × World) → Type 0
LeavesAlone w none = ⊥
LeavesAlone w (some (said, left)) = left ≡ w

-- Where the links are of private chats, no tap and no message in a group or a channel changes anything.
pub handle_update-LeavesAlone :
    (read_int : Text → Option ℕ) (allowed has_head : Bool) (calls : ℕ) (chat_id : ℤ) (given : Text)
    (chat_type : Text) (w : World)
    → IsTable w.links
    → is_private_chat chat_id ≡ false
    → LeavesAlone w (handle_update read_int allowed has_head calls (callback_query chat_id given) w)
      × LeavesAlone w (handle_update read_int allowed has_head calls (message chat_id chat_type) w)
unfolding handle_update handle_callback linked_user
handle_update-LeavesAlone read_int allowed has_head calls chat_id given chat_type w h g = (
  elim (Bool-cases (text_eq given (text "noop"))) [
    | inl n ↦ rw (n, handle_callback) refl
    | inr n ↦ rw (n, find_chat-none chat_id w.links h g, linked_user, handle_callback) refl
  ],
  refl,
)
