-- ===== src/Bot/Tapped.antt =====
-- A tap from its callback string to what it leaves.
use rotsy.Base.{
  ℕ, zero, suc, ◌≡◌, refl, sym, subst, ◌⊎◌, inl, inr, Bool, Option, none, some, List, [], ◌∷◌, Text,
  text, text_eq, All, Bool-cases, Option-cases, arith,
}
use rotsy.Projects.{User, refused, done}
use rotsy.Projects.Reachable.{HasAdmins, here, after, Reaches-HasAdmins}
use rotsy.Bot.{Callback, parse, joined, int_arg, role_arg}
use rotsy.Bot.Handlers.{ℤ, World}
use rotsy.Bot.Dispatch.{
  Outcome, out_of_calls, bad_callback, answered, Handler, plain, with_id, with_ids, with_role, call,
  handlers, handler_of, dispatch, linked_user, Said, told, handle_callback,
}
use rotsy.Bot.Permitted.{
  Permitted, unchanged, managed, unlinked, analysed, IfShown, IsSafe, handlers-IsSafe,
}

module _ (user : User) (w : World) where
  -- The tables after an outcome are permitted.
  abbrev pub IfAnswered : Outcome → Type 0
  IfAnswered out_of_calls = Unit
  IfAnswered bad_callback = Unit
  IfAnswered (answered shown) = IfShown user w shown

  call-IfAnswered :
      (read_int : Text → Option ℕ) (cb : Callback) (h : Handler)
      → IsSafe user w h
      → IfAnswered (call read_int cb w h)
  unfolding call
  call-IfAnswered read_int cb (plain f) k = k
  call-IfAnswered read_int cb (with_id f) k = elim (Option-cases (int_arg read_int 0 cb)) [
    | inl e ↦ rw (e, call) tt
    | inr (a, e) ↦ rw (e, call) (k a)
  ]
  call-IfAnswered read_int cb (with_ids f) k = elim (Option-cases (int_arg read_int 0 cb)) [
    | inl e ↦ rw (e, call) tt
    | inr (a, e) ↦ elim (Option-cases (int_arg read_int 1 cb)) [
      | inl q ↦ rw (e, q, call) tt
      | inr (b, q) ↦ rw (e, q, call) (k a b)
    ]
  ]
  call-IfAnswered read_int cb (with_role f) k = elim (Option-cases (int_arg read_int 0 cb)) [
    | inl e ↦ rw (e, call) tt
    | inr (a, e) ↦ elim (Option-cases (int_arg read_int 1 cb)) [
      | inl q ↦ rw (e, q, call) tt
      | inr (b, q) ↦ elim (Option-cases (role_arg 2 cb)) [
        | inl r ↦ rw (e, q, r, call) tt
        | inr (role, r) ↦ rw (e, q, r, call) (k a b role)
      ]
    ]
  ]

  handler_of-IsSafe :
      (action : Text) (table : List (Text × Handler)) (h : Handler)
      → All (λ (e : Text × Handler). IsSafe user w e.1) table
      → handler_of action table ≡ some h
      → IsSafe user w h
  handler_of-IsSafe action [] h all e = absurd (none_some e)
    where
      none_some : none ≡ some h → ⊥
      none_some q = cc
  handler_of-IsSafe action ((name, k) ∷ rest) h (safe, all) e =
      elim (Bool-cases (text_eq action name)) [
        | inl q ↦ subst (IsSafe user w) (some_inj (ground (arith, q, e))) safe
        | inr q ↦ handler_of-IsSafe action rest h all (ground (arith, q, e))
      ]
    where
      some_inj : some k ≡ some h → k ≡ h
      some_inj q = cc

  module _ (read_int : Text → Option ℕ) (allowed has_head : Bool) where
    dispatch-IfAnswered :
        (calls : ℕ) (cb : Callback)
        → IfAnswered (dispatch read_int allowed has_head calls user cb w)
    unfolding dispatch
    dispatch-IfAnswered zero cb = tt
    dispatch-IfAnswered (suc calls) cb =
        elim (Option-cases (handler_of cb.action (handlers user allowed has_head))) [
          | inr (h, e) ↦
              rw (e, dispatch)
                (call-IfAnswered read_int cb h (
                  handler_of-IsSafe cb.action (handlers user allowed has_head) h
                    (handlers-IsSafe user w allowed has_head) e))
          | inl e ↦ elim (Bool-cases (text_eq cb.action (text "back"))) [
            | inr q ↦ rw (e, q, dispatch) tt
            | inl q ↦ elim (Option-cases (parse (joined cb.args))) [
              | inl r ↦ rw (e, q, r, dispatch) tt
              | inr (inner, r) ↦ rw (e, q, r, dispatch) (dispatch-IfAnswered calls inner)
            ]
          ]
        ]

-- The tables are as they were, or a linked and active user may change them so.
abbrev pub ByLinked : ℤ → World → World → Type 0
ByLinked chat_id w after_tap =
    (after_tap ≡ w)
    ⊎ ((user : User) × (linked_user chat_id w ≡ some user) × Permitted user w after_tap)

abbrev pub IfTold : (World → Type 0) → Option (Said × World) → Type 0
IfTold P none = Unit
IfTold P (some (said, w)) = P w

told-IfTold :
    (user : User) (w : World) (o : Outcome) (P : World → Type 0)
    → P w
    → ((left : World) → Permitted user w left → P left)
    → IfAnswered user w o
    → IfTold P (told w o)
told-IfTold user w out_of_calls P p f h = tt
told-IfTold user w bad_callback P p f h = p
told-IfTold user w (answered (refused why)) P p f h = p
told-IfTold user w (answered (done (screen, left))) P p f h = f left h

module _ (read_int : Text → Option ℕ) (allowed has_head : Bool) where
  -- A tap changes nothing, or its chat is linked to an active user, and it changes the members of one
  -- project that the policy lets the user manage, removes a link with `system:execute`, or queues an
  -- analysis of a project where the policy lets the user run one.
  pub handle_callback-ByLinked :
      (calls : ℕ) (chat_id : ℤ) (given : Text) (w : World)
      → IfTold
          (ByLinked chat_id w)
          (handle_callback read_int allowed has_head calls chat_id given w)
  unfolding handle_callback
  handle_callback-ByLinked calls chat_id given w = elim (Bool-cases (text_eq given (text "noop"))) [
    | inl n ↦ rw (n, handle_callback) (inl refl)
    | inr n ↦ elim (Option-cases (linked_user chat_id w)) [
      | inl u ↦ rw (n, u, handle_callback) (inl refl)
      | inr (user, u) ↦ elim (Option-cases (parse given)) [
        | inl p ↦ rw (n, u, p, handle_callback) (inl refl)
        | inr (cb, p) ↦
            rw (n, u, p, handle_callback)
              (told-IfTold user w (dispatch read_int allowed has_head calls user cb w) _ (inl refl)
                (λ left h. inr (user, u, h))
                (dispatch-IfAnswered user w read_int allowed has_head calls cb))
      ]
    ]
  ]

Permitted-HasAdmins :
    (user : User) (w left : World) → Permitted user w left → HasAdmins w.db → HasAdmins left.db
Permitted-HasAdmins user w left unchanged h = h
Permitted-HasAdmins user w left (managed p request db may own e) h =
    Reaches-HasAdmins w.db db (after here request e) h
Permitted-HasAdmins user w left (unlinked id may) h = h
Permitted-HasAdmins user w left (analysed sp may) h = h

IfTold-map :
    (P Q : World → Type 0) (o : Option (Said × World))
    → ((left : World) → P left → Q left)
    → IfTold P o
    → IfTold Q o
IfTold-map P Q none f h = tt
IfTold-map P Q (some (said, left)) f h = f left h

-- Where every project has an admin, every project has one after any tap.
pub handle_callback-HasAdmins :
    (read_int : Text → Option ℕ) (allowed has_head : Bool) (calls : ℕ) (chat_id : ℤ) (given : Text)
    (w : World)
    → HasAdmins w.db
    → IfTold
        (λ left. HasAdmins left.db)
        (handle_callback read_int allowed has_head calls chat_id given w)
handle_callback-HasAdmins read_int allowed has_head calls chat_id given w h =
    IfTold-map (ByLinked chat_id w) (λ left. HasAdmins left.db)
      (handle_callback read_int allowed has_head calls chat_id given w) still
      (handle_callback-ByLinked read_int allowed has_head calls chat_id given w)
  where
    still : (left : World) → ByLinked chat_id w left → HasAdmins left.db
    still left (inl e) = subst (λ (x : World). HasAdmins x.db) (sym e) h
    still left (inr (user, u, p)) = Permitted-HasAdmins user w left p h
