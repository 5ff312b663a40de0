-- ===== src/Bot/RoundTrip.antt =====
-- The strings of the buttons are read as they were written, and the calls of a dispatch end.
use rotsy.Base.{
  ℕ, zero, suc, ◌<◌, ◌≡◌, ◌≢◌, refl, sym, ap, subst, ◌∙◌, inl, inr, Bool, Option, none, some, List,
  [], ◌∷◌, Text, text, text_eq, length, leb, split_on, join_with, AllWithout, split_on-join_with,
  split_on-AllWithout, Bool-cases, Option-cases, arith,
}
use rotsy.Projects.{User, refused, done}
use rotsy.Bot.{Callback, callback_of, parse, joined, build, int_arg, role_arg}
use rotsy.Bot.Handlers.{ℤ, World}
use rotsy.Bot.Dispatch.{
  Outcome, out_of_calls, bad_callback, answered, Handler, plain, with_id, with_ids, with_role, call,
  handlers, handler_of, dispatch, linked_user, told, handle_callback,
}

-- A button that can be built is parsed as its action and its arguments, where none of them has a colon
-- and the action is not empty.
pub parse-build :
    (c : ℕ) (action given : Text) (args : List Text)
    → AllWithout 58 ((c ∷ action) ∷ args)
    → build (c ∷ action) args ≡ some given
    → parse given ≡ some (record { action = c ∷ action; args = args })
unfolding parse build
parse-build c action given args plain_parts e =
    let encoded = joined ((c ∷ action) ∷ args) in
    elim (Bool-cases (leb (length encoded) 64)) [
      | inr q ↦ ground (arith, q, e)
      | inl q ↦
          let same : encoded ≡ given = some_inj (ground (arith, q, e)) in
          subst
            (λ t. callback_of (split_on 58 t) ≡ some (record { action = c ∷ action; args = args }))
            same (ap callback_of (split_on-join_with 58 (c ∷ action) args plain_parts))
    ]
  where
    some_inj :
        some (joined ((c ∷ action) ∷ args)) ≡ some given → joined ((c ∷ action) ∷ args) ≡ given
    some_inj q = cc

-- The string of the arguments is parsed as the arguments.
parse-joined : (args : List Text) → AllWithout 58 args → parse (joined args) ≡ callback_of args
unfolding parse join_with split_on
parse-joined [] h = refl
parse-joined (t ∷ ts) h = ap callback_of (split_on-join_with 58 t ts h)

callback_of-args :
    (parts : List Text) (cb : Callback)
    → AllWithout 58 parts
    → callback_of parts ≡ some cb
    → AllWithout 58 cb.args × (suc (length cb.args) ≡ length parts)
callback_of-args [] cb h e = cc
callback_of-args ([] ∷ args) cb h e = cc
callback_of-args ((c ∷ action) ∷ args) cb (h, hs) e =
    subst (λ (x : Callback). AllWithout 58 x.args × (suc (length x.args) ≡ suc (length args)))
      (some_inj e) (hs, refl)
  where
    some_inj :
        some (record { action = c ∷ action; args = args }) ≡ some cb
        → record { action = c ∷ action; args = args } ≡ cb
    some_inj q = cc

-- The calls were enough.
abbrev Ends : Outcome → Type 0
Ends out_of_calls = ⊥
Ends bad_callback = Unit
Ends (answered shown) = Unit

module _ (read_int : Text → Option ℕ) (allowed has_head : Bool) (user : User) (w : World) where
  call-Ends : (cb : Callback) (h : Handler) → Ends (call read_int cb w h)
  unfolding call
  call-Ends cb (plain f) = tt
  call-Ends cb (with_id f) = elim (Option-cases (int_arg read_int 0 cb)) [
    | inl e ↦ rw (e, call) tt
    | inr (a, e) ↦ rw (e, call) tt
  ]
  call-Ends cb (with_ids f) = elim (Option-cases (int_arg read_int 0 cb)) [
    | inl e ↦ rw (e, call) tt
    | inr (a, e) ↦ elim (Option-cases (int_arg read_int 1 cb)) [
      | inl q ↦ rw (e, q, call) tt
      | inr (b, q) ↦ rw (e, q, call) tt
    ]
  ]
  call-Ends cb (with_role f) = elim (Option-cases (int_arg read_int 0 cb)) [
    | inl e ↦ rw (e, call) tt
    | inr (a, e) ↦ elim (Option-cases (int_arg read_int 1 cb)) [
      | inl q ↦ rw (e, q, call) tt
      | inr (b, q) ↦ elim (Option-cases (role_arg 2 cb)) [
        | inl r ↦ rw (e, q, r, call) tt
        | inr (role, r) ↦ rw (e, q, r, call) tt
      ]
    ]
  ]

  -- As many calls as there are arguments, and one, are enough.
  dispatch-Ends :
      (calls : ℕ) (cb : Callback)
      → AllWithout 58 cb.args
      → length cb.args < calls
      → Ends (dispatch read_int allowed has_head calls user cb w)
  unfolding dispatch
  dispatch-Ends zero cb h l = absurd (omega (arith, l))
  dispatch-Ends (suc calls) cb h l =
      elim (Option-cases (handler_of cb.action (handlers user allowed has_head))) [
        | inr (f, e) ↦ rw (e, dispatch) (call-Ends cb f)
        | inl e ↦ elim (Bool-cases (text_eq cb.action (text "back"))) [
          | inr q ↦ rw (e, q, dispatch) tt
          | inl q ↦ elim (Option-cases (parse (joined cb.args))) [
            | inl r ↦ rw (e, q, r, dispatch) tt
            | inr (inner, r) ↦
                let (k, n) = callback_of-args cb.args inner h (sym (parse-joined cb.args h) ∙ r) in
                rw (e, q, r, dispatch) (dispatch-Ends calls inner k (omega (arith, l, n)))
          ]
        ]
      ]

length-callback :
    (given : Text) (cb : Callback)
    → parse given ≡ some cb
    → AllWithout 58 cb.args × (suc (length cb.args) ≡ length (split_on 58 given))
unfolding parse
length-callback given cb e =
    callback_of-args (split_on 58 given) cb (split_on-AllWithout 58 given) e

some-none : {A : Type 0} {a : A} → some a ≢ none
some-none e = cc

told-Ends : (w : World) (o : Outcome) → Ends o → told w o ≢ none
told-Ends w out_of_calls h e = h
told-Ends w bad_callback h e = cc
told-Ends w (answered (refused why)) h e = cc
told-Ends w (answered (done (screen, left))) h e = cc

module _ (read_int : Text → Option ℕ) (allowed has_head : Bool) where
  -- A tap is always answered: as many calls of the dispatch as its string has parts are enough, however
  -- deep its `back` buttons are nested.
  pub handle_callback-answers :
      (chat_id : ℤ) (given : Text) (w : World)
      → handle_callback read_int allowed has_head (length (split_on 58 given)) chat_id given w
        ≢ none
  unfolding handle_callback
  handle_callback-answers chat_id given w = elim (Bool-cases (text_eq given (text "noop"))) [
    | inl n ↦ rw (n, handle_callback) some-none
    | inr n ↦ elim (Option-cases (linked_user chat_id w)) [
      | inl u ↦ rw (n, u, handle_callback) some-none
      | inr (user, u) ↦ elim (Option-cases (parse given)) [
        | inl p ↦ rw (n, u, p, handle_callback) some-none
        | inr (cb, p) ↦
            let calls = length (split_on 58 given) in
            let (plain_args, l) = length-callback given cb p in
            rw (n, u, p, handle_callback)
              (told-Ends w (dispatch read_int allowed has_head calls user cb w) (
                dispatch-Ends read_int allowed has_head user w calls cb plain_args
                  (omega (arith, l))))
      ]
    ]
  ]
