-- ===== src/Bot.antt =====
-- The Telegram bot: backend/app/modules/telegram/callback_data.py, auth.py and dispatcher.py, with the
-- links of backend/app/routers/telegram.py and what a tap starts of backend/app/services/analysis.py.
-- Here are the strings that its buttons carry. `int(...)` of a text is a parameter; a negative number,
-- which no button carries, is not modelled. All of the texts are ASCII, one byte for each character.
pub mod Handlers
pub mod Dispatch
pub mod Links
pub mod Permitted
pub mod Tapped
pub mod RoundTrip
pub mod Keyboards
pub mod Shown
pub mod Private
mod Tests
use rotsy.Base.{
  ℕ, zero, suc, Bool, true, false, Option, none, some, List, [], ◌∷◌, Text, text, text_eq, length,
  leb, split_on, join_with, if◌then◌else◌,
}

pub record Callback : Type 0 where
  pub action : Text
  pub args : List Text

abbrev pub callback_of : List Text → Option Callback
callback_of [] = none
callback_of ([] ∷ args) = none
callback_of ((c ∷ action) ∷ args) = some (record { action = c ∷ action; args = args })

-- `parse`: none for a CallbackDataError.
unfoldable pub parse : Text → Option Callback
unfolding split_on
parse given = callback_of (split_on 58 given)

-- `":".join(...)`
abbrev pub joined : List Text → Text
joined parts = join_with (58 ∷ []) parts

unfoldable pub build : Text → List Text → Option Text
unfolding join_with
build action args =
    let encoded = joined (action ∷ args) in if leb (length encoded) 64 then some encoded else none

-- `self.args[index]`
abbrev pub arg : ℕ → List Text → Option Text
arg index [] = none
arg zero (a ∷ args) = some a
arg (suc index) (a ∷ args) = arg index args

unfoldable pub int_arg : (Text → Option ℕ) → ℕ → Callback → Option ℕ
int_arg read_int index cb = elim (arg index cb.args) [ none ↦ none | some a ↦ read_int a ]

-- `ROLE_CODES.get(code)`
unfoldable pub role_of_code : Text → Option Text
role_of_code code =
    if text_eq code (text "v")
    then some (text "viewer")
    else if text_eq code (text "m")
    then some (text "member")
    else if text_eq code (text "a")
    then some (text "admin")
    else none

unfoldable pub role_arg : ℕ → Callback → Option Text
unfolding role_of_code
role_arg index cb = elim (arg index cb.args) [ none ↦ none | some code ↦ role_of_code code ]
