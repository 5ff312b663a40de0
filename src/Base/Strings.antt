-- ===== src/Base/Strings.antt =====
-- Text as the list of its code points, with the `str` methods that the program calls.
use Prim.Native.Nat.{ℕ, zero, suc, ◌+◌, ◌/◌, ◌%◌}
use Prim.Native.Char.{code}
use Prim.Native.String.{String}
use mathlib.Core.Path.{◌≡◌, refl, ap, ◌∙◌}
use mathlib.Core.Logic.{◌↔◌}
use mathlib.Core.Bool.{Bool, true, false, ◌&&◌, ◌||◌}
use mathlib.Core.Option.{Option, none, some}
use mathlib.Core.List.{List, [], ◌∷◌, ◌++◌, reverse}
use native.Mathlib.Omega.{arith}
use rotsy.Base.Booleans.{◌==◌, leb, if◌then◌else◌}

abbrev pub Text : Type 0
Text = List ℕ

-- The code points of a literal.
abbrev pub text : String → Text
text String.[] = []
text (String.◌∷◌ c s) = code c ∷ text s

abbrev pub text_eq : Text → Text → Bool
text_eq [] [] = true
text_eq (a ∷ s) (b ∷ t) = a == b && text_eq s t
text_eq _ _ = false

pub text_eq_sound : (s t : Text) → text_eq s t ≡ true → s ≡ t
text_eq_sound [] [] h = refl
text_eq_sound [] (b ∷ t) h = cc
text_eq_sound (a ∷ s) [] h = cc
text_eq_sound (a ∷ s) (b ∷ t) h = ground (arith, text_eq_sound s t)

pub text_eq_refl : (s : Text) → text_eq s s ≡ true
text_eq_refl [] = refl
text_eq_refl (a ∷ s) = ground (arith, text_eq_refl s)

pub text_eq_iff : (s t : Text) → (text_eq s t ≡ true) ↔ (s ≡ t)
text_eq_iff s t = (text_eq_sound s t, λ e. rw e (text_eq_refl t))

-- `a in xs`, for a collection of texts.
abbrev pub has_text : Text → List Text → Bool
has_text a [] = false
has_text a (x ∷ xs) = text_eq a x || has_text a xs

-- The characters that `str.strip` removes.
abbrev pub is_space : ℕ → Bool
is_space c =
    (leb 9 c && leb c 13)
    || (leb 28 c && leb c 32)
    || c == 133
    || c == 160
    || c == 5760
    || (leb 8192 c && leb c 8202)
    || c == 8232
    || c == 8233
    || c == 8239
    || c == 8287
    || c == 12288

unfoldable pub lstrip : Text → Text
lstrip [] = []
lstrip (c ∷ s) = if is_space c then lstrip s else c ∷ s

unfoldable pub strip : Text → Text
unfolding lstrip
strip s = reverse (lstrip (reverse (lstrip s)))

abbrev push_head : ℕ → List Text → List Text
push_head c [] = (c ∷ []) ∷ []
push_head c (t ∷ ts) = (c ∷ t) ∷ ts

-- `s.split(sep)` for a separator of one character.
unfoldable pub split_on : ℕ → Text → List Text
split_on sep [] = [] ∷ []
split_on sep (c ∷ s) = let rest = split_on sep s in if c == sep then [] ∷ rest else push_head c rest

-- `sep.join(ts)`
unfoldable pub join_with : Text → List Text → Text
join_with sep [] = []
join_with sep (t ∷ []) = t
join_with sep (t ∷ u ∷ ts) = t ++ (sep ++ join_with sep (u ∷ ts))

-- `x or None`: an optional text that is `None` or empty counts as missing.
abbrev pub non_empty : Option Text → Option Text
non_empty none = none
non_empty (some []) = none
non_empty (some (c ∷ s)) = some (c ∷ s)

-- The decimal digits of a number, before a text; `n + 1` rounds are enough, as each divides by 10.
unfoldable pub decimal_from : ℕ → ℕ → Text → Text
decimal_from zero n rest = rest
decimal_from (suc fuel) n rest =
    let digit = (48 + n % 10) ∷ rest in
    let more = decimal_from fuel (n / 10) digit in if n / 10 == 0 then digit else more

-- `str(n)`
unfoldable pub decimal : ℕ → Text
unfolding decimal_from
decimal n = decimal_from (suc n) n []

-- `x or ""`
abbrev pub or_blank : Option Text → Text
or_blank none = []
or_blank (some t) = t

unfoldable pub starts_with : Text → Text → Bool
starts_with [] s = true
starts_with (c ∷ p) [] = false
starts_with (c ∷ p) (d ∷ s) = c == d && starts_with p s

-- `part in s`
unfoldable pub contains : Text → Text → Bool
unfolding starts_with
contains part [] = starts_with part []
contains part (c ∷ s) = starts_with part (c ∷ s) || contains part s

-- A text that does not have the character, and texts that do not.
abbrev pub Without : ℕ → Text → Type 0
Without sep [] = Unit
Without sep (c ∷ s) = (c == sep ≡ false) × Without sep s

abbrev pub AllWithout : ℕ → List Text → Type 0
AllWithout sep [] = Unit
AllWithout sep (t ∷ ts) = Without sep t × AllWithout sep ts

split_on-keep :
    (sep c : ℕ) (s t : Text) (ts : List Text)
    → c == sep ≡ false
    → split_on sep s ≡ t ∷ ts
    → split_on sep (c ∷ s) ≡ (c ∷ t) ∷ ts
unfolding split_on
split_on-keep sep c s t ts h e = rw (e, h, split_on) refl

beq_refl : (n : ℕ) → n == n ≡ true
beq_refl n = ground arith

split_on-append :
    (sep : ℕ) (t s : Text) → Without sep t → split_on sep (t ++ (sep ∷ s)) ≡ t ∷ split_on sep s
unfolding split_on
split_on-append sep [] s h = rw (beq_refl sep, split_on) refl
split_on-append sep (c ∷ t) s (h, hs) =
    split_on-keep sep c (t ++ (sep ∷ s)) t (split_on sep s) h (split_on-append sep t s hs)

split_on-whole : (sep : ℕ) (t : Text) → Without sep t → split_on sep t ≡ t ∷ []
unfolding split_on
split_on-whole sep [] h = refl
split_on-whole sep (c ∷ t) (h, hs) = split_on-keep sep c t t [] h (split_on-whole sep t hs)

-- What is joined by a character that no part has is split into the parts.
pub split_on-join_with :
    (sep : ℕ) (t : Text) (ts : List Text)
    → AllWithout sep (t ∷ ts)
    → split_on sep (join_with (sep ∷ []) (t ∷ ts)) ≡ t ∷ ts
unfolding join_with
split_on-join_with sep t [] (h, hs) = split_on-whole sep t h
split_on-join_with sep t (u ∷ ts) (h, hs) =
    split_on-append sep t (join_with (sep ∷ []) (u ∷ ts)) h
    ∙ ap (λ us. t ∷ us) (split_on-join_with sep u ts hs)

push_head-AllWithout :
    (sep c : ℕ) (ts : List Text)
    → c == sep ≡ false
    → AllWithout sep ts
    → AllWithout sep (push_head c ts)
push_head-AllWithout sep c [] h hs = ((h, tt), tt)
push_head-AllWithout sep c (t ∷ ts) h (k, ks) = ((h, k), ks)

split_choice-AllWithout :
    (sep c : ℕ) (ts : List Text) (b : Bool)
    → c == sep ≡ b
    → AllWithout sep ts
    → AllWithout sep (if b then [] ∷ ts else push_head c ts)
split_choice-AllWithout sep c ts true e h = (tt, h)
split_choice-AllWithout sep c ts false e h = push_head-AllWithout sep c ts e h

pub split_on-AllWithout : (sep : ℕ) (s : Text) → AllWithout sep (split_on sep s)
unfolding split_on
split_on-AllWithout sep [] = (tt, tt)
split_on-AllWithout sep (c ∷ s) =
    split_choice-AllWithout sep c (split_on sep s) (c == sep) refl (split_on-AllWithout sep s)
