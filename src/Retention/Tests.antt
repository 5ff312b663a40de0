-- ===== src/Retention/Tests.antt =====
-- Each theorem about retention on a small repository.
use rotsy.Base.{
  ℕ, ◌+◌, Bool, true, false, Option, none, some, List, [], ◌∷◌, Text, text, text_eq, if◌then◌else◌,
}
use rotsy.Retention.{Component, RetentionPolicy, select_for_deletion}
use rotsy.Retention.Decision.{IsSelection, select_for_deletion-IsSelection}

-- A parser of times that are one character.
abbrev one_char : Text → Option ℕ
one_char (c ∷ []) = some c
one_char _ = none

abbrev version : Text → ℕ → Component
version id created = record {
  id = some id;
  group = none;
  name = some (text "app");
  version = some id;
  assets = record { path = none; blob_created = some (created ∷ []); last_modified = none } ∷ [];
}

abbrev listing : List Component
listing = version (text "a") 7 ∷ version (text "b") 9 ∷ version (text "c") 8 ∷ []

-- Keep the two newest versions of each image.
abbrev policy : RetentionPolicy
policy = record {
  id = 4;
  repo = text "team";
  keep_last_n = some 2;
  delete_older_than_days = none;
  enabled = true;
  last_run_at = none;
  interval_minutes = some 5;
  next_run_at = some 90;
}

select_for_deletion-IsSelection_example :
    IsSelection one_char policy listing 100 (select_for_deletion one_char listing policy 100)
select_for_deletion-IsSelection_example =
    select_for_deletion-IsSelection one_char listing policy 100

-- A registry that counts what it deletes and refuses one id.
abbrev delete_one : Text → ℕ → (Bool × Text) × ℕ
delete_one id n =
    if text_eq id (text "b") then ((false, text "read-only"), n) else ((true, []), n + 1)

abbrev compact_all : ℕ → ℕ × ℕ
compact_all n = (n, n)

-- A queue that numbers its jobs.
abbrev number : ℕ → ℕ → Option Text × ℕ
number id n = (some (n ∷ []), n + 1)
