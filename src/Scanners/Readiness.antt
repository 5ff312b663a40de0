-- ===== src/Scanners/Readiness.antt =====
-- Whether a scanner can run: `readiness` and `grype_db_usable` of
-- backend/app/modules/nexus/db/status.py. What `status` reports of the files and what the Grype
-- binary answers are values; times are seconds.
use rotsy.Base.{
  ℕ, ◌-◌, Bool, true, false, not, Option, none, some, List, [], ◌∷◌, ◌++◌, Text, text, text_eq,
  Dict, insert, text_key, ltb, if◌then◌else◌,
}

-- What `status` reports of one scanner, with its build date as `as_datetime` reads it.
pub record Info : Type 0 where
  pub installed : Bool
  pub present : Bool
  pub built : Option Text
  pub built_at : Option ℕ

pub record Readiness : Type 0 where
  pub scanner : Text
  pub ready : Bool
  pub reason : Text
  pub stale : Bool
  pub built : Option Text

-- The answer of `grype db status`: whether the binary is there, and then whether the command could be
-- run, with success and the reason that is read of its output.
pub data DbStatus : Type 0 where
  no_binary : DbStatus
  failed_to_run : Text → DbStatus
  answered : Bool → Text → DbStatus

-- `_DB_STATUS_CACHE`: the time, the answer and the reason.
abbrev pub DbCache : Type 0
DbCache = Option (ℕ × (Bool × Text))

abbrev pub status_ttl : ℕ
status_ttl = 30

abbrev pub unusable : Text → Text
unusable detail =
    detail
    ++ (text " — the installed grype cannot read the database on disk. "
        ++ (text "This is usually a schema mismatch between the grype binary and the "
            ++ text "database; update the database, or align the pinned grype version."))

-- Whether the command says that the database is usable, and the reason if it does not.
unfoldable pub usable_of : DbStatus → Bool × Text
usable_of no_binary = (false, text "the grype binary is not installed in this image")
usable_of (failed_to_run why) = (false, text "could not query grype database status: " ++ why)
usable_of (answered ok detail) = (ok, if ok then [] else unusable detail)

-- Whether the cached answer is recent.
abbrev pub recent : ℕ → DbCache → Option (Bool × Text)
recent now none = none
recent now (some (at, answer)) = if ltb (now - at) status_ttl then some answer else none

unfoldable pub ask_grype : ℕ → DbStatus → DbCache → (Bool × Text) × DbCache
unfolding usable_of
ask_grype now status cache = elim (recent now cache) [
  | some answer ↦ (answer, cache)
  | none ↦ (usable_of status, some (now, usable_of status))
]

-- A missing binary is reported without a look at the cache.
unfoldable pub grype_db_usable : ℕ → DbStatus → DbCache → (Bool × Text) × DbCache
unfolding usable_of ask_grype
grype_db_usable now no_binary cache = (usable_of no_binary, cache)
grype_db_usable now (failed_to_run why) cache = ask_grype now (failed_to_run why) cache
grype_db_usable now (answered ok detail) cache = ask_grype now (answered ok detail) cache

-- `STALE_AFTER`: five days.
abbrev pub stale_after : ℕ
stale_after = 432000

abbrev pub is_stale_db : ℕ → Info → Bool
is_stale_db now info = elim info.built_at [ none ↦ false | some at ↦ ltb stale_after (now - at) ]

abbrev pub not_ready : Text → Text → Readiness
not_ready name reason = record {
  scanner = name;
  ready = false;
  reason = reason;
  stale = false;
  built = none;
}

module _ (lower : Text → Text) (snapshot : Text → Option Info) (status : DbStatus) where
  module _ (clock now : ℕ) where
    abbrev checked : Text → Info → Readiness
    checked name info = record {
      scanner = name;
      ready = true;
      reason = [];
      stale = is_stale_db now info;
      built = info.built;
    }

    abbrev check_grype : Text → Info → (Bool × Text) × DbCache → Readiness × DbCache
    check_grype name info ((usable, why), asked) =
        if usable
        then (checked name info, asked)
        else (record (checked name info) { ready = false; reason = why }, asked)

    -- The readiness of one scanner, and what becomes of the cached answer of Grype.
    unfoldable pub check_scanner : Text → DbCache → Readiness × DbCache
    check_scanner name cache = elim (snapshot name) [
      | none ↦ (not_ready name (text "unknown scanner '" ++ (name ++ text "'")), cache)
      | some info ↦
          if not info.installed
          then (
            not_ready name (text "the " ++ (name ++ text " binary is not installed in this image")),
            cache,
          )
          else if not info.present
          then (
            not_ready name (
                text "no "
                ++ (name
                    ++ text
                        " vulnerability database on disk — run a database update (or an offline import on a restricted network) before scanning")),
            cache,
          )
          else if text_eq name (text "grype")
          then check_grype name info (grype_db_usable clock status cache)
          else (checked name info, cache)
    ]

    -- The loop of `readiness` over the names.
    unfoldable pub add_readiness :
        List Text → DbCache → Dict Text Readiness → Dict Text Readiness × DbCache
    add_readiness [] cache out = (out, cache)
    add_readiness (given ∷ scanners) cache out =
        let name = lower given in
        let (check, asked) = check_scanner name cache in
        add_readiness scanners asked (insert name check out)

    unfoldable pub readiness : List Text → DbCache → Dict Text Readiness × DbCache
    unfolding add_readiness
    readiness scanners cache = add_readiness scanners cache []
