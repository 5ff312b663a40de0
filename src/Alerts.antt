-- ===== src/Alerts.antt =====
-- Alert rules and where their webhooks may go: backend/app/services/alerting.py, `send_webhook` of
-- backend/app/services/notifier.py and backend/app/core/outbound.py. Floating-point numbers, `urlparse`,
-- `ipaddress`, the resolver of names and HTTP are parameters.
pub mod Outbound
pub mod Guarded
pub mod Firing
mod Tests
use rotsy.Base.{
  ℕ, zero, suc, ◌+◌, Bool, true, false, not, ◌&&◌, ◌||◌, Option, none, some, List, [], ◌∷◌, ◌++◌,
  Text, text, text_eq, text_key, Dict, lookup, or_blank, non_empty, leb, ltb, ◌==◌, if◌then◌else◌,
}
use rotsy.Access.Glob.{run_match}
use rotsy.Alerts.Outbound.{Network, Verdict, allowed, rejected, raised, validate_outbound_url}

-- Python's `float` operations that a condition uses.
pub record Floats (F : Type 0) : Type 0 where
  pub greater : F → F → Bool
  pub smaller : F → F → Bool
  pub at_most : F → F → Bool
  pub equal : F → F → Bool
  pub zero_float : F
  pub minus : F → F → F
  pub absolute : F → F
  pub divide : F → F → F
  pub one_percent : F

pub data Kind : Type 0 where
  repo_kind blobstore_kind : Kind

-- `_METRIC_PATHS`
abbrev pub metric_paths : Dict Text (Text × Kind)
metric_paths =
    (text "storage.total", (text "total_bytes", repo_kind))
    ∷ (text "storage.asset_count", (text "asset_count", repo_kind))
    ∷ (text "blobstore.used_pct", (text "used_pct", blobstore_kind))
    ∷ []

-- The end of the expression `$`, which is also before a last line feed.
abbrev pub at_end : Text → Bool
at_end [] = true
at_end (c ∷ []) = c == 10
at_end (c ∷ d ∷ s) = false

-- `_like_match`: `%` is `.*` and `_` is `.`, which match no line feed.
unfoldable pub like_match : Text → Text → Bool
unfolding run_match
like_match [] s = at_end s
like_match (p ∷ ps) s =
    let run = run_match (λ c. not (c == 10)) (like_match ps) s in
    let one : Bool = elim s [ [] ↦ false | c ∷ s' ↦ not (c == 10) && like_match ps s' ] in
    let same : Bool = elim s [ [] ↦ false | c ∷ s' ↦ c == p && like_match ps s' ] in
    if p == 37 then run else if p == 95 then one else same

module _ {F : Type 0} (floats : Floats F) where
  pub record AlertRule : Type 0 where
    pub id : ℕ
    pub metric : Text
    pub condition : Text
    pub threshold : F
    pub repo_filter : Option Text
    pub webhook_url : Option Text
    pub enabled : Bool
    pub last_triggered_at : Option ℕ

  -- An entry of a snapshot: its name, and the values that are numbers.
  pub record Entry : Type 0 where
    pub repo : Option Text
    pub numbers : Dict Text F

  -- `_matches`
  unfoldable pub condition_holds : F → Text → F → Bool
  condition_holds value condition threshold =
      if text_eq condition (text ">")
      then floats.greater value threshold
      else if text_eq condition (text "<")
      then floats.smaller value threshold
      else if text_eq condition (text "==")
      then (if floats.equal threshold floats.zero_float
          then floats.equal value threshold
          else floats.at_most
              (floats.divide (floats.absolute (floats.minus value threshold)) threshold)
              floats.one_percent)
      else false

  -- The entry is one of the rule's, and its value meets the condition.
  unfoldable pub entry_matches : AlertRule → Text → Entry → Bool
  unfolding condition_holds like_match
  entry_matches rule field entry =
      like_match (elim (non_empty rule.repo_filter) [ none ↦ text "%" | some pattern ↦ pattern ])
        (or_blank entry.repo)
      && (elim (lookup field entry.numbers) [
        | none ↦ false
        | some value ↦ condition_holds value rule.condition rule.threshold
      ])

  module _ {Url Address : Type 0} (network : Network Url Address) (post : Text → Option ℕ) where
    -- `send_webhook`, with the URLs that were posted to. `none` where it raises.
    unfoldable pub send_webhook : Text → List Text → Option Bool × List Text
    send_webhook url posted = elim (validate_outbound_url network url) [
      | rejected ↦ (some false, posted)
      | raised ↦ (none, posted)
      | allowed _ ↦ (
        elim (post url) [
          | none ↦ some false
          | some status ↦ some (leb 200 status && ltb status 300)
        ],
        posted ++ url ∷ [],
      )
    ]

    -- `_fire_rule`
    unfoldable pub fire_rule : ℕ → AlertRule → List Text → Option AlertRule × List Text
    fire_rule now rule posted =
        let fired : AlertRule = record rule { last_triggered_at = some now } in
        elim (non_empty rule.webhook_url) [
          | none ↦ (some fired, posted)
          | some url ↦ (
            elim (send_webhook url posted).0 [ none ↦ none | some _ ↦ some fired ],
            (send_webhook url posted).1,
          )
        ]

    -- The loop of `_evaluate_rule`.
    unfoldable pub evaluate_entries :
        ℕ → AlertRule → Text → List Entry → List Text → Option (Bool × AlertRule) × List Text
    evaluate_entries now rule field [] posted = (some (false, rule), posted)
    evaluate_entries now rule field (entry ∷ entries) posted =
        let rest = evaluate_entries now rule field entries posted in
        if entry_matches rule field entry
        then (
          elim (fire_rule now rule posted).0 [ none ↦ none | some fired ↦ some (true, fired) ],
          (fire_rule now rule posted).1,
        )
        else rest

    -- `_evaluate_rule`
    unfoldable pub evaluate_rule :
        ℕ → AlertRule → (Kind → List Entry) → List Text → Option (Bool × AlertRule) × List Text
    evaluate_rule now rule snapshots posted = elim (lookup rule.metric metric_paths) [
      | none ↦ (some (false, rule), posted)
      | some (field, kind) ↦ evaluate_entries now rule field (snapshots kind) posted
    ]

    -- `evaluate_alerts`, over the rows of the table: how many fired, and the rows. Where a webhook
    -- raises, nothing is committed.
    unfoldable pub evaluate_alerts :
        ℕ
        → List AlertRule
        → (Kind → List Entry)
        → List Text
        → Option (ℕ × List AlertRule) × List Text
    evaluate_alerts now [] snapshots posted = (some (0, []), posted)
    evaluate_alerts now (rule ∷ rules) snapshots posted =
        let skipped = evaluate_alerts now rules snapshots posted in
        let evaluated = evaluate_rule now rule snapshots posted in
        let after = evaluate_alerts now rules snapshots evaluated.1 in
        if rule.enabled
        then elim evaluated.0 [
          | none ↦ (none, evaluated.1)
          | some (fires, rule') ↦ (
            elim after.0 [
              | none ↦ none
              | some (count, rules') ↦ some ((if fires then suc count else count), rule' ∷ rules')
            ],
            after.1,
          )
        ]
        else (
          elim skipped.0 [ none ↦ none | some (count, rules') ↦ some (count, rule ∷ rules') ],
          skipped.1,
        )
