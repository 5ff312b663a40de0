-- ===== src/Alerts/Tests.antt =====
-- Alert rules on a small network, and the theorems at concrete inputs.
use rotsy.Base.{
  ℕ, ◌≡◌, refl, true, false, Option, none, some, List, [], ◌∷◌, map, Text, text, text_eq, text_key,
  length, keep_if, ltb, leb, ◌==◌, ◌-◌, ◌/◌, if◌then◌else◌, strip, lstrip,
}
use rotsy.Access.Glob.{run_match}
use rotsy.Alerts.Outbound.{
  unresolved, raises, Network, validate_outbound_url, is_blocked_address, resolve,
}
use rotsy.Alerts.{
  Floats, Kind, repo_kind, blobstore_kind, AlertRule, Entry, like_match, condition_holds,
  entry_matches, send_webhook, fire_rule, evaluate_entries, evaluate_rule, evaluate_alerts,
}
use rotsy.Alerts.Guarded.{AllPermitted, evaluate_alerts-AllPermitted}
use rotsy.Alerts.Firing.{Answers, is_firing, evaluate_alerts-fired}

-- Whole numbers, where a ratio is at most a hundredth if it is 0.
abbrev whole : Floats ℕ
whole = record {
  greater = λ a b. ltb b a;
  smaller = ltb;
  at_most = leb;
  equal = λ a b. a == b;
  zero_float = 0;
  minus = λ a b. a - b;
  absolute = λ a. a;
  divide = λ a b. a / b;
  one_percent = 0;
}

-- Hosts are their own addresses; the host `i` is internal. A URL is its host.
abbrev net : Network Text Text
net = record {
  urlparse = λ url. some url;
  scheme = λ url. text "http";
  hostname = λ url. some (some url);
  lower = λ t. t;
  ip_address = λ t. some t;
  getaddrinfo = λ t. unresolved;
  is_private = λ a. text_eq a (text "i");
  is_loopback = λ a. false;
  is_link_local = λ a. false;
  is_reserved = λ a. false;
  is_multicast = λ a. false;
  is_unspecified = λ a. false;
  allowed_hosts = [];
}

abbrev post : Text → Option ℕ
post url = some 200

abbrev big : Text → AlertRule whole
big url = record {
  id = 1;
  metric = text "storage.total";
  condition = text ">";
  threshold = 100;
  repo_filter = some (text "team%");
  webhook_url = some url;
  enabled = true;
  last_triggered_at = none;
}

abbrev snapshots : Kind → List (Entry whole)
snapshots repo_kind =
    record { repo = some (text "team-a"); numbers = (text "total_bytes", 500) ∷ [] } ∷ []
snapshots blobstore_kind = []

-- The rule with an internal address fires, and nothing is posted for it.
posts : evaluate_alerts whole net post 9 (big (text "i") ∷ big (text "e") ∷ []) snapshots [] ≡ (
  some (
    2,
    record (big (text "i")) { last_triggered_at = some 9 }
        ∷ record (big (text "e")) { last_triggered_at = some 9 }
        ∷ [],
  ),
  text "e" ∷ [],
)
unfolding evaluate_alerts evaluate_rule evaluate_entries entry_matches fire_rule send_webhook
    validate_outbound_url is_blocked_address resolve strip lstrip condition_holds like_match
    run_match
posts = refl

parses : (raw : Text) → (parsed : Text) × (net.urlparse raw ≡ some parsed)
parses raw = (raw, refl)

looks_up : (host : Text) → Answers (net.getaddrinfo host)
looks_up host = tt

-- A webhook whose host `getaddrinfo` refuses with `UnicodeError` ends the whole evaluation.
abbrev strict : Network Text Text
strict = record net { ip_address = λ t. none; getaddrinfo = λ t. raises }

malformed_host_raises :
    (evaluate_alerts whole strict post 9 (big (text "a..b") ∷ []) snapshots []).0 ≡ none
unfolding evaluate_alerts evaluate_rule evaluate_entries fire_rule send_webhook
    validate_outbound_url resolve entry_matches strip
malformed_host_raises = refl

evaluate_alerts-fired_example :
    (evaluate_alerts whole net post 9 (big (text "i") ∷ []) snapshots []).0
    ≡ some (
      length (keep_if (is_firing whole net post parses looks_up snapshots) (big (text "i") ∷ [])),
      map
          (λ rule.
            if is_firing whole net post parses looks_up snapshots rule
            then record rule { last_triggered_at = some 9 }
            else rule)
          (big (text "i") ∷ []),
    )
evaluate_alerts-fired_example =
    evaluate_alerts-fired whole net post parses looks_up 9 (big (text "i") ∷ []) snapshots []

evaluate_alerts-AllPermitted_example :
    AllPermitted net whole post
      (evaluate_alerts whole net post 9 (big (text "i") ∷ big (text "e") ∷ []) snapshots []).1
evaluate_alerts-AllPermitted_example =
    evaluate_alerts-AllPermitted net whole post 9 (big (text "i") ∷ big (text "e") ∷ []) snapshots
      [] tt
