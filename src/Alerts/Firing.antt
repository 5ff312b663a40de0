-- ===== src/Alerts/Firing.antt =====
-- Which rules fire.
use rotsy.Base.{
  ℕ, ◌≡◌, refl, subst, inl, inr, Bool, true, false, ◌&&◌, Option, none, some, List, [], ◌∷◌, map,
  Text, text, has_text, strip, text_key, lookup, non_empty, if◌then◌else◌, any, length, keep_if,
  keep_if_yes, keep_if_no, Bool-cases, Option-cases,
}
use rotsy.Alerts.Outbound.{
  Lookup, unresolved, raises, addresses, usable, Network, Verdict, allowed, rejected, raised,
  is_blocked_address, resolve, guard_host, validate_outbound_url,
}
use rotsy.Alerts.Guarded.{List-cases, Lookup-cases}
use rotsy.Alerts.{
  Floats, Kind, metric_paths, AlertRule, Entry, entry_matches, send_webhook, fire_rule,
  evaluate_entries, evaluate_rule, evaluate_alerts,
}

abbrev Settled : Verdict → Type 0
Settled raised = ⊥
Settled rejected = Unit
Settled (allowed _) = Unit

-- A lookup that fails as one, or gives addresses.
abbrev pub Answers : {A : Type 0} → Lookup A → Type 0
Answers unresolved = Unit
Answers raises = ⊥
Answers (addresses xs) = Unit

module _ {Url Address : Type 0} (network : Network Url Address)
    (looks_up : (host : Text) → Answers (network.getaddrinfo host)) where
  found-Answers :
      (host : Text) (found : Lookup Text)
      → network.ip_address host ≡ none
      → network.getaddrinfo host ≡ found
      → Answers found
      → Answers (resolve network host)
  unfolding resolve
  found-Answers host unresolved e f h = rw (e, f, resolve) tt
  found-Answers host raises e f h = absurd h
  found-Answers host (addresses infos) e f h = elim (List-cases (usable network infos)) [
    | inl g ↦ rw (e, f, g, resolve) tt
    | inr (ip, ips, g) ↦ rw (e, f, g, resolve) tt
  ]

  resolve-Answers : (host : Text) → Answers (resolve network host)
  unfolding resolve
  resolve-Answers host = elim (Option-cases (network.ip_address host)) [
    | inl e ↦ found-Answers host (network.getaddrinfo host) e refl (looks_up host)
    | inr (ip, e) ↦ rw (e, resolve) tt
  ]

  guard_host-Settled : (raw host : Text) → Settled (guard_host network raw host)
  guard_host-Settled raw host =
      elim (Bool-cases (has_text (network.lower host) network.allowed_hosts)) [
        | inl e ↦ rw e tt
        | inr e ↦ elim (Lookup-cases (resolve network host)) [
          | inl (inl f) ↦ rw (e, f) tt
          | inl (inr f) ↦ absurd (subst Answers f (resolve-Answers host))
          | inr (ips, f) ↦ elim (Bool-cases (any (is_blocked_address network) ips)) [
            | inl g ↦ rw (e, f, g) tt
            | inr g ↦ rw (e, f, g) tt
          ]
        ]
      ]

  hostname-Settled :
      (raw : Text) (host : Option (Option Text))
      → Settled (elim host [
        | none ↦ rejected
        | some none ↦ rejected
        | some (some []) ↦ rejected
        | some (some (h ∷ rest)) ↦ guard_host network raw (h ∷ rest)
      ])
  hostname-Settled raw none = tt
  hostname-Settled raw (some none) = tt
  hostname-Settled raw (some (some [])) = tt
  hostname-Settled raw (some (some (h ∷ rest))) = guard_host-Settled raw (h ∷ rest)

module _ {F Url Address : Type 0} (floats : Floats F) (network : Network Url Address)
    (post : Text → Option ℕ)
    (parses : (raw : Text) → (parsed : Url) × (network.urlparse raw ≡ some parsed))
    (looks_up : (host : Text) → Answers (network.getaddrinfo host)) where
  validate_outbound_url-Settled : (url : Text) → Settled (validate_outbound_url network url)
  unfolding validate_outbound_url
  validate_outbound_url-Settled url = elim (List-cases (strip url)) [
    | inl e ↦ rw (e, validate_outbound_url) tt
    | inr (c, raw, e) ↦
        let (parsed, f) = parses (c ∷ raw) in
        elim (Bool-cases
          (has_text (network.lower (network.scheme parsed)) (text "http" ∷ text "https" ∷ []))) [
            | inr s ↦ rw (e, f, s, validate_outbound_url) tt
            | inl s ↦
                rw (e, f, s, validate_outbound_url)
                  (hostname-Settled network looks_up (c ∷ raw) (network.hostname parsed))
          ]
  ]

  answered :
      (url : Text) (posted : List Text) (verdict : Verdict)
      → Settled verdict
      → validate_outbound_url network url ≡ verdict
      → (ok : Bool) × ((send_webhook floats network post url posted).0 ≡ some ok)
  unfolding send_webhook
  answered url posted raised h e = absurd h
  answered url posted rejected h e = rw (e, send_webhook) (false, refl)
  answered url posted (allowed raw) h e = elim (Option-cases (post url)) [
    | inl f ↦ rw (e, f, send_webhook) (false, refl)
    | inr (status, f) ↦ rw (e, f, send_webhook) (_, refl)
  ]

  answers :
      (url : Text) (posted : List Text)
      → (ok : Bool) × ((send_webhook floats network post url posted).0 ≡ some ok)
  answers url posted =
      answered url posted (validate_outbound_url network url) (validate_outbound_url-Settled url)
        refl

  abbrev fired : ℕ → AlertRule floats → AlertRule floats
  fired now rule = record rule { last_triggered_at = some now }

  fire_rule-fired :
      (now : ℕ) (rule : AlertRule floats) (posted : List Text)
      → (fire_rule floats network post now rule posted).0 ≡ some (fired now rule)
  unfolding fire_rule
  fire_rule-fired now rule posted = elim (Option-cases (non_empty rule.webhook_url)) [
    | inl e ↦ simp (e, fire_rule)
    | inr (url, e) ↦ let (ok, f) = answers url posted in simp (e, f, fire_rule)
  ]

  -- Some entry of the rule's snapshot matches.
  abbrev pub has_match : (Kind → List (Entry floats)) → AlertRule floats → Bool
  has_match snapshots rule = elim (lookup rule.metric metric_paths) [
    | none ↦ false
    | some (field, kind) ↦ any (entry_matches floats rule field) (snapshots kind)
  ]

  abbrev pub is_firing : (Kind → List (Entry floats)) → AlertRule floats → Bool
  is_firing snapshots rule = rule.enabled && has_match snapshots rule

  evaluate_entries-any :
      (now : ℕ) (rule : AlertRule floats) (field : Text) (entries : List (Entry floats))
      (posted : List Text)
      → (evaluate_entries floats network post now rule field entries posted).0
        ≡ some (
          any (entry_matches floats rule field) entries,
          if any (entry_matches floats rule field) entries then fired now rule else rule,
        )
  unfolding evaluate_entries
  evaluate_entries-any now rule field [] posted = refl
  evaluate_entries-any now rule field (entry ∷ entries) posted =
      elim (Bool-cases (entry_matches floats rule field entry)) [
        | inl e ↦ simp (e, fire_rule-fired now rule posted, evaluate_entries)
        | inr e ↦ simp (e, evaluate_entries) (evaluate_entries-any now rule field entries posted)
      ]

  evaluate_rule-has_match :
      (now : ℕ) (rule : AlertRule floats) (snapshots : Kind → List (Entry floats))
      (posted : List Text)
      → (evaluate_rule floats network post now rule snapshots posted).0
        ≡ some (has_match snapshots rule, if has_match snapshots rule then fired now rule else rule)
  unfolding evaluate_rule
  evaluate_rule-has_match now rule snapshots posted =
      elim (Option-cases (lookup rule.metric metric_paths)) [
        | inl e ↦ simp (e, evaluate_rule)
        | inr ((field, kind), e) ↦
            simp (e, evaluate_rule) (evaluate_entries-any now rule field (snapshots kind) posted)
      ]

  -- Where `urlparse` raises nothing and `getaddrinfo` nothing but `gaierror`, an evaluation fires the
  -- enabled rules of which an entry matches, each once: it counts them and sets the time of each, and
  -- leaves the other rules as they were.
  pub evaluate_alerts-fired :
      (now : ℕ) (rules : List (AlertRule floats)) (snapshots : Kind → List (Entry floats))
      (posted : List Text)
      → (evaluate_alerts floats network post now rules snapshots posted).0
        ≡ some (
          length (keep_if (is_firing snapshots) rules),
          map (λ rule. if is_firing snapshots rule then fired now rule else rule) rules,
        )
  unfolding evaluate_alerts evaluate_rule
  evaluate_alerts-fired now [] snapshots posted = refl
  evaluate_alerts-fired now (rule ∷ rules) snapshots posted = elim (Bool-cases rule.enabled) [
    | inr e ↦
        let idle : is_firing snapshots rule ≡ false = simp (e) in
        simp (
          keep_if_no (is_firing snapshots) rule rules idle,
          e,
          evaluate_alerts-fired now rules snapshots posted,
          evaluate_alerts,
        )
    | inl e ↦
        let h = evaluate_rule-has_match now rule snapshots posted in
        elim (Bool-cases (has_match snapshots rule)) [
          | inl m ↦
              let firing : is_firing snapshots rule ≡ true = simp (e, m) in
              simp (
                keep_if_yes (is_firing snapshots) rule rules firing,
                e,
                h,
                m,
                evaluate_alerts,
                evaluate_alerts-fired now rules snapshots
                    (evaluate_rule floats network post now rule snapshots posted).1,
              )
          | inr m ↦
              let firing : is_firing snapshots rule ≡ false = simp (e, m) in
              simp (
                keep_if_no (is_firing snapshots) rule rules firing,
                e,
                h,
                m,
                evaluate_alerts,
                evaluate_alerts-fired now rules snapshots
                    (evaluate_rule floats network post now rule snapshots posted).1,
              )
        ]
  ]
