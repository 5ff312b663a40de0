-- ===== src/Alerts/Guarded.antt =====
-- Every request that an alert makes goes to an address that the guard permits.
use rotsy.Base.{
  ℕ, ◌≡◌, refl, sym, ap, subst, ◌∙◌, ◌⊎◌, inl, inr, true, false, Option, none, some, List, [], ◌∷◌,
  ◌++◌, Text, text, has_text, strip, lookup, text_key, non_empty, any, any-eq-false_iff, All,
  Bool-cases, Option-cases,
}
use rotsy.Alerts.Outbound.{
  Lookup, unresolved, raises, addresses, Network, Verdict, allowed, rejected, raised,
  is_blocked_address, resolve, guard_host, validate_outbound_url,
}
use rotsy.Alerts.{
  Floats, Kind, metric_paths, AlertRule, Entry, entry_matches, send_webhook, fire_rule,
  evaluate_entries, evaluate_rule, evaluate_alerts,
}

pub List-cases :
    {A : Type 0} (xs : List A) → (xs ≡ []) ⊎ ((x : A) × (rest : List A) × (xs ≡ x ∷ rest))
List-cases [] = inl refl
List-cases (x ∷ xs) = inr (x, xs, refl)

pub Lookup-cases :
    {A : Type 0} (l : Lookup A)
    → ((l ≡ unresolved) ⊎ (l ≡ raises)) ⊎ ((xs : List A) × (l ≡ addresses xs))
Lookup-cases unresolved = inl (inl refl)
Lookup-cases raises = inl (inr refl)
Lookup-cases (addresses xs) = inr (xs, refl)

module _ {Url Address : Type 0} (network : Network Url Address) where
  -- The scheme is `http` or `https`, and the host is exempt or has only addresses that are not
  -- blocked, one at least.
  abbrev pub IsPermitted : Text → Type 0
  IsPermitted url =
      (parsed : Url) × (host : Text) × (network.urlparse (strip url) ≡ some parsed)
      × (has_text (network.lower (network.scheme parsed)) (text "http" ∷ text "https" ∷ []) ≡ true)
      × (network.hostname parsed ≡ some (some host))
      × ((has_text (network.lower host) network.allowed_hosts ≡ true)
          ⊎ ((ips : List Address) × (resolve network host ≡ addresses ips)
              × All (λ ip. is_blocked_address network ip ≡ false) ips))

  abbrev HostPermitted : Text → Verdict → Type 0
  HostPermitted host (allowed raw) =
      (has_text (network.lower host) network.allowed_hosts ≡ true)
      ⊎ ((ips : List Address) × (resolve network host ≡ addresses ips)
          × All (λ ip. is_blocked_address network ip ≡ false) ips)
  HostPermitted host rejected = Unit
  HostPermitted host raised = Unit

  guard_host-HostPermitted : (raw host : Text) → HostPermitted host (guard_host network raw host)
  guard_host-HostPermitted raw host =
      elim (Bool-cases (has_text (network.lower host) network.allowed_hosts)) [
        | inl e ↦ rw e (inl e)
        | inr e ↦ elim (Lookup-cases (resolve network host)) [
          | inl (inl f) ↦ rw (e, f) tt
          | inl (inr f) ↦ rw (e, f) tt
          | inr (ips, f) ↦ elim (Bool-cases (any (is_blocked_address network) ips)) [
            | inl g ↦ rw (e, f, g) tt
            | inr g ↦
                rw (e, f, g) (inr (ips, f, (any-eq-false_iff (is_blocked_address network) ips).0 g))
          ]
        ]
      ]

  abbrev Permitted : Text → Verdict → Type 0
  Permitted url (allowed raw) = IsPermitted url
  Permitted url rejected = Unit
  Permitted url raised = Unit

  host-Permitted :
      (url raw host : Text) (parsed : Url) (verdict : Verdict)
      → network.urlparse (strip url) ≡ some parsed
      → has_text (network.lower (network.scheme parsed)) (text "http" ∷ text "https" ∷ []) ≡ true
      → network.hostname parsed ≡ some (some host)
      → HostPermitted host verdict
      → Permitted url verdict
  host-Permitted url raw host parsed (allowed _) p s h ok = (parsed, host, p, s, h, ok)
  host-Permitted url raw host parsed rejected p s h ok = tt
  host-Permitted url raw host parsed raised p s h ok = tt

  validate_outbound_url-Permitted : (url : Text) → Permitted url (validate_outbound_url network url)
  unfolding validate_outbound_url
  validate_outbound_url-Permitted url = elim (List-cases (strip url)) [
    | inl e ↦ rw (e, validate_outbound_url) tt
    | inr (c, raw, e) ↦ elim (Option-cases (network.urlparse (c ∷ raw))) [
      | inl f ↦ rw (e, f, validate_outbound_url) tt
      | inr (parsed, f) ↦
          elim (Bool-cases
            (has_text (network.lower (network.scheme parsed)) (text "http" ∷ text "https" ∷ []))) [
              | inr s ↦ rw (e, f, s, validate_outbound_url) tt
              | inl s ↦ elim (Option-cases (network.hostname parsed)) [
                | inl g ↦ rw (e, f, s, g, validate_outbound_url) tt
                | inr (none, g) ↦ rw (e, f, s, g, validate_outbound_url) tt
                | inr (some [], g) ↦ rw (e, f, s, g, validate_outbound_url) tt
                | inr (some (h ∷ host), g) ↦
                    let v : validate_outbound_url network url
                        ≡ guard_host network (c ∷ raw) (h ∷ host) =
                      rw (e, f, s, g, validate_outbound_url) refl in
                    subst (Permitted url) (sym v) (
                      host-Permitted url (c ∷ raw) (h ∷ host) parsed
                        (guard_host network (c ∷ raw) (h ∷ host)) (ap network.urlparse e ∙ f) s g
                        (guard_host-HostPermitted (c ∷ raw) (h ∷ host)))
              ]
            ]
    ]
  ]

  module _ {F : Type 0} (floats : Floats F) (post : Text → Option ℕ) where
    abbrev pub AllPermitted : List Text → Type 0
    AllPermitted posted = All IsPermitted posted

    All-last :
        (posted : List Text) (url : Text)
        → AllPermitted posted
        → IsPermitted url
        → AllPermitted (posted ++ url ∷ [])
    All-last [] url h p = (p, tt)
    All-last (u ∷ posted) url (q, h) p = (q, All-last posted url h p)

    posted-All :
        (url : Text) (posted : List Text) (verdict : Verdict)
        → Permitted url verdict
        → AllPermitted posted
        → validate_outbound_url network url ≡ verdict
        → AllPermitted (send_webhook floats network post url posted).1
    unfolding send_webhook
    posted-All url posted rejected p h e = rw (e, send_webhook) h
    posted-All url posted raised p h e = rw (e, send_webhook) h
    posted-All url posted (allowed raw) p h e = rw (e, send_webhook) (All-last posted url h p)

    send_webhook-AllPermitted :
        (url : Text) (posted : List Text)
        → AllPermitted posted
        → AllPermitted (send_webhook floats network post url posted).1
    send_webhook-AllPermitted url posted h =
        posted-All url posted (validate_outbound_url network url)
          (validate_outbound_url-Permitted url) h refl

    fire_rule-AllPermitted :
        (now : ℕ) (rule : AlertRule floats) (posted : List Text)
        → AllPermitted posted
        → AllPermitted (fire_rule floats network post now rule posted).1
    unfolding fire_rule
    fire_rule-AllPermitted now rule posted h = elim (Option-cases (non_empty rule.webhook_url)) [
      | inl e ↦ rw (e, fire_rule) h
      | inr (url, e) ↦ rw (e, fire_rule) (send_webhook-AllPermitted url posted h)
    ]

    evaluate_entries-AllPermitted :
        (now : ℕ) (rule : AlertRule floats) (field : Text) (entries : List (Entry floats))
        (posted : List Text)
        → AllPermitted posted
        → AllPermitted (evaluate_entries floats network post now rule field entries posted).1
    unfolding evaluate_entries
    evaluate_entries-AllPermitted now rule field [] posted h = h
    evaluate_entries-AllPermitted now rule field (entry ∷ entries) posted h =
        elim (Bool-cases (entry_matches floats rule field entry)) [
          | inl e ↦ rw (e, evaluate_entries) (fire_rule-AllPermitted now rule posted h)
          | inr e ↦
              rw (e, evaluate_entries)
                (evaluate_entries-AllPermitted now rule field entries posted h)
        ]

    evaluate_rule-AllPermitted :
        (now : ℕ) (rule : AlertRule floats) (snapshots : Kind → List (Entry floats))
        (posted : List Text)
        → AllPermitted posted
        → AllPermitted (evaluate_rule floats network post now rule snapshots posted).1
    unfolding evaluate_rule
    evaluate_rule-AllPermitted now rule snapshots posted h =
        elim (Option-cases (lookup rule.metric metric_paths)) [
          | inl e ↦ rw (e, evaluate_rule) h
          | inr ((field, kind), e) ↦
              rw (e, evaluate_rule)
                (evaluate_entries-AllPermitted now rule field (snapshots kind) posted h)
        ]

    -- Whatever the rules, the rows of a table that predate the guard included, and whatever the
    -- snapshots, an evaluation posts only to URLs with the scheme `http` or `https` whose host is
    -- exempt by the settings or has addresses of which none is blocked.
    pub evaluate_alerts-AllPermitted :
        (now : ℕ) (rules : List (AlertRule floats)) (snapshots : Kind → List (Entry floats))
        (posted : List Text)
        → AllPermitted posted
        → AllPermitted (evaluate_alerts floats network post now rules snapshots posted).1
    unfolding evaluate_alerts evaluate_rule
    evaluate_alerts-AllPermitted now [] snapshots posted h = h
    evaluate_alerts-AllPermitted now (rule ∷ rules) snapshots posted h =
        elim (Bool-cases rule.enabled) [
          | inr e ↦
              rw (e, evaluate_alerts) (evaluate_alerts-AllPermitted now rules snapshots posted h)
          | inl e ↦
              let k = evaluate_rule-AllPermitted now rule snapshots posted h in
              elim (Option-cases (evaluate_rule floats network post now rule snapshots posted).0) [
                | inl f ↦ rw (e, f, evaluate_alerts) k
                | inr ((fires, rule'), f) ↦
                    rw (e, f, evaluate_alerts)
                      (evaluate_alerts-AllPermitted now rules snapshots _ k)
              ]
        ]
