-- ===== src/Alerts/Outbound.antt =====
-- The guard of requests to addresses that a user names: backend/app/core/outbound.py.
use rotsy.Base.{
  Bool, ◌||◌, Option, none, some, List, [], ◌∷◌, Text, text, has_text, strip, if◌then◌else◌, any,
}

-- A lookup of a host: it fails as one, raises another error, or gives addresses.
pub data Lookup (A : Type 0) : Type 0 where
  unresolved : Lookup A
  raises : Lookup A
  addresses : List A → Lookup A

-- What the guard asks of the standard library and the network.
pub record Network (Url Address : Type 0) : Type 0 where
  -- `urlparse`, `none` where it raises `ValueError`
  pub urlparse : Text → Option Url
  pub scheme : Url → Text
  -- `hostname`: `none` where it raises `ValueError`
  pub hostname : Url → Option (Option Text)
  pub lower : Text → Text
  -- `ip_address`, `none` where it raises `ValueError`
  pub ip_address : Text → Option Address
  -- `getaddrinfo`: `unresolved` where it raises `gaierror`, `raises` where it raises another error, as
  -- the `UnicodeError` of a host that has an empty label or one of more than 63 characters
  pub getaddrinfo : Text → Lookup Text
  pub is_private : Address → Bool
  pub is_loopback : Address → Bool
  pub is_link_local : Address → Bool
  pub is_reserved : Address → Bool
  pub is_multicast : Address → Bool
  pub is_unspecified : Address → Bool
  -- the setting `outbound_allowed_hosts`
  pub allowed_hosts : List Text

-- The URL, `OutboundURLError`, or another `ValueError`.
pub data Verdict : Type 0 where
  allowed : Text → Verdict
  rejected : Verdict
  raised : Verdict

module _ {Url Address : Type 0} (network : Network Url Address) where
  unfoldable pub is_blocked_address : Address → Bool
  is_blocked_address ip =
      network.is_private ip
      || network.is_loopback ip
      || network.is_link_local ip
      || network.is_reserved ip
      || network.is_multicast ip
      || network.is_unspecified ip

  abbrev pub usable : List Text → List Address
  usable [] = []
  usable (a ∷ infos) =
      let rest = usable infos in elim (network.ip_address a) [ none ↦ rest | some ip ↦ ip ∷ rest ]

  -- `_resolve`: `unresolved` where it raises `OutboundURLError`
  unfoldable pub resolve : Text → Lookup Address
  resolve host = elim (network.ip_address host) [
    | some ip ↦ addresses (ip ∷ [])
    | none ↦ elim (network.getaddrinfo host) [
      | unresolved ↦ unresolved
      | raises ↦ raises
      | addresses infos ↦ elim (usable infos) [ [] ↦ unresolved | ip ∷ ips ↦ addresses (ip ∷ ips) ]
    ]
  ]

  abbrev pub guard_host : Text → Text → Verdict
  guard_host raw host =
      if has_text (network.lower host) network.allowed_hosts
      then allowed raw
      else elim (resolve host) [
        | unresolved ↦ rejected
        | raises ↦ raised
        | addresses ips ↦ if any is_blocked_address ips then rejected else allowed raw
      ]

  unfoldable pub validate_outbound_url : Text → Verdict
  validate_outbound_url url = elim (strip url) [
    | [] ↦ rejected
    | c ∷ raw ↦ elim (network.urlparse (c ∷ raw)) [
      | none ↦ raised
      | some parsed ↦
          if has_text (network.lower (network.scheme parsed)) (text "http" ∷ text "https" ∷ [])
          then elim (network.hostname parsed) [
            | none ↦ rejected
            | some none ↦ rejected
            | some (some []) ↦ rejected
            | some (some (h ∷ host)) ↦ guard_host (c ∷ raw) (h ∷ host)
          ]
          else rejected
    ]
  ]
