-- ===== src/HttpApi/Tunnel/Pins.antt =====
-- internal/httpapi/dnsops.go, pinEndpoints: what it changes, and what it leaves.
use mist_ui.Vpn.Config.{Net, Peer, Config, is_empty}
use mist_ui.HttpApi.Tunnel.{Host, first_ip4, pin_host, pin_peers, pin_endpoints}
use mist_ui.Base.{
  ◌≡◌, refl, ap, ◌⊎◌, inl, inr, true, ◌||◌, List, [], ◌∷◌, arith, Bytes, Bool-cases, Result-cases,
}

module _ (N : Net) (H : Host) where
  first_ip4-cases :
      (addrs : List Bytes) (host : Bytes)
      → (first_ip4 N H addrs host ≡ host) ⊎ (H.is_ip4 (first_ip4 N H addrs host) ≡ true)
  unfolding first_ip4
  first_ip4-cases [] host = inl refl
  first_ip4-cases (a ∷ addrs) host = elim (Bool-cases (H.is_ip4 a)) [
    | inl p ↦ inr (ground (arith, p))
    | inr p ↦ ground (arith, p, first_ip4-cases addrs host)
  ]

  -- A host is kept, or is an IPv4 address now.
  pub pin_host-cases :
      (host : Bytes) → (pin_host N H host ≡ host) ⊎ (H.is_ip4 (pin_host N H host) ≡ true)
  unfolding pin_host
  pin_host-cases host = elim (Bool-cases (is_empty host || N.is_ip host)) [
    | inl p ↦ inl (ground (arith, p))
    | inr p ↦ elim (Result-cases (H.lookup host)) [
      | inr (e, q) ↦ inl (ground (arith, p, q))
      | inl (addrs, q) ↦ ground (arith, p, q, first_ip4-cases addrs host)
    ]
  ]

  pin_host_ip : (host : Bytes) → N.is_ip host ≡ true → pin_host N H host ≡ host
  unfolding pin_host
  pin_host_ip host h = elim (Bool-cases (is_empty host)) [
    | inl p ↦ ground (arith, h, p)
    | inr p ↦ ground (arith, h, p)
  ]

  pin_host_again :
      (host : Bytes)
      → ((a : Bytes) → H.is_ip4 a ≡ true → N.is_ip a ≡ true)
      → pin_host N H (pin_host N H host) ≡ pin_host N H host
  pin_host_again host four = elim (pin_host-cases host) [
    | inl e ↦ ap (pin_host N H) e
    | inr p ↦ pin_host_ip (pin_host N H host) (four (pin_host N H host) p)
  ]

  pin_peers_again :
      (ps : List Peer)
      → ((a : Bytes) → H.is_ip4 a ≡ true → N.is_ip a ≡ true)
      → pin_peers N H (pin_peers N H ps) ≡ pin_peers N H ps
  unfolding pin_peers
  pin_peers_again [] four = refl
  pin_peers_again (p ∷ ps) four =
      rw (pin_host_again p.endpoint_host four, pin_peers_again ps four) refl

  -- Where every IPv4 address is an address, and the lookups answer the same, pinning the endpoints of a
  -- pinned configuration changes nothing.
  pub pin_endpoints_again :
      (cfg : Config)
      → ((a : Bytes) → H.is_ip4 a ≡ true → N.is_ip a ≡ true)
      → pin_endpoints N H (pin_endpoints N H cfg) ≡ pin_endpoints N H cfg
  unfolding pin_endpoints
  pin_endpoints_again cfg four = rw (pin_peers_again cfg.peers four) refl
