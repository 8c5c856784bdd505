-- ===== src/Vpn/Config/Secrets.antt =====
-- internal/vpn/config.go, Summary, and the key material of a configuration.
use mist_ui.Vpn.Config.{Net, Peer, Config, endpoints, all_allowed_ips, summary}
use mist_ui.Base.{◌≡◌, refl, ap, List, [], ◌∷◌, ◌++◌, arith, Bytes}

-- The peers with other keys of both kinds.
abbrev pub rekey_peers : (Peer → Bytes) → (Peer → Bytes) → List Peer → List Peer
rekey_peers f g [] = []
rekey_peers f g (p ∷ ps) = record p { public_key = f p; preshared_key = g p } ∷ rekey_peers f g ps

abbrev pub rekey : Bytes → (Peer → Bytes) → (Peer → Bytes) → Config → Config
rekey k f g cfg = record cfg { private_key = k; peers = rekey_peers f g cfg.peers }

module _ (N : Net) where
  endpoints-rekey :
      (f g : Peer → Bytes) (ps : List Peer) → endpoints N (rekey_peers f g ps) ≡ endpoints N ps
  unfolding endpoints
  endpoints-rekey f g [] = refl
  endpoints-rekey f g (p ∷ ps) = ground (arith, endpoints-rekey f g ps)

  all_allowed_ips-rekey :
      (f g : Peer → Bytes) (ps : List Peer)
      → all_allowed_ips N (rekey_peers f g ps) ≡ all_allowed_ips N ps
  unfolding all_allowed_ips
  all_allowed_ips-rekey f g [] = refl
  all_allowed_ips-rekey f g (p ∷ ps) = ap (λ r. p.allowed_ips ++ r) (all_allowed_ips-rekey f g ps)

  -- The summary does not depend on any key: with every private, public and preshared key replaced by
  -- another, whatever they are, it is the same.
  pub summary-rekey :
      (k : Bytes) (f g : Peer → Bytes) (cfg : Config) → summary N (rekey k f g cfg) ≡ summary N cfg
  unfolding summary
  summary-rekey k f g cfg =
      rw (endpoints-rekey f g cfg.peers, all_allowed_ips-rekey f g cfg.peers) refl
