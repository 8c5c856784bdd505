-- ===== src/Vpn/Connector/Imports/Section.antt =====
-- internal/vpn/vpn.go, Import: the options that the commands of one peer set.
use mathlib.Core.List.{append_assoc, append-nil}
use mist_ui.Vpn.Connector.{
  Options, PeerCmd, peer_set, peer_add_list, peer_effect, peer_effects, fresh_peer, when_set,
  peer_cmds,
}
use mist_ui.Vpn.Config.{Peer}
use mist_ui.Base.{
  ◌≡◌, refl, ap, ◌∙◌, inl, inr, List, [], ◌∷◌, ◌++◌, map, arith, if◌then◌else◌, Bytes, str,
  bytes_eq, Bool-cases,
}

peer_effects-append :
    (cs ds : List PeerCmd) (s : Options)
    → peer_effects (cs ++ ds) s ≡ peer_effects ds (peer_effects cs s)
unfolding peer_effects
peer_effects-append [] ds s = refl
peer_effects-append (c ∷ cs) ds s = peer_effects-append cs ds (peer_effect c s)

-- The section that Import adds for a peer.
unfoldable pub section : Peer → Options
section p = peer_effects (peer_cmds p) fresh_peer

add_lists :
    (o p : Bytes) (xs : List Bytes) (s : Options)
    → peer_effects (map (peer_add_list o) xs) s p ≡ (if bytes_eq o p then s p ++ xs else s p)
unfolding peer_effects peer_effect
add_lists o p [] s = elim (Bool-cases (bytes_eq o p)) [
  | inl h ↦ ground (arith, h, append-nil (s p))
  | inr h ↦ ground (arith, h)
]
add_lists o p (x ∷ xs) s =
    let k = add_lists o p xs (peer_effect (peer_add_list o x) s) in
    elim (Bool-cases (bytes_eq o p)) [
      | inl h ↦ ground (arith, h, k, append_assoc (s p) (x ∷ []) xs)
      | inr h ↦ ground (arith, h, k)
    ]

-- A value that is absent where it is empty.
abbrev pub optional : Bytes → List Bytes
optional v = when_set v (v ∷ [])

-- The options of a section that say what the peer of the configuration says.
pub record HasPeer (p : Peer) (s : Options) : Type 0 where
  pub public_key : s (str "public_key") ≡ p.public_key ∷ []
  pub preshared_key : s (str "preshared_key") ≡ optional p.preshared_key
  pub allowed_ips : s (str "allowed_ips") ≡ p.allowed_ips
  pub routed : s (str "route_allowed_ips") ≡ str "1" ∷ []
  pub endpoint_host : s (str "endpoint_host") ≡ optional p.endpoint_host
  pub endpoint_port : s (str "endpoint_port") ≡ when_set p.endpoint_host (p.endpoint_port ∷ [])
  pub keepalive : s (str "persistent_keepalive") ≡ optional p.persistent_keepalive

-- The values after a command that is left out where `v` is empty.
unfoldable pub set_or : Bytes → List Bytes → List Bytes → List Bytes
set_or [] new old = old
set_or (_ ∷ _) new old = new

pub set_or_same : (v : Bytes) (x : List Bytes) → set_or v x x ≡ x
unfolding set_or
set_or_same [] x = refl
set_or_same (c ∷ v) x = refl

pub set_or-optional : (v w : Bytes) → set_or v (w ∷ []) [] ≡ when_set v (w ∷ [])
unfolding set_or
set_or-optional [] w = refl
set_or-optional (c ∷ v) w = refl

set_at :
    (o q v : Bytes) (s : Options)
    → peer_effects (when_set v (peer_set o v ∷ [])) s q
      ≡ set_or v (if bytes_eq o q then v ∷ [] else s q) (s q)
unfolding peer_effects peer_effect set_or
set_at o q [] s = refl
set_at o q (c ∷ v) s = refl

endpoint_at :
    (q host port : Bytes) (s : Options)
    → peer_effects
        (when_set host
          (peer_set (str "endpoint_host") host ∷ peer_set (str "endpoint_port") port ∷ []))
        s
        q
      ≡ set_or host
          (if bytes_eq (str "endpoint_port") q
            then port ∷ []
            else if bytes_eq (str "endpoint_host") q
            then host ∷ []
            else s q)
          (s q)
unfolding peer_effects peer_effect set_or
endpoint_at q [] port s = refl
endpoint_at q (c ∷ host) port s = refl

-- The segments of the commands, one after the other.
keyed : Peer → Options
keyed p q = if bytes_eq (str "public_key") q then p.public_key ∷ [] else fresh_peer q

shared : Peer → Options
shared p q =
    set_or p.preshared_key
      (if bytes_eq (str "preshared_key") q then p.preshared_key ∷ [] else keyed p q) (keyed p q)

listed : Peer → Options
listed p q = if bytes_eq (str "allowed_ips") q then shared p q ++ p.allowed_ips else shared p q

routed : Peer → Options
routed p q = if bytes_eq (str "route_allowed_ips") q then str "1" ∷ [] else listed p q

pointed : Peer → Options
pointed p q =
    set_or p.endpoint_host
      (if bytes_eq (str "endpoint_port") q
        then p.endpoint_port ∷ []
        else if bytes_eq (str "endpoint_host") q
        then p.endpoint_host ∷ []
        else routed p q)
      (routed p q)

staged1 : Peer → Options
staged1 p = peer_effects (peer_set (str "public_key") p.public_key ∷ []) fresh_peer

staged2 : Peer → Options
staged2 p =
    peer_effects (when_set p.preshared_key (peer_set (str "preshared_key") p.preshared_key ∷ []))
      (staged1 p)

staged3 : Peer → Options
staged3 p = peer_effects (map (peer_add_list (str "allowed_ips")) p.allowed_ips) (staged2 p)

staged4 : Peer → Options
staged4 p = peer_effects (peer_set (str "route_allowed_ips") (str "1") ∷ []) (staged3 p)

staged5 : Peer → Options
staged5 p =
    peer_effects
      (when_set p.endpoint_host (
        peer_set (str "endpoint_host") p.endpoint_host
        ∷ peer_set (str "endpoint_port") p.endpoint_port
        ∷ []))
      (staged4 p)

staged5_at : (p : Peer) (q : Bytes) → staged5 p q ≡ pointed p q
unfolding staged5 staged4 staged3 staged2 staged1 pointed routed listed shared keyed peer_effects
    peer_effect
staged5_at p q =
    rw
      (
        endpoint_at q p.endpoint_host p.endpoint_port (staged4 p),
        add_lists (str "allowed_ips") q p.allowed_ips (staged2 p),
        set_at (str "preshared_key") q p.preshared_key (staged1 p),
      )
      refl

section-staged5 :
    (p : Peer)
    → section p
      ≡ peer_effects
          (when_set p.persistent_keepalive
            (peer_set (str "persistent_keepalive") p.persistent_keepalive ∷ []))
          (staged5 p)
unfolding section peer_cmds staged5 staged4 staged3 staged2 staged1
section-staged5 p =
    peer_effects-append (peer_set (str "public_key") p.public_key ∷ []) _ fresh_peer
    ∙ peer_effects-append
        (when_set p.preshared_key (peer_set (str "preshared_key") p.preshared_key ∷ [])) _
        (staged1 p)
    ∙ peer_effects-append (map (peer_add_list (str "allowed_ips")) p.allowed_ips) _ (staged2 p)
    ∙ peer_effects-append (peer_set (str "route_allowed_ips") (str "1") ∷ []) _ (staged3 p)
    ∙ peer_effects-append
        (when_set p.endpoint_host (
          peer_set (str "endpoint_host") p.endpoint_host
          ∷ peer_set (str "endpoint_port") p.endpoint_port
          ∷ []))
        _ (staged4 p)

section_at :
    (p : Peer) (q : Bytes)
    → section p q
      ≡ set_or p.persistent_keepalive
          (if bytes_eq (str "persistent_keepalive") q
            then p.persistent_keepalive ∷ []
            else pointed p q)
          (pointed p q)
section_at p q =
    ap (λ s. s q) (section-staged5 p)
    ∙ set_at (str "persistent_keepalive") q p.persistent_keepalive (staged5 p)
    ∙ rw (staged5_at p q) refl

pub section-HasPeer : (p : Peer) → HasPeer p (section p)
unfolding pointed routed listed shared keyed str bytes_eq
section-HasPeer p =
    let ka = p.persistent_keepalive in
    let host = p.endpoint_host in
    let psk = p.preshared_key in
    record {
      public_key =
          section_at p (str "public_key")
          ∙ set_or_same ka _
          ∙ set_or_same host _
          ∙ set_or_same psk _;
      preshared_key =
          section_at p (str "preshared_key")
          ∙ set_or_same ka _
          ∙ set_or_same host _
          ∙ set_or-optional psk psk;
      allowed_ips =
          section_at p (str "allowed_ips")
          ∙ set_or_same ka _
          ∙ set_or_same host _
          ∙ ap (λ x. x ++ p.allowed_ips) (set_or_same psk []);
      routed = section_at p (str "route_allowed_ips") ∙ set_or_same ka _ ∙ set_or_same host _;
      endpoint_host =
          section_at p (str "endpoint_host")
          ∙ set_or_same ka _
          ∙ ap (set_or host (host ∷ [])) (set_or_same psk [])
          ∙ set_or-optional host host;
      endpoint_port =
          section_at p (str "endpoint_port")
          ∙ set_or_same ka _
          ∙ ap (set_or host (p.endpoint_port ∷ [])) (set_or_same psk [])
          ∙ set_or-optional host p.endpoint_port;
      keepalive =
          section_at p (str "persistent_keepalive")
          ∙ ap (set_or ka (ka ∷ [])) (set_or_same host _ ∙ set_or_same psk [])
          ∙ set_or-optional ka ka;
    }
