-- ===== src/Vpn/Connector/Imports/Peers.antt =====
-- internal/vpn/vpn.go, Import: the sections of the peers.
use mist_ui.Vpn.Connector.Imports.Section.{section, HasPeer, section-HasPeer}
use mathlib.Core.List.{append_assoc, append-nil}
use mist_ui.Vpn.Connector.{
  Options, Router, PeerCmd, Command, on_peer, peer_effect, peer_effects, fresh_peer, on_last,
  command_effect, command_effects, peer_cmds, peers_cmds,
}
use mist_ui.Vpn.Config.{Peer}
use mist_ui.Base.{◌≡◌, refl, sym, ap, ◌∙◌, List, [], ◌∷◌, ◌++◌, map}

pub command_effects-append :
    (cs ds : List Command) (r : Router)
    → command_effects (cs ++ ds) r ≡ command_effects ds (command_effects cs r)
unfolding command_effects
command_effects-append [] ds r = refl
command_effects-append (c ∷ cs) ds r = command_effects-append cs ds (command_effect c r)

on_last-append :
    (f : Options → Options) (ss : List Options) (s : Options)
    → on_last f (ss ++ (s ∷ [])) ≡ ss ++ (f s ∷ [])
unfolding on_last
on_last-append f [] s = refl
on_last-append f (t ∷ []) s = refl
on_last-append f (t ∷ u ∷ ss) s = ap (λ r. t ∷ r) (on_last-append f (u ∷ ss) s)

on_peers :
    (cs : List PeerCmd) (r : Router) (ss : List Options) (s : Options)
    → r.peers ≡ ss ++ (s ∷ [])
    → command_effects (map on_peer cs) r ≡ record r { peers = ss ++ (peer_effects cs s ∷ []) }
unfolding command_effects command_effect peer_effects
on_peers [] r ss s h = ap (λ ps. record r { peers = ps }) h
on_peers (c ∷ cs) r ss s h =
    on_peers cs (command_effect (on_peer c) r) ss (peer_effect c s)
      (ap (on_last (peer_effect c)) h ∙ on_last-append (peer_effect c) ss s)

sections : List Peer → List Options
sections [] = []
sections (p ∷ ps) = section p ∷ sections ps

-- One section for each peer, in their order.
unfoldable pub AllHave : List Peer → List Options → Type 0
AllHave [] [] = Unit
AllHave [] (s ∷ ss) = ⊥
AllHave (p ∷ ps) [] = ⊥
AllHave (p ∷ ps) (s ∷ ss) = HasPeer p s × AllHave ps ss

sections-AllHave : (ps : List Peer) → AllHave ps (sections ps)
unfolding AllHave sections
sections-AllHave [] = tt
sections-AllHave (p ∷ ps) = (section-HasPeer p, sections-AllHave ps)

peers_cmds-sections :
    (ps : List Peer) (r : Router)
    → command_effects (peers_cmds ps) r ≡ record r { peers = r.peers ++ sections ps }
unfolding peers_cmds sections command_effects command_effect section
peers_cmds-sections [] r = ap (λ ss. record r { peers = ss }) (sym (append-nil r.peers))
peers_cmds-sections (p ∷ ps) r =
    let r1 : Router = record r { peers = r.peers ++ (fresh_peer ∷ []) } in
    let r2 : Router = record r { peers = r.peers ++ (section p ∷ []) } in
    command_effects-append (map on_peer (peer_cmds p)) (peers_cmds ps) r1
    ∙ ap (command_effects (peers_cmds ps)) (on_peers (peer_cmds p) r1 r.peers fresh_peer refl)
    ∙ peers_cmds-sections ps r2
    ∙ ap (λ ss. record r { peers = ss }) (append_assoc r.peers (section p ∷ []) (sections ps))

-- From no section, the commands of the peers make theirs.
pub peers_cmds-AllHave :
    (ps : List Peer) (r : Router)
    → r.peers ≡ []
    → (ss : List Options) × (command_effects (peers_cmds ps) r ≡ record r { peers = ss })
      × AllHave ps ss
peers_cmds-AllHave ps r h = (
  sections ps,
  peers_cmds-sections ps r ∙ ap (λ ss. record r { peers = ss ++ sections ps }) h,
  sections-AllHave ps,
)
