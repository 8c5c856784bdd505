-- ===== src/Vpn/Connector/Imports.antt =====
-- internal/vpn/vpn.go, Import: the router after a run without error.
pub mod Section
pub mod Peers
pub mod Interface
use mathlib.Core.List.{append_assoc, append-nil}
use mist_ui.Vpn.Connector.Imports.Peers.{AllHave, peers_cmds-AllHave, command_effects-append}
use mist_ui.Vpn.Connector.Imports.Section.{optional, set_or, set_or_same, set_or-optional}
use mist_ui.Vpn.Connector.Imports.Interface.{
  HasInterface, interface_cmds-HasInterface, interface_cmds_away,
}
use mist_ui.Vpn.Connector.{
  network, iface, Options, Router, PeerCmd, Command, command, peer_effect, peer_effects,
  command_effect, command_effects, when_set, delete_peers, add_vpn_zone, vpn_zone, interface_cmds,
  peers_cmds, import_cmds, Zone, has_zone, lan_vpn, NetworkConf, without_peers, is_peer_type,
  commit_network, reload_network, Shell, IsShell, is_set, are_set, run_commands, import_config,
}
use mist_ui.Vpn.KillSwitch.{Forwarding, Faults, find_lan_wan, kill_switch}
use mist_ui.Vpn.KillSwitch.Loop.{is_lan_wan, has_lan_wan}
use mist_ui.Vpn.KillSwitch.Switch.{kill_switch_same}
use mist_ui.Router.Uci.{
  View, Cmd, delete_section, set_section, add_list, set_option, effect, effects, commit, service,
}
use mist_ui.Vpn.Config.{Peer, Config, is_empty}
use mist_ui.Base.{
  ℕ, zero, suc, ◌+◌, ◌-◌, ◌*◌, ◌/◌, ◌%◌, ◌≤◌, ◌<◌, String, ◌≡◌, refl, sym, ap, subst, ◌∙◌, ◌≢◌, ◌↔◌,
  ◌⊎◌, inl, inr, Bool, true, false, not, ◌&&◌, ◌||◌, Option, none, some, List, [], ◌∷◌, ◌++◌, map,
  arith, if◌then◌else◌, ltb, leb, nat_eq, Bytes, str, bytes_eq, bytes_eq_iff, bytes_eq_refl,
  Bool-cases, Result, ok, err, ◌>>=◌, ◌>>◌, result_or, Result-cases, Option-cases, length, get_or,
  take, drop, length-append, take-append, drop-append, drop_past, get_or_past, take_part,
}

command_effects-command :
    (cs : List Cmd) (r : Router)
    → command_effects (map command cs) r ≡ record r { named = effects cs r.named }
unfolding command_effects command_effect effects
command_effects-command [] r = refl
command_effects-command (c ∷ cs) r =
    command_effects-command cs (record r { named = effect c r.named })

-- The router after an import: `cfg` and no earlier one is what its interface and its peers say, a named
-- section of the network that was a peer of wg0 is gone, every other named section is as it
-- was, netifd has loaded the configuration of the network as it now is, a section of the firewall is named
-- vpn, and the kill switch reads as before.
pub record IsImported (cfg : Config) (r t : Router) : Type 0 where
  pub interface : HasInterface cfg (t.named network iface)
  pub peers : AllHave cfg.peers t.peers
  pub elsewhere :
      (c s o : Bytes)
      → (bytes_eq network c && bytes_eq iface s) ≡ false
      → t.named c s o
        ≡ (if bytes_eq network c && is_peer_type (r.named c s []) then [] else r.named c s o)
  pub in_force : t.live ≡ (t.named network, t.peers)
  pub zone : (has_zone (str "vpn") t.zones || t.vpn_elsewhere) ≡ true
  pub same_switch : (x : Faults) → kill_switch x t.forwardings ≡ kill_switch x r.forwardings

last_cmds : List Command
last_cmds = commit_network ∷ add_vpn_zone ∷ reload_network ∷ []

import_cmds-effects :
    (cfg : Config) (r : Router)
    → (ss : List Options) × AllHave cfg.peers ss
      × (command_effects (import_cmds cfg) r
          ≡ command_effects last_cmds (record r {
            named = effects (interface_cmds cfg) (without_peers r.named);
            peers = ss;
          }))
unfolding import_cmds command_effects command_effect last_cmds
import_cmds-effects cfg r =
    let r1 : Router = record r { named = without_peers r.named; peers = [] } in
    let r2 : Router = record r1 { named = effects (interface_cmds cfg) r1.named } in
    let (ss, e, h) = peers_cmds-AllHave cfg.peers r2 refl in
    let others = peers_cmds cfg.peers ++ last_cmds in
    (
      ss,
      h,
      command_effects-append (map command (interface_cmds cfg)) others r1
          ∙ ap (command_effects others) (command_effects-command (interface_cmds cfg) r1)
          ∙ command_effects-append (peers_cmds cfg.peers) last_cmds r2
          ∙ ap (command_effects last_cmds) e,
    )

has_lan_wan-lan_vpn : (fs : List Forwarding) → has_lan_wan (fs ++ (lan_vpn ∷ [])) ≡ has_lan_wan fs
unfolding has_lan_wan is_lan_wan str bytes_eq
has_lan_wan-lan_vpn [] = refl
has_lan_wan-lan_vpn (f ∷ fs) = ap (λ b. is_lan_wan f || b) (has_lan_wan-lan_vpn fs)

has_zone-vpn : (zs : List Zone) → has_zone (str "vpn") (zs ++ (vpn_zone ∷ [])) ≡ true
unfolding has_zone str bytes_eq
has_zone-vpn [] = refl
has_zone-vpn (z ∷ zs) = ground (arith, has_zone-vpn zs)

-- What the last commands, on a router `t`, leave alone.
record AreLast (t u : Router) : Type 0 where
  same_named : u.named ≡ t.named
  same_peers : u.peers ≡ t.peers
  in_force : u.live ≡ (u.named network, u.peers)
  zone : (has_zone (str "vpn") u.zones || u.vpn_elsewhere) ≡ true
  same_switch : (x : Faults) → kill_switch x u.forwardings ≡ kill_switch x t.forwardings

last_cmds-AreLast : (t : Router) → AreLast t (command_effects last_cmds t)
unfolding command_effects command_effect effect last_cmds
last_cmds-AreLast t = elim (Bool-cases (has_zone (str "vpn") t.zones || t.vpn_elsewhere)) [
  | inl p ↦
      let here : NetworkConf = (t.named network, t.peers) in
      let u : Router = record t { disk = here; live = here } in
      let e : u ≡ command_effects last_cmds t = ground (arith, p) in
      subst (λ u. AreLast t u) e
        (record {
          same_named = refl;
          same_peers = refl;
          in_force = refl;
          zone = p;
          same_switch = λ x. refl;
        })
  | inr p ↦
      let here : NetworkConf = (t.named network, t.peers) in
      let u : Router = record t {
        disk = here;
        live = here;
        zones = t.zones ++ (vpn_zone ∷ []);
        forwardings = t.forwardings ++ (lan_vpn ∷ []);
      } in
      let e : u ≡ command_effects last_cmds t = ground (arith, p) in
      subst (λ u. AreLast t u) e
        (record {
          same_named = refl;
          same_peers = refl;
          in_force = refl;
          zone = ground (arith, has_zone-vpn t.zones);
          same_switch = λ x.
              kill_switch_same x u.forwardings t.forwardings (has_lan_wan-lan_vpn t.forwardings);
        })
]

import_cmds-IsImported :
    (cfg : Config) (r : Router) → IsImported cfg r (command_effects (import_cmds cfg) r)
unfolding without_peers
import_cmds-IsImported cfg r =
    let (ss, h, e) = import_cmds-effects cfg r in
    let v = without_peers r.named in
    let t : Router = record r { named = effects (interface_cmds cfg) v; peers = ss } in
    let l = last_cmds-AreLast t in
    subst (λ u. IsImported cfg r u) (sym e)
      (record {
        interface =
            subst (λ v. HasInterface cfg (v network iface)) (sym l.same_named)
              (interface_cmds-HasInterface cfg v);
        peers = subst (λ us. AllHave cfg.peers us) (sym l.same_peers) h;
        elsewhere = λ c s o k. ap (λ v. v c s o) l.same_named ∙ interface_cmds_away c s o k cfg v;
        in_force = l.in_force;
        zone = l.zone;
        same_switch = l.same_switch;
      })

-- A run of the commands without error has their effects, in their order.
commands_run :
    {W : Type 0} (S : Shell W) (cs : List Command) (w : W)
    → IsShell S
    → are_set cs ≡ true
    → (run_commands S cs w).0 ≡ ok tt
    → S.router (run_commands S cs w).1 ≡ command_effects cs (S.router w)
unfolding run_commands command_effects are_set
commands_run S [] w L p h = refl
commands_run S (c ∷ cs) w L p h = elim (Result-cases (S.run c w).0) [
  | inr (e, q) ↦ absurd (ground (arith, q))
  | inl (u, q) ↦
      rw (q, run_commands)
        (commands_run S cs (S.run c w).1 L (ground arith) (ground (arith, q))
          ∙ ap (command_effects cs) (L.run_effect c w (ground arith) (q ∙ refl)))
]

-- An import that returns no error, of a configuration none of whose values is empty where a command sets
-- it, leaves the router with the interface and the peers of that configuration and of no earlier one, and
-- the kill switch as it was; a named section of the network that is of the type of these peers is
-- emptied, every other named section is as it was; and the configuration of the network is in force:
-- committed, and then loaded by netifd.
pub import_config-IsImported :
    {W : Type 0} (S : Shell W) (cfg : Config) (w : W)
    → IsShell S
    → are_set (import_cmds cfg) ≡ true
    → (import_config S cfg w).0 ≡ ok tt
    → IsImported cfg (S.router w) (S.router (import_config S cfg w).1)
unfolding import_config
import_config-IsImported S cfg w L p h =
    subst (λ t. IsImported cfg (S.router w) t) (sym (commands_run S (import_cmds cfg) w L p h))
      (import_cmds-IsImported cfg (S.router w))
