-- ===== src/Vpn/Connector.antt =====
-- internal/vpn/vpn.go: the commands of Import, Up, Down and Status. What `uci` does to the sections without
-- a name, which its other model leaves out, is written as documented.
pub mod Imports
use mist_ui.Router.Uci.{
  View, Cmd, set_section, set_option, add_list, delete_section, commit, service, effect, is_plain,
  is_value,
}
use mist_ui.Vpn.KillSwitch.{Forwarding}
use mist_ui.Vpn.Config.{Peer, Config, is_empty}
use mist_ui.Base.{
  ℕ, zero, suc, ◌+◌, ◌-◌, ◌*◌, ◌/◌, ◌%◌, ◌≤◌, ◌<◌, String, ◌≡◌, refl, sym, ap, subst, ◌∙◌, ◌≢◌, ◌↔◌,
  ◌⊎◌, inl, inr, Bool, true, false, not, ◌&&◌, ◌||◌, Option, none, some, List, [], ◌∷◌, ◌++◌, map,
  arith, if◌then◌else◌, ltb, leb, nat_eq, Bytes, str, bytes_eq, bytes_eq_iff, bytes_eq_refl,
  Bool-cases, Result, ok, err, ◌>>=◌, ◌>>◌, result_or, Result-cases, Option-cases, length, get_or,
  take, drop, length-append, take-append, drop-append, drop_past, get_or_past, take_part,
}

abbrev pub network : Bytes
network = str "network"

abbrev pub iface : Bytes
iface = str "wg0"

-- The options of a section without a name; the empty option stands for its type.
abbrev pub Options : Type 0
Options = Bytes → List Bytes

pub record Zone : Type 0 where
  pub name : Bytes
  pub networks : List Bytes
  pub input : Bytes
  pub output : Bytes
  pub forward : Bytes
  pub masq : Bytes
  pub mtu_fix : Bytes

-- The configuration of the network: its named sections, and those of type wireguard_wg0 that have no name.
abbrev pub NetworkConf : Type 0
NetworkConf = (Bytes → Options) × List Options

-- The named sections; the sections of type wireguard_wg0 that have no name; the configuration of the network
-- in its file, and as netifd has loaded it; the zones and forwardings of the firewall, and whether a
-- section of it that is no zone is named vpn.
pub record Router : Type 0 where
  pub named : View
  pub peers : List Options
  pub disk : NetworkConf
  pub live : NetworkConf
  pub zones : List Zone
  pub forwardings : List Forwarding
  pub vpn_elsewhere : Bool

-- uci set, or add_list, network.@wireguard_wg0[-1].opt=val
pub data PeerCmd : Type 0 where
  peer_set : Bytes → Bytes → PeerCmd
  peer_add_list : Bytes → Bytes → PeerCmd

pub data Command : Type 0 where
  -- A command on a section with a name.
  command : Cmd → Command
  -- while uci -q delete network.@wireguard_wg0[0]; do :; done
  delete_peers : Command
  -- uci add network wireguard_wg0
  add_peer : Command
  on_peer : PeerCmd → Command
  -- uci commit network
  commit_network : Command
  -- /etc/init.d/network reload
  reload_network : Command
  -- The script that adds the zone and its forwarding if nothing is named vpn.
  add_vpn_zone : Command

unfoldable pub peer_effect : PeerCmd → Options → Options
peer_effect (peer_set opt v) s o = if bytes_eq opt o then v ∷ [] else s o
peer_effect (peer_add_list opt v) s o = if bytes_eq opt o then s o ++ (v ∷ []) else s o

unfoldable pub peer_effects : List PeerCmd → Options → Options
peer_effects [] s = s
peer_effects (c ∷ cs) s = peer_effects cs (peer_effect c s)

-- A new section has its type alone.
abbrev pub fresh_peer : Options
fresh_peer o = if bytes_eq [] o then str "wireguard_wg0" ∷ [] else []

-- Index -1 is the last section.
unfoldable pub on_last : (Options → Options) → List Options → List Options
on_last f [] = []
on_last f (s ∷ []) = f s ∷ []
on_last f (s ∷ t ∷ ss) = s ∷ on_last f (t ∷ ss)

unfoldable pub has_zone : Bytes → List Zone → Bool
has_zone n [] = false
has_zone n (z ∷ zs) = bytes_eq n z.name || has_zone n zs

abbrev pub vpn_zone : Zone
vpn_zone = record {
  name = str "vpn";
  networks = iface ∷ [];
  input = str "REJECT";
  output = str "ACCEPT";
  forward = str "REJECT";
  masq = str "1";
  mtu_fix = str "1";
}

abbrev pub lan_vpn : Forwarding
lan_vpn = record { named = false; src = str "lan"; dest = str "vpn" }

abbrev pub peer_type : Bytes
peer_type = str "wireguard_wg0"

unfoldable pub is_peer_type : List Bytes → Bool
is_peer_type [] = false
is_peer_type (t ∷ ts) = bytes_eq peer_type t

-- network.@wireguard_wg0[0] also finds a section of that type that has a name.
unfoldable pub without_peers : View → View
unfolding is_peer_type
without_peers v c s o = if bytes_eq network c && is_peer_type (v c s []) then [] else v c s o

unfoldable pub command_effect : Command → Router → Router
command_effect (command c) r = record r { named = effect c r.named }
command_effect delete_peers r = record r { named = without_peers r.named; peers = [] }
command_effect add_peer r = record r { peers = r.peers ++ (fresh_peer ∷ []) }
command_effect (on_peer c) r = record r { peers = on_last (peer_effect c) r.peers }
command_effect commit_network r = record r { disk = (r.named network, r.peers) }
command_effect reload_network r = record r { live = r.disk }
command_effect add_vpn_zone r =
    if has_zone (str "vpn") r.zones || r.vpn_elsewhere then r else record r {
      zones = r.zones ++ (vpn_zone ∷ []);
      forwardings = r.forwardings ++ (lan_vpn ∷ []);
    }

unfoldable pub command_effects : List Command → Router → Router
command_effects [] r = r
command_effects (c ∷ cs) r = command_effects cs (command_effect c r)

abbrev pub when_set : {A : Type 0} → Bytes → List A → List A
when_set [] cs = []
when_set (_ ∷ _) cs = cs

-- The body of the loop over the peers, after the section has been added.
unfoldable pub peer_cmds : Peer → List PeerCmd
peer_cmds p =
    (peer_set (str "public_key") p.public_key ∷ [])
    ++ (when_set p.preshared_key (peer_set (str "preshared_key") p.preshared_key ∷ [])
        ++ (map (peer_add_list (str "allowed_ips")) p.allowed_ips
            ++ ((peer_set (str "route_allowed_ips") (str "1") ∷ [])
                ++ (when_set p.endpoint_host (
                      peer_set (str "endpoint_host") p.endpoint_host
                      ∷ peer_set (str "endpoint_port") p.endpoint_port
                      ∷ [])
                    ++ when_set p.persistent_keepalive
                        (peer_set (str "persistent_keepalive") p.persistent_keepalive ∷ [])))))

unfoldable pub peers_cmds : List Peer → List Command
unfolding peer_cmds
peers_cmds [] = []
peers_cmds (p ∷ ps) = add_peer ∷ (map on_peer (peer_cmds p) ++ peers_cmds ps)

-- The commands on the section of the interface, from its deletion on.
unfoldable pub interface_cmds : Config → List Cmd
interface_cmds cfg =
    (delete_section network iface
      ∷ set_section network iface (str "interface")
      ∷ set_option network iface (str "proto") (str "wireguard")
      ∷ set_option network iface (str "auto") (str "0")
      ∷ set_option network iface (str "private_key") cfg.private_key
      ∷ [])
    ++ (map (add_list network iface (str "addresses")) cfg.addresses
        ++ (map (add_list network iface (str "dns")) cfg.dns
            ++ when_set cfg.mtu (set_option network iface (str "mtu") cfg.mtu ∷ [])))

unfoldable pub import_cmds : Config → List Command
unfolding interface_cmds peers_cmds
import_cmds cfg =
    (delete_peers ∷ [])
    ++ (map command (interface_cmds cfg)
        ++ (peers_cmds cfg.peers ++ (commit_network ∷ add_vpn_zone ∷ reload_network ∷ [])))

-- Running the commands on the state `W` of the router: the first error ends the import.
pub record Shell (W : Type 0) : Type 0 where
  pub run : Command → W → Result (Unit {0}) × W
  pub router : W → Router

-- `uci set` with an empty value deletes: no value of a command is empty.
unfoldable pub is_set : Command → Bool
is_set (command c) = is_plain c
is_set (on_peer (peer_set opt v)) = is_value v
is_set (on_peer (peer_add_list opt v)) = is_value v
is_set c = true

unfoldable pub are_set : List Command → Bool
are_set [] = true
are_set (c ∷ cs) = is_set c && are_set cs

-- A command that succeeds does what it is documented to do.
pub record IsShell {W : Type 0} (S : Shell W) : Type 0 where
  pub run_effect :
      (c : Command) (w : W)
      → is_set c ≡ true
      → (S.run c w).0 ≡ ok tt
      → S.router (S.run c w).1 ≡ command_effect c (S.router w)

module _ {W : Type 0} (S : Shell W) where
  unfoldable pub run_commands : List Command → W → Result (Unit {0}) × W
  run_commands [] w = (ok tt, w)
  run_commands (c ∷ cs) w =
      let rest = run_commands cs (S.run c w).1 in
      elim (S.run c w).0 [ err e ↦ (err e, (S.run c w).1) | ok _ ↦ rest ]

  unfoldable pub import_config : Config → W → Result (Unit {0}) × W
  unfolding run_commands import_cmds
  import_config cfg w = run_commands (import_cmds cfg) w

  -- ifup, ifdown and `wg show wg0`.
  unfoldable pub up : Bytes → W → Result (Unit {0}) × W
  up name w = S.run (command (service (str "ifup") name)) w

  unfoldable pub down : Bytes → W → Result (Unit {0}) × W
  down name w = S.run (command (service (str "ifdown") name)) w
