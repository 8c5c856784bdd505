-- ===== src/Tests/Tunnels.antt =====
-- Runs of the theorems on a WireGuard configuration, its import, and the kill switch.
use mist_ui.Tests.Fixtures.{device, Switches}
use mist_ui.Store.Memory.{memory_bolt}
use mist_ui.Vpn.Text.{
  cut_where, is_byte, is_space, trim_left, trim_right, split, join, trim_space, to_lower,
}
use mist_ui.Vpn.Config.{Net, Peer, Config, split_list, update_last, validate, parse_config}
use mist_ui.Vpn.Config.Valid.{IsValid, validate_iff}
use mist_ui.Vpn.Config.Render.{IsValue, is_special, starts, IsPrintable, render}
use mist_ui.Vpn.Config.Render.Inverse.{parse_config-render}
use mist_ui.Vpn.Config.Secrets.{rekey}
use mist_ui.Vpn.KillSwitch.{Forwarding, Faults, lan_wan, delete_lan_wan, set_kill_switch}
use mist_ui.Vpn.KillSwitch.Loop.{without_lan_wan, has_lan_wan, delete_lan_wan-without_lan_wan}
use mist_ui.Vpn.KillSwitch.Switch.{IsSwitched, set_kill_switch-IsSwitched}
use mist_ui.Vpn.Connector.{Router, Shell, IsShell, command_effect, is_set, are_set, import_config}
use mist_ui.Vpn.Connector.Imports.{IsImported, import_config-IsImported}
use mist_ui.Router.Uci.{is_plain, is_name, is_value}
use mist_ui.HttpApi.Tunnel.{Host, Tunnel, vpn_import}
use mist_ui.HttpApi.Tunnel.Imports.{vpn_import_rekeyed}
use mist_ui.Base.{
  ℕ, ◌≡◌, refl, ◌↔◌, true, false, ◌||◌, some, List, [], ◌∷◌, ◌++◌, arith, ltb, Bytes, str, bytes_eq,
  Result, ok, err, length, get_or,
}
use mist_ui.Base.{pos}

-- Addresses start with a digit, every text is a CIDR block and a key of 32 bytes, and a number is written
-- in unary.
abbrev toy_net : Net
toy_net = record {
  split_host_port = cut_where (is_byte b':');
  join_host_port = λ h p. h ++ (b':' ∷ p);
  is_ip = λ b. ltb (get_or b 0 0) 58;
  is_cidr = λ b. true;
  atoi = λ b. some (pos (length b));
  base64 = λ b. some (
      get_or b 0 0
      ∷ 0
      ∷ 0
      ∷ 0
      ∷ 0
      ∷ 0
      ∷ 0
      ∷ 0
      ∷ 0
      ∷ 0
      ∷ 0
      ∷ 0
      ∷ 0
      ∷ 0
      ∷ 0
      ∷ 0
      ∷ 0
      ∷ 0
      ∷ 0
      ∷ 0
      ∷ 0
      ∷ 0
      ∷ 0
      ∷ 0
      ∷ 0
      ∷ 0
      ∷ 0
      ∷ 0
      ∷ 0
      ∷ 0
      ∷ 0
      ∷ 0
      ∷ []);
}

abbrev peer : Peer
peer = record {
  public_key = str "p";
  preshared_key = str "s";
  allowed_ips = str "0/0" ∷ [];
  endpoint_host = str "h";
  endpoint_port = str "1";
  persistent_keepalive = str "1";
}

abbrev cfg : Config
cfg = record {
  private_key = str "k";
  addresses = str "1" ∷ str "2" ∷ [];
  dns = str "3" ∷ [];
  mtu = [];
  peers = peer ∷ [];
}

validate_iff_example : (validate toy_net cfg ≡ ok tt) ↔ IsValid toy_net cfg
validate_iff_example = validate_iff toy_net cfg

cfg-IsValid : IsValid toy_net cfg
unfolding validate str
cfg-IsValid = (validate_iff toy_net cfg).0 refl

cfg-IsPrintable : IsPrintable toy_net cfg
unfolding str trim_left trim_right cut_where
cfg-IsPrintable =
    let byte : (c : ℕ)
        → starts (c ∷ []) ≡ true
        → trim_right is_space (c ∷ []) ≡ c ∷ []
        → is_special c ≡ false
        → IsValue (c ∷ []) =
      λ c l r f. record { starts = l; right = r; is_free = (f, tt) } in
    record {
      private_value = byte b'k' refl refl refl;
      address_values = (byte b'1' refl refl refl, (byte b'2' refl refl refl, tt));
      dns_values = (byte b'3' refl refl refl, tt);
      mtu_value = tt;
      peer_values = (
        record {
          key_value = byte b'p' refl refl refl;
          preshared_value = byte b's' refl refl refl;
          ips_values =
              (record { starts = refl; right = refl; is_free = (refl, (refl, (refl, tt))) }, tt);
          endpoint_value =
              (record { starts = refl; right = refl; is_free = (refl, (refl, (refl, tt))) }, refl);
          keepalive_value = byte b'1' refl refl refl;
        },
        tt,
      );
    }

parse_config-render_example : parse_config toy_net (render toy_net cfg) ≡ ok cfg
parse_config-render_example = parse_config-render toy_net cfg cfg-IsPrintable cfg-IsValid

abbrev other : Config
other = rekey (str "x") (λ p. str "y") (λ p. str "z") cfg

abbrev text_of : Config → Bytes
text_of c = render toy_net c

-- The host's library, and a router that counts its imports in the tunnel's switch.
abbrev toy_host : Host
toy_host = record {
  lookup = λ h. ok (str "9" ∷ []);
  marshal = λ m. ok (length m.addresses ∷ []);
  is_ip4 = λ a. ltb (get_or a 0 0) 58;
}

abbrev toy_tunnel : Tunnel Switches
toy_tunnel = record {
  import_config = λ c w. (ok tt, record w { tunnel = true });
  status = λ w. ok [];
}

text_parses : parse_config toy_net (text_of cfg) ≡ ok cfg
text_parses = parse_config-render toy_net cfg cfg-IsPrintable cfg-IsValid

other_parses : parse_config toy_net (text_of other) ≡ ok other
unfolding parse_config render str split join cut_where trim_space bytes_eq to_lower split_list
    update_last
other_parses = refl

vpn_import_rekeyed_example :
    ((vpn_import memory_bolt toy_net toy_host toy_tunnel (some (text_of cfg)) device).0
      ≡ (vpn_import memory_bolt toy_net toy_host toy_tunnel (some (text_of other)) device).0)
    × ((vpn_import memory_bolt toy_net toy_host toy_tunnel (some (text_of cfg)) device).1.db
        ≡ (vpn_import memory_bolt toy_net toy_host toy_tunnel (some (text_of other)) device).1.db)
unfolding render str join
vpn_import_rekeyed_example =
    vpn_import_rekeyed memory_bolt toy_net toy_host toy_tunnel (text_of cfg) (text_of other) cfg
      (str "x") (λ p. str "y") (λ p. str "z") device refl refl text_parses other_parses refl

abbrev lan_guest : Forwarding
lan_guest = record { named = false; src = str "lan"; dest = str "guest" }

abbrev forwardings : List Forwarding
forwardings = lan_wan ∷ lan_guest ∷ lan_wan ∷ []

delete_lan_wan-without_lan_wan_example :
    delete_lan_wan 4 false forwardings
    ≡ some (false || has_lan_wan forwardings, without_lan_wan forwardings)
delete_lan_wan-without_lan_wan_example =
    delete_lan_wan-without_lan_wan 4 false forwardings (omega arith)

-- A shell that starts, and a flush that fails.
abbrev faults : Faults
faults = record { start = ok tt; reload = ok tt; flush = some (err "netlink") }

set_kill_switch-IsSwitched_example :
    (r : Result (Unit {0})) × (gs : List Forwarding) × (set_kill_switch faults 4 true forwardings
      ≡ some (r, gs))
    × IsSwitched faults true forwardings gs
set_kill_switch-IsSwitched_example =
    set_kill_switch-IsSwitched faults 4 true forwardings refl (omega arith)

-- A router on which every command succeeds.
abbrev toy_shell : Shell Router
toy_shell = record { run = λ c r. (ok tt, command_effect c r); router = λ r. r }

toy_shell-IsShell : IsShell toy_shell
toy_shell-IsShell = record { run_effect = λ c w p h. refl }

abbrev bare : Router
bare = record {
  named = λ c s o. [];
  peers = [];
  disk = ((λ s o. []), []);
  live = ((λ s o. []), []);
  zones = [];
  forwardings = forwardings;
  vpn_elsewhere = false;
}

import_config-IsImported_example : IsImported cfg bare (import_config toy_shell cfg bare).1
unfolding import_config are_set str is_set is_plain is_name is_value
import_config-IsImported_example =
    import_config-IsImported toy_shell cfg bare toy_shell-IsShell refl refl
