-- ===== src/Tests/Companions.antt =====
-- A run of the theorem on the kill switch and its companion rule.
use mathlib.Core.List.{Mem, mem-cons_self}
use mist_ui.Tests.Fixtures.{device, toy_json, memory_bolt-IsHealthy}
use mist_ui.Tests.Routers.{Router, toy_runner, toy_runner-IsUci, bare, spec, stay, quad9_found}
use mist_ui.Store.Memory.{memory_bolt, memory_bolt-IsLawful, Entries}
use mist_ui.Router.{Connector}
use mist_ui.Router.Force.{IsInForce}
use mist_ui.Router.Uci.{run_all}
use mist_ui.Vpn.Text.{trim_space}
use mist_ui.Dns.{
  enabled, firewall, dns_ks, quad9, set_fail_closed, fail_closed_cmds, add_ips, all_resolver_ips,
}
use mist_ui.Dns.Effects.{Denies}
use mist_ui.HttpApi.Server.{Server, Response}
use mist_ui.HttpApi.Toggles.{kill_switch_set}
use mist_ui.HttpApi.Toggles.Postures.{IsOver}
use mist_ui.HttpApi.Toggles.Companion.{dns_service, kill_switch_set-Denies}
use mist_ui.Base.{Bytes, bytes_eq, ◌≡◌, refl, true, some, str, Result, ok}

-- A connector whose commands change nothing.
abbrev still : Connector Router
still = record {
  up = λ w. (ok tt, w);
  down = λ w. (ok tt, w);
  set_kill_switch = λ b w. (ok tt, w);
  kill_switch = λ w. ok true;
}

abbrev prints_on : Router → Result Bytes
prints_on w = ok (str "on")

abbrev plain_device : Server Entries Router
plain_device = record {
  db = device.db;
  world = bare;
  rp_id = device.rp_id;
  origins = device.origins;
  chals = device.chals;
  step_ups = device.step_ups;
  portal_kick = device.portal_kick;
  portal_note = device.portal_note;
}

abbrev switched_on : Response × Server Entries Router
switched_on =
    kill_switch_set memory_bolt toy_json still (dns_service toy_runner spec stay prints_on)
      (some true) plain_device

switched_on_ok : switched_on.0.status ≡ 200
unfolding kill_switch_set enabled set_fail_closed run_all fail_closed_cmds add_ips all_resolver_ips
    trim_space bytes_eq str
switched_on_ok = refl

dns_is_on : enabled toy_runner prints_on bare ≡ ok true
unfolding enabled trim_space bytes_eq str
dns_is_on = refl

kill_switch_set-Denies_example :
    ((still.set_kill_switch true bare).0 ≡ ok tt)
    × Denies bare.0 switched_on.1.world.0
    × Mem (str "9.9.9.9") (switched_on.1.world.0 firewall dns_ks (str "dest_ip"))
    × IsInForce toy_runner firewall switched_on.1.world
    × IsOver memory_bolt memory_bolt-IsLawful memory_bolt-IsHealthy toy_json still
        (dns_service toy_runner spec stay prints_on)
        switched_on.1
kill_switch_set-Denies_example =
    kill_switch_set-Denies memory_bolt memory_bolt-IsLawful memory_bolt-IsHealthy toy_json still
      toy_runner toy_runner-IsUci spec stay prints_on (str "quad9") (str "9.9.9.9") quad9
      plain_device (λ x. (refl, refl)) quad9_found mem-cons_self dns_is_on switched_on_ok
