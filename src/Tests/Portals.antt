-- ===== src/Tests/Portals.antt =====
-- Runs of the theorems on the portal machine and on the toggles.
use mist_ui.Tests.Fixtures.{device, toy_json, memory_bolt-IsHealthy, toy_vpn, toy_dns, Switches}
use mist_ui.Store.Memory.{memory_bolt, memory_bolt-IsLawful, put, erase, lookup, Entries}
use mist_ui.Store.Database.{second}
use mist_ui.Store.{put_config, config}
use mist_ui.HttpApi.Server.{Server, Response}
use mist_ui.HttpApi.Portal.{
  PortalRecord, PortalStatus, portal_window, read_portal, portal_record, save_portal_record,
  enter_portal_mode, pause_record, relax, exit_portal_mode,
}
use mist_ui.HttpApi.Portal.Restore.{exit-enter, has_vpn}
use mist_ui.HttpApi.Portal.Calls.{
  perform, AllSucceed, vpn_down, kill_switch_to, dns_enable, dns_disable, fail_closed_to,
}
use mist_ui.HttpApi.Portal.Watch.{IsRestored, watch_all, watch_all_restores}
use mist_ui.HttpApi.Toggles.{kill_switch_set, dns_set, switch_dns, apply_dns_default}
use mist_ui.HttpApi.Toggles.Postures.{
  kill_switch_set_sound, dns_set_sound, kill_switch_calls, IsOver, apply_dns_default-dns_set,
}
use mist_ui.Base.{
  ℕ, ◌+◌, ◌*◌, ◌≡◌, refl, Bool, true, false, none, some, List, [], ◌∷◌, Bytes, str, bytes_eq,
}

abbrev page : Bytes
page = 99 ∷ []

no_pause : portal_record memory_bolt toy_json device ≡ none
unfolding portal_record read_portal config lookup str bytes_eq
no_pause = refl

abbrev pause : PortalRecord
pause = record {
  active = true;
  since = 20 * second;
  deadline = 20 * second + portal_window;
  portal_url = page;
  saved_ks = true;
  saved_dns = true;
}

abbrev paused : Server Entries Switches
paused = enter_portal_mode memory_bolt toy_json toy_vpn toy_dns (20 * second) page device

in_pause : portal_record memory_bolt toy_json paused ≡ some pause
unfolding enter_portal_mode save_portal_record pause_record portal_record read_portal config
    put_config put erase lookup str bytes_eq
in_pause = refl

abbrev ended : Server Entries Switches
ended = exit_portal_mode memory_bolt toy_json toy_vpn toy_dns "over" paused

exit-enter_example :
    (portal_record memory_bolt toy_json ended ≡ none)
    × (ended.world
        ≡ perform toy_vpn toy_dns
            (vpn_down
              ∷ kill_switch_to false
              ∷ dns_disable
              ∷ kill_switch_to true
              ∷ dns_enable
              ∷ fail_closed_to true
              ∷ [])
            device.world)
unfolding config lookup bytes_eq str
exit-enter_example =
    exit-enter memory_bolt memory_bolt-IsLawful memory_bolt-IsHealthy toy_json toy_vpn toy_dns
      (20 * second) page "over" device true true no_pause refl refl (_, refl, refl)

abbrev status : Bool → Bool → PortalStatus
status online captive = record { online = online; captive = captive; portal_url = [] }

-- Still captive, then online, and a round after the end.
abbrev rounds : List (ℕ × PortalStatus)
rounds =
    (30 * second, status false true)
    ∷ (40 * second, status true false)
    ∷ (2000 * second, status true false)
    ∷ []

watch_all_restores_example :
    IsRestored memory_bolt memory_bolt-IsLawful memory_bolt-IsHealthy toy_json toy_vpn toy_dns
      (has_vpn memory_bolt memory_bolt-IsLawful memory_bolt-IsHealthy toy_json toy_vpn toy_dns
        paused)
      pause
      paused.world
      (watch_all memory_bolt toy_json toy_vpn toy_dns rounds paused)
watch_all_restores_example =
    watch_all_restores memory_bolt memory_bolt-IsLawful memory_bolt-IsHealthy toy_json toy_vpn
      toy_dns rounds paused pause in_pause
      ((_, refl, refl), ((_, refl, refl), ((_, refl, refl), tt))) refl

abbrev switched : Response × Server Entries Switches
switched = kill_switch_set memory_bolt toy_json toy_vpn toy_dns (some false) paused

switched_ok : switched.0.status ≡ 200
unfolding kill_switch_set enter_portal_mode relax pause_record portal_record read_portal config
    lookup bytes_eq str
switched_ok = refl

kill_switch_set_sound_example :
    let calls =
      kill_switch_calls memory_bolt memory_bolt-IsLawful memory_bolt-IsHealthy toy_json toy_vpn
        toy_dns false paused.world in
    AllSucceed toy_vpn toy_dns calls paused.world
    × (switched.1.world ≡ perform toy_vpn toy_dns calls paused.world)
    × IsOver memory_bolt memory_bolt-IsLawful memory_bolt-IsHealthy toy_json toy_vpn toy_dns
        switched.1
kill_switch_set_sound_example =
    kill_switch_set_sound memory_bolt memory_bolt-IsLawful memory_bolt-IsHealthy toy_json toy_vpn
      toy_dns false paused switched_ok

abbrev dns_off : Response × Server Entries Switches
dns_off = dns_set memory_bolt toy_json toy_vpn toy_dns (some false) device

dns_off_ok : dns_off.0.status ≡ 200
unfolding dns_set switch_dns
dns_off_ok = refl

abbrev dns_on : Response × Server Entries Switches
dns_on = dns_set memory_bolt toy_json toy_vpn toy_dns (some true) device

dns_on_ok : dns_on.0.status ≡ 200
unfolding dns_set switch_dns
dns_on_ok = refl

dns_set_sound_example :
    let calls = dns_enable ∷ fail_closed_to true ∷ [] in
    AllSucceed toy_vpn toy_dns calls device.world
    × (dns_on.1.world ≡ perform toy_vpn toy_dns calls device.world)
    × IsOver memory_bolt memory_bolt-IsLawful memory_bolt-IsHealthy toy_json toy_vpn toy_dns
        dns_on.1
dns_set_sound_example =
    dns_set_sound memory_bolt memory_bolt-IsLawful memory_bolt-IsHealthy toy_json toy_vpn toy_dns
      true device dns_on_ok

apply_dns_default-dns_set_example :
    apply_dns_default memory_bolt toy_json toy_vpn toy_dns dns_off.1 ≡ dns_off.1
unfolding put_config put str
apply_dns_default-dns_set_example =
    apply_dns_default-dns_set memory_bolt memory_bolt-IsLawful memory_bolt-IsHealthy toy_json
      toy_vpn toy_dns false device _ refl dns_off_ok
