-- ===== src/Tests/Routers.antt =====
-- Runs of the theorems on the router's configuration and on device identities.
use mathlib.Core.List.{Mem, mem-cons_self}
use mist_ui.Router.Uci.{
  is_quotable, is_value, lacks, View, Runner, IsUci, effect, saves, loads, run_all,
}
use mist_ui.Router.Force.{IsInForce}
use mist_ui.Dns.{
  enable, disable, set_fail_closed, provider_by_key, find_provider, quad9, enable_cmds,
  disable_cmds, fail_closed_cmds, add_ips, rule_cmds, all_resolver_ips, firewall, dns_ks,
}
use mist_ui.Dns.Rules.{Forwards, HasRules, is_owned}
use mist_ui.Dns.Effects.{Denies, enable_effect, enable-disable_frame, fail_closed_effect}
use mist_ui.Netcfg.Identity.{
  Identity, Raw, Oui, Profile, profiles, generate_identity, identity_with, mac_text, host_of,
  at_index,
}
use mist_ui.Netcfg.Identity.Plausible.{IsFound, IsLocal, IsOf, generate_identity_plausible}
use mist_ui.Netcfg.Wifi.{valid_ssid, valid_psk, mac_cmds, hostname_cmds}
use mist_ui.Netcfg.Wifi.Uplink.{join_uplink, run_join, valid_key, join_cmds, key_cmds, reload_cmds}
use mist_ui.Netcfg.Wifi.Uplink.Effects.{IsKept, IsJoined, join_uplink-HasUplink}
use mist_ui.Netcfg.Wifi.Scan.{Radio, ScanResult, Network, await_device, knows, scan}
use mist_ui.Netcfg.Wifi.Scan.Distinct.{ssids, heard, AreDistinct, scan_distinct}
use mist_ui.Base.{
  ℕ, ◌≤◌, ◌≡◌, refl, ◌⊎◌, Bool, true, false, not, ◌&&◌, some, List, [], ◌∷◌, arith, if◌then◌else◌,
  ltb, Bytes, str, bytes_eq, Result, ok, length,
}
use mist_ui.Base.{negsuc}

-- A router that carries every command out: what is staged, the files, and what is loaded.
abbrev pub Router : Type 0
Router = View × View × View

abbrev pub toy_runner : Runner Router
toy_runner = record {
  run = λ c (v, f, l). (ok [], (effect c v, saves c v f, loads c f l));
  view = λ w. w.0;
  saved = λ w. w.1;
  live = λ w. w.2;
}

pub toy_runner-IsUci : IsUci toy_runner
toy_runner-IsUci = record {
  run_effect = λ c w w' out p h. ground arith;
  run_saves = λ c w w' out p h. ground arith;
  run_loads = λ c w w' out p h. ground arith;
}

abbrev no_options : View
no_options conf sec opt = []

abbrev pub bare : Router
bare = (no_options, no_options, no_options)

abbrev pub spec : Bytes
spec = str "127.0.0.1#5335"

spec_quotable : is_quotable spec ≡ true
unfolding is_quotable is_value lacks str
spec_quotable = refl

abbrev enabled : Router
enabled = (enable toy_runner spec bare).1

enabled_ok : (enable toy_runner spec bare).0 ≡ ok tt
unfolding enable run_all enable_cmds rule_cmds
enabled_ok = refl

enable_effect_example :
    Forwards spec no_options enabled.0
    × HasRules no_options enabled.0
    × IsInForce toy_runner firewall enabled
    × IsInForce toy_runner (str "dhcp") enabled
enable_effect_example = enable_effect toy_runner toy_runner-IsUci spec bare spec_quotable enabled_ok

disabled_ok : (disable toy_runner spec enabled).0 ≡ ok tt
unfolding disable run_all disable_cmds
disabled_ok = refl

abbrev lan : Bytes
lan = str "lan"

not_owned : is_owned lan ≡ false
unfolding str bytes_eq
not_owned = refl

enable-disable_frame_example :
    (disable toy_runner spec enabled).1.0 firewall lan (str "input")
    ≡ no_options firewall lan (str "input")
enable-disable_frame_example =
    enable-disable_frame toy_runner toy_runner-IsUci spec firewall lan (str "input") bare
      spec_quotable not_owned enabled_ok disabled_ok

pub quad9_found : provider_by_key (str "quad9") ≡ some quad9
unfolding provider_by_key find_provider str bytes_eq
quad9_found = refl

abbrev pub stay : Router → Router
stay w = w

closed_ok : (set_fail_closed toy_runner stay true bare).0 ≡ ok tt
unfolding set_fail_closed run_all fail_closed_cmds add_ips all_resolver_ips
closed_ok = refl

abbrev closed : Router
closed = (set_fail_closed toy_runner stay true bare).1

fail_closed_effect_example :
    Denies no_options closed.0
    × Mem (str "9.9.9.9") (closed.0 firewall dns_ks (str "dest_ip"))
    × IsInForce toy_runner firewall closed
fail_closed_effect_example =
    fail_closed_effect toy_runner toy_runner-IsUci stay (str "quad9") (str "9.9.9.9") quad9 bare
      (λ x. (refl, refl)) quad9_found mem-cons_self closed_ok

abbrev pool : List Oui
pool = (1, 2, 3) ∷ []

abbrev table : List Profile
table = profiles pool pool pool

abbrev raw : Raw
raw = record { sel1 = 200; sel2 = 201; b0 = 255; b1 = 1; b2 = 2; b3 = 3; b4 = 4; b5 = 5 }

abbrev rolled : Identity
rolled = identity_with (str "pixel") pool (str "Pixel-8" ∷ []) raw

pixel_rolled : (id : Identity) × (generate_identity table (ok raw) (str "pixel") ≡ ok id)
unfolding generate_identity
pixel_rolled = (_, refl)

generate_identity_plausible_example :
    (p : Profile) × IsFound table (str "pixel") p
    × (pixel_rolled.0.profile ≡ p.key)
    × (((p.ouis ≡ []) × IsLocal raw pixel_rolled.0) ⊎ IsOf p raw pixel_rolled.0)
generate_identity_plausible_example =
    generate_identity_plausible table (str "pixel") raw pixel_rolled.0 (omega arith) pixel_rolled.1

abbrev ssid : Bytes
ssid = str "travel"

abbrev psk : Bytes
psk = str "correct horse"

-- A script that changes nothing.
abbrev quiet_zone : Router → Result (Unit {0}) × Router
quiet_zone w = (ok tt, w)

joined_ok : (join_uplink toy_runner quiet_zone ssid psk (some rolled) bare).0 ≡ ok tt
unfolding join_uplink run_join valid_ssid valid_key valid_psk join_cmds key_cmds reload_cmds run_all
    mac_cmds hostname_cmds identity_with host_of at_index mac_text bytes_eq str
joined_ok = refl

abbrev zone_is_quiet :
    (w : Router)
    → IsKept toy_runner (str "wireless") w (quiet_zone w).1
      × IsKept toy_runner (str "network") w (quiet_zone w).1
zone_is_quiet w = ((refl, refl), (refl, refl))

join_uplink-HasUplink_example :
    (1 ≤ length ssid)
    × (length ssid ≤ 32)
    × IsJoined toy_runner toy_runner-IsUci quiet_zone zone_is_quiet ssid psk
        (some rolled)
        (join_uplink toy_runner quiet_zone ssid psk (some rolled) bare).1
join_uplink-HasUplink_example =
    join_uplink-HasUplink toy_runner toy_runner-IsUci quiet_zone zone_is_quiet ssid psk
      (some rolled) bare joined_ok

abbrev radios : List Radio
radios =
    record { is_up = false; ifnames = str "wlan9" ∷ [] }
    ∷ record { is_up = true; ifnames = [] ∷ str "wlan0" ∷ [] }
    ∷ []

abbrev heard_at : Bytes → ScanResult
heard_at s = record { ssid = s; signal = negsuc 40; encrypted = true }

-- The radio is up at the third poll.
abbrev polled : ℕ → Result (List Radio)
polled i = if ltb i 2 then ok [] else ok radios

abbrev scanned : Bytes → Result (List ScanResult)
scanned dev = ok (heard_at (str "a") ∷ heard_at [] ∷ heard_at (str "b") ∷ heard_at (str "a") ∷ [])

abbrev never : ℕ → Bool
never i = false

scan_found : (ns : List Network) × (scan never polled scanned ≡ ok ns)
unfolding scan str bytes_eq
scan_found = (_, refl)

scan_distinct_example :
    AreDistinct (ssids scan_found.0)
    × ((dev : Bytes) × (rs : List ScanResult) × (await_device never polled 10 0 ≡ ok dev)
        × (scanned dev ≡ ok rs)
        × ((s : Bytes)
            → knows s (ssids scan_found.0) ≡ (not (bytes_eq s []) && knows s (heard rs))))
scan_distinct_example = scan_distinct never polled scanned scan_found.0 scan_found.1
