-- ===== src/Tests/Privacy.antt =====
-- A run of the theorem on a join and the daily rotation.
use mist_ui.Tests.Fixtures.{device, at_second, Switches, always_open}
use mist_ui.Store.Memory.{
  memory_bolt, memory_bolt-IsLawful, unary_times, unary_times-IsRfc3339, put, ones, lookup, Entries,
}
use mist_ui.Store.Database.{second}
use mist_ui.Store.{put_config, config}
use mist_ui.Netcfg.Identity.{Identity, Profile, Raw, profiles, generate_identity}
use mist_ui.HttpApi.Server.{Server, Response}
use mist_ui.HttpApi.Privacy.{mac_profile, mac_schedule, mac_tick}
use mist_ui.HttpApi.Joins.{choose_identity, wifi_join_uplink}
use mist_ui.HttpApi.Joins.Quiet.{mac_tick-wifi_join_uplink}
use mist_ui.Base.{
  ◌*◌, ◌≡◌, refl, none, some, Option, Bytes, true, false, bytes_eq, List, [], arith, str, Result,
  ok,
}

abbrev table : List Profile
table = profiles [] [] []

abbrev raw : Raw
raw = record { sel1 = 0; sel2 = 1; b0 = 255; b1 = 1; b2 = 2; b3 = 3; b4 = 4; b5 = 5 }

abbrev applied : Identity → Switches → Result (Unit {0}) × Switches
applied id w = (ok tt, w)

abbrev joins : Bytes → Bytes → Option Identity → Switches → Result (Unit {0}) × Switches
joins ssid key id w = (ok tt, w)

abbrev hotel : Option (Bytes × Bytes)
hotel = some (str "hotel", [])

abbrev joined : Response × Server Entries Switches
joined =
    wifi_join_uplink memory_bolt unary_times table joins (ok raw) (at_second 20 none) hotel device

joined_ok : joined.0.status ≡ 200
unfolding wifi_join_uplink choose_identity generate_identity mac_profile mac_schedule str bytes_eq
    config lookup
joined_ok = refl

not_off : bytes_eq (mac_schedule memory_bolt device) (str "off") ≡ false
unfolding mac_schedule str bytes_eq config lookup
not_off = refl

mac_tick-wifi_join_uplink_example :
    (joined.1.portal_kick ≡ true)
    × (mac_tick memory_bolt unary_times table applied (ok raw) (80_000 * second) joined.1
        ≡ joined.1)
unfolding put_config put str ones
mac_tick-wifi_join_uplink_example =
    mac_tick-wifi_join_uplink memory_bolt memory_bolt-IsLawful unary_times unary_times-IsRfc3339
      table applied joins always_open (ok raw) (ok raw) (at_second 20 none) hotel (80_000 * second)
      device _ not_off refl joined_ok (λ q. cc) (omega arith) (omega arith)
