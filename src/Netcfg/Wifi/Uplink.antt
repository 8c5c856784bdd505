-- ===== src/Netcfg/Wifi/Uplink.antt =====
-- internal/netcfg/wifi.go, JoinUplink: the commands before and after the script that puts the uplink into the
-- wan zone, which is a parameter.
pub mod Plain
pub mod Effects
use mist_ui.Netcfg.Wifi.{
  sta_section, uplink_net, wireless, network, valid_ssid, valid_psk, mac_cmds, hostname_cmds,
}
use mist_ui.Netcfg.Identity.{Identity}
use mist_ui.Router.Uci.{
  Cmd, set_section, set_option, delete_option, commit, service, Runner, run_all,
}
use mist_ui.Base.{
  ℕ, zero, suc, ◌+◌, ◌-◌, ◌*◌, ◌/◌, ◌%◌, ◌≤◌, ◌<◌, String, ◌≡◌, refl, sym, ap, subst, ◌∙◌, ◌≢◌, ◌↔◌,
  ◌⊎◌, inl, inr, Bool, true, false, not, ◌&&◌, ◌||◌, Option, none, some, List, [], ◌∷◌, ◌++◌, map,
  arith, if◌then◌else◌, ltb, leb, nat_eq, Bytes, str, bytes_eq, bytes_eq_iff, bytes_eq_refl,
  Bool-cases, Result, ok, err, ◌>>=◌, ◌>>◌, result_or, Result-cases, Option-cases, length, get_or,
  take, drop, length-append, take-append, drop-append, drop_past, get_or_past, take_part,
}

abbrev sta : String → Bytes → Cmd
sta o v = set_option wireless sta_section (str o) v

-- An empty key is an open network.
unfoldable pub key_cmds : Bytes → List Cmd
key_cmds [] = sta "encryption" (str "none") ∷ delete_option wireless sta_section (str "key") ∷ []
key_cmds (c ∷ key) = sta "encryption" (str "psk2") ∷ sta "key" (c ∷ key) ∷ []

unfoldable pub join_cmds : Bytes → Bytes → Option Identity → List Cmd
unfolding key_cmds
join_cmds ssid key ident =
    (set_section wireless sta_section (str "wifi-iface")
      ∷ sta "device" (str "radio0")
      ∷ sta "network" uplink_net
      ∷ sta "mode" (str "sta")
      ∷ sta "ssid" ssid
      ∷ [])
    ++ (key_cmds key
        ++ (mac_cmds ident
            ++ ((set_section network uplink_net (str "interface")
                  ∷ set_option network uplink_net (str "proto") (str "dhcp")
                  ∷ [])
                ++ (hostname_cmds ident ++ (commit wireless ∷ commit network ∷ [])))))

unfoldable pub reload_cmds : List Cmd
reload_cmds =
    service (str "/etc/init.d/network") (str "reload") ∷ service (str "wifi") (str "reload") ∷ []

unfoldable pub valid_key : Bytes → Result (Unit {0})
valid_key [] = ok tt
valid_key (c ∷ key) = valid_psk (c ∷ key)

module _ {W : Type 0} (U : Runner W) (zone : W → Result (Unit {0}) × W) where
  -- runAll of the commands, of the script, and of the reloads.
  unfoldable pub run_join : Bytes → Bytes → Option Identity → W → Result (Unit {0}) × W
  unfolding join_cmds reload_cmds
  run_join ssid key ident w =
      let (a, w1) = run_all U (join_cmds ssid key ident) w in
      let (b, w2) = zone w1 in
      elim a [
        | err e ↦ (err e, w1)
        | ok _ ↦ elim b [ err e ↦ (err e, w2) | ok _ ↦ run_all U reload_cmds w2 ]
      ]

  unfoldable pub join_uplink : Bytes → Bytes → Option Identity → W → Result (Unit {0}) × W
  unfolding run_join valid_key
  join_uplink ssid key ident w = elim (valid_ssid ssid) [
    | err e ↦ (err e, w)
    | ok _ ↦ elim (valid_key key) [ err e ↦ (err e, w) | ok _ ↦ run_join ssid key ident w ]
  ]
