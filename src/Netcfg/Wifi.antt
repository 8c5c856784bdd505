-- ===== src/Netcfg/Wifi.antt =====
-- internal/netcfg/wifi.go: the travel network and the identity of the uplink, as commands on the
-- router. Status reads the output of tools and is not here.
pub mod Effects
pub mod Scan
pub mod Uplink
use mist_ui.Router.Uci.{
  Cmd, set_section, set_option, add_list, del_list, delete_section, delete_option, commit,
  get_section, service, Runner, run_all,
}
use mist_ui.Netcfg.Identity.{Identity}
use mist_ui.Base.{
  ℕ, zero, suc, ◌+◌, ◌-◌, ◌*◌, ◌/◌, ◌%◌, ◌≤◌, ◌<◌, String, ◌≡◌, refl, sym, ap, subst, ◌∙◌, ◌≢◌, ◌↔◌,
  ◌⊎◌, inl, inr, Bool, true, false, not, ◌&&◌, ◌||◌, Option, none, some, List, [], ◌∷◌, ◌++◌, map,
  arith, if◌then◌else◌, ltb, leb, nat_eq, Bytes, str, bytes_eq, bytes_eq_iff, bytes_eq_refl,
  Bool-cases, Result, ok, err, ◌>>=◌, ◌>>◌, result_or, Result-cases, Option-cases, length, get_or,
  take, drop, length-append, take-append, drop-append, drop_past, get_or_past, take_part,
}

abbrev pub ap_section : Bytes
ap_section = str "mistui_ap"

abbrev pub sta_section : Bytes
sta_section = str "mistui_sta"

abbrev pub uplink_net : Bytes
uplink_net = str "wwan"

abbrev pub wireless : Bytes
wireless = str "wireless"

abbrev pub network : Bytes
network = str "network"

unfoldable pub valid_ssid : Bytes → Result (Unit {0})
valid_ssid s =
    if ltb (length s) 1 || ltb 32 (length s) then err "SSID must be 1–32 bytes" else ok tt

unfoldable pub valid_psk : Bytes → Result (Unit {0})
valid_psk k =
    if ltb (length k) 8 || ltb 63 (length k)
    then err "Wi-Fi password must be 8–63 characters"
    else ok tt

abbrev set_ap_option : String → Bytes → Cmd
set_ap_option o v = set_option wireless ap_section (str o) v

unfoldable pub ap_cmds : Bytes → Bytes → List Cmd
ap_cmds ssid key =
    delete_section wireless (str "default_radio0")
    ∷ set_option wireless (str "radio0") (str "disabled") (str "0")
    ∷ set_section wireless ap_section (str "wifi-iface")
    ∷ set_ap_option "device" (str "radio0")
    ∷ set_ap_option "network" (str "lan")
    ∷ set_ap_option "mode" (str "ap")
    ∷ set_ap_option "ssid" ssid
    ∷ set_ap_option "encryption" (str "psk2")
    ∷ set_ap_option "key" key
    ∷ commit wireless
    ∷ service (str "wifi") (str "reload")
    ∷ []

-- `none` is a nil identity.
unfoldable pub mac_cmds : Option Identity → List Cmd
mac_cmds none = delete_option wireless sta_section (str "macaddr") ∷ []
mac_cmds (some id) =
    if bytes_eq id.mac []
    then delete_option wireless sta_section (str "macaddr") ∷ []
    else set_option wireless sta_section (str "macaddr") id.mac ∷ []

unfoldable pub hostname_cmds : Option Identity → List Cmd
hostname_cmds none = delete_option network uplink_net (str "hostname") ∷ []
hostname_cmds (some id) =
    if bytes_eq id.hostname []
    then delete_option network uplink_net (str "hostname") ∷ []
    else set_option network uplink_net (str "hostname") id.hostname ∷ []

unfoldable pub identity_cmds : Identity → List Cmd
identity_cmds id =
    mac_cmds (some id)
    ++ (hostname_cmds (some id)
        ++ (commit wireless
            ∷ commit network
            ∷ service (str "/etc/init.d/network") (str "reload")
            ∷ service (str "wifi") (str "reload")
            ∷ []))

module _ {W : Type 0} (U : Runner W) where
  unfoldable pub set_ap : Bytes → Bytes → W → Result (Unit {0}) × W
  set_ap ssid key w = elim (valid_ssid ssid) [
    | err e ↦ (err e, w)
    | ok _ ↦ elim (valid_psk key) [ err e ↦ (err e, w) | ok _ ↦ run_all U (ap_cmds ssid key) w ]
  ]

  unfoldable pub apply_sta_identity : Identity → W → Result (Unit {0}) × W
  apply_sta_identity id w =
      let (o, w') = U.run (get_section wireless sta_section) w in
      elim o [
        | err e ↦ (err "no uplink configured yet", w')
        | ok out ↦ run_all U (identity_cmds id) w'
      ]
