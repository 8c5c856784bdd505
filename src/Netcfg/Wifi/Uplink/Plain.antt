-- ===== src/Netcfg/Wifi/Uplink/Plain.antt =====
-- internal/netcfg/wifi.go, JoinUplink: the effect of its commands on the configurations.
use mist_ui.Netcfg.Wifi.Uplink.{sta, key_cmds, join_cmds}
use mist_ui.Netcfg.Wifi.{sta_section, uplink_net, wireless, network, mac_cmds, hostname_cmds}
use mist_ui.Netcfg.Identity.{Identity}
use mist_ui.Router.Uci.{
  View, Cmd, set_section, set_option, delete_option, commit, effect, effects, are_plain, is_plain,
  is_name, is_value, lacks,
}
use mist_ui.Router.Force.{staged, on_disk, stage_after}
use mist_ui.Base.{
  ℕ, ◌≡◌, refl, true, Option, none, some, List, [], ◌∷◌, ◌++◌, if◌then◌else◌, Bytes, str, bytes_eq,
}

abbrev pub mac_of : Option Identity → Bytes
mac_of none = []
mac_of (some id) = id.mac

abbrev pub hostname_of : Option Identity → Bytes
hostname_of none = []
hostname_of (some id) = id.hostname

-- An option that is absent where the value is empty.
abbrev pub optional : Bytes → List Bytes
optional [] = []
optional (c ∷ v) = (c ∷ v) ∷ []

abbrev encryption : Bytes → Bytes
encryption [] = str "none"
encryption (c ∷ key) = str "psk2"

-- A station on the first radio that joins the network, open without a key, and gets its address by DHCP, with the
-- MAC address and the host name that are given.
-- `wl` is the wireless configuration and `nw` the one of the network.
abbrev pub HasUplink :
    Bytes
    → Bytes
    → Bytes
    → Bytes
    → (Bytes → Bytes → List Bytes)
    → (Bytes → Bytes → List Bytes)
    → Type 0
HasUplink ssid key mac hostname wl nw =
    (wl sta_section [] ≡ str "wifi-iface" ∷ [])
    × (wl sta_section (str "device") ≡ str "radio0" ∷ [])
    × (wl sta_section (str "network") ≡ uplink_net ∷ [])
    × (wl sta_section (str "mode") ≡ str "sta" ∷ [])
    × (wl sta_section (str "ssid") ≡ ssid ∷ [])
    × (wl sta_section (str "encryption") ≡ encryption key ∷ [])
    × (wl sta_section (str "key") ≡ optional key)
    × (wl sta_section (str "macaddr") ≡ optional mac)
    × (nw uplink_net [] ≡ str "interface" ∷ [])
    × (nw uplink_net (str "proto") ≡ str "dhcp" ∷ [])
    × (nw uplink_net (str "hostname") ≡ optional hostname)

mac_plain : Bytes → List Cmd
mac_plain [] = delete_option wireless sta_section (str "macaddr") ∷ []
mac_plain (c ∷ m) = sta "macaddr" (c ∷ m) ∷ []

hostname_plain : Bytes → List Cmd
hostname_plain [] = delete_option network uplink_net (str "hostname") ∷ []
hostname_plain (d ∷ h) = set_option network uplink_net (str "hostname") (d ∷ h) ∷ []

mac_by :
    (m : Bytes)
    → (if bytes_eq m []
        then delete_option wireless sta_section (str "macaddr") ∷ []
        else sta "macaddr" m ∷ [])
      ≡ mac_plain m
unfolding mac_plain bytes_eq
mac_by [] = refl
mac_by (c ∷ m) = refl

mac_cmds-mac_plain : (ident : Option Identity) → mac_cmds ident ≡ mac_plain (mac_of ident)
unfolding mac_cmds mac_plain
mac_cmds-mac_plain none = refl
mac_cmds-mac_plain (some id) = mac_by id.mac

hostname_by :
    (h : Bytes)
    → (if bytes_eq h []
        then delete_option network uplink_net (str "hostname") ∷ []
        else set_option network uplink_net (str "hostname") h ∷ [])
      ≡ hostname_plain h
unfolding hostname_plain bytes_eq
hostname_by [] = refl
hostname_by (d ∷ h) = refl

hostname_cmds-hostname_plain :
    (ident : Option Identity) → hostname_cmds ident ≡ hostname_plain (hostname_of ident)
unfolding hostname_cmds hostname_plain
hostname_cmds-hostname_plain none = refl
hostname_cmds-hostname_plain (some id) = hostname_by id.hostname

-- The commands by the texts that they carry.
pub plain_cmds : Bytes → Bytes → Bytes → Bytes → List Cmd
plain_cmds ssid key mac hostname =
    (set_section wireless sta_section (str "wifi-iface")
      ∷ sta "device" (str "radio0")
      ∷ sta "network" uplink_net
      ∷ sta "mode" (str "sta")
      ∷ sta "ssid" ssid
      ∷ [])
    ++ (key_cmds key
        ++ (mac_plain mac
            ++ ((set_section network uplink_net (str "interface")
                  ∷ set_option network uplink_net (str "proto") (str "dhcp")
                  ∷ [])
                ++ (hostname_plain hostname ++ (commit wireless ∷ commit network ∷ [])))))

pub plain_cmds-HasUplink :
    (ssid key mac hostname : Bytes) (v : View)
    → HasUplink ssid key mac hostname
        (effects (plain_cmds ssid key mac hostname) v wireless)
        (effects (plain_cmds ssid key mac hostname) v network)
unfolding plain_cmds mac_plain hostname_plain key_cmds effects effect str bytes_eq
plain_cmds-HasUplink ssid [] [] [] v =
    (refl, refl, refl, refl, refl, refl, refl, refl, refl, refl, refl)
plain_cmds-HasUplink ssid [] [] (d ∷ h) v =
    (refl, refl, refl, refl, refl, refl, refl, refl, refl, refl, refl)
plain_cmds-HasUplink ssid [] (c ∷ m) [] v =
    (refl, refl, refl, refl, refl, refl, refl, refl, refl, refl, refl)
plain_cmds-HasUplink ssid [] (c ∷ m) (d ∷ h) v =
    (refl, refl, refl, refl, refl, refl, refl, refl, refl, refl, refl)
plain_cmds-HasUplink ssid (k ∷ key) [] [] v =
    (refl, refl, refl, refl, refl, refl, refl, refl, refl, refl, refl)
plain_cmds-HasUplink ssid (k ∷ key) [] (d ∷ h) v =
    (refl, refl, refl, refl, refl, refl, refl, refl, refl, refl, refl)
plain_cmds-HasUplink ssid (k ∷ key) (c ∷ m) [] v =
    (refl, refl, refl, refl, refl, refl, refl, refl, refl, refl, refl)
plain_cmds-HasUplink ssid (k ∷ key) (c ∷ m) (d ∷ h) v =
    (refl, refl, refl, refl, refl, refl, refl, refl, refl, refl, refl)

pub are_plain-plain_cmds :
    (b : ℕ) (ssid key mac hostname : Bytes)
    → are_plain (plain_cmds (b ∷ ssid) key mac hostname) ≡ true
unfolding plain_cmds mac_plain hostname_plain key_cmds are_plain is_plain is_name is_value lacks str
    bytes_eq
are_plain-plain_cmds b ssid [] [] [] = refl
are_plain-plain_cmds b ssid [] [] (d ∷ h) = refl
are_plain-plain_cmds b ssid [] (c ∷ m) [] = refl
are_plain-plain_cmds b ssid [] (c ∷ m) (d ∷ h) = refl
are_plain-plain_cmds b ssid (k ∷ key) [] [] = refl
are_plain-plain_cmds b ssid (k ∷ key) [] (d ∷ h) = refl
are_plain-plain_cmds b ssid (k ∷ key) (c ∷ m) [] = refl
are_plain-plain_cmds b ssid (k ∷ key) (c ∷ m) (d ∷ h) = refl

pub join_cmds-plain_cmds :
    (ssid key : Bytes) (ident : Option Identity)
    → join_cmds ssid key ident ≡ plain_cmds ssid key (mac_of ident) (hostname_of ident)
unfolding join_cmds plain_cmds
join_cmds-plain_cmds ssid key ident =
    rw (mac_cmds-mac_plain ident, hostname_cmds-hostname_plain ident) refl

-- Both configurations are committed after their last change.
pub on_disk-plain_cmds :
    (ssid key mac hostname : Bytes)
    → (stage_after wireless (plain_cmds ssid key mac hostname) staged ≡ on_disk)
      × (stage_after network (plain_cmds ssid key mac hostname) staged ≡ on_disk)
unfolding plain_cmds mac_plain hostname_plain key_cmds stage_after str bytes_eq
on_disk-plain_cmds ssid [] [] [] = (refl, refl)
on_disk-plain_cmds ssid [] [] (d ∷ h) = (refl, refl)
on_disk-plain_cmds ssid [] (c ∷ m) [] = (refl, refl)
on_disk-plain_cmds ssid [] (c ∷ m) (d ∷ h) = (refl, refl)
on_disk-plain_cmds ssid (k ∷ key) [] [] = (refl, refl)
on_disk-plain_cmds ssid (k ∷ key) [] (d ∷ h) = (refl, refl)
on_disk-plain_cmds ssid (k ∷ key) (c ∷ m) [] = (refl, refl)
on_disk-plain_cmds ssid (k ∷ key) (c ∷ m) (d ∷ h) = (refl, refl)
