-- ===== src/Netcfg/Wifi/Effects.antt =====
-- internal/netcfg/wifi.go: runs of SetAP and ApplySTAIdentity that return no error.
use mist_ui.Router.Uci.{
  Runner, IsUci, get_section, are_plain, is_plain, is_name, is_value, lacks, View, effect, effects,
  view-run_all,
}
use mist_ui.Netcfg.Identity.{Identity}
use mist_ui.Netcfg.Wifi.{
  ap_section, sta_section, uplink_net, wireless, network, valid_ssid, valid_psk, ap_cmds, mac_cmds,
  hostname_cmds, identity_cmds, set_ap, apply_sta_identity,
}
use mist_ui.Base.{
  ◌≤◌, ◌<◌, ◌≡◌, refl, sym, subst, ◌≢◌, ◌⊎◌, inl, inr, true, false, List, [], ◌∷◌, arith,
  if◌then◌else◌, Bytes, str, bytes_eq, Bool-cases, ok, Result-cases, length,
}

-- A WPA2 network on the LAN, without the stock one, on a radio that is on.
pub record IsAp (ssid key : Bytes) (v : View) : Type 0 where
  pub ap_type : v wireless ap_section [] ≡ str "wifi-iface" ∷ []
  pub ap_mode : v wireless ap_section (str "mode") ≡ str "ap" ∷ []
  pub ap_network : v wireless ap_section (str "network") ≡ str "lan" ∷ []
  pub ap_ssid : v wireless ap_section (str "ssid") ≡ ssid ∷ []
  pub ap_encryption : v wireless ap_section (str "encryption") ≡ str "psk2" ∷ []
  pub ap_key : v wireless ap_section (str "key") ≡ key ∷ []
  pub radio_on : v wireless (str "radio0") (str "disabled") ≡ str "0" ∷ []
  pub no_stock : v wireless (str "default_radio0") [] ≡ []

ap_cmds-IsAp : (ssid key : Bytes) (v : View) → IsAp ssid key (effects (ap_cmds ssid key) v)
unfolding effects ap_cmds effect str bytes_eq
ap_cmds-IsAp ssid key v = record {
  ap_type = refl;
  ap_mode = refl;
  ap_network = refl;
  ap_ssid = refl;
  ap_encryption = refl;
  ap_key = refl;
  radio_on = refl;
  no_stock = refl;
}

value-length : (v : Bytes) → 1 ≤ length v → is_value v ≡ true
unfolding is_value
value-length [] h = absurd (omega (arith, h))
value-length (x ∷ v) h = refl

value-set : (v : Bytes) → bytes_eq v [] ≡ false → is_value v ≡ true
unfolding is_value bytes_eq
value-set [] h = absurd (ground arith)
value-set (x ∷ v) h = refl

are_plain-ap :
    (ssid key : Bytes) → 1 ≤ length ssid → 8 ≤ length key → are_plain (ap_cmds ssid key) ≡ true
unfolding ap_cmds are_plain is_plain is_name is_value lacks str bytes_eq
are_plain-ap ssid key h k = ground (arith, value-length ssid h, value-length key (omega (arith, k)))

are_plain-identity : (id : Identity) → are_plain (identity_cmds id) ≡ true
unfolding identity_cmds mac_cmds hostname_cmds are_plain is_plain is_name is_value lacks str
    bytes_eq
are_plain-identity id = elim (Bool-cases (bytes_eq id.mac [])) [
  | inl m ↦ elim (Bool-cases (bytes_eq id.hostname [])) [
    | inl h ↦ rw (m, h) refl
    | inr h ↦ rw (m, h) (ground (arith, value-set id.hostname h))
  ]
  | inr m ↦ elim (Bool-cases (bytes_eq id.hostname [])) [
    | inl h ↦ rw (m, h) (ground (arith, value-set id.mac m))
    | inr h ↦ rw (m, h) (ground (arith, value-set id.mac m, value-set id.hostname h))
  ]
]

-- An option that is absent where the value is empty.
abbrev pub optional : Bytes → List Bytes
optional v = if bytes_eq v [] then [] else v ∷ []

abbrev pub HasIdentity : Identity → View → Type 0
HasIdentity id v =
    (v wireless sta_section (str "macaddr") ≡ optional id.mac)
    × (v network uplink_net (str "hostname") ≡ optional id.hostname)

identity_cmds-optional : (id : Identity) (v : View) → HasIdentity id (effects (identity_cmds id) v)
unfolding effects identity_cmds mac_cmds hostname_cmds effect str bytes_eq
identity_cmds-optional id v = elim (Bool-cases (bytes_eq id.mac [])) [
  | inl m ↦ elim (Bool-cases (bytes_eq id.hostname [])) [
    | inl h ↦ rw (m, h) (refl, refl)
    | inr h ↦ rw (m, h) (refl, refl)
  ]
  | inr m ↦ elim (Bool-cases (bytes_eq id.hostname [])) [
    | inl h ↦ rw (m, h) (refl, refl)
    | inr h ↦ rw (m, h) (refl, refl)
  ]
]

module _ {W : Type 0} (U : Runner W) (L : IsUci U) where
  -- SetAP returns no error only for a name of 1 to 32 bytes and a password of 8 to 63, and then
  -- the router has that network, encrypted with WPA2 under that password, and not the stock one.
  pub set_ap_effect :
      (ssid key : Bytes) (w : W)
      → (set_ap U ssid key w).0 ≡ ok tt
      → (1 ≤ length ssid)
        × (length ssid ≤ 32)
        × (8 ≤ length key)
        × (length key ≤ 63)
        × IsAp ssid key (U.view (set_ap U ssid key w).1)
  unfolding set_ap valid_ssid valid_psk
  set_ap_effect ssid key w h = elim (Result-cases (valid_ssid ssid)) [
    | inr (e, q) ↦ absurd (ground (arith, q))
    | inl (t, q) ↦ elim (Result-cases (valid_psk key)) [
      | inr (e, p) ↦ absurd (ground (arith, q, p))
      | inl (u, p) ↦ (
        ground (arith, q),
        ground (arith, q),
        ground (arith, p),
        ground (arith, p),
        rw (q, p, set_ap)
            (subst (IsAp ssid key)
              (sym (
                view-run_all U L (ap_cmds ssid key) w
                  (are_plain-ap ssid key (ground (arith, q)) (ground (arith, p)))
                  (ground (arith, q, p))))
              (ap_cmds-IsAp ssid key (U.view w))),
      )
    ]
  ]

  -- A name or a password out of range is refused before any command runs.
  pub set_ap_refuses :
      (ssid key : Bytes) (w : W)
      → ((length ssid < 1) ⊎ (32 < length ssid) ⊎ (length key < 8) ⊎ (63 < length key))
      → ((set_ap U ssid key w).1 ≡ w) × ((set_ap U ssid key w).0 ≢ ok tt)
  unfolding set_ap valid_ssid valid_psk
  set_ap_refuses ssid key w h = ground (arith, h)

  -- When ApplySTAIdentity returns no error, the uplink's address and its DHCP name are those of the
  -- identity, both absent where the identity has none.
  pub apply_sta_identity_effect :
      (id : Identity) (w : W)
      → (apply_sta_identity U id w).0 ≡ ok tt
      → HasIdentity id (U.view (apply_sta_identity U id w).1)
  unfolding apply_sta_identity
  apply_sta_identity_effect id w h =
      elim (Result-cases (U.run (get_section wireless sta_section) w).0) [
        | inr (e, q) ↦ absurd (ground (arith, q))
        | inl (out, q) ↦
            rw (q, apply_sta_identity)
              (subst (HasIdentity id)
                (sym (
                  view-run_all U L (identity_cmds id) (U.run (get_section wireless sta_section) w).1
                    (are_plain-identity id) (ground (arith, q))))
                (identity_cmds-optional id (U.view (U.run (get_section wireless sta_section) w).1)))
      ]
