-- ===== src/HttpApi/Joins.antt =====
-- internal/httpapi/netops.go: the handlers of the travel network, of a scan and of a join. `join` is JoinUplink,
-- `set_ap` SetAP and `scan` Scan; a request whose body does not decode is `none`.
pub mod Quiet
use mist_ui.Store.Database.{Bolt, Rfc3339}
use mist_ui.Store
use mist_ui.Router.{Connector, Dns}
use mist_ui.Netcfg.Identity.{Identity, Profile, Raw, generate_identity}
use mist_ui.Netcfg.Wifi.Scan.{Network}
use mist_ui.HttpApi.Server.{
  Server, Request, Response, Handler, Outcome, return, value, M, ◌>>=◌, ◌>>◌, pure, exit, gets,
  modify, or_exit, guard, final, store_or_exit, store_ignoring, internal, bad_request, http_error,
  write_json, flag, text, texts, label,
}
use mist_ui.HttpApi.Portal.{Json}
use mist_ui.HttpApi.Toggles.{router_or_exit, apply_dns_default}
use mist_ui.HttpApi.Privacy.{mac_schedule, mac_profile, mac_last_roll_key, unprocessable}
use mist_ui.Base.{
  ℕ, zero, suc, ◌+◌, ◌-◌, ◌*◌, ◌/◌, ◌%◌, ◌≤◌, ◌<◌, String, ◌≡◌, refl, sym, ap, subst, ◌∙◌, ◌≢◌, ◌↔◌,
  ◌⊎◌, inl, inr, Bool, true, false, not, ◌&&◌, ◌||◌, Option, none, some, List, [], ◌∷◌, ◌++◌, map,
  arith, if◌then◌else◌, ltb, leb, nat_eq, Bytes, str, bytes_eq, bytes_eq_iff, bytes_eq_refl,
  Bool-cases, Result, ok, err, result_or, Result-cases, Option-cases, length, get_or, take, drop,
  length-append, take-append, drop-append, drop_past, get_or_past, take_part,
}

-- An access that reads the router only, as Scan does. The answer lists the names of the networks.
abbrev names : List Network → List Bytes
names [] = []
names (n ∷ ns) = n.ssid ∷ names ns

unfoldable pub wifi_scan : {D W : Type 0} → (W → Result (List Network)) → Handler (Server D W)
wifi_scan scan s = elim (scan s.world) [
  | err e ↦ (write_json 502 (("error", label e) ∷ []), s)
  | ok ns ↦ (write_json 200 (("networks", texts (names ns)) ∷ []), s)
]

module _ (B : Bolt) (J : Json) {W : Type 0} (V : Connector W) (N : Dns W)
    (set_ap : Bytes → Bytes → W → Result (Unit {0}) × W) where
  unfoldable pub wifi_set_ap : Option (Bytes × Bytes) → Handler (Server B.State W)
  wifi_set_ap none s = (bad_request, s)
  wifi_set_ap (some (ssid, key)) s = final (
      (do
        router_or_exit (set_ap ssid key) unprocessable
        modify (apply_dns_default B J V N)
        pure (write_json 200 (("apSsid", text ssid) ∷ [])))
        s)

module _ (B : Bolt) (T : Rfc3339) (table : List Profile) {W : Type 0}
    (join : Bytes → Bytes → Option Identity → W → Result (Unit {0}) × W) where
  -- A nil identity where the schedule is off.
  unfoldable pub choose_identity : Result Raw → Server B.State W → Result (Option Identity)
  choose_identity random s =
      if bytes_eq (mac_schedule B s) (str "off")
      then ok none
      else elim (generate_identity table random (mac_profile B table s)) [
        | err e ↦ err e
        | ok id ↦ ok (some id)
      ]

  -- The join is on record as a roll, if it has an identity, and the portal watch is kicked.
  unfoldable pub note_join : ℕ → Option Identity → Server B.State W → Server B.State W
  note_join now none s = record s { portal_kick = true }
  note_join now (some id) s = record s {
    db = result_or (Store.put_config B s.db mac_last_roll_key (T.format now)) s.db;
    portal_kick = true;
  }

  unfoldable pub wifi_join_uplink :
      Result Raw → Request → Option (Bytes × Bytes) → Handler (Server B.State W)
  wifi_join_uplink random r none s = (bad_request, s)
  wifi_join_uplink random r (some (ssid, key)) s = final (
      (do
        ident ← or_exit (choose_identity random s) internal
        router_or_exit (join ssid key ident) unprocessable
        modify (note_join r.now ident)
        pure (
            write_json 200 (
              ("joining", text ssid)
              ∷ elim ident [ none ↦ [] | some id ↦ ("identity", text id.mac) ∷ [] ])))
        s)
