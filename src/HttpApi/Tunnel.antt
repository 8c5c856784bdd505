-- ===== src/HttpApi/Tunnel.antt =====
-- internal/httpapi: the handlers of the WireGuard tunnel (api.go, vpnImport to vpnStatus) and the pinning of
-- its endpoints (dnsops.go). A request whose body does not decode is `none`.
pub mod Pins
pub mod Imports
use mist_ui.Store.Database.{Bolt}
use mist_ui.Store
use mist_ui.Router.{Connector}
use mist_ui.Vpn.Config.{Net, Peer, Config, Summary, parse_config, summary, is_empty}
use mist_ui.HttpApi.Toggles.{router_or_exit, bad_gateway}
use mist_ui.HttpApi.Server.{
  Server, Response, Handler, Outcome, return, value, M, ◌>>=◌, ◌>>◌, pure, exit, gets, modify,
  or_exit, guard, final, store_or_exit, store_ignoring, internal, bad_request, http_error,
  write_json, flag, text, label, raw,
}
use mist_ui.Base.{
  ℕ, zero, suc, ◌+◌, ◌-◌, ◌*◌, ◌/◌, ◌%◌, ◌≤◌, ◌<◌, String, ◌≡◌, refl, sym, ap, subst, ◌∙◌, ◌≢◌, ◌↔◌,
  ◌⊎◌, inl, inr, Bool, true, false, not, ◌&&◌, ◌||◌, Option, none, some, List, [], ◌∷◌, ◌++◌, map,
  arith, if◌then◌else◌, ltb, leb, nat_eq, Bytes, str, bytes_eq, bytes_eq_iff, bytes_eq_refl,
  Bool-cases, Result, ok, err, result_or, Result-cases, Option-cases, length, get_or, take, drop,
  length-append, take-append, drop-append, drop_past, get_or_past, take_part,
}

abbrev pub vpn_summary_key : Bytes
vpn_summary_key = str "vpn_summary"

-- The rest of Go's interface Connector.
pub record Tunnel (W : Type 0) : Type 0 where
  pub import_config : Config → W → Result (Unit {0}) × W
  pub status : W → Result Bytes

-- What a lookup of the forwarder answers, json.Marshal of a summary, and the test of net.ParseIP and
-- To4.
pub record Host : Type 0 where
  pub lookup : Bytes → Result (List Bytes)
  pub marshal : Summary → Result Bytes
  pub is_ip4 : Bytes → Bool

module _ (N : Net) (H : Host) where
  unfoldable pub first_ip4 : List Bytes → Bytes → Bytes
  first_ip4 [] host = host
  first_ip4 (a ∷ addrs) host = let rest = first_ip4 addrs host in if H.is_ip4 a then a else rest

  unfoldable pub pin_host : Bytes → Bytes
  unfolding first_ip4
  pin_host host =
      if is_empty host || N.is_ip host
      then host
      else elim (H.lookup host) [ err e ↦ host | ok addrs ↦ first_ip4 addrs host ]

  unfoldable pub pin_peers : List Peer → List Peer
  pin_peers [] = []
  pin_peers (p ∷ ps) = record p { endpoint_host = pin_host p.endpoint_host } ∷ pin_peers ps

  unfoldable pub pin_endpoints : Config → Config
  pin_endpoints cfg = record cfg { peers = pin_peers cfg.peers }

module _ (B : Bolt) (N : Net) (H : Host) {W : Type 0} (T : Tunnel W) where
  -- vpnImport once the text has been parsed.
  unfoldable pub install : Config → Handler (Server B.State W)
  install cfg s = final (
      (do
        router_or_exit (T.import_config (pin_endpoints N H cfg)) (bad_gateway "import failed")
        json ← or_exit (H.marshal (summary N cfg)) internal
        store_or_exit (λ d. Store.put_config B d vpn_summary_key json) internal
        pure (write_json 200 (("imported", flag true) ∷ ("summary", raw json) ∷ [])))
        s)

  unfoldable pub vpn_import : Option Bytes → Handler (Server B.State W)
  vpn_import none s = (bad_request, s)
  vpn_import (some config) s =
      if is_empty config then (bad_request, s) else elim (parse_config N config) [
        | err e ↦ (write_json 422 (("error", label e) ∷ []), s)
        | ok cfg ↦ install cfg s
      ]

  unfoldable pub vpn_config : Handler (Server B.State W)
  vpn_config s = elim (Store.config B s.db vpn_summary_key) [
    | err e ↦ (internal, s)
    | ok none ↦ (write_json 200 (("configured", flag false) ∷ []), s)
    | ok (some json) ↦ (write_json 200 (("configured", flag true) ∷ ("summary", raw json) ∷ []), s)
  ]

-- `iface` is the server's wgIface.
module _ {D W : Type 0} (V : Connector W) (T : Tunnel W) (iface : Bytes) where
  unfoldable pub vpn_up : Handler (Server D W)
  vpn_up s = final (
      (do
        router_or_exit V.up (bad_gateway "vpn up failed")
        pure (write_json 200 (("state", label "up") ∷ ("iface", text iface) ∷ [])))
        s)

  unfoldable pub vpn_down : Handler (Server D W)
  vpn_down s = final (
      (do
        router_or_exit V.down (bad_gateway "vpn down failed")
        pure (write_json 200 (("state", label "down") ∷ ("iface", text iface) ∷ [])))
        s)

  unfoldable pub vpn_status : Handler (Server D W)
  vpn_status s = elim (T.status s.world) [
    | err e ↦ (write_json 200 (("up", flag false) ∷ []), s)
    | ok out ↦ (write_json 200 (("up", flag (not (is_empty out))) ∷ ("detail", text out) ∷ []), s)
  ]
