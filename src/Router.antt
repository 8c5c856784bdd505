-- ===== src/Router.antt =====
-- What the portal machine needs of the router: the VPN connector (internal/vpn/vpn.go, Connector)
-- and the encrypted-DNS service (internal/dns/service.go), over the state `W` of the router.
-- A command changes the router also where it fails half-way.
pub mod Uci
pub mod Force
use mist_ui.Base.{
  ℕ, zero, suc, ◌+◌, ◌-◌, ◌*◌, ◌/◌, ◌%◌, ◌≤◌, ◌<◌, String, ◌≡◌, refl, sym, ap, subst, ◌∙◌, ◌≢◌, ◌↔◌,
  ◌⊎◌, inl, inr, Bool, true, false, not, ◌&&◌, ◌||◌, Option, none, some, List, [], ◌∷◌, ◌++◌, map,
  arith, if◌then◌else◌, ltb, leb, nat_eq, Bytes, str, bytes_eq, bytes_eq_iff, bytes_eq_refl,
  Bool-cases, Result, ok, err, ◌>>=◌, ◌>>◌, result_or, Result-cases, Option-cases, length, get_or,
  take, drop, length-append, take-append, drop-append, drop_past, get_or_past, take_part,
}

-- The parts of Go's interface Connector that the portal machine and the kill-switch handler call.
pub record Connector (W : Type 0) : Type 0 where
  pub up : W → Result (Unit {0}) × W
  pub down : W → Result (Unit {0}) × W
  pub set_kill_switch : Bool → W → Result (Unit {0}) × W
  pub kill_switch : W → Result Bool

pub record Dns (W : Type 0) : Type 0 where
  pub enable : W → Result (Unit {0}) × W
  pub disable : W → Result (Unit {0}) × W
  pub set_fail_closed : Bool → W → Result (Unit {0}) × W
  pub enabled : W → Result Bool
