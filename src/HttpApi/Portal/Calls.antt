-- ===== src/HttpApi/Portal/Calls.antt =====
-- internal/httpapi/portalmode.go: the calls on the router that begin and end a pause, as lists.
use mist_ui.Router.{Connector, Dns}
use mist_ui.HttpApi.Portal.{PortalRecord, relax, restore, Json}
use mist_ui.Store.Database.{Bolt}
use mist_ui.Base.{◌≡◌, refl, Bool, true, false, ◌&&◌, List, [], ◌∷◌, ◌++◌, arith, Result, ok}

pub data Call : Type 0 where
  vpn_up : Call
  vpn_down : Call
  kill_switch_to : Bool → Call
  dns_enable : Call
  dns_disable : Call
  fail_closed_to : Bool → Call

abbrev pub only_when : Bool → Call → List Call
only_when true c = c ∷ []
only_when false c = []

-- What a pause switches off: the tunnel, and what the record says was on.
abbrev pub relaxing : PortalRecord → List Call
relaxing rec =
    vpn_down
    ∷ (only_when rec.saved_ks (kill_switch_to false) ++ only_when rec.saved_dns dns_disable)

-- What its end switches on: the tunnel if one is configured, what the record says was on, and the
-- fail-closed rule if it was there.
abbrev pub restoring : Bool → PortalRecord → List Call
restoring has_vpn rec =
    only_when has_vpn vpn_up
    ++ (only_when rec.saved_ks (kill_switch_to true)
        ++ (only_when rec.saved_dns dns_enable
            ++ only_when (rec.saved_dns && rec.saved_ks) (fail_closed_to true)))

module _ {W : Type 0} (V : Connector W) (N : Dns W) where
  abbrev pub call : Call → W → Result (Unit {0}) × W
  call vpn_up w = V.up w
  call vpn_down w = V.down w
  call (kill_switch_to b) w = V.set_kill_switch b w
  call dns_enable w = N.enable w
  call dns_disable w = N.disable w
  call (fail_closed_to b) w = N.set_fail_closed b w

  -- The router after the calls, in their order, whatever they return.
  abbrev pub perform : List Call → W → W
  perform [] w = w
  perform (c ∷ cs) w = perform cs (call c w).1

  -- None of the calls, made in their order, returns an error.
  abbrev pub AllSucceed : List Call → W → Type 0
  AllSucceed [] w = Unit
  AllSucceed (c ∷ cs) w = ((call c w).0 ≡ ok tt) × AllSucceed cs (call c w).1

  pub perform-append :
      (xs ys : List Call) (w : W) → perform (xs ++ ys) w ≡ perform ys (perform xs w)
  perform-append [] ys w = refl
  perform-append (x ∷ xs) ys w = perform-append xs ys (call x w).1

  module _ (B : Bolt) (J : Json) where
    pub relax-perform :
        (rec : PortalRecord) (w : W) → relax B J V N rec w ≡ perform (relaxing rec) w
    unfolding relax
    relax-perform rec w = ground arith

    pub restore-perform :
        (has_vpn : Bool) (rec : PortalRecord) (w : W)
        → restore B J V N has_vpn rec w ≡ perform (restoring has_vpn rec) w
    unfolding restore
    restore-perform true rec w = ground arith
    restore-perform false rec w = ground arith
