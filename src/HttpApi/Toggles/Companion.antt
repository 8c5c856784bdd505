-- ===== src/HttpApi/Toggles/Companion.antt =====
-- internal/httpapi/netops.go, killSwitchSet, on the service of internal/dns/service.go: the switch and its
-- companion rule.
use mathlib.Core.List.{Mem}
use mist_ui.Store.Database.{Bolt, IsLawful}
use mist_ui.Router.{Connector, Dns}
use mist_ui.Router.Uci.{Runner, IsUci}
use mist_ui.Router.Force.{IsInForce}
use mist_ui.Dns.{
  Provider, provider_by_key, firewall, dns_ks, enable, disable, enabled, set_fail_closed,
}
use mist_ui.Dns.Effects.{Denies, fail_closed_effect}
use mist_ui.HttpApi.Server.{Server}
use mist_ui.HttpApi.Portal.{Json}
use mist_ui.HttpApi.Portal.Records.{IsHealthy}
use mist_ui.HttpApi.Portal.Calls.{only_when, fail_closed_to, perform, AllSucceed}
use mist_ui.HttpApi.Toggles.{kill_switch_set, reads_on}
use mist_ui.HttpApi.Toggles.Postures.{kill_switch_set_sound, IsOver}
use mist_ui.Base.{◌≡◌, sym, ap, subst, ◌∙◌, true, some, Bytes, str, Result, ok}

-- dns.Service over a runner.
abbrev pub dns_service : {W : Type 0} → Runner W → Bytes → (W → W) → (W → Result Bytes) → Dns W
dns_service U spec close_upstream query = record {
  enable = enable U spec;
  disable = disable U spec;
  set_fail_closed = set_fail_closed U close_upstream;
  enabled = enabled U query;
}

module _ (B : Bolt) (L : IsLawful B) (H : IsHealthy B) (J : Json) {W : Type 0} (V : Connector W)
    (U : Runner W) (I : IsUci U) (spec : Bytes) (close_upstream : W → W)
    (query : W → Result Bytes) where
  -- Switching the kill switch on, answered with 200 while encrypted DNS reads as on, in a database that takes
  -- its writes and with pooled connections whose cutting leaves the router's configuration alone: the
  -- switch was set, the rule that rejects DNS over HTTPS on the raw uplink has all its options, with
  -- every address of a resolver that a key selects in its list, it is committed and loaded by the
  -- firewall, and no pause is on whose end would change any of it.
  pub kill_switch_set-Denies :
      (key ip : Bytes) (p : Provider) (s : Server B.State W)
      → ((x : W) → (U.view (close_upstream x) ≡ U.view x) × (U.live (close_upstream x) ≡ U.live x))
      → provider_by_key key ≡ some p
      → Mem ip p.ips
      → enabled U query (V.set_kill_switch true s.world).1 ≡ ok true
      → (kill_switch_set B J V (dns_service U spec close_upstream query) (some true) s).0.status
        ≡ 200
      → let N = dns_service U spec close_upstream query in
        let t = (kill_switch_set B J V N (some true) s).1 in
        ((V.set_kill_switch true s.world).0 ≡ ok tt)
        × Denies (U.view (V.set_kill_switch true s.world).1) (U.view t.world)
        × Mem ip (U.view t.world firewall dns_ks (str "dest_ip"))
        × IsInForce U firewall t.world
        × IsOver B L H J V N t
  kill_switch_set-Denies key ip p s quiet found m on h =
      let N : Dns W = dns_service U spec close_upstream query in
      let w1 = (V.set_kill_switch true s.world).1 in
      let t = (kill_switch_set B J V N (some true) s).1 in
      let ((set, rest), same, over) = kill_switch_set_sound B L H J V N true s h in
      let done =
        subst (λ b. AllSucceed V N (only_when b (fail_closed_to true)) w1) (ap reads_on on) rest in
      let end : t.world ≡ (set_fail_closed U close_upstream true w1).1 =
        same ∙ ap (λ b. perform V N (only_when b (fail_closed_to true)) w1) (ap reads_on on) in
      let (denies, listed, live) =
        fail_closed_effect U I close_upstream key ip p w1 quiet found m done.0 in
      (
        set,
        subst (λ w. Denies (U.view w1) (U.view w)) (sym end) denies,
        subst (λ w. Mem ip (U.view w firewall dns_ks (str "dest_ip"))) (sym end) listed,
        subst (IsInForce U firewall) (sym end) live,
        over,
      )
