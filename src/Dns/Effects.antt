-- ===== src/Dns/Effects.antt =====
-- internal/dns/service.go: runs of Enable, Disable and SetFailClosed that return no error.
use mathlib.Core.List.{Mem}
use mist_ui.Dns.Providers.{provider_by_key_covered}
use mist_ui.Dns.Rules.{
  HasRules, Forwards, IsPlain, enable_Forwards, enable_HasRules, disable_IsPlain, enable_frame,
  disable_frame, is_owned, without_idem, are_plain-enable, are_plain-disable, are_plain-fail_closed,
  in_force-enable, in_force-fail_closed,
}
use mist_ui.Router.Force.{IsInForce, run_all-IsInForce}
use mist_ui.Router.Uci.{
  Runner, IsUci, is_quotable, View, effect, effects, without, run_all, view-run_all,
}
use mist_ui.Dns.{
  Provider, provider_by_key, dhcp, firewall, dnsmasq, dns_ks, enable_cmds, disable_cmds,
  fail_closed_cmds, add_ips, enable, disable, set_fail_closed, all_resolver_ips,
}
use mist_ui.Base.{
  ◌≡◌, refl, sym, ap, subst, ◌∙◌, inl, inr, true, false, some, [], ◌∷◌, ◌++◌, arith, Bytes, str,
  bytes_eq, ok, Result-cases,
}

-- The rule that keeps the router's own lookups off the raw uplink.
-- Like every rule for OUTPUT it gets no source.
pub record Denies (old v : View) : Type 0 where
  pub ks_type : v firewall dns_ks [] ≡ str "rule" ∷ []
  pub ks_dest : v firewall dns_ks (str "dest") ≡ str "wan" ∷ []
  pub ks_src : v firewall dns_ks (str "src") ≡ old firewall dns_ks (str "src")
  pub ks_proto : v firewall dns_ks (str "proto") ≡ str "tcp" ∷ []
  pub ks_port : v firewall dns_ks (str "dest_port") ≡ str "443" ∷ []
  pub ks_target : v firewall dns_ks (str "target") ≡ str "REJECT" ∷ []
  pub ks_ips : v firewall dns_ks (str "dest_ip") ≡ all_resolver_ips

fail_closed_Denies : (v : View) → Denies v (effects (fail_closed_cmds true) v)
unfolding effects fail_closed_cmds add_ips effect str bytes_eq all_resolver_ips
fail_closed_Denies v = record {
  ks_type = refl;
  ks_dest = refl;
  ks_src = refl;
  ks_proto = refl;
  ks_port = refl;
  ks_target = refl;
  ks_ips = refl;
}

module _ {W : Type 0} (U : Runner W) (L : IsUci U) where
  -- For an address of the forwarder that is not empty and has no quote: when Enable returns no error,
  -- dnsmasq no longer uses the resolvers of DHCP and has the forwarder once in its list of servers, behind
  -- the other servers that were configured; the rules that reject plaintext DNS and redirect the clients'
  -- queries have all their options, for both protocols, and their sources and destinations are not
  -- narrowed; and all of it is in force: committed, and then loaded by the firewall and by dnsmasq.
  pub enable_effect :
      (spec : Bytes) (w : W)
      → is_quotable spec ≡ true
      → (enable U spec w).0 ≡ ok tt
      → let t = (enable U spec w).1 in
        Forwards spec (U.view w) (U.view t)
        × HasRules (U.view w) (U.view t)
        × IsInForce U firewall t
        × IsInForce U dhcp t
  unfolding enable
  enable_effect spec w p h =
      let k = are_plain-enable spec p in
      let same = sym (view-run_all U L (enable_cmds spec) w k h) in
      let (f, d) = in_force-enable spec in
      (
        subst (Forwards spec (U.view w)) same (enable_Forwards spec (U.view w)),
        subst (HasRules (U.view w)) same (enable_HasRules spec (U.view w)),
        run_all-IsInForce U L firewall (enable_cmds spec) w k f h,
        run_all-IsInForce U L dhcp (enable_cmds spec) w k d h,
      )

  -- For an address of the forwarder that is not empty and has no quote, two calls of Enable in a row that return no
  -- error leave the same servers as one.
  pub enable_twice :
      (spec : Bytes) (w : W)
      → is_quotable spec ≡ true
      → (enable U spec w).0 ≡ ok tt
      → (enable U spec (enable U spec w).1).0 ≡ ok tt
      → U.view (enable U spec (enable U spec w).1).1 dhcp dnsmasq (str "server")
        ≡ U.view (enable U spec w).1 dhcp dnsmasq (str "server")
  enable_twice spec w p h h' =
      let (_, once) = (enable_effect spec w p h).0 in
      let (_, again) = (enable_effect spec (enable U spec w).1 p h').0 in
      again
      ∙ ap (λ s. without spec s ++ (spec ∷ [])) once
      ∙ ap (λ s. s ++ (spec ∷ [])) (without_idem spec (U.view w dhcp dnsmasq (str "server")))
      ∙ sym once

  -- For an address of the forwarder that is not empty and has no quote: when Disable returns no
  -- error, dnsmasq may use the resolvers of DHCP again, the forwarder is in no list of servers, and nothing is left of the four sections, whatever the option.
  pub disable_effect :
      (spec o : Bytes) (w : W)
      → is_quotable spec ≡ true
      → (disable U spec w).0 ≡ ok tt
      → IsPlain spec (U.view w) (U.view (disable U spec w).1) o
  unfolding disable
  disable_effect spec o w p h =
      subst (λ v. IsPlain spec (U.view w) v o)
        (sym (view-run_all U L (disable_cmds spec) w (are_plain-disable spec p) h))
        (disable_IsPlain spec (U.view w) o)

  -- Enable and then Disable, neither with an error and for an address that is not empty and has no
  -- quote, change no section that is not the package's
  -- own or dnsmasq's: every option reads as before.
  pub enable-disable_frame :
      (spec conf s o : Bytes) (w : W)
      → is_quotable spec ≡ true
      → is_owned s ≡ false
      → (enable U spec w).0 ≡ ok tt
      → (disable U spec (enable U spec w).1).0 ≡ ok tt
      → U.view (disable U spec (enable U spec w).1).1 conf s o ≡ U.view w conf s o
  unfolding enable disable
  enable-disable_frame spec conf s o w p f h h' =
      ap (λ v. v conf s o)
        (view-run_all U L (disable_cmds spec) (enable U spec w).1 (are_plain-disable spec p) h')
      ∙ disable_frame spec (U.view (enable U spec w).1) conf s o f
      ∙ ap (λ v. v conf s o) (view-run_all U L (enable_cmds spec) w (are_plain-enable spec p) h)
      ∙ enable_frame spec (U.view w) conf s o f

  -- When SetFailClosed(true) returns no error, and cutting the pooled connections leaves the router's
  -- configuration alone: the rule that rejects DNS over HTTPS on the raw uplink has all its options, with
  -- every address of a resolver that a key selects in its list, its source is not narrowed, and it is in
  -- force: committed, and then loaded by the firewall.
  pub fail_closed_effect :
      (close_upstream : W → W) (key ip : Bytes) (p : Provider) (w : W)
      → ((x : W) → (U.view (close_upstream x) ≡ U.view x) × (U.live (close_upstream x) ≡ U.live x))
      → provider_by_key key ≡ some p
      → Mem ip p.ips
      → (set_fail_closed U close_upstream true w).0 ≡ ok tt
      → let t = (set_fail_closed U close_upstream true w).1 in
        Denies (U.view w) (U.view t)
        × Mem ip (U.view t firewall dns_ks (str "dest_ip"))
        × IsInForce U firewall t
  unfolding set_fail_closed
  fail_closed_effect close_upstream key ip p w quiet found m h =
      elim (Result-cases (run_all U (fail_closed_cmds true) w).0) [
        | inr (e, q) ↦ absurd (ground (arith, q))
        | inl (t, q) ↦
            let w1 = (run_all U (fail_closed_cmds true) w).1 in
            let end : (set_fail_closed U close_upstream true w).1 ≡ close_upstream w1 =
              ground (arith, q) in
            let seen = ap U.view end ∙ (quiet w1).0 in
            let runs = ap U.live end ∙ (quiet w1).1 in
            let denies =
              subst (Denies (U.view w))
                (sym (seen ∙ view-run_all U L (fail_closed_cmds true) w are_plain-fail_closed q))
                (fail_closed_Denies (U.view w)) in
            let (_, _, listed) = provider_by_key_covered key ip p found m in
            (
              denies,
              subst (Mem ip) (sym denies.ks_ips) listed,
              λ s o.
                  ap (λ v. v firewall s o) runs
                  ∙ run_all-IsInForce U L firewall (fail_closed_cmds true) w are_plain-fail_closed
                      in_force-fail_closed q s o
                  ∙ ap (λ v. v firewall s o) (sym seen),
            )
      ]
