-- ===== src/Dns.antt =====
-- internal/dns/providers.go and service.go: the curated resolvers, and the dnsmasq and firewall
-- side of encrypted DNS.
pub mod Rules
pub mod Providers
pub mod Effects
pub mod Forwarder
use mist_ui.Router.Uci.{
  Cmd, set_section, set_option, add_list, del_list, delete_section, delete_option, commit, service,
  Runner, run_all,
}
use mist_ui.Vpn.Text.{trim_space}
use mist_ui.Base.{
  ℕ, zero, suc, ◌+◌, ◌-◌, ◌*◌, ◌/◌, ◌%◌, ◌≤◌, ◌<◌, String, ◌≡◌, refl, sym, ap, subst, ◌∙◌, ◌≢◌, ◌↔◌,
  ◌⊎◌, inl, inr, Bool, true, false, not, ◌&&◌, ◌||◌, Option, none, some, List, [], ◌∷◌, ◌++◌, map,
  arith, if◌then◌else◌, ltb, leb, nat_eq, Bytes, str, bytes_eq, bytes_eq_iff, bytes_eq_refl,
  Bool-cases, Result, ok, err, ◌>>=◌, ◌>>◌, result_or, Result-cases, Option-cases, length, get_or,
  take, drop, length-append, take-append, drop-append, drop_past, get_or_past, take_part,
}

pub record Provider : Type 0 where
  pub key : Bytes
  pub hostname : Bytes
  pub url : Bytes
  pub ips : List Bytes

abbrev pub default_provider : Bytes
default_provider = str "quad9"

abbrev pub quad9 : Provider
quad9 = record {
  key = str "quad9";
  hostname = str "dns.quad9.net";
  url = str "https://dns.quad9.net/dns-query";
  ips = str "9.9.9.9" ∷ str "149.112.112.112" ∷ [];
}

abbrev pub cloudflare : Provider
cloudflare = record {
  key = str "cloudflare";
  hostname = str "cloudflare-dns.com";
  url = str "https://cloudflare-dns.com/dns-query";
  ips = str "1.1.1.1" ∷ str "1.0.0.1" ∷ [];
}

abbrev pub mullvad : Provider
mullvad = record {
  key = str "mullvad";
  hostname = str "dns.mullvad.net";
  url = str "https://dns.mullvad.net/dns-query";
  ips = str "194.242.2.2" ∷ [];
}

abbrev pub providers : List Provider
providers = quad9 ∷ cloudflare ∷ mullvad ∷ []

-- The first provider that passes a test.
unfoldable pub find_provider : (Provider → Bool) → List Provider → Option Provider
find_provider p [] = none
find_provider p (x ∷ xs) = if p x then some x else find_provider p xs

unfoldable pub provider_by_key : Bytes → Option Provider
unfolding find_provider
provider_by_key key = find_provider (λ p. bytes_eq p.key key) providers

unfoldable pub provider_by_hostname : Bytes → Option Provider
unfolding find_provider
provider_by_hostname host = find_provider (λ p. bytes_eq p.hostname host) providers

unfoldable pub valid_provider : Bytes → Bool
valid_provider key = elim (provider_by_key key) [ none ↦ false | some p ↦ true ]

unfoldable pub resolver_ips : List Provider → List Bytes
resolver_ips [] = []
resolver_ips (p ∷ ps) = p.ips ++ resolver_ips ps

unfoldable pub all_resolver_ips : List Bytes
unfolding resolver_ips
all_resolver_ips = resolver_ips providers

abbrev pub dhcp : Bytes
dhcp = str "dhcp"

abbrev pub firewall : Bytes
firewall = str "firewall"

abbrev pub dnsmasq : Bytes
dnsmasq = str "@dnsmasq[0]"

abbrev pub dns_out : Bytes
dns_out = str "mistui_dns_out"

abbrev pub dns_fwd : Bytes
dns_fwd = str "mistui_dns_fwd"

abbrev pub dns_hijack : Bytes
dns_hijack = str "mistui_dns_hijack"

abbrev pub dns_ks : Bytes
dns_ks = str "mistui_dns_ks"

-- `uci set firewall.sec=type`, `uci set firewall.sec.opt=val`
abbrev rule : Bytes → String → Cmd
rule sec t = set_section firewall sec (str t)

abbrev opt : Bytes → String → String → Cmd
opt sec o v = set_option firewall sec (str o) (str v)

abbrev restart_dnsmasq : Cmd
restart_dnsmasq = service (str "/etc/init.d/dnsmasq") (str "restart")

abbrev reload_firewall : Cmd
reload_firewall = service (str "/etc/init.d/firewall") (str "reload")

unfoldable pub rule_cmds : List Cmd
rule_cmds =
    rule dns_out "rule"
    ∷ opt dns_out "name" "mistui-dns53-out"
    ∷ opt dns_out "dest" "wan"
    ∷ opt dns_out "proto" "tcp udp"
    ∷ opt dns_out "dest_port" "53"
    ∷ opt dns_out "target" "REJECT"
    ∷ rule dns_fwd "rule"
    ∷ opt dns_fwd "name" "mistui-dns53-fwd"
    ∷ opt dns_fwd "src" "lan"
    ∷ opt dns_fwd "dest" "wan"
    ∷ opt dns_fwd "proto" "tcp udp"
    ∷ opt dns_fwd "dest_port" "53"
    ∷ opt dns_fwd "target" "REJECT"
    ∷ rule dns_hijack "redirect"
    ∷ opt dns_hijack "name" "mistui-dns-hijack"
    ∷ opt dns_hijack "src" "lan"
    ∷ opt dns_hijack "proto" "tcp udp"
    ∷ opt dns_hijack "src_dport" "53"
    ∷ opt dns_hijack "target" "DNAT"
    ∷ []

-- `spec` is serverSpec(), the address of the forwarder in dnsmasq's syntax.
unfoldable pub enable_cmds : Bytes → List Cmd
enable_cmds spec =
    set_option dhcp dnsmasq (str "noresolv") (str "1")
    ∷ del_list dhcp dnsmasq (str "server") spec
    ∷ add_list dhcp dnsmasq (str "server") spec
    ∷ commit dhcp
    ∷ (rule_cmds ++ (commit firewall ∷ restart_dnsmasq ∷ reload_firewall ∷ []))

unfoldable pub disable_cmds : Bytes → List Cmd
disable_cmds spec =
    delete_option dhcp dnsmasq (str "noresolv")
    ∷ del_list dhcp dnsmasq (str "server") spec
    ∷ commit dhcp
    ∷ delete_section firewall dns_out
    ∷ delete_section firewall dns_fwd
    ∷ delete_section firewall dns_hijack
    ∷ delete_section firewall dns_ks
    ∷ commit firewall
    ∷ restart_dnsmasq
    ∷ reload_firewall
    ∷ []

unfoldable pub add_ips : List Bytes → List Cmd
add_ips [] = []
add_ips (ip ∷ ips) = add_list firewall dns_ks (str "dest_ip") ip ∷ add_ips ips

unfoldable pub fail_closed_cmds : Bool → List Cmd
fail_closed_cmds false = delete_section firewall dns_ks ∷ commit firewall ∷ reload_firewall ∷ []
fail_closed_cmds true =
    rule dns_ks "rule"
    ∷ opt dns_ks "name" "mistui-doh-failclosed"
    ∷ opt dns_ks "dest" "wan"
    ∷ opt dns_ks "proto" "tcp"
    ∷ opt dns_ks "dest_port" "443"
    ∷ delete_option firewall dns_ks (str "dest_ip")
    ∷ (add_ips all_resolver_ips
        ++ (opt dns_ks "target" "REJECT" ∷ commit firewall ∷ reload_firewall ∷ []))

module _ {W : Type 0} (U : Runner W) where
  unfoldable pub enable : Bytes → W → Result (Unit {0}) × W
  enable spec w = run_all U (enable_cmds spec) w

  unfoldable pub disable : Bytes → W → Result (Unit {0}) × W
  disable spec w = run_all U (disable_cmds spec) w

  -- `query` is the run of the pipeline that looks for the forwarder's address in dnsmasq's list of servers,
  -- and prints on or off.
  unfoldable pub enabled : (W → Result Bytes) → W → Result Bool
  enabled query w = do out ← query w; ok (bytes_eq (trim_space out) (str "on"))

  -- `close_upstream` is the forwarder's CloseUpstream, which drops its pooled connections.
  unfoldable pub set_fail_closed : (W → W) → Bool → W → Result (Unit {0}) × W
  set_fail_closed close_upstream false w = run_all U (fail_closed_cmds false) w
  set_fail_closed close_upstream true w =
      let (r, w') = run_all U (fail_closed_cmds true) w in
      elim r [ err e ↦ (err e, w') | ok _ ↦ (ok tt, close_upstream w') ]
