-- ===== src/Dns/Rules.antt =====
-- internal/dns/service.go: the effects of the command lists of Enable, Disable and SetFailClosed.
use mist_ui.Router.Uci.{
  Cmd, set_section, set_option, add_list, del_list, delete_section, delete_option, commit,
  get_section, service, are_plain, is_plain, is_name, is_value, is_quotable, lacks, View, effect,
  effects, without, reads,
}
use mist_ui.Router.Force.{staged, in_force, stage_after}
use mist_ui.Dns.{
  dhcp, firewall, dnsmasq, dns_out, dns_fwd, dns_hijack, dns_ks, rule_cmds, enable_cmds,
  disable_cmds, add_ips, fail_closed_cmds, all_resolver_ips,
}
use mist_ui.Base.{
  ◌≡◌, refl, ◌∙◌, Bool, true, false, ◌||◌, List, [], ◌∷◌, ◌++◌, arith, Bytes, str, bytes_eq,
  bytes_eq_refl,
}

pub without_idem :
    (x : Bytes) (xs : List Bytes) → without x (without x xs ++ (x ∷ [])) ≡ without x xs
unfolding without
without_idem x [] = ground (arith, bytes_eq_refl x)
without_idem x (y ∷ ys) = ground (arith, without_idem x ys)

-- The rules against plaintext DNS, and the redirect into the router. The rule for the router's own
-- queries gets no source, and the redirect no destination.
pub record HasRules (old v : View) : Type 0 where
  pub out_type : v firewall dns_out [] ≡ str "rule" ∷ []
  pub out_dest : v firewall dns_out (str "dest") ≡ str "wan" ∷ []
  pub out_proto : v firewall dns_out (str "proto") ≡ str "tcp udp" ∷ []
  pub out_src : v firewall dns_out (str "src") ≡ old firewall dns_out (str "src")
  pub out_port : v firewall dns_out (str "dest_port") ≡ str "53" ∷ []
  pub out_target : v firewall dns_out (str "target") ≡ str "REJECT" ∷ []
  pub fwd_type : v firewall dns_fwd [] ≡ str "rule" ∷ []
  pub fwd_src : v firewall dns_fwd (str "src") ≡ str "lan" ∷ []
  pub fwd_dest : v firewall dns_fwd (str "dest") ≡ str "wan" ∷ []
  pub fwd_proto : v firewall dns_fwd (str "proto") ≡ str "tcp udp" ∷ []
  pub fwd_port : v firewall dns_fwd (str "dest_port") ≡ str "53" ∷ []
  pub fwd_target : v firewall dns_fwd (str "target") ≡ str "REJECT" ∷ []
  pub hijack_type : v firewall dns_hijack [] ≡ str "redirect" ∷ []
  pub hijack_src : v firewall dns_hijack (str "src") ≡ str "lan" ∷ []
  pub hijack_proto : v firewall dns_hijack (str "proto") ≡ str "tcp udp" ∷ []
  pub hijack_ip : v firewall dns_hijack (str "dest_ip") ≡ old firewall dns_hijack (str "dest_ip")
  pub hijack_port : v firewall dns_hijack (str "src_dport") ≡ str "53" ∷ []
  pub hijack_target : v firewall dns_hijack (str "target") ≡ str "DNAT" ∷ []

-- dnsmasq asks the forwarder, after the other servers that were configured, and never falls
-- back to the resolvers of DHCP.
abbrev pub Forwards : Bytes → View → View → Type 0
Forwards spec old new =
    (new dhcp dnsmasq (str "noresolv") ≡ str "1" ∷ [])
    × (new dhcp dnsmasq (str "server")
        ≡ without spec (old dhcp dnsmasq (str "server")) ++ (spec ∷ []))

pub enable_Forwards : (spec : Bytes) (v : View) → Forwards spec v (effects (enable_cmds spec) v)
unfolding effects enable_cmds rule_cmds effect str bytes_eq
enable_Forwards spec v = (refl, refl)

pub enable_HasRules : (spec : Bytes) (v : View) → HasRules v (effects (enable_cmds spec) v)
unfolding effects enable_cmds rule_cmds effect str bytes_eq
enable_HasRules spec v = record {
  out_type = refl;
  out_dest = refl;
  out_proto = refl;
  out_src = refl;
  out_port = refl;
  out_target = refl;
  fwd_type = refl;
  fwd_src = refl;
  fwd_dest = refl;
  fwd_proto = refl;
  fwd_port = refl;
  fwd_target = refl;
  hijack_type = refl;
  hijack_src = refl;
  hijack_proto = refl;
  hijack_ip = refl;
  hijack_port = refl;
  hijack_target = refl;
}

-- No trace of encrypted DNS: the sections are empty, and dnsmasq may use DHCP's resolvers.
abbrev pub IsPlain : Bytes → View → View → Bytes → Type 0
IsPlain spec old new o =
    (new dhcp dnsmasq (str "noresolv") ≡ [])
    × (new dhcp dnsmasq (str "server") ≡ without spec (old dhcp dnsmasq (str "server")))
    × (new firewall dns_out o ≡ [])
    × (new firewall dns_fwd o ≡ [])
    × (new firewall dns_hijack o ≡ [])
    × (new firewall dns_ks o ≡ [])

pub disable_IsPlain :
    (spec : Bytes) (v : View) (o : Bytes) → IsPlain spec v (effects (disable_cmds spec) v) o
unfolding effects disable_cmds effect str bytes_eq
disable_IsPlain spec v o = (refl, refl, refl, refl, refl, refl)

-- The section that a command writes.
abbrev touches : Bytes → Cmd → Bool
touches s (set_section conf sec t) = bytes_eq sec s
touches s (set_option conf sec opt x) = bytes_eq sec s
touches s (add_list conf sec opt x) = bytes_eq sec s
touches s (del_list conf sec opt x) = bytes_eq sec s
touches s (delete_section conf sec) = bytes_eq sec s
touches s (delete_option conf sec opt) = bytes_eq sec s
touches s (commit conf) = false
touches s (get_section conf sec) = false
touches s (service name action) = false

abbrev some_touches : Bytes → List Cmd → Bool
some_touches s [] = false
some_touches s (c ∷ cs) = touches s c || some_touches s cs

effect_frame :
    (c : Cmd) (v : View) (conf s o : Bytes) → touches s c ≡ false → effect c v conf s o ≡ v conf s o
unfolding effect
effect_frame (set_section d sec t) v conf s o h = ground arith
effect_frame (set_option d sec opt x) v conf s o h = ground arith
effect_frame (add_list d sec opt x) v conf s o h = ground arith
effect_frame (del_list d sec opt x) v conf s o h = ground arith
effect_frame (delete_section d sec) v conf s o h = ground arith
effect_frame (delete_option d sec opt) v conf s o h = ground arith
effect_frame (commit d) v conf s o h = refl
effect_frame (get_section d sec) v conf s o h = refl
effect_frame (service d a) v conf s o h = refl

effects_frame :
    (cs : List Cmd) (v : View) (conf s o : Bytes)
    → some_touches s cs ≡ false
    → effects cs v conf s o ≡ v conf s o
unfolding effects
effects_frame [] v conf s o h = refl
effects_frame (c ∷ cs) v conf s o h =
    effects_frame cs (effect c v) conf s o (ground arith) ∙ effect_frame c v conf s o (ground arith)

-- The sections that the package owns, and dnsmasq's.
abbrev pub is_owned : Bytes → Bool
is_owned s =
    bytes_eq dnsmasq s
    || bytes_eq dns_out s
    || bytes_eq dns_fwd s
    || bytes_eq dns_hijack s
    || bytes_eq dns_ks s

pub enable_frame :
    (spec : Bytes) (v : View) (conf s o : Bytes)
    → is_owned s ≡ false
    → effects (enable_cmds spec) v conf s o ≡ v conf s o
unfolding enable_cmds rule_cmds
enable_frame spec v conf s o h = effects_frame (enable_cmds spec) v conf s o (ground arith)

pub disable_frame :
    (spec : Bytes) (v : View) (conf s o : Bytes)
    → is_owned s ≡ false
    → effects (disable_cmds spec) v conf s o ≡ v conf s o
unfolding disable_cmds
disable_frame spec v conf s o h = effects_frame (disable_cmds spec) v conf s o (ground arith)

pub are_plain-enable :
    (spec : Bytes) → is_quotable spec ≡ true → are_plain (enable_cmds spec) ≡ true
unfolding enable_cmds rule_cmds are_plain is_plain is_name lacks is_value is_quotable str bytes_eq
are_plain-enable spec h = ground arith

pub are_plain-disable :
    (spec : Bytes) → is_quotable spec ≡ true → are_plain (disable_cmds spec) ≡ true
unfolding disable_cmds are_plain is_plain is_name lacks is_value is_quotable str bytes_eq
are_plain-disable spec h = ground arith

pub are_plain-fail_closed : are_plain (fail_closed_cmds true) ≡ true
unfolding fail_closed_cmds add_ips all_resolver_ips are_plain is_plain is_name lacks is_value str
    bytes_eq
are_plain-fail_closed = refl

-- The lists end with what puts their changes in force.
pub in_force-enable :
    (spec : Bytes)
    → (stage_after firewall (enable_cmds spec) staged ≡ in_force)
      × (stage_after dhcp (enable_cmds spec) staged ≡ in_force)
unfolding stage_after enable_cmds rule_cmds reads str bytes_eq
in_force-enable spec = (refl, refl)

pub in_force-fail_closed : stage_after firewall (fail_closed_cmds true) staged ≡ in_force
unfolding stage_after fail_closed_cmds add_ips all_resolver_ips reads str bytes_eq
in_force-fail_closed = refl
