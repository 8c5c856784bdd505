-- ===== src/Vpn/Config.antt =====
-- internal/vpn/config.go: the import format of wg-quick. Host and port, addresses, decimal numbers and
-- base64 are Go's library: parameters, gathered in `Net`. An error is known by its fixed part, so
-- the line and peer numbers of the messages are left out.
pub mod Valid
pub mod Render
pub mod Secrets
use mist_ui.Vpn.Text.{trim, trim_space, to_lower, cut_where, split, is_byte}
use mist_ui.Base.{
  ℕ, zero, suc, ◌+◌, ◌-◌, ◌*◌, ◌/◌, ◌%◌, ◌≤◌, ◌<◌, String, ◌≡◌, refl, sym, ap, subst, ◌∙◌, ◌≢◌, ◌↔◌,
  ◌⊎◌, inl, inr, Bool, true, false, not, ◌&&◌, ◌||◌, Option, none, some, List, [], ◌∷◌, ◌++◌, map,
  arith, if◌then◌else◌, ltb, leb, nat_eq, Bytes, str, bytes_eq, bytes_eq_iff, bytes_eq_refl,
  Bool-cases, Result, ok, err, ◌>>=◌, ◌>>◌, result_or, Result-cases, Option-cases, length, get_or,
  take, drop, length-append, take-append, drop-append, drop_past, get_or_past, take_part,
}
use mist_ui.Base.{ℤ, pos, negsuc}

-- net.SplitHostPort, net.JoinHostPort, net.ParseIP and net.ParseCIDR (whether they succeed),
-- strconv.Atoi and base64.StdEncoding.DecodeString.
pub record Net : Type 0 where
  pub split_host_port : Bytes → Option (Bytes × Bytes)
  pub join_host_port : Bytes → Bytes → Bytes
  pub is_ip : Bytes → Bool
  pub is_cidr : Bytes → Bool
  pub atoi : Bytes → Option ℤ
  pub base64 : Bytes → Option Bytes

pub record Peer : Type 0 where
  pub public_key : Bytes
  pub preshared_key : Bytes
  pub allowed_ips : List Bytes
  pub endpoint_host : Bytes
  pub endpoint_port : Bytes
  pub persistent_keepalive : Bytes

pub record Config : Type 0 where
  pub private_key : Bytes
  pub addresses : List Bytes
  pub dns : List Bytes
  pub mtu : Bytes
  pub peers : List Peer

pub record Summary : Type 0 where
  pub addresses : List Bytes
  pub dns : List Bytes
  pub endpoints : List Bytes
  pub allowed_ips : List Bytes

abbrev pub is_empty : {A : Type 0} → List A → Bool
is_empty [] = true
is_empty (_ ∷ _) = false

abbrev pub no_peer : Peer
no_peer = record {
  public_key = [];
  preshared_key = [];
  allowed_ips = [];
  endpoint_host = [];
  endpoint_port = [];
  persistent_keepalive = [];
}

abbrev pub no_config : Config
no_config = record { private_key = []; addresses = []; dns = []; mtu = []; peers = [] }

unfoldable pub non_empty_parts : List Bytes → List Bytes
non_empty_parts [] = []
non_empty_parts (s ∷ ss) =
    let rest = non_empty_parts ss in elim (trim_space s) [ [] ↦ rest | c ∷ t ↦ (c ∷ t) ∷ rest ]

unfoldable pub split_list : Bytes → List Bytes
unfolding non_empty_parts
split_list v = non_empty_parts (split b',' v)

-- What the loop of ParseConfig carries: the section that the last header opened, and the config.
-- `peer` points at the last element of `cfg.Peers`.
pub data Section : Type 0 where
  no_section in_interface in_peer : Section

pub record Parser : Type 0 where
  pub section : Section
  pub cfg : Config

unfoldable pub update_last : (Peer → Peer) → List Peer → List Peer
update_last f [] = []
update_last f (p ∷ []) = f p ∷ []
update_last f (p ∷ q ∷ ps) = p ∷ update_last f (q ∷ ps)

abbrev pub with_peer : (Peer → Peer) → Config → Config
with_peer f cfg = record cfg { peers = update_last f cfg.peers }

abbrev is_comment : ℕ → Bool
is_comment c = nat_eq c b'#' || nat_eq c b';'

-- The line without its comment and the spaces around.
unfoldable pub line_text : Bytes → Bytes
line_text raw = elim (cut_where is_comment (trim_space raw)) [
  | none ↦ trim_space raw
  | some (before, _) ↦ trim_space before
]

abbrev last_is : ℕ → Bytes → Bool
last_is c [] = false
last_is c (d ∷ []) = nat_eq d c
last_is c (d ∷ e ∷ s) = last_is c (e ∷ s)

unfoldable pub is_header : Bytes → Bool
is_header [] = false
is_header (c ∷ s) = nat_eq c b'[' && last_is b']' (c ∷ s)

unfoldable pub open_section : Config → Bytes → Result Parser
open_section cfg name =
    if bytes_eq name (str "interface")
    then (if not (bytes_eq cfg.private_key []) || not (is_empty cfg.addresses)
        then err "multiple [Interface] sections"
        else ok (record { section = in_interface; cfg = cfg }))
    else if bytes_eq name (str "peer")
    then ok (record { section = in_peer; cfg = record cfg { peers = cfg.peers ++ (no_peer ∷ []) } })
    else err "unknown section"

abbrev pub is_hook : Bytes → Bool
is_hook key =
    bytes_eq key (str "preup")
    || bytes_eq key (str "postup")
    || bytes_eq key (str "predown")
    || bytes_eq key (str "postdown")
    || bytes_eq key (str "saveconfig")
    || bytes_eq key (str "table")

unfoldable pub set_interface : Config → Bytes → Bytes → Result Config
set_interface cfg key val =
    if bytes_eq key (str "privatekey")
    then ok (record cfg { private_key = val })
    else if bytes_eq key (str "address")
    then ok (record cfg { addresses = cfg.addresses ++ split_list val })
    else if bytes_eq key (str "dns")
    then ok (record cfg { dns = cfg.dns ++ split_list val })
    else if bytes_eq key (str "mtu")
    then ok (record cfg { mtu = val })
    else if is_hook key
    then err "not supported (wg-quick script options don't apply)"
    else err "unknown [Interface] key"

module _ (N : Net) where
  unfoldable pub set_peer : Config → Bytes → Bytes → Result Config
  set_peer cfg key val =
      if bytes_eq key (str "publickey")
      then ok (with_peer (λ p. record p { public_key = val }) cfg)
      else if bytes_eq key (str "presharedkey")
      then ok (with_peer (λ p. record p { preshared_key = val }) cfg)
      else if bytes_eq key (str "allowedips")
      then ok (with_peer (λ p. record p { allowed_ips = p.allowed_ips ++ split_list val }) cfg)
      else if bytes_eq key (str "endpoint")
      then elim (N.split_host_port val) [
        | none ↦ err "bad Endpoint"
        | some (host, port) ↦
            ok (with_peer (λ p. record p { endpoint_host = host; endpoint_port = port }) cfg)
      ]
      else if bytes_eq key (str "persistentkeepalive")
      then ok (with_peer (λ p. record p { persistent_keepalive = val }) cfg)
      else err "unknown [Peer] key"

  -- The switch on the section of the key.
  unfoldable pub set_in : Section → Config → Bytes → Bytes → Result Config
  unfolding set_interface set_peer
  set_in no_section cfg key val = err "key outside any section"
  set_in in_interface cfg key val = set_interface cfg key val
  set_in in_peer cfg key val = set_peer cfg key val

  unfoldable pub set_value : Parser → Bytes → Bytes → Result Parser
  unfolding set_in
  set_value s key val = do next ← set_in s.section s.cfg key val; ok (record s { cfg = next })

  -- `key = value`, both trimmed.
  unfoldable pub parse_pair : Parser → Bytes → Result Parser
  unfolding set_value
  parse_pair s line = elim (cut_where (is_byte b'=') line) [
    | none ↦ err "expected key = value"
    | some (key, val) ↦
        if is_empty (trim_space val)
        then err "empty value"
        else set_value s (to_lower (trim_space key)) (trim_space val)
  ]

  abbrev is_bracket : ℕ → Bool
  is_bracket c = nat_eq c b'[' || nat_eq c b']'

  -- One round of the loop over the lines.
  unfoldable pub parse_line : Parser → Bytes → Result Parser
  unfolding line_text is_header open_section parse_pair
  parse_line s raw =
      let line = line_text raw in
      if is_empty line
      then ok s
      else if is_header line
      then open_section s.cfg (to_lower (trim is_bracket line))
      else parse_pair s line

  unfoldable pub parse_lines : Parser → List Bytes → Result Parser
  unfolding parse_line
  parse_lines s [] = ok s
  parse_lines s (raw ∷ rest) = do t ← parse_line s raw; parse_lines t rest

  unfoldable pub check_key : Bytes → Bool → Result (Unit {0})
  check_key [] required = if required then err "missing key" else ok tt
  check_key (c ∷ val) required = elim (N.base64 (c ∷ val)) [
    | none ↦ err "not a valid WireGuard key"
    | some b ↦ if not (nat_eq (length b) 32) then err "not a valid WireGuard key" else ok tt
  ]

  -- `err != nil || n < lo || n > hi`
  abbrev pub is_outside : ℕ → ℕ → Option ℤ → Bool
  is_outside lo hi none = true
  is_outside lo hi (some (pos n)) = ltb n lo || ltb hi n
  is_outside lo hi (some (negsuc n)) = true

  -- The loop's error for the first element that fails its test.
  unfoldable pub check_each : (Bytes → Bool) → String → List Bytes → Result (Unit {0})
  check_each good message [] = ok tt
  check_each good message (a ∷ rest) =
      let more = check_each good message rest in if good a then more else err message

  unfoldable pub validate_peer : Peer → Result (Unit {0})
  unfolding check_key check_each
  validate_peer p = do
    check_key p.public_key true
    if is_empty p.preshared_key then ok tt else check_key p.preshared_key true
    if is_empty p.allowed_ips then err "no AllowedIPs" else ok tt
    check_each N.is_cidr "bad AllowedIPs entry" p.allowed_ips
    if not (is_empty p.persistent_keepalive) && is_outside 0 65535 (N.atoi p.persistent_keepalive)
        then err "bad PersistentKeepalive"
        else ok tt

  unfoldable pub validate_peers : List Peer → Result (Unit {0})
  unfolding validate_peer
  validate_peers [] = ok tt
  validate_peers (p ∷ ps) = do validate_peer p; validate_peers ps

  unfoldable pub validate : Config → Result (Unit {0})
  unfolding validate_peers
  validate cfg = do
    check_key cfg.private_key true
    if is_empty cfg.addresses then err "[Interface] has no Address" else ok tt
    check_each (λ a. N.is_cidr a || N.is_ip a) "bad Address" cfg.addresses
    if not (is_empty cfg.mtu) && is_outside 576 9200 (N.atoi cfg.mtu) then err "bad MTU" else ok tt
    if is_empty cfg.peers then err "no [Peer] section" else ok tt
    validate_peers cfg.peers

  unfoldable pub parse_config : Bytes → Result Config
  unfolding parse_lines validate
  parse_config text = do
    s ← parse_lines (record { section = no_section; cfg = no_config }) (split 10 text)
    validate s.cfg
    ok s.cfg

  unfoldable pub endpoints : List Peer → List Bytes
  endpoints [] = []
  endpoints (p ∷ ps) =
      let rest = endpoints ps in
      if is_empty p.endpoint_host
      then rest
      else N.join_host_port p.endpoint_host p.endpoint_port ∷ rest

  unfoldable pub all_allowed_ips : List Peer → List Bytes
  all_allowed_ips [] = []
  all_allowed_ips (p ∷ ps) = p.allowed_ips ++ all_allowed_ips ps

  unfoldable pub summary : Config → Summary
  unfolding endpoints all_allowed_ips
  summary cfg = record {
    addresses = cfg.addresses;
    dns = cfg.dns;
    endpoints = endpoints cfg.peers;
    allowed_ips = all_allowed_ips cfg.peers;
  }
