-- ===== src/Vpn/Config/Render.antt =====
-- internal/vpn/config.go, ParseConfig, on the files that a provider writes: a printer of wg-quick files
-- and its inverse.
pub mod Lists
pub mod Lines
pub mod Inverse
use mist_ui.Vpn.Text.{
  trim, trim_space, trim_left, trim_right, trim_right-append, is_space, to_lower, cut_where,
  cut_where-Free, cut_where_at, split, join, split-join, is_byte, Free, AllFree, Free-append,
}
use mist_ui.Vpn.Config.{
  Net, Peer, Config, no_peer, no_config, Parser, Section, no_section, in_interface, in_peer,
  is_empty, non_empty_parts, split_list, update_last, with_peer, line_text, is_header, open_section,
  set_interface, set_peer, set_in, set_value, parse_pair, parse_line, parse_lines, validate,
  parse_config,
}
use mist_ui.Base.{
  ℕ, zero, suc, ◌+◌, ◌-◌, ◌*◌, ◌/◌, ◌%◌, ◌≤◌, ◌<◌, String, ◌≡◌, refl, sym, ap, subst, ◌∙◌, ◌≢◌, ◌↔◌,
  ◌⊎◌, inl, inr, Bool, true, false, not, ◌&&◌, ◌||◌, Option, none, some, List, [], ◌∷◌, ◌++◌, map,
  arith, if◌then◌else◌, ltb, leb, nat_eq, Bytes, str, bytes_eq, bytes_eq_iff, bytes_eq_refl,
  Bool-cases, Result, ok, err, ◌>>=◌, ◌>>◌, result_or, Result-cases, Option-cases, length, get_or,
  take, drop, length-append, take-append, drop-append, drop_past, get_or_past, take_part,
}

-- A byte that ends a value (a comment or a newline), or is not ASCII.
abbrev pub is_ender : ℕ → Bool
is_ender c = nat_eq c b'#' || nat_eq c b';' || nat_eq c 10 || leb 128 c

-- A byte that ends one value of a list.
abbrev pub is_special : ℕ → Bool
is_special c = nat_eq c b',' || is_ender c

abbrev is_comment : ℕ → Bool
is_comment c = nat_eq c b'#' || nat_eq c b';'

abbrev pub starts : Bytes → Bool
starts [] = false
starts (c ∷ v) = not (is_space c)

-- What a line can carry: ASCII, not empty, no space at its ends, no comment.
pub record IsText (v : Bytes) : Type 0 where
  pub starts : starts v ≡ true
  pub right : trim_right is_space v ≡ v
  pub is_free : Free is_ender v

-- One value: no comma either.
pub record IsValue (v : Bytes) : Type 0 where
  pub starts : starts v ≡ true
  pub right : trim_right is_space v ≡ v
  pub is_free : Free is_special v

-- One line of the file, as providers write it: `PrivateKey = value`.
abbrev pub line : Bytes → Bytes → Bytes
line key v = (key ++ (b' ' ∷ [])) ++ (b'=' ∷ b' ' ∷ v)

pub Free-weaken :
    (p q : ℕ → Bool) (v : Bytes) → ((c : ℕ) → p c ≡ false → q c ≡ false) → Free p v → Free q v
Free-weaken p q [] h f = tt
Free-weaken p q (c ∷ v) h f = (h c f.0, Free-weaken p q v h f.1)

pub IsValue-IsText : (v : Bytes) → IsValue v → IsText v
IsValue-IsText v h = record {
  starts = h.starts;
  right = h.right;
  is_free = Free-weaken is_special is_ender v (λ c k. ground arith) h.is_free;
}

comment-Free : (v : Bytes) → Free is_ender v → Free is_comment v
comment-Free v f = Free-weaken is_ender is_comment v (λ c h. ground arith) f

-- A key of the format: letters, of either case.
abbrev pub is_letter : ℕ → Bool
is_letter c = (leb b'A' c && leb c b'Z') || (leb b'a' c && leb c b'z')

abbrev pub IsLetters : Bytes → Type 0
IsLetters [] = Unit
IsLetters (c ∷ s) = (is_letter c ≡ true) × IsLetters s

pub letters-Free :
    (p : ℕ → Bool) (s : Bytes)
    → ((c : ℕ) → is_letter c ≡ true → p c ≡ false)
    → IsLetters s
    → Free p s
letters-Free p [] h k = tt
letters-Free p (c ∷ s) h (a, k) = (h c a, letters-Free p s h k)

-- A key and the space behind it.
pub key-Free :
    (p : ℕ → Bool) (s : Bytes)
    → ((c : ℕ) → is_letter c ≡ true → p c ≡ false)
    → p b' ' ≡ false
    → IsLetters s
    → Free p (s ++ (b' ' ∷ []))
key-Free p s h e k = Free-append p s (b' ' ∷ []) (letters-Free p s h k) (e, tt)

trim_left_letter : (c : ℕ) (s : Bytes) → is_letter c ≡ true → trim_left is_space (c ∷ s) ≡ c ∷ s
unfolding trim_left
trim_left_letter c s a = ground arith

trim_left_text : (v : Bytes) → starts v ≡ true → trim_left is_space v ≡ v
unfolding trim_left
trim_left_text [] h = refl
trim_left_text (c ∷ v) h = ground arith

trim_right_key : (s : Bytes) → IsLetters s → trim_right is_space (s ++ (b' ' ∷ [])) ≡ s
unfolding trim_right
trim_right_key [] h = refl
trim_right_key (c ∷ []) (a, h) = ground arith
trim_right_key (c ∷ d ∷ s) (a, h) = rw (trim_right_key (d ∷ s) h) refl

trim_space_key :
    (c : ℕ) (s : Bytes) → IsLetters (c ∷ s) → trim_space ((c ∷ s) ++ (b' ' ∷ [])) ≡ c ∷ s
unfolding trim_space trim
trim_space_key c s h = rw (trim_left_letter c (s ++ (b' ' ∷ [])) h.0) (trim_right_key (c ∷ s) h)

pub trim_space_text : (v : Bytes) → IsText v → trim_space v ≡ v
unfolding trim_space trim
trim_space_text v h = rw (trim_left_text v h.starts) h.right

-- A space in front is trimmed too.
pub trim_space_padded : (v : Bytes) → IsText v → trim_space (b' ' ∷ v) ≡ v
unfolding trim_space trim trim_left
trim_space_padded v h = rw (trim_left_text v h.starts) h.right

text_not_empty : (v : Bytes) → IsText v → v ≢ []
text_not_empty [] h = absurd (ground (arith, h.starts))
text_not_empty (c ∷ v) h = λ q. cc

trim_right_assign : (v : Bytes) → IsText v → trim_right is_space (b'=' ∷ b' ' ∷ v) ≡ b'=' ∷ b' ' ∷ v
trim_right_assign v h = trim_right-append is_space (b'=' ∷ b' ' ∷ []) v h.right (text_not_empty v h)

trim_space-line :
    (c : ℕ) (s v : Bytes)
    → IsLetters (c ∷ s)
    → IsText v
    → trim_space (line (c ∷ s) v) ≡ line (c ∷ s) v
unfolding trim_space trim
trim_space-line c s v h k = rw (trim_left_letter c ((s ++ (b' ' ∷ [])) ++ (b'=' ∷ b' ' ∷ v)) h.0) (
    trim_right-append is_space ((c ∷ s) ++ (b' ' ∷ [])) (b'=' ∷ b' ' ∷ v) (trim_right_assign v k)
      (λ q. cc))

line_text-line :
    (c : ℕ) (s v : Bytes)
    → IsLetters (c ∷ s)
    → IsText v
    → line_text (line (c ∷ s) v) ≡ line (c ∷ s) v
unfolding line_text
line_text-line c s v h k =
    rw (trim_space-line c s v h k, line_text)
      (rw
        (cut_where-Free is_comment (line (c ∷ s) v) (
          Free-append is_comment ((c ∷ s) ++ (b' ' ∷ [])) (b'=' ∷ b' ' ∷ v)
            (key-Free is_comment (c ∷ s) (λ d a. ground arith) refl h)
            (refl, (refl, comment-Free v k.is_free))))
        (trim_space-line c s v h k))

-- The values of a list, with a comma and a space between two.
abbrev pub after_comma : List Bytes → Bytes
after_comma [] = []
after_comma (v ∷ vs) = b',' ∷ b' ' ∷ (v ++ after_comma vs)

-- The file that a provider writes for a configuration, line by line.
abbrev pub listed : String → List Bytes → List Bytes
listed key [] = []
listed key (v ∷ vs) = line (str key) (v ++ after_comma vs) ∷ []

abbrev pub optional : String → Bytes → List Bytes
optional key [] = []
optional key (c ∷ v) = line (str key) (c ∷ v) ∷ []

-- What a provider's file can carry.
abbrev pub Values : List Bytes → Type 0
Values [] = Unit
Values (v ∷ vs) = IsValue v × Values vs

module _ (N : Net) where
  abbrev pub endpoint_lines : Bytes → Bytes → List Bytes
  endpoint_lines [] port = []
  endpoint_lines (c ∷ host) port = line (str "Endpoint") (N.join_host_port (c ∷ host) port) ∷ []

  unfoldable pub peer_lines : Peer → List Bytes
  peer_lines p =
      str "[Peer]"
      ∷ line (str "PublicKey") p.public_key
      ∷ (optional "PresharedKey" p.preshared_key
          ++ (listed "AllowedIPs" p.allowed_ips
              ++ (endpoint_lines p.endpoint_host p.endpoint_port
                  ++ optional "PersistentKeepalive" p.persistent_keepalive)))

  unfoldable pub all_peer_lines : List Peer → List Bytes
  unfolding peer_lines
  all_peer_lines [] = []
  all_peer_lines (p ∷ ps) = peer_lines p ++ all_peer_lines ps

  unfoldable pub config_lines : Config → List Bytes
  unfolding all_peer_lines
  config_lines cfg =
      line (str "PrivateKey") cfg.private_key
      ∷ (listed "Address" cfg.addresses
          ++ (listed "DNS" cfg.dns ++ (optional "MTU" cfg.mtu ++ all_peer_lines cfg.peers)))

  unfoldable pub render : Config → Bytes
  unfolding config_lines
  render cfg = join 10 (str "[Interface]" ∷ config_lines cfg)

  abbrev pub IsOptional : Bytes → Type 0
  IsOptional [] = Unit
  IsOptional (c ∷ v) = IsValue (c ∷ v)

  abbrev pub IsEndpoint : Bytes → Bytes → Type 0
  IsEndpoint [] port = port ≡ []
  IsEndpoint (c ∷ host) port =
      IsValue (N.join_host_port (c ∷ host) port)
      × (N.split_host_port (N.join_host_port (c ∷ host) port) ≡ some (c ∷ host, port))

  pub record IsPrintablePeer (p : Peer) : Type 0 where
    pub key_value : IsValue p.public_key
    pub preshared_value : IsOptional p.preshared_key
    pub ips_values : Values p.allowed_ips
    pub endpoint_value : IsEndpoint p.endpoint_host p.endpoint_port
    pub keepalive_value : IsOptional p.persistent_keepalive

  abbrev pub ArePrintable : List Peer → Type 0
  ArePrintable [] = Unit
  ArePrintable (p ∷ ps) = IsPrintablePeer p × ArePrintable ps

  pub record IsPrintable (cfg : Config) : Type 0 where
    pub private_value : IsValue cfg.private_key
    pub address_values : Values cfg.addresses
    pub dns_values : Values cfg.dns
    pub mtu_value : IsOptional cfg.mtu
    pub peer_values : ArePrintable cfg.peers

  parse_pair-line :
      (t : Parser) (c : ℕ) (s v : Bytes)
      → IsLetters (c ∷ s)
      → IsText v
      → parse_pair N t (line (c ∷ s) v) ≡ set_value N t (to_lower (c ∷ s)) v
  unfolding parse_pair
  parse_pair-line t c s [] h k = absurd (text_not_empty [] k refl)
  parse_pair-line t c s (d ∷ v) h k =
      rw
        (
          cut_where_at (is_byte b'=') ((c ∷ s) ++ (b' ' ∷ [])) (b' ' ∷ d ∷ v) b'='
              (key-Free (is_byte b'=') (c ∷ s) (λ e a. ground arith) refl h) refl,
          parse_pair,
        )
        (rw (trim_space_padded (d ∷ v) k, trim_space_key c s h) refl)

  pub parse_line_pair :
      (t : Parser) (c : ℕ) (s v : Bytes)
      → IsLetters (c ∷ s)
      → IsText v
      → parse_line N t (line (c ∷ s) v) ≡ set_value N t (to_lower (c ∷ s)) v
  unfolding parse_line is_header
  parse_line_pair t c s v h k =
      rw (line_text-line c s v h k) (ground (arith, parse_pair-line t c s v h k, h.0))
