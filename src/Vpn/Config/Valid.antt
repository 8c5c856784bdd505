-- ===== src/Vpn/Config/Valid.antt =====
-- internal/vpn/config.go, validate and what a configuration that ParseConfig returns satisfies.
use mist_ui.Vpn.Text.{split}
use mist_ui.Vpn.Config.{
  Net, Peer, Config, is_empty, is_outside, check_key, check_each, validate_peer, validate_peers,
  validate, parse_config, parse_lines, no_config, no_section,
}
use mist_ui.Base.{
  ℕ, ◌≤◌, String, ◌≡◌, refl, subst, ◌≢◌, ◌↔◌, ◌⊎◌, inl, inr, Bool, true, false, not, ◌&&◌, ◌||◌,
  some, List, [], ◌∷◌, arith, if◌then◌else◌, Bytes, Result, ok, err, ◌>>◌, Result-cases,
  Option-cases, length,
}
use mist_ui.Base.{pos, negsuc}

module _ (N : Net) where
  -- Base64 of exactly 32 bytes.
  abbrev pub IsKey : Bytes → Type 0
  IsKey k = (k ≢ []) × ((b : Bytes) × (N.base64 k ≡ some b) × (length b ≡ 32))

  abbrev pub IsEach : (Bytes → Bool) → List Bytes → Type 0
  IsEach good [] = Unit
  IsEach good (a ∷ rest) = (good a ≡ true) × IsEach good rest

  -- A number in a range, written in decimal.
  abbrev pub IsBetween : ℕ → ℕ → Bytes → Type 0
  IsBetween lo hi v = (n : ℕ) × (N.atoi v ≡ some (pos n)) × (lo ≤ n) × (n ≤ hi)

  pub record IsPeer (p : Peer) : Type 0 where
    pub has_key : IsKey p.public_key
    pub has_preshared : (p.preshared_key ≡ []) ⊎ IsKey p.preshared_key
    pub has_ips : p.allowed_ips ≢ []
    pub are_cidrs : IsEach N.is_cidr p.allowed_ips
    pub keepalive_bounds : (p.persistent_keepalive ≡ []) ⊎ IsBetween 0 65535 p.persistent_keepalive

  abbrev pub ArePeers : List Peer → Type 0
  ArePeers [] = Unit
  ArePeers (p ∷ ps) = IsPeer p × ArePeers ps

  pub record IsValid (cfg : Config) : Type 0 where
    pub has_private_key : IsKey cfg.private_key
    pub has_address : cfg.addresses ≢ []
    pub are_addresses : IsEach (λ a. N.is_cidr a || N.is_ip a) cfg.addresses
    pub mtu_bounds : (cfg.mtu ≡ []) ⊎ IsBetween 576 9200 cfg.mtu
    pub has_peer : cfg.peers ≢ []
    pub are_peers : ArePeers cfg.peers

  check_key-IsKey : (k : Bytes) → check_key N k true ≡ ok tt → IsKey k
  unfolding check_key
  check_key-IsKey [] h = absurd (ground arith)
  check_key-IsKey (c ∷ k) h = elim (Option-cases (N.base64 (c ∷ k))) [
    | inl e ↦ absurd (ground (arith, e))
    | inr (b, e) ↦ (λ q. cc, (b, e, ground (arith, e)))
  ]

  IsKey-check_key : (k : Bytes) → IsKey k → check_key N k true ≡ ok tt
  unfolding check_key
  IsKey-check_key [] (ne, h) = absurd (ne refl)
  IsKey-check_key (c ∷ k) (ne, (b, e, l)) = ground (arith, e, l)

  check_each_iff :
      (good : Bytes → Bool) (m : String) (xs : List Bytes)
      → (check_each N good m xs ≡ ok tt) ↔ IsEach good xs
  unfolding check_each
  check_each_iff good m [] = (λ h. tt, λ h. refl)
  check_each_iff good m (a ∷ xs) = ground (arith, check_each_iff good m xs)

  outside_iff :
      (lo hi : ℕ) (v : Bytes) → (is_outside N lo hi (N.atoi v) ≡ false) ↔ IsBetween lo hi v
  outside_iff lo hi v = elim (Option-cases (N.atoi v)) [
    | inl e ↦ (λ h. absurd (ground (arith, e)), λ (n, q, a, b). absurd (ground (arith, e)))
    | inr (pos n, e) ↦
        (λ h. (n, e, ground (arith, e), ground (arith, e)), λ (m, q, a, b). ground (arith, e, q))
    | inr (negsuc n, e) ↦
        (λ h. absurd (ground (arith, e)), λ (m, q, a, b). absurd (ground (arith, e, q)))
  ]

  empty_iff : {A : Type 0} (xs : List A) → (is_empty xs ≡ true) ↔ (xs ≡ [])
  empty_iff [] = ground arith
  empty_iff (x ∷ xs) = ground arith

  -- An optional number: absent, or in its range.
  optional_iff :
      (lo hi : ℕ) (v : Bytes)
      → ((not (is_empty v) && is_outside N lo hi (N.atoi v)) ≡ false)
        ↔ ((v ≡ []) ⊎ IsBetween lo hi v)
  optional_iff lo hi [] = (λ h. inl refl, λ h. refl)
  optional_iff lo hi (c ∷ v) = (
    λ h. inr ((outside_iff lo hi (c ∷ v)).0 h),
    λ h. elim h [ inl q ↦ absurd (ground (arith, q)) | inr q ↦ (outside_iff lo hi (c ∷ v)).1 q ],
  )

  -- A chain of checks passes if each does.
  seq_iff :
      {A : Type 0} (m : Result (Unit {0})) (k : Result A) (a : A)
      → ((m >> k) ≡ ok a) ↔ ((m ≡ ok tt) × (k ≡ ok a))
  seq_iff (ok tt) k a = (λ h. (refl, h), λ (_, h). h)
  seq_iff (err e) k a = (λ h. absurd (ground arith), λ (h, _). absurd (ground arith))

  reject_iff : (b : Bool) (m : String) → ((if b then err m else ok (tt {0})) ≡ ok tt) ↔ (b ≡ false)
  reject_iff true m = ground arith
  reject_iff false m = ground arith

  some_iff :
      {A : Type 0} (xs : List A) (m : String)
      → ((if is_empty xs then err m else ok (tt {0})) ≡ ok tt) ↔ (xs ≢ [])
  some_iff [] m = (λ h. absurd (ground arith), λ h. absurd (h refl))
  some_iff (x ∷ xs) m = (λ h q. cc, λ h. refl)

  preshared_iff :
      (k : Bytes)
      → ((if is_empty k then ok tt else check_key N k true) ≡ ok tt) ↔ ((k ≡ []) ⊎ IsKey k)
  preshared_iff [] = (λ h. inl refl, λ h. refl)
  preshared_iff (c ∷ k) = (
    λ h. inr (check_key-IsKey (c ∷ k) h),
    λ h. elim h [ inl q ↦ absurd (ground (arith, q)) | inr q ↦ IsKey-check_key (c ∷ k) q ],
  )

  peer_iff : (p : Peer) → (validate_peer N p ≡ ok tt) ↔ IsPeer p
  unfolding validate_peer
  peer_iff p = (
    λ h.
        let (a, h1) = (seq_iff _ _ _).0 h in
        let (b, h2) = (seq_iff _ _ _).0 h1 in
        let (c, h3) = (seq_iff _ _ _).0 h2 in
        let (d, e) = (seq_iff _ _ _).0 h3 in
        record {
          has_key = check_key-IsKey p.public_key a;
          has_preshared = (preshared_iff p.preshared_key).0 b;
          has_ips = (some_iff p.allowed_ips _).0 c;
          are_cidrs = (check_each_iff N.is_cidr _ p.allowed_ips).0 d;
          keepalive_bounds = (optional_iff 0 65535 p.persistent_keepalive).0 ((reject_iff _ _).0 e);
        },
    λ v. (seq_iff _ _ _).1 (
      IsKey-check_key p.public_key v.has_key,
      (seq_iff _ _ _).1 (
        (preshared_iff p.preshared_key).1 v.has_preshared,
        (seq_iff _ _ _).1 (
          (some_iff p.allowed_ips _).1 v.has_ips,
          (seq_iff _ _ _).1 (
            (check_each_iff N.is_cidr _ p.allowed_ips).1 v.are_cidrs,
            (reject_iff _ _).1 ((optional_iff 0 65535 p.persistent_keepalive).1 v.keepalive_bounds),
          ),
        ),
      ),
    ),
  )

  peers_iff : (ps : List Peer) → (validate_peers N ps ≡ ok tt) ↔ ArePeers ps
  unfolding validate_peers
  peers_iff [] = (λ h. tt, λ h. refl)
  peers_iff (p ∷ ps) = (
    λ h. let (a, rest) = (seq_iff _ _ _).0 h in ((peer_iff p).0 a, (peers_iff ps).0 rest),
    λ (a, rest). (seq_iff _ _ _).1 ((peer_iff p).1 a, (peers_iff ps).1 rest),
  )

  -- validate accepts exactly the configurations with a private key of 32 bytes, an address and a
  -- peer, each address an IP address or a CIDR block, an MTU from 576 to 9200 if there is one, and
  -- for each peer a public key of 32 bytes, a preshared key of 32 bytes if there is one, at least
  -- one allowed CIDR block and no other entry, and a keepalive of at most 65535 if there is one.
  pub validate_iff : (cfg : Config) → (validate N cfg ≡ ok tt) ↔ IsValid cfg
  unfolding validate
  validate_iff cfg = (
    λ h.
        let (a, h1) = (seq_iff _ _ _).0 h in
        let (b, h2) = (seq_iff _ _ _).0 h1 in
        let (c, h3) = (seq_iff _ _ _).0 h2 in
        let (d, h4) = (seq_iff _ _ _).0 h3 in
        let (e, f) = (seq_iff _ _ _).0 h4 in
        record {
          has_private_key = check_key-IsKey cfg.private_key a;
          has_address = (some_iff cfg.addresses _).0 b;
          are_addresses = (check_each_iff _ _ cfg.addresses).0 c;
          mtu_bounds = (optional_iff 576 9200 cfg.mtu).0 ((reject_iff _ _).0 d);
          has_peer = (some_iff cfg.peers _).0 e;
          are_peers = (peers_iff cfg.peers).0 f;
        },
    λ v. (seq_iff _ _ _).1 (
      IsKey-check_key cfg.private_key v.has_private_key,
      (seq_iff _ _ _).1 (
        (some_iff cfg.addresses _).1 v.has_address,
        (seq_iff _ _ _).1 (
          (check_each_iff _ _ cfg.addresses).1 v.are_addresses,
          (seq_iff _ _ _).1 (
            (reject_iff _ _).1 ((optional_iff 576 9200 cfg.mtu).1 v.mtu_bounds),
            (seq_iff _ _ _).1
                ((some_iff cfg.peers _).1 v.has_peer, (peers_iff cfg.peers).1 v.are_peers),
          ),
        ),
      ),
    ),
  )

  -- Whatever text ParseConfig accepts, the configuration that it returns passes validate.
  pub parse_config-IsValid :
      (text : Bytes) (cfg : Config) → parse_config N text ≡ ok cfg → IsValid cfg
  unfolding parse_config
  parse_config-IsValid text cfg h =
      elim (Result-cases
        (parse_lines N (record { section = no_section; cfg = no_config }) (split 10 text))) [
          | inr (e, q) ↦ absurd (ground (arith, q))
          | inl (s, q) ↦
              let chain : (validate N s.cfg >> ok s.cfg) ≡ ok cfg = ground (arith, h, q) in
              let (v, same) = (seq_iff _ _ _).0 chain in
              let back : s.cfg ≡ cfg = ground (arith, same) in
              subst IsValid back ((validate_iff s.cfg).0 v)
        ]
