-- ===== src/Certgen.antt =====
-- internal/certgen/certgen.go: the device's CA and its leaf. X.509, PEM and the random source are Go's
-- library, and the directory is a file system: parameters. Times are nanoseconds.
pub mod Material
use mist_ui.Base.{
  ℕ, zero, suc, ◌+◌, ◌-◌, ◌*◌, ◌/◌, ◌%◌, ◌≤◌, ◌<◌, String, ◌≡◌, refl, sym, ap, subst, ◌∙◌, ◌≢◌, ◌↔◌,
  ◌⊎◌, inl, inr, Bool, true, false, not, ◌&&◌, ◌||◌, Option, none, some, List, [], ◌∷◌, ◌++◌, map,
  arith, if◌then◌else◌, ltb, leb, nat_eq, Bytes, str, bytes_eq, bytes_eq_iff, bytes_eq_refl,
  Bool-cases, Result, ok, err, ◌>>=◌, ◌>>◌, result_or, Result-cases, Option-cases, length, get_or,
  take, drop, length-append, take-append, drop-append, drop_past, get_or_past, take_part,
}

abbrev pub day : ℕ
day = 86_400_000_000_000

abbrev pub hour : ℕ
hour = 3_600_000_000_000

abbrev pub second : ℕ
second = 1_000_000_000

abbrev pub ca_validity : ℕ
ca_validity = 3650 * day

abbrev pub leaf_validity : ℕ
leaf_validity = 800 * day

abbrev pub renew_before : ℕ
renew_before = 90 * day

-- The fields of x509.Certificate that are read or set.
pub record Certificate : Type 0 where
  pub common_name : Bytes
  pub not_before : ℕ
  pub not_after : ℕ
  pub is_ca : Bool
  pub max_path_zero : Bool
  pub dns_names : List Bytes
  pub permitted_domains : List Bytes
  pub permitted_critical : Bool
  pub server_auth : Bool

-- crypto/x509, encoding/pem and the key type: CreateCertificate takes the template, the parent, the
-- public part of the first key and the second key, which signs.
pub record Library : Type 1 where
  pub Key : Type 0
  pub parse_certificate : Bytes → Result Certificate
  pub parse_key : Bytes → Result Key
  pub marshal_key : Key → Result Bytes
  pub create_certificate : ℕ → Certificate → Certificate → Key → Key → Result Bytes
  pub verify_hostname : Certificate → Bytes → Bool
  pub pem_encode : Bytes → Bytes → Bytes
  pub pem_decode : Bytes → Option (Bytes × Bytes)

-- The four files under `dir`.
pub data File : Type 0 where
  cert_pem key_pem ca_pem ca_key_pem : File

-- A directory in the state `W`. A call may change its own file also where it fails.
pub record Directory (W : Type 0) : Type 0 where
  pub mkdir_all : W → Result (Unit {0}) × W
  pub read : File → W → Result Bytes
  pub stat : File → W → Result (Unit {0})
  pub write : File → Bytes → W → Result (Unit {0}) × W
  pub remove : File → W → W

abbrev pub certificate_type : Bytes
certificate_type = str "CERTIFICATE"

abbrev pub key_type : Bytes
key_type = str "EC PRIVATE KEY"

-- The template of the CA: it can vouch for the host alone.
unfoldable pub ca_template : ℕ → Bytes → Certificate
ca_template now host = record {
  common_name = str "MistUI Device CA (" ++ (host ++ str ")");
  not_before = now - hour;
  not_after = now + ca_validity;
  is_ca = true;
  max_path_zero = true;
  dns_names = [];
  permitted_domains = host ∷ [];
  permitted_critical = true;
  server_auth = false;
}

unfoldable pub leaf_template : ℕ → Bytes → Certificate
leaf_template now host = record {
  common_name = host;
  not_before = now - hour;
  not_after = now + leaf_validity;
  is_ca = false;
  max_path_zero = false;
  dns_names = host ∷ [];
  permitted_domains = [];
  permitted_critical = false;
  server_auth = true;
}

module _ (L : Library) {W : Type 0} (D : Directory W) where
  unfoldable pub read_pem : File → Bytes → W → Result Bytes
  read_pem path typ w = do
    b ← D.read path w
    elim (L.pem_decode b) [
      | none ↦ err "certgen: no block"
      | some (t, der) ↦ if bytes_eq t typ then ok der else err "certgen: no block"
    ]

  unfoldable pub read_cert : File → W → Result Certificate
  unfolding read_pem
  read_cert path w = do der ← read_pem path certificate_type w; L.parse_certificate der

  unfoldable pub write_pem : File → Bytes → Bytes → W → Result (Unit {0}) × W
  write_pem path typ der w = D.write path (L.pem_encode typ der) w

  -- `time.Now().After(cert.NotAfter.Add(-renewBefore))`
  unfoldable pub load_ca : ℕ → W → Result (Certificate × L.Key)
  unfolding read_cert
  load_ca now w = do
    cert ← read_cert ca_pem w
    der ← read_pem ca_key_pem key_type w
    key ← L.parse_key der
    if not cert.is_ca || ltb cert.not_after (now + renew_before)
        then err "certgen: CA unusable or expiring"
        else ok (cert, key)

  -- The certificate and the key that are written, as DER; the second template is the parent, and the
  -- last argument the signer, if it is not the new key itself.
  unfoldable pub mint :
      Result L.Key
      → Result ℕ
      → Certificate
      → Certificate
      → Option L.Key
      → Result (L.Key × (Bytes × Bytes))
  mint random serial tmpl parent signer = do
    key ← random
    n ← serial
    der ← L.create_certificate n tmpl parent key (elim signer [ none ↦ key | some k ↦ k ])
    key_der ← L.marshal_key key
    ok (key, (der, key_der))

  unfoldable pub write_pair : File → File → Bytes → Bytes → W → Result (Unit {0}) × W
  unfolding write_pem
  write_pair cert_path key_path der key_der w =
      let (a, w1) = write_pem cert_path certificate_type der w in
      let (b, w2) = write_pem key_path key_type key_der w1 in
      elim a [ err e ↦ (err e, w1) | ok _ ↦ (b, w2) ]

  unfoldable pub create_ca :
      Result L.Key → Result ℕ → ℕ → Bytes → W → Result (Certificate × L.Key) × W
  unfolding mint write_pair
  create_ca random serial now host w =
      let tmpl = ca_template now host in
      elim (mint random serial tmpl tmpl none) [
        | err e ↦ (err e, w)
        | ok (key, (der, key_der)) ↦
            (let (r, w1) = write_pair ca_pem ca_key_pem der key_der w in
              elim r [
                | err e ↦ (err e, w1)
                | ok _ ↦ ((do cert ← L.parse_certificate der; ok (cert, key)), w1)
              ])
      ]

  -- `time.Now().Before(cert.NotAfter.Add(-renewBefore))`
  unfoldable pub leaf_usable : ℕ → Bytes → W → Bool
  unfolding read_cert
  leaf_usable now host w = elim (D.stat key_pem w) [
    | err e ↦ false
    | ok _ ↦ elim (read_cert cert_pem w) [
      | err e ↦ false
      | ok cert ↦ L.verify_hostname cert host && ltb (now + renew_before) cert.not_after
    ]
  ]

  unfoldable pub create_leaf :
      Result L.Key → Result ℕ → ℕ → Bytes → Certificate → L.Key → W → Result (Unit {0}) × W
  unfolding mint write_pair
  create_leaf random serial now host ca_cert ca_key w =
      elim (mint random serial (leaf_template now host) ca_cert (some ca_key)) [
        | err e ↦ (err e, w)
        | ok (key, (der, key_der)) ↦ write_pair cert_pem key_pem der key_der w
      ]

  -- What the random source gives during a call.
  pub record Random : Type 0 where
    pub ca_key : Result L.Key
    pub ca_serial : Result ℕ
    pub leaf_key : Result L.Key
    pub leaf_serial : Result ℕ

  unfoldable pub current_ca : Random → ℕ → Bytes → W → Result (Certificate × L.Key) × W
  unfolding load_ca create_ca
  current_ca random now host w = elim (load_ca now w) [
    | ok ca ↦ (ok ca, w)
    | err _ ↦
        (let (r, w1) = create_ca random.ca_key random.ca_serial now host w in
          elim r [ err e ↦ (err e, w1) | ok ca ↦ (ok ca, D.remove key_pem (D.remove cert_pem w1)) ])
  ]

  unfoldable pub ensure_material : Random → ℕ → Bytes → W → Result (Unit {0}) × W
  unfolding current_ca leaf_usable create_leaf
  ensure_material random now host w =
      let (made, w0) = D.mkdir_all w in
      elim made [
        | err e ↦ (err e, w0)
        | ok _ ↦
            (let (ca, w1) = current_ca random now host w0 in
              elim ca [
                | err e ↦ (err e, w1)
                | ok (cert, key) ↦
                    if leaf_usable now host w1
                    then (ok tt, w1)
                    else create_leaf random.leaf_key random.leaf_serial now host cert key w1
              ])
      ]
