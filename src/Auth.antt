-- ===== src/Auth.antt =====
-- internal/auth: the checks of the WebAuthn ceremonies (auth.go, webauthn.go). JSON, CBOR, SHA-256
-- and ECDSA are libraries: parameters, gathered in `Crypto`.
pub mod Checks
pub mod Registration
use Prim.Native.Nat.{bit_and}
use mist_ui.Base.{ℤ, pos, negsuc, int_eq}
use mist_ui.Base.{
  ℕ, zero, suc, ◌+◌, ◌-◌, ◌*◌, ◌/◌, ◌%◌, ◌≤◌, ◌<◌, String, ◌≡◌, refl, sym, ap, subst, ◌∙◌, ◌≢◌, ◌↔◌,
  ◌⊎◌, inl, inr, Bool, true, false, not, ◌&&◌, ◌||◌, Option, none, some, List, [], ◌∷◌, ◌++◌, map,
  arith, if◌then◌else◌, ltb, leb, nat_eq, Bytes, str, bytes_eq, bytes_eq_iff, bytes_eq_refl,
  Bool-cases, Result, ok, err, ◌>>=◌, ◌>>◌, result_or, Result-cases, Option-cases, length, get_or,
  take, drop, length-append, take-append, drop-append,
}

pub record ClientData : Type 0 where
  pub ceremony_type : Bytes
  pub challenge : Bytes
  pub origin : Bytes

-- The integers and coordinates of a COSE_Key.
pub record CoseKey : Type 0 where
  pub kty : ℤ
  pub alg : ℤ
  pub crv : ℤ
  pub x : Bytes
  pub y : Bytes

pub record PublicKey : Type 0 where
  pub x : ℕ
  pub y : ℕ

pub record Crypto : Type 0 where
  -- sha256.Sum256
  pub sha256 : Bytes → Bytes
  -- json.Unmarshal into clientData
  pub client_data : Bytes → Option ClientData
  -- json.Unmarshal into a struct with the challenge alone
  pub challenge_only : Bytes → Option Bytes
  -- cbor.Unmarshal into attestationObject, of which only authData is used
  pub attestation : Bytes → Option Bytes
  -- the first CBOR item of a text, as cbor.Decoder reads it
  pub first_item : Bytes → Option Bytes
  -- cbor.Unmarshal into coseECKey
  pub cose_key : Bytes → Option CoseKey
  -- big.Int.SetBytes
  pub set_bytes : Bytes → ℕ
  -- ecdsa.VerifyASN1 over P-256: key, digest, signature
  pub verify_asn1 : PublicKey → Bytes → Bytes → Bool

abbrev pub ceremony_create : Bytes
ceremony_create = str "webauthn.create"

abbrev pub ceremony_get : Bytes
ceremony_get = str "webauthn.get"

abbrev pub flag_user_present : ℕ
flag_user_present = 1

abbrev pub flag_attested_cred : ℕ
flag_attested_cred = 64

unfoldable pub contains : List Bytes → Bytes → Bool
contains [] o = false
contains (x ∷ xs) o = if bytes_eq o x then true else contains xs o

module _ (c : Crypto) where
  unfoldable pub parse_cose : Bytes → Result PublicKey
  parse_cose b = elim (c.cose_key b) [
    | none ↦ err "bad COSE key"
    | some k ↦
        if not (int_eq k.kty (pos 2)) || not (int_eq k.crv (pos 1)) || not (int_eq k.alg (negsuc 6))
        then err "unsupported COSE key"
        else ok (record { x = c.set_bytes k.x; y = c.set_bytes k.y })
  ]

  unfoldable pub verify_assertion : PublicKey → Bytes → Bytes → Bytes → Bool
  verify_assertion key auth_data client_data_json sig =
      c.verify_asn1 key (c.sha256 (auth_data ++ c.sha256 client_data_json)) sig

  unfoldable pub hash_token : Bytes → Bytes
  hash_token tok = c.sha256 tok

  unfoldable pub verify_client_data : Bytes → Bytes → Bytes → List Bytes → Result (Unit {0})
  unfolding contains
  verify_client_data raw ceremony want_challenge origins = elim (c.client_data raw) [
    | none ↦ err "bad clientDataJSON"
    | some cd ↦
        if not (bytes_eq cd.ceremony_type ceremony)
        then err "ceremony type"
        else if not (bytes_eq cd.challenge want_challenge)
        then err "challenge mismatch"
        else if contains origins cd.origin
        then ok tt
        else err "origin not allowed"
  ]

  unfoldable pub verify_auth_data : Bytes → Bytes → Result (Unit {0})
  verify_auth_data auth_data rp_id =
      if ltb (length auth_data) 37
      then err "authenticator data too short"
      else if not (bytes_eq (take 32 auth_data) (c.sha256 rp_id))
      then err "rpIdHash mismatch"
      else if nat_eq (bit_and (get_or auth_data 32 0) flag_user_present) 0
      then err "user-present flag not set"
      else ok tt

  -- aaguid[16], the ID's length in two bytes, the ID, the COSE key.
  unfoldable pub parse_attested : Bytes → Result (Bytes × Bytes)
  parse_attested rest =
      if ltb (length rest) 18
      then err "attested credential data truncated"
      else (let id_len = get_or rest 16 0 * 256 + get_or rest 17 0 in
          if ltb (length rest) (18 + id_len)
          then err "credential ID truncated"
          else elim (c.first_item (drop (18 + id_len) rest)) [
            | none ↦ err "bad COSE key"
            | some raw ↦ do _ ← parse_cose raw; ok (take id_len (drop 18 rest), raw)
          ])

  unfoldable pub parse_registration : Bytes → Bytes → Result (Bytes × Bytes)
  parse_registration att_obj rp_id = elim (c.attestation att_obj) [
    | none ↦ err "bad attestationObject"
    | some ad ↦ do
      verify_auth_data ad rp_id
      if nat_eq (bit_and (get_or ad 32 0) flag_attested_cred) 0
          then err "no attested credential data"
          else parse_attested (drop 37 ad)
  ]
