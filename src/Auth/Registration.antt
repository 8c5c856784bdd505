-- ===== src/Auth/Registration.antt =====
-- internal/auth/webauthn.go, ParseRegistration, on the layout that authenticators write.
use Prim.Native.Nat.{bit_and}
use mist_ui.Auth.{
  Crypto, PublicKey, parse_cose, parse_registration, parse_attested, verify_auth_data,
  flag_user_present, flag_attested_cred,
}
use mist_ui.Base.{
  ℕ, suc, ◌+◌, ◌*◌, ◌≡◌, ◌∙◌, ◌≢◌, inl, inr, some, ◌∷◌, ◌++◌, arith, Bytes, bytes_eq_refl, ok,
  Result-cases, length, drop, length-append, drop-append, drop_past, get_or_past, take_part,
}

module _ (c : Crypto) where
  pub parse_registration_key :
      (att rp_id id cose : Bytes)
      → parse_registration c att rp_id ≡ ok (id, cose)
      → (key : PublicKey) × (parse_cose c cose ≡ ok key)
  unfolding parse_registration parse_attested
  parse_registration_key att rp_id id cose h = elim (Result-cases (parse_cose c cose)) [
    | inl k ↦ k
    | inr (m, e) ↦ absurd (ground (arith, e))
  ]

  -- The authenticator data of a registration, past the flags: the counter, the AAGUID, the
  -- length of the credential's ID in two bytes, the ID, its key, and extensions.
  abbrev credential_data : Bytes → ℕ → ℕ → Bytes → Bytes → Bytes
  credential_data aaguid hi lo id rest = aaguid ++ (hi ∷ lo ∷ (id ++ rest))

  abbrev attested : Bytes → ℕ → Bytes → Bytes → Bytes
  attested hash flags counter rest = hash ++ (flags ∷ (counter ++ rest))

  length-credential_data :
      (aaguid id rest : Bytes) (hi lo : ℕ)
      → length (credential_data aaguid hi lo id rest) ≡ length aaguid + 2 + length id + length rest
  length-credential_data aaguid id rest hi lo =
      omega (arith, length-append {0} aaguid (hi ∷ lo ∷ (id ++ rest)), length-append {0} id rest)

  drop_to_key :
      (aaguid id rest : Bytes) (hi lo n : ℕ)
      → n ≡ length aaguid + 2 + length id
      → drop n (credential_data aaguid hi lo id rest) ≡ rest
  drop_to_key aaguid id rest hi lo n h =
      drop_past n (suc (suc (length id))) aaguid (hi ∷ lo ∷ (id ++ rest)) (omega arith)
      ∙ drop-append id rest

  parse_attested-credential_data :
      (aaguid id cose extensions : Bytes) (hi lo : ℕ) (key : PublicKey)
      → length aaguid ≡ 16
      → length id ≡ hi * 256 + lo
      → c.first_item (cose ++ extensions) ≡ some cose
      → parse_cose c cose ≡ ok key
      → parse_attested c (credential_data aaguid hi lo id (cose ++ extensions)) ≡ ok (id, cose)
  unfolding parse_attested
  parse_attested-credential_data aaguid id cose extensions hi lo key h16 hid item parsed =
      let rest = cose ++ extensions in
      let tail = hi ∷ lo ∷ (id ++ rest) in
      ground (
        arith,
        length-credential_data aaguid id rest hi lo,
        get_or_past 16 0 aaguid tail 0 (omega arith),
        get_or_past 17 1 aaguid tail 0 (omega arith),
        drop_to_key aaguid id rest hi lo (18 + (hi * 256 + lo)) (omega arith),
        drop_past 18 2 aaguid tail (omega arith),
        take_part (hi * 256 + lo) id rest (omega arith),
        item,
        parsed,
      )

  verify_auth_data-attested :
      (rp_id counter rest : Bytes) (flags : ℕ)
      → length (c.sha256 rp_id) ≡ 32
      → length counter ≡ 4
      → bit_and flags flag_user_present ≢ 0
      → verify_auth_data c (attested (c.sha256 rp_id) flags counter rest) rp_id ≡ ok tt
  unfolding verify_auth_data
  verify_auth_data-attested rp_id counter rest flags h32 h4 up =
      let hash = c.sha256 rp_id in
      let tail = flags ∷ (counter ++ rest) in
      ground (
        arith,
        length-append {0} hash tail,
        length-append {0} counter rest,
        take_part 32 hash tail (omega arith),
        get_or_past 32 0 hash tail 0 (omega arith),
        bytes_eq_refl hash,
      )

  -- Authenticator data in the standard layout, with both flags set, is taken apart into the
  -- credential's ID and its key, whatever follows the key.
  pub parse_registration-attested :
      (att rp_id counter aaguid id cose extensions : Bytes) (flags hi lo : ℕ) (key : PublicKey)
      → c.attestation att
        ≡ some (
            attested
              (c.sha256 rp_id)
              flags
              counter
              (credential_data aaguid hi lo id (cose ++ extensions)))
      → length (c.sha256 rp_id) ≡ 32
      → length counter ≡ 4
      → length aaguid ≡ 16
      → length id ≡ hi * 256 + lo
      → bit_and flags flag_user_present ≢ 0
      → bit_and flags flag_attested_cred ≢ 0
      → c.first_item (cose ++ extensions) ≡ some cose
      → parse_cose c cose ≡ ok key
      → parse_registration c att rp_id ≡ ok (id, cose)
  unfolding parse_registration
  parse_registration-attested att rp_id counter aaguid id cose extensions flags hi lo key e h32 h4
        h16 hid up has item parsed =
      let hash = c.sha256 rp_id in
      let rest = credential_data aaguid hi lo id (cose ++ extensions) in
      let tail = flags ∷ (counter ++ rest) in
      rw (e, parse_registration)
        (ground (
          arith,
          verify_auth_data-attested rp_id counter rest flags h32 h4 up,
          get_or_past 32 0 hash tail 0 (omega arith),
          drop_past 37 5 hash tail (omega arith),
          drop_past 4 0 counter rest (omega arith),
          parse_attested-credential_data aaguid id cose extensions hi lo key h16 hid item parsed,
        ))
