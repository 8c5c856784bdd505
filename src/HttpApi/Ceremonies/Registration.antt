-- ===== src/HttpApi/Ceremonies/Registration.antt =====
-- internal/httpapi/authflow.go, registerBegin and registerFinish: the gate and the stored credential.
use mist_ui.HttpApi.Ceremonies.{already_provisioned, recovery_hash_key}
use mist_ui.HttpApi.Session.{settle}
use mist_ui.HttpApi.Ceremonies.{register_store, mint_recovery}
use mist_ui.Store.Creds.{
  creds-put_session, creds-put_config, creds-put_credential, creds-delete_session,
  creds-bump_session,
}
use mist_ui.Store.Database.{IsLawful, bucket_creds}
use mist_ui.Store.{
  credential_count, delete_session, bump_session, session, put_config, put_credential,
}
use mist_ui.Auth.{Crypto, parse_cose, hash_token, PublicKey}
use mist_ui.Store.Database.{Bolt, Rfc3339}
use mist_ui.Store.{put_session}
use mist_ui.HttpApi.Session.{issue_session, session_valid, provisioned}
use mist_ui.HttpApi.Server.{Server, Request, return, session_token}
use mist_ui.HttpApi.Ceremonies.{RegisterReq, register_finish, register_begin, registration_gate}
use mist_ui.Base.{
  ℕ, ◌≤◌, String, ◌≡◌, refl, sym, subst, ◌∙◌, inl, inr, Bool, true, false, Option, some, arith,
  Bytes, bytes_eq, Bool-cases, Result, ok, err, Result-cases, Option-cases,
}

-- Every stored credential is a key that ParseCOSE accepts.
abbrev pub KeysParse : (B : Bolt) → Crypto → B.State → Type 0
KeysParse B c d =
    (id v : Bytes)
    → B.get d bucket_creds id ≡ some v
    → (key : PublicKey) × (parse_cose c v ≡ ok key)

module _ (B : Bolt) (T : Rfc3339) (c : Crypto) (base64 : Bytes → Bytes) {W : Type 0} where
  registration_gate_shut :
      (r : Request) (s : Server B.State W)
      → provisioned B s ≡ true
      → (session_valid B T s r false).0 ≡ false
      → registration_gate B T c base64 r s
        ≡ (return already_provisioned, (session_valid B T s r false).1)
  unfolding registration_gate
  registration_gate_shut r s p v = rw (p, v, registration_gate) refl

  provisioned-key_count :
      (s : Server B.State W)
      → B.view s.db ≡ ok tt
      → 1 ≤ B.key_count s.db bucket_creds
      → provisioned B s ≡ true
  unfolding provisioned credential_count
  provisioned-key_count s is_open has = rw is_open (ground arith)

  registration_closed_answers :
      (body : Option RegisterReq) (fresh fresh' : Result Bytes) (r : Request) (s : Server B.State W)
      → provisioned B s ≡ true
      → (session_valid B T s r false).0 ≡ false
      → let u = (session_valid B T s r false).1 in
        (register_finish B T c base64 body fresh fresh' r s ≡ (already_provisioned, u))
        × (register_begin B T c base64 fresh fresh' r s ≡ (already_provisioned, u))
  unfolding register_finish register_begin
  registration_closed_answers body fresh fresh' r s p v =
      let g = registration_gate_shut r s p v in ground (arith, g)

module _ (B : Bolt) (L : IsLawful B) (T : Rfc3339) (c : Crypto) (base64 : Bytes → Bytes)
    {W : Type 0} where
  pub creds-issue_session :
      (fresh : Result Bytes) (r : Request) (s : Server B.State W) (id : Bytes)
      → B.get (issue_session B T fresh r s).1.db bucket_creds id ≡ B.get s.db bucket_creds id
  unfolding issue_session
  creds-issue_session (err e) r s id = refl
  creds-issue_session (ok tok) r s id = elim (Result-cases (put_session B T s.db tok r.now r.now)) [
    | inl (d, e) ↦ ground (arith, e, creds-put_session B L s.db d id T tok r.now r.now e)
    | inr (m, e) ↦ ground (arith, e)
  ]

  creds-mint_recovery :
      (first : Bool) (fresh : Result Bytes) (s : Server B.State W) (id : Bytes)
      → B.get (mint_recovery B T c base64 first fresh s).1.db bucket_creds id
        ≡ B.get s.db bucket_creds id
  creds-mint_recovery false fresh s id = refl
  creds-mint_recovery true (err e) s id = refl
  creds-mint_recovery true (ok code) s id =
      elim (Result-cases (put_config B s.db recovery_hash_key (hash_token c code))) [
        | inl (d, e) ↦
            ground
              (arith, e, creds-put_config B L s.db d id recovery_hash_key (hash_token c code) e)
        | inr (m, e) ↦ ground (arith, e)
      ]

  -- Whatever fails after the credential is stored, the credentials are those with the new one.
  creds-register_store :
      (first : Bool) (cred_id cose : Bytes) (fresh fresh' : Result Bytes) (r : Request)
      (s : Server B.State W) (d : B.State) (id : Bytes)
      → put_credential B s.db (base64 cred_id) cose ≡ ok d
      → B.get (register_store B T c base64 first cred_id cose fresh fresh' r s).1.db bucket_creds id
        ≡ B.get d bucket_creds id
  unfolding register_store
  creds-register_store first cred_id cose fresh fresh' r s d id h =
      let u = record s { db = d } in
      let m = mint_recovery B T c base64 first fresh u in
      ground (arith, h, creds-mint_recovery first fresh u id, creds-issue_session fresh' r m.1 id)

  register_store_refused :
      (first : Bool) (cred_id cose : Bytes) (fresh fresh' : Result Bytes) (r : Request)
      (s : Server B.State W) (m : String)
      → put_credential B s.db (base64 cred_id) cose ≡ err m
      → (register_store B T c base64 first cred_id cose fresh fresh' r s).1 ≡ s
  unfolding register_store
  register_store_refused first cred_id cose fresh fresh' r s m h = ground arith

  pub register_store-KeysParse :
      (first : Bool) (cred_id cose : Bytes) (fresh fresh' : Result Bytes) (r : Request)
      (s : Server B.State W) (key : PublicKey)
      → KeysParse B c s.db
      → parse_cose c cose ≡ ok key
      → KeysParse B c (register_store B T c base64 first cred_id cose fresh fresh' r s).1.db
  register_store-KeysParse first cred_id cose fresh fresh' r s key inv parsed =
      elim (Result-cases (put_credential B s.db (base64 cred_id) cose)) [
        | inr (m, e) ↦ rw (register_store_refused first cred_id cose fresh fresh' r s m e) inv
        | inl (d, e) ↦ λ id v found.
            let found' =
              sym (creds-register_store first cred_id cose fresh fresh' r s d id e) ∙ found in
            elim (Bool-cases (bytes_eq (base64 cred_id) id)) [
              | inl same ↦ (
                key,
                subst (λ w. parse_cose c w ≡ ok key)
                    (ground
                      (arith, creds-put_credential B L s.db d id (base64 cred_id) cose e, found'))
                    parsed,
              )
              | inr other ↦ inv id v (
                  ground
                    (arith, creds-put_credential B L s.db d id (base64 cred_id) cose e, found'))
            ]
      ]

  creds-settle :
      (s : Server B.State W) (r : Request) (slide : Bool) (issued seen : ℕ) (id : Bytes)
      → B.get (settle B T s r slide issued seen).1.db bucket_creds id ≡ B.get s.db bucket_creds id
  unfolding settle
  creds-settle s r slide issued seen id =
      elim (Result-cases (delete_session B s.db (session_token r))) [
        | inl (d, e) ↦ elim (Result-cases (bump_session B T s.db (session_token r) r.now)) [
          | inl (b, f) ↦ ground (
            arith,
            e,
            f,
            creds-delete_session B L s.db d id (session_token r) e,
            creds-bump_session B L T s.db b id (session_token r) r.now f,
          )
          | inr (m, f) ↦
              ground (arith, e, f, creds-delete_session B L s.db d id (session_token r) e)
        ]
        | inr (m, e) ↦ elim (Result-cases (bump_session B T s.db (session_token r) r.now)) [
          | inl (b, f) ↦
              ground (arith, e, f, creds-bump_session B L T s.db b id (session_token r) r.now f)
          | inr (m', f) ↦ ground (arith, e, f)
        ]
      ]

  pub creds-session_valid :
      (s : Server B.State W) (r : Request) (slide : Bool) (id : Bytes)
      → B.get (session_valid B T s r slide).1.db bucket_creds id ≡ B.get s.db bucket_creds id
  unfolding session_valid
  creds-session_valid s r slide id = elim (Result-cases (session B T s.db (session_token r))) [
    | inr (m, e) ↦ rw (e, session_valid) refl
    | inl (o, e) ↦ elim (Option-cases o) [
      | inl q ↦ rw (e, q, session_valid) refl
      | inr ((issued, seen), q) ↦ rw (e, q, session_valid) (creds-settle s r slide issued seen id)
    ]
  ]

  -- In an open database that holds a credential, neither half of a registration does anything without
  -- a valid session, whatever its body: both answer that the device is provisioned, their state is
  -- what the check of the session leaves, and every credential reads as before.
  pub registration_closed :
      (body : Option RegisterReq) (fresh fresh' : Result Bytes) (r : Request) (s : Server B.State W)
      → B.view s.db ≡ ok tt
      → 1 ≤ B.key_count s.db bucket_creds
      → (session_valid B T s r false).0 ≡ false
      → let u = (session_valid B T s r false).1 in
        (register_finish B T c base64 body fresh fresh' r s ≡ (already_provisioned, u))
        × (register_begin B T c base64 fresh fresh' r s ≡ (already_provisioned, u))
        × ((id : Bytes) → B.get u.db bucket_creds id ≡ B.get s.db bucket_creds id)
  registration_closed body fresh fresh' r s is_open has v =
      let (f, b) =
        registration_closed_answers B T c base64 body fresh fresh' r s
          (provisioned-key_count B T c base64 s is_open has) v in
      (f, b, λ id. creds-session_valid s r false id)
