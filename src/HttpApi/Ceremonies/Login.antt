-- ===== src/HttpApi/Ceremonies/Login.antt =====
-- internal/httpapi/authflow.go, loginFinish: its checks and a second run of it.
use mist_ui.Auth.Checks.{IsClientData, IsAuthData, verify_client_data_sound, verify_auth_data_sound}
use mist_ui.Auth.{Crypto, parse_cose, verify_assertion, ceremony_get, PublicKey}
use mist_ui.Store.Database.{Bolt, Rfc3339}
use mist_ui.Store.{put_session}
use mist_ui.Store
use mist_ui.HttpApi.TtlSet.{consume, consume_once}
use mist_ui.HttpApi.Session.{session_absolute, issue_session}
use mist_ui.HttpApi.Server.{Server, Request, Response, set_cookie, return, value}
use mist_ui.HttpApi.Ceremonies.{LoginReq, verify_login, login_finish, stale_challenge}
use mist_ui.Base.{
  ◌+◌, ◌≡◌, ◌++◌, str, refl, ap, ◌∙◌, ◌≢◌, inl, inr, true, false, Option, none, some, arith, Bytes,
  bytes_eq_refl, Result, ok, err, Result-cases, Option-cases,
}

module _ (B : Bolt) (T : Rfc3339) (c : Crypto) (base64 : Bytes → Bytes) {W : Type 0} where
  -- What the checks of a login establish.
  pub record Verified (req : LoginReq) (r : Request) (s : Server B.State W) : Type 0 where
    pub ch : Bytes
    pub cose : Bytes
    pub key : PublicKey
    pub names_challenge : c.challenge_only req.client_data_json ≡ some ch
    pub was_live : (consume ch r.now s.chals).0 ≡ true
    pub is_client_data : IsClientData c req.client_data_json (str "webauthn.get") ch s.origins
    pub is_auth_data : IsAuthData c req.authenticator_data s.rp_id
    pub is_registered : Store.credential B s.db req.credential_id ≡ ok (some cose)
    pub is_key : parse_cose c cose ≡ ok key
    pub is_signed :
        c.verify_asn1 key
          (c.sha256 (req.authenticator_data ++ c.sha256 req.client_data_json))
          req.signature
        ≡ true

  credential_found :
      (req : LoginReq) (r : Request) (s t : Server B.State W)
      → verify_login B T c base64 (some req) r s ≡ (value tt, t)
      → (cose : Bytes) × (Store.credential B s.db req.credential_id ≡ ok (some cose))
  unfolding verify_login
  credential_found req r s t h = elim (Result-cases (Store.credential B s.db req.credential_id)) [
    | inr (e, q) ↦ absurd (ground (arith, q))
    | inl (o, q) ↦ elim (Option-cases o) [
      | inl p ↦ absurd (ground (arith, q, p))
      | inr (cose, p) ↦ (cose, q ∙ ap ok p)
    ]
  ]

  pub verify_login_sound :
      (body : Option LoginReq) (r : Request) (s t : Server B.State W)
      → verify_login B T c base64 body r s ≡ (value tt, t)
      → (req : LoginReq) × (body ≡ some req) × Verified req r s
  unfolding verify_login verify_assertion
  verify_login_sound none r s t h = absurd (ground arith)
  verify_login_sound (some req) r s t h =
      elim (Option-cases (c.challenge_only req.client_data_json)) [
        | inl e ↦ absurd (ground (arith, e))
        | inr (ch, e) ↦
            let (cose, found) = credential_found req r s t h in
            elim (Result-cases (parse_cose c cose)) [
              | inr (e', q) ↦ absurd (ground (arith, q, found, e))
              | inl (key, q) ↦ (
                req,
                refl,
                record {
                  ch = ch;
                  cose = cose;
                  key = key;
                  names_challenge = e;
                  was_live = ground (arith, e);
                  is_client_data =
                      verify_client_data_sound c req.client_data_json ceremony_get ch s.origins
                        (ground (arith, e));
                  is_auth_data =
                      verify_auth_data_sound c req.authenticator_data s.rp_id (ground (arith, e));
                  is_registered = found;
                  is_key = q;
                  is_signed = ground (arith, e, found, q);
                },
              )
            ]
      ]

  pub verify_login_refuses :
      (body : Option LoginReq) (r : Request) (s : Server B.State W) (resp : Response)
      → (verify_login B T c base64 body r s).0 ≡ return resp
      → resp.status ≢ 200
  unfolding verify_login
  verify_login_refuses none r s resp h = ground arith
  verify_login_refuses (some req) r s resp h = ground arith

  pub verify_login_keeps_db :
      (body : Option LoginReq) (r : Request) (s : Server B.State W)
      → (verify_login B T c base64 body r s).1.db ≡ s.db
  unfolding verify_login
  verify_login_keeps_db none r s = refl
  verify_login_keeps_db (some req) r s = ground arith

  verify_login_passed :
      (body : Option LoginReq) (fresh : Result Bytes) (r : Request) (s t : Server B.State W)
      (resp : Response)
      → login_finish B T c base64 body fresh r s ≡ (resp, t)
      → resp.status ≡ 200
      → (verify_login B T c base64 body r s).0 ≡ value tt
  unfolding login_finish
  verify_login_passed body fresh r s t resp h ok200 =
      ground (arith, verify_login_refuses body r s resp)

  token_drawn :
      (body : Option LoginReq) (fresh : Result Bytes) (r : Request) (s t : Server B.State W)
      (resp : Response)
      → login_finish B T c base64 body fresh r s ≡ (resp, t)
      → resp.status ≡ 200
      → (tok : Bytes) × (fresh ≡ ok tok)
  unfolding login_finish issue_session
  token_drawn body (ok tok) r s t resp h ok200 = (tok, refl)
  token_drawn body (err e) r s t resp h ok200 =
      absurd (ground (arith, verify_login_refuses body r s resp))

  -- A login that answers 200 came with a body whose client data is of the ceremony webauthn.get, answers
  -- an outstanding challenge and comes from one of the allowed origins; whose authenticator data is at
  -- least 37 bytes, begins with the hash of this host and has the flag of a present user; and whose
  -- signature is one of both under the key that is registered under the named credential. Its
  -- cookie is the token of the session that the answer stores.
  pub login_finish_sound :
      (body : Option LoginReq) (fresh : Result Bytes) (r : Request) (s t : Server B.State W)
      (resp : Response)
      → login_finish B T c base64 body fresh r s ≡ (resp, t)
      → resp.status ≡ 200
      → (req : LoginReq) × (tok : Bytes) × (body ≡ some req)
        × Verified req r s
        × (put_session B T s.db tok r.now r.now ≡ ok t.db)
        × (resp.cookie ≡ set_cookie tok (r.now + session_absolute))
  unfolding login_finish issue_session
  login_finish_sound body fresh r s t resp h ok200 =
      let passed = verify_login_passed body fresh r s t resp h ok200 in
      let (req, e, v) =
        verify_login_sound body r s (verify_login B T c base64 body r s).1
          (ground (arith, passed)) in
      let (tok, drawn) = token_drawn body fresh r s t resp h ok200 in
      (
        req,
        tok,
        e,
        v,
        ground (arith, passed, drawn, verify_login_keeps_db body r s),
        ground (arith, passed, drawn),
      )

  chals-login_finish :
      (req : LoginReq) (fresh : Result Bytes) (r : Request) (s : Server B.State W) (ch : Bytes)
      → c.challenge_only req.client_data_json ≡ some ch
      → (login_finish B T c base64 (some req) fresh r s).1.chals ≡ (consume ch r.now s.chals).1
  unfolding login_finish issue_session
  chals-login_finish req fresh r s ch e = ground arith

  login_stale :
      (req : LoginReq) (fresh : Result Bytes) (r : Request) (s : Server B.State W) (ch : Bytes)
      → c.challenge_only req.client_data_json ≡ some ch
      → (consume ch r.now s.chals).0 ≡ false
      → (login_finish B T c base64 (some req) fresh r s).0 ≡ stale_challenge
  unfolding login_finish
  login_stale req fresh r s ch e dead = ground arith

  -- Whatever a login answered, a second one with the same challenge is refused as stale: a
  -- ceremony's answer cannot be replayed, at any later or earlier reading of the clock.
  pub login_replay :
      (req again : LoginReq) (fresh fresh' : Result Bytes) (r r' : Request) (s : Server B.State W)
      (ch : Bytes)
      → c.challenge_only req.client_data_json ≡ some ch
      → c.challenge_only again.client_data_json ≡ some ch
      → (login_finish B T c base64
          (some again)
          fresh'
          r'
          (login_finish B T c base64 (some req) fresh r s).1).0
        ≡ stale_challenge
  login_replay req again fresh fresh' r r' s ch e e' = login_stale again fresh' r' _ ch e' (
      rw (chals-login_finish req fresh r s ch e)
        (ground (arith, consume_once s.chals ch ch r.now r'.now, bytes_eq_refl ch)))
