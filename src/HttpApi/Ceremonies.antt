-- ===== src/HttpApi/Ceremonies.antt =====
-- internal/httpapi/authflow.go: registration, login, the recovery code and step-up re-auth. The
-- decoded body of a request is an argument (`none` where the JSON does not decode), and so are
-- the outcomes of auth.NewToken.
pub mod Login
pub mod Recovery
pub mod StepUp
pub mod Registration
use mist_ui.Auth.{
  Crypto, verify_client_data, verify_auth_data, parse_registration, parse_cose, verify_assertion,
  hash_token, ceremony_create, ceremony_get,
}
use mist_ui.Store.Database.{Bolt, Rfc3339}
use mist_ui.Store
use mist_ui.HttpApi.TtlSet.{TtlSet, issue, consume, grant}
use mist_ui.HttpApi.Session.{issue_session, session_valid, check_session, provisioned}
use mist_ui.HttpApi.Server.{
  Server, Request, Response, Cookie, keep_cookie, set_cookie, clear_cookie, Value, flag, text,
  texts, label, Outcome, return, value, M, ◌>>=◌, ◌>>◌, pure, exit, gets, modify, or_exit, guard,
  final, store_or_exit, store_ignoring, internal, bad_request, denied, http_error, write_json,
  session_token, Handler,
}
use mist_ui.Base.{
  ℕ, zero, suc, ◌+◌, ◌-◌, ◌*◌, ◌/◌, ◌%◌, ◌≤◌, ◌<◌, String, ◌≡◌, refl, sym, ap, subst, ◌∙◌, ◌≢◌, ◌↔◌,
  ◌⊎◌, inl, inr, Bool, true, false, not, ◌&&◌, ◌||◌, Option, none, some, List, [], ◌∷◌, ◌++◌, map,
  arith, if◌then◌else◌, ltb, leb, nat_eq, Bytes, str, bytes_eq, bytes_eq_iff, bytes_eq_refl,
  Bool-cases, Result, ok, err, result_or, Result-cases, Option-cases, length, get_or, take, drop,
  length-append, take-append, drop-append,
}

pub record RegisterReq : Type 0 where
  pub client_data_json : Bytes
  pub attestation_object : Bytes

pub record LoginReq : Type 0 where
  pub credential_id : Bytes
  pub authenticator_data : Bytes
  pub client_data_json : Bytes
  pub signature : Bytes

abbrev pub recovery_hash_key : Bytes
recovery_hash_key = str "recovery_hash"

abbrev pub stale_challenge : Response
stale_challenge = http_error "stale or unknown challenge" 400

abbrev pub already_provisioned : Response
already_provisioned = http_error "already provisioned" 403

-- A decoded request body.
abbrev pub decoded {ℓ} : {A : Type ℓ} → Option A → Result A
decoded none = err "json"
decoded (some a) = ok a

-- `base64` is the unpadded URL encoding of a credential's ID.
module _ (B : Bolt) (T : Rfc3339) (c : Crypto) (base64 : Bytes → Bytes) {W : Type 0} where
  -- `s.chals.issue()`
  abbrev issue_challenge : Result Bytes → Request → M (Server B.State W) Bytes
  issue_challenge fresh r s =
      let (ch, chals) = issue fresh r.now s.chals in
      or_exit ch internal (record s { chals = chals })

  abbrev consume_challenge : Bytes → Request → M (Server B.State W) Bool
  consume_challenge ch r s =
      let (found, chals) = consume ch r.now s.chals in (value found, record s { chals = chals })

  -- Registration is open on a new device, and needs a session on a provisioned one.
  unfoldable pub registration_gate : Request → M (Server B.State W) Bool
  registration_gate r s =
      if provisioned B s
      then (check_session B T r false >>= λ valid. guard valid already_provisioned >> pure false) s
      else (value true, s)

  unfoldable pub register_begin : Result Bytes → Result Bytes → Request → Handler (Server B.State W)
  register_begin fresh fresh_user r s = final (
      (do
        _ ← registration_gate r
        ch ← issue_challenge fresh r
        uid ← or_exit fresh_user internal
        pure (
            write_json 200 (
              ("rpId", text s.rp_id)
              ∷ ("challenge", text ch)
              ∷ ("user.id", text uid)
              ∷ ("user.name", label "MistUI Owner")
              ∷ [])))
        s)

  unfoldable pub verify_ceremony : Bytes → Bytes → Request → M (Server B.State W) (Unit {0})
  verify_ceremony client_data_json ceremony r = do
    ch ← or_exit (decoded (c.challenge_only client_data_json)) stale_challenge
    found ← consume_challenge ch r
    guard found stale_challenge
    origins ← gets (λ s. s.origins)
    or_exit (verify_client_data c client_data_json ceremony ch origins) denied

  -- The one-time recovery code of a device that was just provisioned.
  abbrev pub mint_recovery : Bool → Result Bytes → M (Server B.State W) (List (String × Value))
  mint_recovery false fresh = pure []
  mint_recovery true fresh = do
    code ← or_exit fresh internal
    store_or_exit (λ d. Store.put_config B d recovery_hash_key (hash_token c code)) internal
    pure (("recoveryCode", text code) ∷ [])

  -- The end of a registration: the credential, the recovery code and the session.
  unfoldable pub register_store :
      Bool → Bytes → Bytes → Result Bytes → Result Bytes → Request → M (Server B.State W) Response
  register_store first cred_id cose fresh_code fresh r = do
    let id = base64 cred_id
    store_or_exit (λ d. Store.put_credential B d id cose) internal
    recovery ← mint_recovery first fresh_code
    cookie ← issue_session B T fresh r
    pure
        (record (write_json 200
          (("registered", flag true) ∷ ("credentialId", text id) ∷ recovery)) { cookie = cookie })

  unfoldable pub register_finish :
      Option RegisterReq → Result Bytes → Result Bytes → Request → Handler (Server B.State W)
  unfolding register_store
  register_finish body fresh_code fresh r s = final (
      (do
        first ← registration_gate r
        req ← or_exit (decoded body) bad_request
        verify_ceremony req.client_data_json ceremony_create r
        (cred_id, cose) ←
            or_exit (parse_registration c req.attestation_object s.rp_id)
              (http_error "registration rejected" 400)
        register_store first cred_id cose fresh_code fresh r)
        s)

  unfoldable pub login_begin : Result Bytes → Request → Handler (Server B.State W)
  login_begin fresh r s = final (
      (do
        guard (provisioned B s) (http_error "unprovisioned" 409)
        ids ← or_exit (Store.list_credential_ids B s.db) internal
        ch ← issue_challenge fresh r
        pure (
            write_json 200 (
              ("rpId", text s.rp_id) ∷ ("challenge", text ch) ∷ ("credentialIds", texts ids) ∷ [])))
        s)

  -- What loginFinish and stepUpFinish check, in their common order.
  unfoldable pub verify_login : Option LoginReq → Request → M (Server B.State W) (Unit {0})
  unfolding verify_ceremony
  verify_login body r = do
    req ← or_exit (decoded body) bad_request
    verify_ceremony req.client_data_json ceremony_get r
    rp_id ← gets (λ s. s.rp_id)
    or_exit (verify_auth_data c req.authenticator_data rp_id) denied
    db ← gets (λ s. s.db)
    found ← or_exit (Store.credential B db req.credential_id) denied
    cose ← or_exit (decoded found) denied
    key ← or_exit (parse_cose c cose) internal
    guard (verify_assertion c key req.authenticator_data req.client_data_json req.signature) denied

  unfoldable pub login_finish :
      Option LoginReq → Result Bytes → Request → Handler (Server B.State W)
  unfolding verify_login
  login_finish body fresh r s = final (
      (do
        verify_login body r
        cookie ← issue_session B T fresh r
        pure (record (write_json 200 (("authenticated", flag true) ∷ [])) { cookie = cookie }))
        s)

  unfoldable pub login_recovery : Option Bytes → Result Bytes → Request → Handler (Server B.State W)
  login_recovery body fresh r s = final (
      (do
        code ← or_exit (decoded body) bad_request
        guard (not (bytes_eq code [])) bad_request
        found ← or_exit (Store.config B s.db recovery_hash_key) denied
        stored ← or_exit (decoded found) denied
        guard (bytes_eq stored (hash_token c code)) denied
        store_or_exit (λ d. Store.delete_config B d recovery_hash_key) internal
        cookie ← issue_session B T fresh r
        pure
            (record (write_json 200
              (("authenticated", flag true) ∷ ("recoveryUsed", flag true) ∷ [])) {
                cookie = cookie;
              }))
        s)

  unfoldable pub step_up_begin : Result Bytes → Request → Handler (Server B.State W)
  step_up_begin fresh r s = final (
      (do
        ids ← or_exit (Store.list_credential_ids B s.db) internal
        ch ← issue_challenge fresh r
        pure (
            write_json 200 (
              ("rpId", text s.rp_id) ∷ ("challenge", text ch) ∷ ("credentialIds", texts ids) ∷ [])))
        s)

  unfoldable pub step_up_finish : Option LoginReq → Request → Handler (Server B.State W)
  unfolding verify_login
  step_up_finish body r s = final (
      (do
        verify_login body r
        modify (λ t. record t { step_ups = grant (session_token r) r.now t.step_ups })
        pure (write_json 200 (("steppedUp", flag true) ∷ [])))
        s)

  unfoldable pub require_step_up :
      (Request → Handler (Server B.State W)) → Request → Handler (Server B.State W)
  require_step_up next r s =
      let (credit, step_ups) = consume (session_token r) r.now s.step_ups in
      let t = record s { step_ups = step_ups } in
      if credit then next r t else (write_json 428 (("stepUpRequired", flag true) ∷ []), t)

  unfoldable pub recovery_regenerate : Result Bytes → Request → Handler (Server B.State W)
  recovery_regenerate fresh r s = final (
      (do
        code ← or_exit fresh internal
        store_or_exit (λ d. Store.put_config B d recovery_hash_key (hash_token c code)) internal
        pure (write_json 200 (("recoveryCode", text code) ∷ [])))
        s)
