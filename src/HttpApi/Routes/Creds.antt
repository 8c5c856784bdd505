-- ===== src/HttpApi/Routes/Creds.antt =====
-- internal/httpapi: the handlers of the auth routes and the bucket of credentials.
use mist_ui.HttpApi.Ceremonies.{
  login_begin, step_up_begin, recovery_regenerate, require_step_up, recovery_hash_key,
}
use mist_ui.HttpApi.Ceremonies.Registration.{creds-session_valid, creds-issue_session}
use mist_ui.HttpApi.Ceremonies.Login.{verify_login_keeps_db}
use mist_ui.HttpApi.Session.{logout, require_session}
use mist_ui.Store.Creds.{creds-put_config, creds-delete_session, creds-delete_config}
use mist_ui.Store.{delete_session}
use mist_ui.Store.Database.{IsLawful, bucket_creds}
use mist_ui.Store.{delete_config, put_config}
use mist_ui.Auth.{Crypto, hash_token}
use mist_ui.Store.Database.{Bolt, Rfc3339}
use mist_ui.HttpApi.TtlSet.{consume}
use mist_ui.HttpApi.Session.{session_valid, provisioned}
use mist_ui.HttpApi.Server.{Server, Request, session_token, Handler}
use mist_ui.HttpApi.Ceremonies.{
  LoginReq, verify_login, verify_ceremony, login_finish, step_up_finish, login_recovery,
  register_begin, registration_gate,
}
use mist_ui.Base.{
  ◌≡◌, refl, ◌∙◌, inl, inr, true, false, Option, none, some, arith, Bytes, Bool-cases, Result, ok,
  err, Result-cases,
}

-- Both states hold the same credentials.
abbrev pub SameCreds : (B : Bolt) → B.State → B.State → Type 0
SameCreds B d e = (id : Bytes) → B.get e bucket_creds id ≡ B.get d bucket_creds id

module _ (B : Bolt) (L : IsLawful B) (T : Rfc3339) (c : Crypto) (base64 : Bytes → Bytes)
    {W : Type 0} where
  pub creds-registration_gate :
      (r : Request) (s : Server B.State W)
      → SameCreds B s.db (registration_gate B T c base64 r s).1.db
  unfolding registration_gate
  creds-registration_gate r s id = elim (Bool-cases (provisioned B s)) [
    | inr e ↦ rw (e, registration_gate) refl
    | inl e ↦
        rw (e, registration_gate)
          (elim (Bool-cases (session_valid B T s r false).0) [
            | inl v ↦ rw v (creds-session_valid B L T c base64 s r false id)
            | inr v ↦ rw v (creds-session_valid B L T c base64 s r false id)
          ])
  ]

  pub verify_ceremony_keeps_db :
      (raw ceremony : Bytes) (r : Request) (s : Server B.State W)
      → (verify_ceremony B T c base64 raw ceremony r s).1.db ≡ s.db
  unfolding verify_ceremony
  verify_ceremony_keeps_db raw ceremony r s = ground arith

  pub creds-logout : (r : Request) (s : Server B.State W) → SameCreds B s.db (logout B T r s).1.db
  unfolding logout
  creds-logout r s id = elim (Result-cases (delete_session B s.db (session_token r))) [
    | inl (d, e) ↦ ground (arith, e, creds-delete_session B L s.db d id (session_token r) e)
    | inr (m, e) ↦ ground (arith, e)
  ]

  pub creds-register_begin :
      (f g : Result Bytes) (r : Request) (s : Server B.State W)
      → SameCreds B s.db (register_begin B T c base64 f g r s).1.db
  unfolding register_begin
  creds-register_begin f g r s id = ground (arith, creds-registration_gate r s id)

  pub creds-login_begin :
      (f : Result Bytes) (r : Request) (s : Server B.State W)
      → (login_begin B T c base64 f r s).1.db ≡ s.db
  unfolding login_begin
  creds-login_begin f r s = ground arith

  pub db-step_up_begin :
      (f : Result Bytes) (r : Request) (s : Server B.State W)
      → (step_up_begin B T c base64 f r s).1.db ≡ s.db
  unfolding step_up_begin
  db-step_up_begin f r s = ground arith

  pub db-step_up_finish :
      (body : Option LoginReq) (r : Request) (s : Server B.State W)
      → (step_up_finish B T c base64 body r s).1.db ≡ s.db
  unfolding step_up_finish
  db-step_up_finish body r s = ground (arith, verify_login_keeps_db B T c base64 body r s)

  pub creds-login_finish :
      (body : Option LoginReq) (f : Result Bytes) (r : Request) (s : Server B.State W)
      → SameCreds B s.db (login_finish B T c base64 body f r s).1.db
  unfolding login_finish
  creds-login_finish body f r s id =
      let v = verify_login B T c base64 body r s in
      ground (
        arith,
        verify_login_keeps_db B T c base64 body r s,
        creds-issue_session B L T c base64 f r v.1 id,
      )

  pub creds-login_recovery :
      (body : Option Bytes) (f : Result Bytes) (r : Request) (s : Server B.State W)
      → SameCreds B s.db (login_recovery B T c base64 body f r s).1.db
  unfolding login_recovery
  creds-login_recovery none f r s id = refl
  creds-login_recovery (some code) f r s id =
      elim (Result-cases (delete_config B s.db recovery_hash_key)) [
        | inl (d, e) ↦ ground (
          arith,
          e,
          creds-issue_session B L T c base64 f r (record s { db = d }) id,
          creds-delete_config B L s.db d id recovery_hash_key e,
        )
        | inr (m, e) ↦ ground (arith, e)
      ]

  pub creds-recovery_regenerate :
      (f : Result Bytes) (r : Request) (s : Server B.State W)
      → SameCreds B s.db (recovery_regenerate B T c base64 f r s).1.db
  unfolding recovery_regenerate
  creds-recovery_regenerate (err e) r s id = refl
  creds-recovery_regenerate (ok code) r s id =
      elim (Result-cases (put_config B s.db recovery_hash_key (hash_token c code))) [
        | inl (d, e) ↦
            ground
              (arith, e, creds-put_config B L s.db d id recovery_hash_key (hash_token c code) e)
        | inr (m, e) ↦ ground (arith, e)
      ]

  pub creds-require_step_up :
      (next : Request → Handler (Server B.State W)) (r : Request) (s : Server B.State W)
      → ((u : Server B.State W) → SameCreds B u.db (next r u).1.db)
      → SameCreds B s.db (require_step_up B T c base64 next r s).1.db
  unfolding require_step_up
  creds-require_step_up next r s h id =
      elim (Bool-cases (consume (session_token r) r.now s.step_ups).0) [
        | inl e ↦ rw (e, require_step_up) (h _ id)
        | inr e ↦ rw (e, require_step_up) refl
      ]

  pub creds-require_session :
      (next : Request → Handler (Server B.State W)) (r : Request) (s : Server B.State W)
      → ((u : Server B.State W) → SameCreds B u.db (next r u).1.db)
      → SameCreds B s.db (require_session B T next r s).1.db
  unfolding require_session
  creds-require_session next r s h id = elim (Bool-cases (session_valid B T s r true).0) [
    | inl e ↦ rw (e, require_session) (h _ id ∙ creds-session_valid B L T c base64 s r true id)
    | inr e ↦ rw (e, require_session) (creds-session_valid B L T c base64 s r true id)
  ]
