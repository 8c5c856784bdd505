-- ===== src/HttpApi/Routes/Keys.antt =====
-- internal/httpapi: the keys in the database over any sequence of calls of the auth routes.
use mist_ui.HttpApi.Routes.Creds.{
  SameCreds, creds-registration_gate, verify_ceremony_keeps_db, creds-logout, creds-register_begin,
  creds-login_begin, db-step_up_begin, db-step_up_finish, creds-login_finish, creds-login_recovery,
  creds-recovery_regenerate, creds-require_step_up, creds-require_session,
}
use mist_ui.HttpApi.Ceremonies.{register_store}
use mist_ui.HttpApi.Ceremonies.Registration.{
  KeysParse, creds-session_valid, register_store-KeysParse,
}
use mist_ui.HttpApi.Server.Keeps.{Keeps, Keeps-bind, Keeps-or_exit, Keeps-final}
use mist_ui.HttpApi.Session.{health, session_get}
use mist_ui.Auth.Registration.{parse_registration_key}
use mist_ui.HttpApi.Routes.{
  AuthCall, get_health, get_session, post_register_begin, post_register_finish, post_login_begin,
  post_login_finish, post_login_recovery, post_logout, post_step_up_begin, post_step_up_finish,
  post_recovery_regenerate, serve, serve_all,
}
use mist_ui.Store.Database.{IsLawful, bucket_creds}
use mist_ui.Auth.{Crypto, parse_registration, ceremony_create}
use mist_ui.Store.Database.{Bolt, Rfc3339}
use mist_ui.HttpApi.Server.{
  Server, Request, Response, M, ◌>>=◌, ◌>>◌, or_exit, bad_request, http_error,
}
use mist_ui.HttpApi.Ceremonies.{
  RegisterReq, verify_ceremony, register_finish, registration_gate, decoded,
}
use mist_ui.Base.{◌≡◌, sym, ap, subst, ◌∙◌, Bool, false, Option, List, [], ◌∷◌, Bytes, Result, ok}

abbrev KeysHold : (B : Bolt) → Crypto → {W : Type 0} → Server B.State W → Type 0
KeysHold B c s = KeysParse B c s.db

KeysParse-SameCreds :
    (B : Bolt) (c : Crypto) (d e : B.State) → SameCreds B d e → KeysParse B c d → KeysParse B c e
KeysParse-SameCreds B c d e same inv id v found = inv id v (sym (same id) ∙ found)

module _ (B : Bolt) (L : IsLawful B) (T : Rfc3339) (c : Crypto) (base64 : Bytes → Bytes)
    {W : Type 0} where
  keys_gate : (r : Request) → Keeps (KeysHold B c {W = W}) (registration_gate B T c base64 r)
  keys_gate r u inv =
      KeysParse-SameCreds B c u.db _ (creds-registration_gate B L T c base64 r u) inv

  keys_verify_ceremony :
      (raw ceremony : Bytes) (r : Request)
      → Keeps (KeysHold B c {W = W}) (verify_ceremony B T c base64 raw ceremony r)
  keys_verify_ceremony raw ceremony r u inv =
      subst (KeysParse B c) (sym (verify_ceremony_keeps_db B L T c base64 raw ceremony r u)) inv

  keys_register_store :
      (first : Bool) (f g : Result Bytes) (r : Request) (att rp_id : Bytes) (p : Bytes × Bytes)
      → parse_registration c att rp_id ≡ ok p
      → Keeps (KeysHold B c {W = W}) (register_store B T c base64 first p.0 p.1 f g r)
  keys_register_store first f g r att rp_id p e u inv =
      let (key, parsed) = parse_registration_key c att rp_id p.0 p.1 e in
      register_store-KeysParse B L T c base64 first p.0 p.1 f g r u key inv parsed

  -- The parts of registerFinish, from its end.
  abbrev parsed_part :
      Bool
      → Result Bytes
      → Result Bytes
      → Request
      → Bytes
      → RegisterReq
      → M (Server B.State W) Response
  parsed_part first f g r rp_id req =
      or_exit (parse_registration c req.attestation_object rp_id)
        (http_error "registration rejected" 400)
      >>= λ p. register_store B T c base64 first p.0 p.1 f g r

  abbrev verified_part :
      Bool
      → Result Bytes
      → Result Bytes
      → Request
      → Bytes
      → RegisterReq
      → M (Server B.State W) Response
  verified_part first f g r rp_id req =
      verify_ceremony B T c base64 req.client_data_json ceremony_create r
      >> parsed_part first f g r rp_id req

  abbrev decoded_part :
      Option RegisterReq
      → Result Bytes
      → Result Bytes
      → Request
      → Bytes
      → Bool
      → M (Server B.State W) Response
  decoded_part body f g r rp_id first =
      or_exit (decoded body) bad_request >>= verified_part first f g r rp_id

  keys_parsed_part :
      (first : Bool) (f g : Result Bytes) (r : Request) (rp_id : Bytes) (req : RegisterReq)
      → Keeps (KeysHold B c {W = W}) (parsed_part first f g r rp_id req)
  keys_parsed_part first f g r rp_id req =
      Keeps-or_exit (KeysHold B c) (parse_registration c req.attestation_object rp_id)
        (http_error "registration rejected" 400)
        (λ p. register_store B T c base64 first p.0 p.1 f g r)
        (keys_register_store first f g r req.attestation_object rp_id)

  keys_verified_part :
      (first : Bool) (f g : Result Bytes) (r : Request) (rp_id : Bytes) (req : RegisterReq)
      → Keeps (KeysHold B c {W = W}) (verified_part first f g r rp_id req)
  keys_verified_part first f g r rp_id req =
      Keeps-bind (KeysHold B c)
        (verify_ceremony B T c base64 req.client_data_json ceremony_create r)
        (λ _. parsed_part first f g r rp_id req)
        (keys_verify_ceremony req.client_data_json ceremony_create r)
        (λ _. keys_parsed_part first f g r rp_id req)

  keys_register_finish :
      (body : Option RegisterReq) (f g : Result Bytes) (r : Request)
      → Keeps (KeysHold B c {W = W}) (register_finish B T c base64 body f g r)
  unfolding register_finish
  keys_register_finish body f g r s =
      Keeps-final (KeysHold B c)
        (registration_gate B T c base64 r >>= decoded_part body f g r s.rp_id)
        (Keeps-bind (KeysHold B c) (registration_gate B T c base64 r)
          (decoded_part body f g r s.rp_id) (keys_gate r)
          (λ first.
            Keeps-or_exit (KeysHold B c) (decoded body) bad_request
              (verified_part first f g r s.rp_id)
              (λ req _. keys_verified_part first f g r s.rp_id req)))
        s

  -- Every call keeps each stored credential a usable key.
  serve-KeysParse :
      (call : AuthCall) (r : Request) → Keeps (KeysHold B c {W = W}) (serve B T c base64 call r)
  unfolding serve health session_get
  serve-KeysParse get_health r s inv = inv
  serve-KeysParse get_session r s inv =
      KeysParse-SameCreds B c s.db _ (creds-session_valid B L T c base64 s r false) inv
  serve-KeysParse (post_register_begin f g) r s inv =
      KeysParse-SameCreds B c s.db _ (creds-register_begin B L T c base64 f g r s) inv
  serve-KeysParse (post_register_finish body f g) r s inv = keys_register_finish body f g r s inv
  serve-KeysParse (post_login_begin f) r s inv =
      subst (KeysParse B c) (sym (creds-login_begin B L T c base64 f r s)) inv
  serve-KeysParse (post_login_finish body f) r s inv =
      KeysParse-SameCreds B c s.db _ (creds-login_finish B L T c base64 body f r s) inv
  serve-KeysParse (post_login_recovery body f) r s inv =
      KeysParse-SameCreds B c s.db _ (creds-login_recovery B L T c base64 body f r s) inv
  serve-KeysParse post_logout r s inv =
      KeysParse-SameCreds B c s.db _ (creds-logout B L T c base64 r s) inv
  serve-KeysParse (post_step_up_begin f) r s inv =
      KeysParse-SameCreds B c s.db _
        (creds-require_session B L T c base64 _ r s
          (λ u id. ap (λ d. B.get d bucket_creds id) (db-step_up_begin B L T c base64 f r u)))
        inv
  serve-KeysParse (post_step_up_finish body) r s inv =
      KeysParse-SameCreds B c s.db _
        (creds-require_session B L T c base64 _ r s
          (λ u id. ap (λ d. B.get d bucket_creds id) (db-step_up_finish B L T c base64 body r u)))
        inv
  serve-KeysParse (post_recovery_regenerate f) r s inv =
      KeysParse-SameCreds B c s.db _
        (creds-require_session B L T c base64 _ r s (λ u.
          creds-require_step_up B L T c base64 _ r u
            (λ v. creds-recovery_regenerate B L T c base64 f r v)))
        inv

  -- After any sequence of calls on a database whose credentials are all usable keys, they all
  -- still are.
  pub serve_all-KeysParse :
      (calls : List (Request × AuthCall)) (s : Server B.State W)
      → KeysParse B c s.db
      → KeysParse B c (serve_all B T c base64 calls s).db
  unfolding serve_all
  serve_all-KeysParse [] s inv = inv
  serve_all-KeysParse ((r, call) ∷ calls) s inv =
      serve_all-KeysParse calls _ (serve-KeysParse call r s inv)
