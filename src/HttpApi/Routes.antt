-- ===== src/HttpApi/Routes.antt =====
-- internal/httpapi/api.go, routes: the calls about sessions, passkeys and the recovery code, with
-- the gates that `routes` wraps them in, and a server that answers one call after another.
pub mod Creds
pub mod Keys
use mist_ui.HttpApi.Ceremonies.{login_begin, step_up_begin, recovery_regenerate, require_step_up}
use mist_ui.HttpApi.Session.{health, session_get, logout, require_session}
use mist_ui.Store.Database.{IsLawful, bucket_creds, bucket_config, bucket_sessions, same_bucket}
use mist_ui.Store.{config, delete_config, put_config, credential, put_credential, credential_count}
use mist_ui.Auth.{
  Crypto, verify_client_data, verify_auth_data, parse_registration, parse_cose, verify_assertion,
  hash_token, ceremony_create, ceremony_get, PublicKey,
}
use mist_ui.Store.Database.{Bolt, Rfc3339}
use mist_ui.Store.{put_session}
use mist_ui.Store
use mist_ui.HttpApi.TtlSet.{TtlSet, issue, consume, grant, consume_once}
use mist_ui.HttpApi.Session.{
  session_absolute, issue_session, session_valid, check_session, provisioned,
}
use mist_ui.HttpApi.Server.{
  Server, Request, Response, Cookie, keep_cookie, set_cookie, clear_cookie, Value, flag, text,
  texts, label, Outcome, return, value, M, ◌>>=◌, ◌>>◌, pure, exit, gets, modify, or_exit, guard,
  final, store_or_exit, store_ignoring, internal, bad_request, denied, http_error, write_json,
  session_token, Handler,
}
use mist_ui.HttpApi.Ceremonies.{
  LoginReq, RegisterReq, verify_login, verify_ceremony, login_finish, register_finish,
  step_up_finish, login_recovery, register_begin, registration_gate, decoded, stale_challenge,
}
use mist_ui.Base.{
  ℕ, zero, suc, ◌+◌, ◌-◌, ◌*◌, ◌/◌, ◌%◌, ◌≤◌, ◌<◌, String, ◌≡◌, refl, sym, ap, subst, ◌∙◌, ◌≢◌, ◌↔◌,
  ◌⊎◌, inl, inr, Bool, true, false, not, ◌&&◌, ◌||◌, Option, none, some, List, [], ◌∷◌, ◌++◌, map,
  arith, if◌then◌else◌, ltb, leb, nat_eq, Bytes, str, bytes_eq, bytes_eq_iff, bytes_eq_refl,
  Bool-cases, Result, ok, err, result_or, Result-cases, Option-cases, length, get_or, take, drop,
  length-append, take-append, drop-append, drop_past, get_or_past, take_part,
}

-- A request to one of these routes: its body, and the tokens that the handler draws.
pub data AuthCall : Type 0 where
  get_health : AuthCall
  get_session : AuthCall
  post_register_begin : Result Bytes → Result Bytes → AuthCall
  post_register_finish : Option RegisterReq → Result Bytes → Result Bytes → AuthCall
  post_login_begin : Result Bytes → AuthCall
  post_login_finish : Option LoginReq → Result Bytes → AuthCall
  post_login_recovery : Option Bytes → Result Bytes → AuthCall
  post_logout : AuthCall
  post_step_up_begin : Result Bytes → AuthCall
  post_step_up_finish : Option LoginReq → AuthCall
  post_recovery_regenerate : Result Bytes → AuthCall

module _ (B : Bolt) (T : Rfc3339) (c : Crypto) (base64 : Bytes → Bytes) {W : Type 0} where
  unfoldable pub serve : AuthCall → Request → Handler (Server B.State W)
  serve get_health r s = health B s
  serve get_session r s = session_get B T r s
  serve (post_register_begin f g) r s = register_begin B T c base64 f g r s
  serve (post_register_finish body f g) r s = register_finish B T c base64 body f g r s
  serve (post_login_begin f) r s = login_begin B T c base64 f r s
  serve (post_login_finish body f) r s = login_finish B T c base64 body f r s
  serve (post_login_recovery body f) r s = login_recovery B T c base64 body f r s
  serve post_logout r s = logout B T r s
  serve (post_step_up_begin f) r s = require_session B T (step_up_begin B T c base64 f) r s
  serve (post_step_up_finish body) r s = require_session B T (step_up_finish B T c base64 body) r s
  serve (post_recovery_regenerate f) r s =
      require_session B T (require_step_up B T c base64 (recovery_regenerate B T c base64 f)) r s

  unfoldable pub serve_all : List (Request × AuthCall) → Server B.State W → Server B.State W
  serve_all [] s = s
  serve_all ((r, call) ∷ calls) s = serve_all calls (serve call r s).1
