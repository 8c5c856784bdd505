-- ===== src/Tests/Logins.antt =====
-- Runs of the theorems on logins, step-ups and registration.
use mist_ui.Tests.Fixtures.{
  toy_crypto, plain, device, login_req, token, entries, at_second, Switches,
}
use mist_ui.Store.Memory.{
  memory_bolt, memory_bolt-IsLawful, unary_times, put, erase, keys, lookup, Entries,
}
use mist_ui.Store.Database.{second, bucket_creds}
use mist_ui.Store
use mist_ui.Store.{put_session, credential}
use mist_ui.Auth.{verify_client_data, verify_auth_data, parse_cose, verify_assertion, contains}
use mist_ui.HttpApi.TtlSet.{consume, is_live}
use mist_ui.HttpApi.Server.{
  Server, Request, Response, Handler, session_token, set_cookie, write_json, flag,
}
use mist_ui.HttpApi.Session.{session_absolute, issue_session, session_valid}
use mist_ui.HttpApi.Ceremonies.{
  LoginReq, login_finish, verify_login, verify_ceremony, stale_challenge, already_provisioned,
  step_up_finish, require_step_up, register_begin, register_finish,
}
use mist_ui.HttpApi.Ceremonies.Login.{Verified, login_finish_sound, login_replay}
use mist_ui.HttpApi.Ceremonies.StepUp.{step_up_finish_sound, step_up_once}
use mist_ui.HttpApi.Ceremonies.Registration.{registration_closed}
use mist_ui.Base.{
  ◌+◌, ◌*◌, ◌≤◌, arith, ◌≡◌, refl, ◌≢◌, ◌⊎◌, true, false, none, some, [], ◌∷◌, Bytes, str, bytes_eq,
  ok,
}

abbrev fresh_token : Bytes
fresh_token = 8 ∷ []

abbrev request : Request
request = at_second 20 (some token)

abbrev finished : Response × Server Entries Switches
finished =
    login_finish memory_bolt unary_times toy_crypto plain (some login_req) (ok fresh_token) request
      device

finished_ok : finished.0.status ≡ 200
unfolding login_finish verify_login verify_ceremony verify_client_data verify_auth_data parse_cose
    verify_assertion contains consume is_live issue_session put_session credential put erase lookup
    str bytes_eq
finished_ok = refl

login_finish_sound_example :
    (req : LoginReq) × (tok : Bytes) × (some login_req ≡ some req)
    × Verified memory_bolt unary_times toy_crypto plain req request device
    × (put_session memory_bolt unary_times entries tok (20 * second) (20 * second)
        ≡ ok finished.1.db)
    × (finished.0.cookie ≡ set_cookie tok (20 * second + session_absolute))
login_finish_sound_example =
    login_finish_sound memory_bolt unary_times toy_crypto plain (some login_req) (ok fresh_token)
      request device finished.1 finished.0 refl finished_ok

login_replay_example :
    (login_finish memory_bolt unary_times toy_crypto plain
      (some login_req)
      (ok (6 ∷ []))
      (at_second 30 none)
      finished.1).0
    ≡ stale_challenge
login_replay_example =
    login_replay memory_bolt unary_times toy_crypto plain login_req login_req (ok fresh_token)
      (ok (6 ∷ [])) request (at_second 30 none) device (5 ∷ []) refl refl

abbrev stepped : Response × Server Entries Switches
stepped = step_up_finish memory_bolt unary_times toy_crypto plain (some login_req) request device

stepped_ok : stepped.0.status ≡ 200
unfolding step_up_finish verify_login verify_ceremony verify_client_data verify_auth_data parse_cose
    verify_assertion contains consume is_live credential lookup str bytes_eq
stepped_ok = refl

step_up_finish_sound_example :
    ((stepped.0.status ≡ 200)
      × ((req : LoginReq) × (some login_req ≡ some req)
          × Verified memory_bolt unary_times toy_crypto plain req request device))
    ⊎ ((stepped.0.status ≢ 200) × (stepped.1.step_ups ≡ device.step_ups))
step_up_finish_sound_example =
    step_up_finish_sound memory_bolt unary_times toy_crypto plain (some login_req) request device

abbrev destroy : Request → Handler (Server Entries Switches)
destroy r s = (write_json 200 (("resetting", flag true) ∷ []), s)

abbrev gated : Server Entries Switches
gated =
    (require_step_up memory_bolt unary_times toy_crypto plain destroy (at_second 60 (some token))
      stepped.1).1

step_up_once_example :
    require_step_up memory_bolt unary_times toy_crypto plain destroy
      (at_second 61 (some token))
      gated
    ≡ (
      write_json 428 (("stepUpRequired", flag true) ∷ []),
      record gated { step_ups = (consume token (61 * second) gated.step_ups).1 },
    )
unfolding session_token
step_up_once_example =
    step_up_once memory_bolt unary_times toy_crypto plain destroy destroy
      (at_second 60 (some token)) (at_second 61 (some token)) stepped.1 (λ q u. refl) refl

has_keys : 1 ≤ memory_bolt.key_count entries bucket_creds
unfolding keys
has_keys = omega arith

registration_closed_example :
    let u = (session_valid memory_bolt unary_times device (at_second 20 none) false).1 in
    (register_finish memory_bolt unary_times toy_crypto plain none
        (ok fresh_token)
        (ok fresh_token)
        (at_second 20 none)
        device
      ≡ (already_provisioned, u))
    × (register_begin memory_bolt unary_times toy_crypto plain
          (ok fresh_token)
          (ok fresh_token)
          (at_second 20 none)
          device
        ≡ (already_provisioned, u))
    × ((id : Bytes) → memory_bolt.get u.db bucket_creds id ≡ lookup entries bucket_creds id)
unfolding session_valid Store.session session_token
registration_closed_example =
    registration_closed memory_bolt memory_bolt-IsLawful unary_times toy_crypto plain none
      (ok fresh_token) (ok fresh_token) (at_second 20 none) device refl has_keys refl
