-- ===== src/Tests/Recoveries.antt =====
-- Runs of the theorems on the recovery code and on the stored keys.
use mist_ui.Tests.Fixtures.{
  toy_crypto, plain, device, login_req, token, entries, at_second, Switches, always_open, zeros,
  session_record,
}
use mist_ui.Store.Memory.{
  memory_bolt, memory_bolt-IsLawful, unary_times, put, erase, lookup, Entries,
}
use mist_ui.Store.Database.{bucket_sessions, bucket_creds}
use mist_ui.Store.{config, delete_config, put_session}
use mist_ui.Auth.{hash_token, parse_cose, PublicKey, parse_registration}
use mist_ui.Auth.Registration.{parse_registration-attested}
use mist_ui.HttpApi.Server.{Server, Request, Response, denied}
use mist_ui.HttpApi.Session.{issue_session}
use mist_ui.HttpApi.Ceremonies.{recovery_hash_key, login_recovery, recovery_regenerate}
use mist_ui.HttpApi.Ceremonies.Recovery.{Stored, login_recovery_once}
use mist_ui.HttpApi.Ceremonies.Registration.{KeysParse}
use mist_ui.HttpApi.Routes.{post_login_finish, post_logout, serve_all}
use mist_ui.HttpApi.Routes.Keys.{serve_all-KeysParse}
use mist_ui.Base.{◌≡◌, refl, ◌≢◌, none, some, [], ◌∷◌, ◌++◌, arith, Bytes, str, bytes_eq, ok}

abbrev code : Bytes
code = 42 ∷ []

abbrev request : Request
request = at_second 20 none

-- A database without the recovery hash.
abbrev burned : Entries
burned = (bucket_creds, 7 ∷ [], 2 ∷ []) ∷ (bucket_sessions, token, session_record) ∷ []

abbrev recovered : Response × Server Entries Switches
recovered =
    login_recovery memory_bolt unary_times toy_crypto plain (some code) (ok (8 ∷ [])) request device

code-Stored : Stored memory_bolt toy_crypto code entries
unfolding lookup hash_token str bytes_eq
code-Stored = refl

recovered_ok : recovered.0.status ≡ 200
unfolding login_recovery config delete_config hash_token issue_session put_session put erase lookup
    str bytes_eq
recovered_ok = refl

hash_deleted : delete_config memory_bolt entries recovery_hash_key ≡ ok burned
unfolding delete_config erase str bytes_eq
hash_deleted = refl

login_recovery_once_example :
    (login_recovery memory_bolt unary_times toy_crypto plain
      (some code)
      (ok (8 ∷ []))
      (at_second 30 none)
      recovered.1).0
    ≡ denied
login_recovery_once_example =
    login_recovery_once memory_bolt memory_bolt-IsLawful unary_times toy_crypto plain always_open
      code code (ok (8 ∷ [])) (ok (8 ∷ [])) request (at_second 30 none) device burned (λ q. cc)
      (λ q. cc) code-Stored hash_deleted

wrong_code : ¬ (Stored memory_bolt toy_crypto (43 ∷ []) entries)
unfolding lookup hash_token str bytes_eq
wrong_code h = ground arith

other_hash : hash_token toy_crypto code ≢ hash_token toy_crypto (43 ∷ [])
unfolding hash_token
other_hash h = ground arith

abbrev regenerated : Response × Server Entries Switches
regenerated =
    recovery_regenerate memory_bolt unary_times toy_crypto plain (ok (43 ∷ [])) request device

abbrev key : PublicKey
key = record { x = 3; y = 4 }

keys_parse : KeysParse memory_bolt toy_crypto entries
unfolding lookup parse_cose str bytes_eq
keys_parse id v found = (key, ground arith)

serve_all-KeysParse_example :
    KeysParse memory_bolt toy_crypto
      (serve_all memory_bolt unary_times toy_crypto plain
        ((request, post_login_finish (some login_req) (ok (8 ∷ [])))
          ∷ (at_second 30 (some token), post_logout)
          ∷ [])
        device).db
serve_all-KeysParse_example =
    serve_all-KeysParse memory_bolt memory_bolt-IsLawful unary_times toy_crypto plain
      ((request, post_login_finish (some login_req) (ok (8 ∷ [])))
        ∷ (at_second 30 (some token), post_logout)
        ∷ [])
      device keys_parse

abbrev attested_data : Bytes
attested_data =
    (104 ∷ zeros 31)
    ++ (65 ∷ (zeros 4 ++ (zeros 16 ++ (0 ∷ 1 ∷ ((7 ∷ []) ++ ((2 ∷ []) ++ (9 ∷ [])))))))

parse_registration-attested_example :
    parse_registration toy_crypto attested_data (104 ∷ []) ≡ ok (7 ∷ [], 2 ∷ [])
unfolding parse_cose
parse_registration-attested_example =
    parse_registration-attested toy_crypto attested_data (104 ∷ []) (zeros 4) (zeros 16) (7 ∷ [])
      (2 ∷ []) (9 ∷ []) 65 0 1 key refl refl refl refl refl (λ q. ground arith) (λ q. ground arith)
      refl refl
