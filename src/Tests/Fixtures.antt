-- ===== src/Tests/Fixtures.antt =====
-- A device in memory: a database, a codec of times, a toy of the cryptography and of JSON, and a
-- router that is four switches.
use mist_ui.Store.Database.{bucket_creds, bucket_sessions, bucket_config, bar, second}
use mist_ui.Store.Memory.{memory_bolt, ones, put, Entries}
use mist_ui.Store.{put_config, delete_config}
use mist_ui.Auth.{Crypto, ceremony_get, ceremony_create}
use mist_ui.Router.{Connector, Dns}
use mist_ui.HttpApi.Server.{Server, Request}
use mist_ui.HttpApi.Ceremonies.{recovery_hash_key, LoginReq}
use mist_ui.HttpApi.Portal.{PortalRecord, Json}
use mist_ui.HttpApi.Portal.Records.{IsHealthy}
use mist_ui.Base.{
  ℕ, zero, suc, ◌*◌, ◌≡◌, refl, Bool, true, false, Option, none, some, [], ◌∷◌, ◌++◌, if◌then◌else◌,
  nat_eq, Bytes, str, bytes_eq, ok, get_or, take, drop,
}
use mist_ui.Base.{pos, negsuc}

abbrev pub zeros : ℕ → Bytes
zeros zero = []
zeros (suc n) = 0 ∷ zeros n

-- A hash that tells texts apart by their first byte, and a signature that is the digest itself.
abbrev pub toy_crypto : Crypto
toy_crypto = record {
  sha256 = λ b. get_or b 0 0 ∷ zeros 31;
  client_data = λ raw. some (record {
    ceremony_type = if nat_eq (get_or raw 0 0) 1 then ceremony_get else ceremony_create;
    challenge = drop 1 raw;
    origin = 111 ∷ [];
  });
  challenge_only = λ raw. some (drop 1 raw);
  attestation = λ raw. some raw;
  first_item = λ raw. some (take 1 raw);
  cose_key = λ raw.
      some (record {
        kty = pos (get_or raw 0 0);
        alg = negsuc 6;
        crv = pos 1;
        x = 3 ∷ [];
        y = 4 ∷ [];
      });
  set_bytes = λ b. get_or b 0 0;
  verify_asn1 = λ key digest sig. bytes_eq digest sig;
}

abbrev pub plain : Bytes → Bytes
plain b = b

abbrev pub always_open : (d : Entries) → memory_bolt.view d ≡ ok tt
always_open d = refl

abbrev pub bit : Bool → ℕ
bit true = 1
bit false = 0

abbrev pub is_set : ℕ → Bool
is_set n = nat_eq n 1

abbrev pub parse_record : Bytes → Option PortalRecord
parse_record (a ∷ k ∷ d ∷ since ∷ deadline ∷ url) = some (record {
  active = is_set a;
  since = since;
  deadline = deadline;
  portal_url = url;
  saved_ks = is_set k;
  saved_dns = is_set d;
})
parse_record _ = none

abbrev pub toy_json : Json
toy_json = record {
  marshal = λ rec. ok (
      bit rec.active
      ∷ bit rec.saved_ks
      ∷ bit rec.saved_dns
      ∷ rec.since
      ∷ rec.deadline
      ∷ rec.portal_url);
  unmarshal = parse_record;
}

pub memory_bolt-IsHealthy : IsHealthy memory_bolt
unfolding str put_config delete_config put
memory_bolt-IsHealthy = record {
  is_open = λ d. refl;
  writes = λ d v. (_, refl);
  deletes = λ d. (_, refl);
}

-- Four switches.
pub record Switches : Type 0 where
  pub tunnel : Bool
  pub kill : Bool
  pub dns : Bool
  pub denies : Bool

abbrev pub toy_vpn : Connector Switches
toy_vpn = record {
  up = λ w. (ok tt, record w { tunnel = true });
  down = λ w. (ok tt, record w { tunnel = false });
  set_kill_switch = λ b w. (ok tt, record w { kill = b });
  kill_switch = λ w. ok w.kill;
}

abbrev pub toy_dns : Dns Switches
toy_dns = record {
  enable = λ w. (ok tt, record w { dns = true });
  disable = λ w. (ok tt, record w { dns = false; denies = false });
  set_fail_closed = λ b w. (ok tt, record w { denies = b });
  enabled = λ w. ok w.dns;
}

abbrev pub at_second : ℕ → Option Bytes → Request
at_second n c = record { cookie = c; now = n * second }

-- A provisioned device: one credential, one session of second 10, one recovery code, and one
-- challenge that lives until second 100.
abbrev pub token : Bytes
token = 9 ∷ []

abbrev pub session_record : Bytes
session_record = ones 10 ++ (bar ∷ ones 10)

abbrev pub entries : Entries
entries =
    (bucket_creds, 7 ∷ [], 2 ∷ [])
    ∷ (bucket_sessions, token, session_record)
    ∷ (bucket_config, recovery_hash_key, toy_crypto.sha256 (42 ∷ []))
    ∷ []

abbrev pub one_challenge : Bytes → Option ℕ
one_challenge key = if bytes_eq (5 ∷ []) key then some (100 * second) else none

abbrev pub device : Server Entries Switches
device = record {
  db = entries;
  world = record { tunnel = true; kill = true; dns = true; denies = true };
  rp_id = 104 ∷ [];
  origins = (111 ∷ []) ∷ [];
  chals = record { m = one_challenge; ttl = 300 * second };
  step_ups = record { m = λ key. none; ttl = 120 * second };
  portal_kick = false;
  portal_note = none;
}

abbrev pub auth_data : Bytes
auth_data = 104 ∷ (zeros 31 ++ (1 ∷ zeros 4))

-- A login with the device's credential and challenge, signed.
abbrev pub login_req : LoginReq
login_req = record {
  credential_id = 7 ∷ [];
  authenticator_data = auth_data;
  client_data_json = 1 ∷ 5 ∷ [];
  signature = 104 ∷ zeros 31;
}
