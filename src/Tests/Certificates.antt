-- ===== src/Tests/Certificates.antt =====
-- A run of the theorem on the TLS material, in a directory in memory.
use mist_ui.Certgen.{
  Certificate, Library, File, cert_pem, key_pem, ca_pem, ca_key_pem, Directory, Random,
}
use mist_ui.Base.{
  ℕ, zero, suc, Bool, true, false, Option, none, some, List, [], ◌∷◌, ◌++◌, if◌then◌else◌, nat_eq,
  Bytes, str, bytes_eq, Result, ok, err, length, get_or, take, drop,
}

abbrev blank : Certificate
blank = record {
  common_name = [];
  not_before = 0;
  not_after = 0;
  is_ca = false;
  max_path_zero = false;
  dns_names = [];
  permitted_domains = [];
  permitted_critical = false;
  server_auth = false;
}

abbrev bit : Bool → ℕ
bit true = 1
bit false = 0

-- A certificate of at most one name is its end, whether it is a CA, and the name.
abbrev encode : Certificate → List Bytes → Result Bytes
encode t [] = ok (t.not_after ∷ bit t.is_ca ∷ 0 ∷ [])
encode t (n ∷ []) = ok (t.not_after ∷ bit t.is_ca ∷ 1 ∷ n)
encode t (n ∷ m ∷ ns) = err "too many names"

abbrev decode : Bytes → Result Certificate
decode (na ∷ ca ∷ zero ∷ n) = ok (record blank { not_after = na; is_ca = nat_eq ca 1 })
decode (na ∷ ca ∷ suc k ∷ n) =
    ok (record blank { not_after = na; is_ca = nat_eq ca 1; dns_names = n ∷ [] })
decode _ = err "malformed certificate"

-- Its keys are numbers.
abbrev toy_library : Library
toy_library = record {
  Key = ℕ;
  parse_certificate = decode;
  parse_key = λ b. ok (get_or b 0 0);
  marshal_key = λ k. ok (k ∷ []);
  create_certificate = λ n t p key signer. encode t t.dns_names;
  verify_hostname = λ c host. elim c.dns_names [ [] ↦ false | n ∷ _ ↦ bytes_eq n host ];
  pem_encode = λ t der. length t ∷ (t ++ der);
  pem_decode = λ b. elim b [ [] ↦ none | n ∷ rest ↦ some (take n rest, drop n rest) ];
}

abbrev code : File → ℕ
code cert_pem = 0
code key_pem = 1
code ca_pem = 2
code ca_key_pem = 3

abbrev file : ℕ → File
file zero = cert_pem
file (suc zero) = key_pem
file (suc (suc zero)) = ca_pem
file (suc (suc (suc n))) = ca_key_pem

abbrev Files : Type 0
Files = ℕ → Option Bytes

abbrev found : Option Bytes → Result Bytes
found none = err "no such file"
found (some b) = ok b

abbrev put : ℕ → Option Bytes → Files → Files
put f b w g = if nat_eq f g then b else w g

abbrev toy_directory : Directory Files
toy_directory = record {
  mkdir_all = λ w. (ok tt, w);
  read = λ f w. found (w (code f));
  stat = λ f w. elim (w (code f)) [ none ↦ err "no such file" | some b ↦ ok tt ];
  write = λ f b w. (ok tt, put (code f) (some b) w);
  remove = λ f w. put (code f) none w;
}

abbrev random : Random toy_library toy_directory
random = record { ca_key = ok 5; ca_serial = ok 1; leaf_key = ok 6; leaf_serial = ok 2 }

abbrev empty : Files
empty n = none

abbrev host : Bytes
host = str "mist.lan"
