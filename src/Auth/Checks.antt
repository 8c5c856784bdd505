-- ===== src/Auth/Checks.antt =====
-- internal/auth/webauthn.go, VerifyClientData and VerifyAuthData: what a passed check means.
use Prim.Native.Nat.{bit_and}
use mathlib.Core.List.{Mem, mem-cons_self, mem-cons_of_mem}
use mist_ui.Auth.{
  Crypto, ClientData, contains, verify_client_data, verify_auth_data, flag_user_present,
}
use mist_ui.Base.{
  ◌≤◌, ◌≡◌, sym, subst, ◌≢◌, inl, inr, true, some, List, [], ◌∷◌, arith, Bytes, bytes_eq,
  bytes_eq_iff, Bool-cases, ok, Option-cases, length, get_or, take,
}

contains-Mem : (xs : List Bytes) (o : Bytes) → contains xs o ≡ true → Mem o xs
unfolding contains
contains-Mem [] o h = absurd (ground arith)
contains-Mem (x ∷ xs) o h = elim (Bool-cases (bytes_eq o x)) [
  | inl e ↦ subst (λ y. Mem y (x ∷ xs)) (sym ((bytes_eq_iff o x).0 e)) mem-cons_self
  | inr e ↦ mem-cons_of_mem x (contains-Mem xs o (ground (arith, e)))
]

-- The client data is of this ceremony, answers this challenge and comes from an allowed origin.
pub record IsClientData (c : Crypto) (raw ceremony ch : Bytes) (origins : List Bytes) : Type 0 where
  pub cd : ClientData
  pub decodes : c.client_data raw ≡ some cd
  pub is_ceremony : cd.ceremony_type ≡ ceremony
  pub answers : cd.challenge ≡ ch
  pub is_allowed : Mem cd.origin origins

-- The authenticator data is long enough, made for this host, and marks a present user.
pub record IsAuthData (c : Crypto) (auth_data rp_id : Bytes) : Type 0 where
  pub is_long : 37 ≤ length auth_data
  pub is_host : take 32 auth_data ≡ c.sha256 rp_id
  pub is_present : bit_and (get_or auth_data 32 0) flag_user_present ≢ 0

module _ (c : Crypto) where
  pub verify_client_data_sound :
      (raw ceremony ch : Bytes) (origins : List Bytes)
      → verify_client_data c raw ceremony ch origins ≡ ok tt
      → IsClientData c raw ceremony ch origins
  unfolding verify_client_data
  verify_client_data_sound raw ceremony ch origins h = elim (Option-cases (c.client_data raw)) [
    | inl e ↦ absurd (ground (arith, e))
    | inr (cd, e) ↦ record {
      cd = cd;
      decodes = e;
      is_ceremony = (bytes_eq_iff cd.ceremony_type ceremony).0 (ground (arith, e));
      answers = (bytes_eq_iff cd.challenge ch).0 (ground (arith, e));
      is_allowed = contains-Mem origins cd.origin (ground (arith, e));
    }
  ]

  pub verify_auth_data_sound :
      (auth_data rp_id : Bytes)
      → verify_auth_data c auth_data rp_id ≡ ok tt
      → IsAuthData c auth_data rp_id
  unfolding verify_auth_data
  verify_auth_data_sound auth_data rp_id h = record {
    is_long = ground arith;
    is_host = (bytes_eq_iff (take 32 auth_data) (c.sha256 rp_id)).0 (ground arith);
    is_present = λ z. ground (arith, z);
  }
