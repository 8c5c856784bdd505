-- ===== src/Store/Creds.antt =====
-- How the writes of internal/store bear on the credentials bucket.
use mist_ui.Store.Database.{
  Bolt, IsLawful, Rfc3339, bucket_config, bucket_sessions, bucket_creds, bar,
}
use mist_ui.Store.{
  put_session, put_config, delete_config, delete_session, put_credential, bump_session, bump_record,
  bytes_cut,
}
use mist_ui.Base.{
  ℕ, ◌≡◌, inl, inr, Option, none, some, ◌∷◌, ◌++◌, arith, if◌then◌else◌, Bytes, bytes_eq, ok,
  Option-cases,
}

module _ (B : Bolt) (L : IsLawful B) (d e : B.State) (id : Bytes) where
  pub creds-put_session :
      (T : Rfc3339) (tok : Bytes) (i l : ℕ)
      → put_session B T d tok i l ≡ ok e
      → B.get e bucket_creds id ≡ B.get d bucket_creds id
  unfolding put_session
  creds-put_session T tok i l h =
      ground (arith, L.get-put d e bucket_sessions bucket_creds tok id _ h)

  pub creds-delete_session :
      (tok : Bytes)
      → delete_session B d tok ≡ ok e
      → B.get e bucket_creds id ≡ B.get d bucket_creds id
  unfolding delete_session
  creds-delete_session tok h =
      ground (arith, L.get-delete d e bucket_sessions bucket_creds tok id h)

  pub creds-put_config :
      (key v : Bytes)
      → put_config B d key v ≡ ok e
      → B.get e bucket_creds id ≡ B.get d bucket_creds id
  unfolding put_config
  creds-put_config key v h = ground (arith, L.get-put d e bucket_config bucket_creds key id v h)

  pub creds-delete_config :
      (key : Bytes)
      → delete_config B d key ≡ ok e
      → B.get e bucket_creds id ≡ B.get d bucket_creds id
  unfolding delete_config
  creds-delete_config key h = ground (arith, L.get-delete d e bucket_config bucket_creds key id h)

  pub creds-put_credential :
      (k v : Bytes)
      → put_credential B d k v ≡ ok e
      → B.get e bucket_creds id ≡ (if bytes_eq k id then some v else B.get d bucket_creds id)
  unfolding put_credential
  creds-put_credential k v h = ground (arith, L.get-put d e bucket_creds bucket_creds k id v h)

module _ (B : Bolt) (L : IsLawful B) (T : Rfc3339) (d e : B.State) (id tok : Bytes) (seen : ℕ) where
  creds-bump_record :
      (o : Option Bytes)
      → bump_record B T d tok seen o ≡ ok e
      → B.get e bucket_creds id ≡ B.get d bucket_creds id
  unfolding bump_record
  creds-bump_record none h = ground arith
  creds-bump_record (some v) h = elim (Option-cases (bytes_cut v bar)) [
    | inl q ↦ ground (arith, q)
    | inr ((i, l), q) ↦
        ground
          (arith, q, L.get-put d e bucket_sessions bucket_creds tok id (i ++ (bar ∷ T.format seen)))
  ]

  pub creds-bump_session :
      bump_session B T d tok seen ≡ ok e → B.get e bucket_creds id ≡ B.get d bucket_creds id
  unfolding bump_session
  creds-bump_session h = creds-bump_record (B.get d bucket_sessions tok) h
