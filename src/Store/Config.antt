-- ===== src/Store/Config.antt =====
-- How the writes of internal/store bear on the config bucket.
use mist_ui.Store.Database.{Bolt, IsLawful, Rfc3339, bucket_config, bucket_sessions}
use mist_ui.Store.{put_session, put_config, delete_config}
use mist_ui.Base.{ℕ, ◌≡◌, none, some, arith, Bytes, bytes_eq_refl, ok}

module _ (B : Bolt) (L : IsLawful B) (T : Rfc3339) where
  pub config-put_session :
      (d e : B.State) (tok key : Bytes) (issued seen : ℕ)
      → put_session B T d tok issued seen ≡ ok e
      → B.get e bucket_config key ≡ B.get d bucket_config key
  unfolding put_session
  config-put_session d e tok key issued seen h =
      ground (arith, L.get-put d e bucket_sessions bucket_config tok key _ h)

module _ (B : Bolt) (L : IsLawful B) where
  pub config-delete_config :
      (d e : B.State) (key : Bytes)
      → delete_config B d key ≡ ok e
      → B.get e bucket_config key ≡ none
  unfolding delete_config
  config-delete_config d e key h =
      ground (arith, L.get-delete d e bucket_config bucket_config key key h, bytes_eq_refl key)

  pub config-put_config :
      (d e : B.State) (key v : Bytes)
      → put_config B d key v ≡ ok e
      → B.get e bucket_config key ≡ some v
  unfolding put_config
  config-put_config d e key v h =
      ground (arith, L.get-put d e bucket_config bucket_config key key v h, bytes_eq_refl key)
