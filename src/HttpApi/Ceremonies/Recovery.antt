-- ===== src/HttpApi/Ceremonies/Recovery.antt =====
-- internal/httpapi/authflow.go, loginRecovery and recoveryRegenerate, and the hash they keep.
use mist_ui.HttpApi.Ceremonies.{recovery_hash_key, recovery_regenerate}
use mathlib.Core.Option.{some-injective}
use mist_ui.Store.Config.{config-put_session, config-put_config, config-delete_config}
use mist_ui.Store.Database.{IsLawful, bucket_config}
use mist_ui.Store.{config, delete_config, put_config}
use mist_ui.Auth.{Crypto, hash_token}
use mist_ui.Store.Database.{Bolt, Rfc3339}
use mist_ui.Store.{put_session}
use mist_ui.HttpApi.Session.{issue_session}
use mist_ui.HttpApi.Server.{Server, Request, denied}
use mist_ui.HttpApi.Ceremonies.{login_recovery}
use mist_ui.Base.{
  ◌≡◌, refl, sym, ap, ◌∙◌, ◌≢◌, inl, inr, Option, none, some, [], arith, Bytes, bytes_eq_iff,
  bytes_eq_refl, Result, ok, err, Result-cases, Option-cases,
}

-- The code whose hash is stored.
abbrev pub Stored : (B : Bolt) → Crypto → Bytes → B.State → Type 0
Stored B c code d = B.get d bucket_config recovery_hash_key ≡ some (hash_token c code)

module _ (B : Bolt) (L : IsLawful B) (T : Rfc3339) (c : Crypto) (base64 : Bytes → Bytes)
    {W : Type 0} (is_open : (d : B.State) → B.view d ≡ ok tt) where
  pub config-issue_session :
      (fresh : Result Bytes) (r : Request) (s : Server B.State W) (key : Bytes)
      → B.get (issue_session B T fresh r s).1.db bucket_config key ≡ B.get s.db bucket_config key
  unfolding issue_session
  config-issue_session (err e) r s key = refl
  config-issue_session (ok tok) r s key =
      elim (Result-cases (put_session B T s.db tok r.now r.now)) [
        | inl (d, e) ↦ ground (arith, e, config-put_session B L T s.db d tok key r.now r.now e)
        | inr (m, e) ↦ ground (arith, e)
      ]

  -- A recovery login in an open database answers 200 only to a code that is not empty and whose
  -- hash is stored.
  pub login_recovery_sound :
      (body : Option Bytes) (fresh : Result Bytes) (r : Request) (s : Server B.State W)
      → (login_recovery B T c base64 body fresh r s).0.status ≡ 200
      → (code : Bytes) × (body ≡ some code) × (code ≢ []) × Stored B c code s.db
  unfolding login_recovery config
  login_recovery_sound none fresh r s h = absurd (ground arith)
  login_recovery_sound (some code) fresh r s h = (
    code,
    refl,
    ground (arith, bytes_eq_iff code []),
    elim (Option-cases (B.get s.db bucket_config recovery_hash_key)) [
      | inl e ↦ absurd (ground (arith, e, is_open s.db))
      | inr (v, e) ↦ ground (arith, e, is_open s.db, bytes_eq_iff v (hash_token c code))
    ],
  )

  login_recovery_state :
      (code : Bytes) (fresh : Result Bytes) (r : Request) (s : Server B.State W) (d : B.State)
      → code ≢ []
      → Stored B c code s.db
      → delete_config B s.db recovery_hash_key ≡ ok d
      → (login_recovery B T c base64 (some code) fresh r s).1
        ≡ (issue_session B T fresh r (record s { db = d })).1
  unfolding login_recovery config
  login_recovery_state code fresh r s d ne st h =
      ground (arith, is_open s.db, bytes_eq_iff code [], bytes_eq_refl (hash_token c code))

  login_recovery_unset :
      (code : Bytes) (fresh : Result Bytes) (r : Request) (s : Server B.State W)
      → code ≢ []
      → B.get s.db bucket_config recovery_hash_key ≡ none
      → (login_recovery B T c base64 (some code) fresh r s) ≡ (denied, s)
  unfolding login_recovery config
  login_recovery_unset code fresh r s ne e = ground (arith, is_open s.db, bytes_eq_iff code [])

  -- Once a login with the right code has burned it (the delete committed, in an open database),
  -- every code that is not empty is denied, also if that login itself then failed to draw a token or
  -- to store its session.
  pub login_recovery_once :
      (code again : Bytes) (fresh fresh' : Result Bytes) (r r' : Request) (s : Server B.State W)
      (d : B.State)
      → code ≢ []
      → again ≢ []
      → Stored B c code s.db
      → delete_config B s.db recovery_hash_key ≡ ok d
      → (login_recovery B T c base64
          (some again)
          fresh'
          r'
          (login_recovery B T c base64 (some code) fresh r s).1).0
        ≡ denied
  login_recovery_once code again fresh fresh' r r' s d ne ne' st h =
      rw (login_recovery_state code fresh r s d ne st h) (
        ap (λ p. p.0)
          (login_recovery_unset again fresh' r' _ ne' (
            config-issue_session fresh r (record s { db = d }) recovery_hash_key
            ∙ config-delete_config B L s.db d recovery_hash_key h)))

  -- In an open database, a code that is not empty and whose hash is not the stored one is denied,
  -- and changes nothing.
  pub login_recovery_wrong :
      (code : Bytes) (fresh : Result Bytes) (r : Request) (s : Server B.State W)
      → code ≢ []
      → ¬ Stored B c code s.db
      → login_recovery B T c base64 (some code) fresh r s ≡ (denied, s)
  unfolding login_recovery config
  login_recovery_wrong code fresh r s ne wrong =
      elim (Option-cases (B.get s.db bucket_config recovery_hash_key)) [
        | inl e ↦ login_recovery_unset code fresh r s ne e
        | inr (v, e) ↦
            ground
              (arith, e, is_open s.db, bytes_eq_iff code [], bytes_eq_iff v (hash_token c code))
      ]

  recovery_regenerate_stores :
      (code : Bytes) (r : Request) (s : Server B.State W) (d : B.State)
      → put_config B s.db recovery_hash_key (hash_token c code) ≡ ok d
      → Stored B c code (recovery_regenerate B T c base64 (ok code) r s).1.db
  unfolding recovery_regenerate
  recovery_regenerate_stores code r s d h =
      ground (arith, config-put_config B L s.db d recovery_hash_key (hash_token c code) h)

  -- A regenerated code replaces the old one: if the write of its hash commits, in an open database,
  -- that hash is stored, and every code that is not empty and has another hash, such as the old
  -- one, is denied and changes nothing.
  pub recovery_regenerate_replaces :
      (code old : Bytes) (fresh : Result Bytes) (r r' : Request) (s : Server B.State W)
      (d : B.State)
      → put_config B s.db recovery_hash_key (hash_token c code) ≡ ok d
      → old ≢ []
      → hash_token c old ≢ hash_token c code
      → let t = (recovery_regenerate B T c base64 (ok code) r s).1 in
        Stored B c code t.db × (login_recovery B T c base64 (some old) fresh r' t ≡ (denied, t))
  recovery_regenerate_replaces code old fresh r r' s d h ne other =
      let st = recovery_regenerate_stores code r s d h in
      (st, login_recovery_wrong old fresh r' _ ne (λ w. other (some-injective _ _ (sym w ∙ st))))
