-- ===== src/Store.antt =====
-- internal/store/store.go: the typed view of the bbolt database. bbolt itself and the time
-- codec of the Go library are parameters (Store/Database.antt); every operation of the store is here.
-- `Open` and `Close` only call bbolt.
pub mod Database
pub mod Sessions
pub mod Config
pub mod Creds
pub mod Memory
use mist_ui.Base.{ℕ, Bytes, List, [], ◌∷◌, ◌++◌, Option, none, some, nat_eq, if◌then◌else◌}
use mist_ui.Base.{Result, ok, ◌>>=◌, ◌>>◌}
use Database.{Bolt, Rfc3339, bucket_creds, bucket_sessions, bucket_config, bar}

-- The parts before and after the first `sep`, or nothing if it does not occur.
unfoldable pub bytes_cut : Bytes → ℕ → Option (Bytes × Bytes)
bytes_cut [] sep = none
bytes_cut (c ∷ b) sep =
    if nat_eq c sep
    then some ([], b)
    else elim (bytes_cut b sep) [ none ↦ none | some (before, after) ↦ some (c ∷ before, after) ]

module _ (B : Bolt) where
  unfoldable pub put_credential : B.State → Bytes → Bytes → Result B.State
  put_credential s id cose = B.put s bucket_creds id cose

  unfoldable pub credential : B.State → Bytes → Result (Option Bytes)
  credential s id = do B.view s; ok (B.get s bucket_creds id)

  unfoldable pub credential_count : B.State → Result ℕ
  credential_count s = do B.view s; ok (B.key_count s bucket_creds)

  unfoldable pub list_credential_ids : B.State → Result (List Bytes)
  list_credential_ids s = do B.view s; ok (B.keys s bucket_creds)

  unfoldable pub put_config : B.State → Bytes → Bytes → Result B.State
  put_config s key val = B.put s bucket_config key val

  unfoldable pub config : B.State → Bytes → Result (Option Bytes)
  config s key = do B.view s; ok (B.get s bucket_config key)

  unfoldable pub delete_config : B.State → Bytes → Result B.State
  delete_config s key = B.delete s bucket_config key

  unfoldable pub delete_session : B.State → Bytes → Result B.State
  delete_session s token = B.delete s bucket_sessions token

module _ (B : Bolt) (T : Rfc3339) where
  unfoldable pub put_session : B.State → Bytes → ℕ → ℕ → Result B.State
  put_session s token issued seen =
      B.put s bucket_sessions token (T.format issued ++ (bar ∷ T.format seen))

  -- The two times of a record, if both parse.
  unfoldable pub read_record : Option Bytes → Option (ℕ × ℕ)
  read_record none = none
  read_record (some v) = elim (bytes_cut v bar) [
    | none ↦ none
    | some (i, s) ↦ elim (T.parse i) [
      | none ↦ none
      | some it ↦ elim (T.parse s) [ none ↦ none | some st ↦ some (it, st) ]
    ]
  ]

  -- `none` is `ok == false`.
  unfoldable pub session : B.State → Bytes → Result (Option (ℕ × ℕ))
  unfolding read_record
  session s [] = ok none
  session s (c ∷ token) = do B.view s; ok (read_record (B.get s bucket_sessions (c ∷ token)))

  -- The write that an `Update` makes if there is a well-formed record; without one it commits
  -- nothing.
  bump_record : B.State → Bytes → ℕ → Option Bytes → Result B.State
  bump_record s token seen none = ok s
  bump_record s token seen (some v) = elim (bytes_cut v bar) [
    | none ↦ ok s
    | some (issued, _) ↦ B.put s bucket_sessions token (issued ++ (bar ∷ T.format seen))
  ]

  unfoldable pub bump_session : B.State → Bytes → ℕ → Result B.State
  unfolding bump_record
  bump_session s token seen = bump_record s token seen (B.get s bucket_sessions token)
