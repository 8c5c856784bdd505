-- ===== src/HttpApi/Session.antt =====
-- internal/httpapi: the session policy (authflow.go: issueSession, sessionValid, logout) and its
-- gate (api.go: requireSession, session).
pub mod Moves
pub mod Policy
use mist_ui.Store.Database.{Bolt, Rfc3339}
use mist_ui.Store.{put_session, session, bump_session, delete_session}
use mist_ui.Store
use mist_ui.HttpApi.Server.{
  Server, Request, Response, Cookie, keep_cookie, set_cookie, clear_cookie, Value, flag, Outcome,
  return, value, M, ◌>>=◌, ◌>>◌, pure, exit, gets, modify, or_exit, guard, final, store_or_exit,
  store_ignoring, internal, http_error, write_json, session_token, Handler,
}
use mist_ui.Base.{
  ℕ, zero, suc, ◌+◌, ◌-◌, ◌*◌, ◌/◌, ◌%◌, ◌≤◌, ◌<◌, String, ◌≡◌, refl, sym, ap, subst, ◌∙◌, ◌≢◌, ◌↔◌,
  ◌⊎◌, inl, inr, Bool, true, false, not, ◌&&◌, ◌||◌, Option, none, some, List, [], ◌∷◌, ◌++◌, map,
  arith, if◌then◌else◌, ltb, leb, nat_eq, Bytes, str, bytes_eq, bytes_eq_iff, bytes_eq_refl,
  Bool-cases, Result, ok, err, result_or, Result-cases, Option-cases, length, get_or, take, drop,
  length-append, take-append, drop-append,
}

abbrev pub seconds : ℕ → ℕ
seconds n = n * 1_000_000_000

abbrev pub session_idle : ℕ
session_idle = seconds (15 * 60)

abbrev pub session_absolute : ℕ
session_absolute = seconds (12 * 60 * 60)

abbrev pub session_bump_min : ℕ
session_bump_min = seconds 30

-- `now.After(seen.Add(sessionIdle)) || now.After(issued.Add(sessionAbsolute))`
unfoldable pub is_expired : ℕ → ℕ → ℕ → Bool
is_expired now issued seen = ltb (seen + session_idle) now || ltb (issued + session_absolute) now

module _ (B : Bolt) {W : Type 0} where
  unfoldable pub provisioned : Server B.State W → Bool
  provisioned s = ltb 0 (result_or (Store.credential_count B s.db) 0)

  unfoldable pub health : Handler (Server B.State W)
  unfolding provisioned
  health s = (write_json 200 (("ok", flag true) ∷ ("provisioned", flag (provisioned s)) ∷ []), s)

module _ (B : Bolt) (T : Rfc3339) {W : Type 0} where
  -- The state after an answer for a session that was found with its times.
  unfoldable pub settle : Server B.State W → Request → Bool → ℕ → ℕ → Bool × Server B.State W
  unfolding is_expired
  settle s r slide issued seen =
      if is_expired r.now issued seen
      then (false, record s { db = result_or (delete_session B s.db (session_token r)) s.db })
      else (
        true,
        (if slide && ltb session_bump_min (r.now - seen)
            then record s { db = result_or (bump_session B T s.db (session_token r) r.now) s.db }
            else s),
      )

  unfoldable pub session_valid : Server B.State W → Request → Bool → Bool × Server B.State W
  unfolding is_expired
  session_valid s r slide = elim (session B T s.db (session_token r)) [
    | err e ↦ (false, s)
    | ok o ↦ elim o [ none ↦ (false, s) | some (issued, seen) ↦ settle s r slide issued seen ]
  ]

  abbrev pub check_session : Request → Bool → M (Server B.State W) Bool
  check_session r slide s = let (valid, t) = session_valid s r slide in (value valid, t)

  -- `fresh` is the outcome of auth.NewToken. The value is the cookie that is set.
  unfoldable pub issue_session : Result Bytes → Request → M (Server B.State W) Cookie
  issue_session fresh r = do
    tok ← or_exit fresh internal
    store_or_exit (λ d. put_session B T d tok r.now r.now) internal
    pure (set_cookie tok (r.now + session_absolute))

  unfoldable pub logout : Request → Handler (Server B.State W)
  logout r s =
      let tok = session_token r in
      (
        record (write_json 200 (("ok", flag true) ∷ [])) { cookie = clear_cookie },
        (if bytes_eq tok []
            then s
            else record s { db = result_or (delete_session B s.db tok) s.db }),
      )

  unfoldable pub require_session :
      (Request → Handler (Server B.State W)) → Request → Handler (Server B.State W)
  require_session next r s =
      let (valid, t) = session_valid s r true in
      if valid then next r t else (http_error "unauthorized" 401, t)

  unfoldable pub session_get : Request → Handler (Server B.State W)
  session_get r s =
      let (valid, t) = session_valid s r false in
      (write_json 200 (("authenticated", flag valid) ∷ []), t)
