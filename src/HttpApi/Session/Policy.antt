-- ===== src/HttpApi/Session/Policy.antt =====
-- internal/httpapi/authflow.go, issueSession, sessionValid and logout: the life of a session.
use mist_ui.Store.Database.{Bolt, IsLawful, Rfc3339, IsRfc3339, to_second, year_10000}
use mist_ui.Store.{put_session, session, delete_session}
use mist_ui.Store.Sessions.{session-put_session}
use mist_ui.HttpApi.Server.{Server, Request, session_token, value, Cookie}
use mist_ui.HttpApi.Session.Moves.{Moves, valid_at, absent_at, session-deleted, check-Moves}
use mist_ui.HttpApi.Session.{
  session_valid, settle, is_expired, issue_session, logout, session_idle, session_absolute,
}
use mist_ui.Base.{
  ℕ, ◌+◌, ◌<◌, ◌≡◌, ap, ◌≢◌, ◌⊎◌, inl, inr, Bool, true, false, none, some, List, [], ◌∷◌, arith,
  leb, Bytes, bytes_eq_iff, bytes_eq_refl, ok,
}

-- The session of `tok` is gone, or was issued at `i`.
abbrev pub IssuedAt : (B : Bolt) → Rfc3339 → Bytes → ℕ → B.State → Type 0
IssuedAt B T tok i d =
    (session B T d tok ≡ ok none) ⊎ ((l : ℕ) × (session B T d tok ≡ ok (some (i, l))))

-- The session of `tok` is gone, or has these times.
abbrev pub SeenAt : (B : Bolt) → Rfc3339 → Bytes → ℕ → ℕ → B.State → Type 0
SeenAt B T tok i l d = (session B T d tok ≡ ok none) ⊎ (session B T d tok ≡ ok (some (i, l)))

abbrev pub ArePassive : List (Request × Bool) → Type 0
ArePassive [] = Unit
ArePassive ((_, slide) ∷ rs) = (slide ≡ false) × ArePassive rs

-- All requests are served before the year 10000.
abbrev pub InTime : List (Request × Bool) → Type 0
InTime [] = Unit
InTime ((r, _) ∷ rs) = (r.now < year_10000) × InTime rs

module _ (B : Bolt) (T : Rfc3339) where
  -- The requests that reach the server, each with whether it is a real one or a passive check.
  pub visit_all : {W : Type 0} → List (Request × Bool) → Server B.State W → Server B.State W
  visit_all [] s = s
  visit_all ((r, slide) ∷ rs) s = visit_all rs (session_valid B T s r slide).1

  issued_kept :
      (tok : Bytes) (i : ℕ) (d e : B.State) (slide : Bool) (now : ℕ)
      → IssuedAt B T tok i d
      → Moves B T tok slide now d e
      → IssuedAt B T tok i e
  issued_kept tok i d e slide now h (inl same) = ground arith
  issued_kept tok i d e slide now h (inr (inl gone)) = inl gone
  issued_kept tok i d e slide now (inl h) (inr (inr (on, (i', l, f, g)))) = absurd (ground arith)
  issued_kept tok i d e slide now (inr (l', h)) (inr (inr (on, (i', l, f, g)))) =
      inr (to_second now, ground arith)

  seen_kept :
      (tok : Bytes) (i l : ℕ) (d e : B.State) (slide : Bool) (now : ℕ)
      → slide ≡ false
      → SeenAt B T tok i l d
      → Moves B T tok slide now d e
      → SeenAt B T tok i l e
  seen_kept tok i l d e slide now off h (inl same) = ground arith
  seen_kept tok i l d e slide now off h (inr (inl gone)) = inl gone
  seen_kept tok i l d e slide now off h (inr (inr (on, m))) = absurd (ground arith)

module _ (B : Bolt) (L : IsLawful B) (T : Rfc3339) (K : IsRfc3339 T) {W : Type 0}
    (is_open : (d : B.State) → B.view d ≡ ok tt) where
  issue_session_stored :
      (tok : Bytes) (r : Request) (s t : Server B.State W) (ck : Cookie)
      → issue_session B T (ok tok) r s ≡ (value ck, t)
      → put_session B T s.db tok r.now r.now ≡ ok t.db
  unfolding issue_session
  issue_session_stored tok r s t ck h = ground arith

  -- A session that was issued under a token that is not empty, before the year 10000, in an open
  -- database, is valid, by its cookie alone, for sessionIdle from the second of its issue and not
  -- longer, if nothing is done with it.
  pub session_valid-issue_session :
      (tok : Bytes) (r r' : Request) (s t : Server B.State W) (ck : Cookie) (slide : Bool)
      → issue_session B T (ok tok) r s ≡ (value ck, t)
      → tok ≢ []
      → r.now < year_10000
      → session_token r' ≡ tok
      → (session_valid B T t r' slide).0 ≡ leb r'.now (to_second r.now + session_idle)
  unfolding settle is_expired
  session_valid-issue_session tok r r' s t ck slide h ne hn e =
      let found =
        session-put_session B L T K s.db t.db tok tok r.now r.now
          (issue_session_stored tok r s t ck h) (is_open s.db) (is_open t.db) ne hn hn in
      let here : session B T t.db (session_token r')
          ≡ ok (some (to_second r.now, to_second r.now)) =
        rw e (ground (arith, found, bytes_eq_refl tok)) in
      ground (arith, valid_at B L T K is_open t r' slide (to_second r.now) (to_second r.now) here)

  logout_state :
      (r : Request) (s : Server B.State W) (d : B.State)
      → delete_session B s.db (session_token r) ≡ ok d
      → session_token r ≢ []
      → (logout B T r s).1 ≡ record s { db = d }
  unfolding logout
  logout_state r s d h ne = ground (arith, bytes_eq_iff (session_token r) [])

  -- Logout ends the session of its cookie, which is not empty: if the deletion commits in an open
  -- database, no request with that token is valid, at any time.
  pub logout_revokes :
      (r r' : Request) (s : Server B.State W) (d : B.State) (slide : Bool)
      → delete_session B s.db (session_token r) ≡ ok d
      → session_token r ≢ []
      → session_token r' ≡ session_token r
      → let t = (logout B T r s).1 in session_valid B T t r' slide ≡ (false, t)
  logout_revokes r r' s d slide h ne e = rw (logout_state r s d h ne) (
      absent_at B L T K is_open (record s { db = d }) r' slide
        (rw e (
          ground (
            arith,
            session-deleted B L T K is_open s d (session_token r) (session_token r) h,
            bytes_eq_refl (session_token r),
          ))))

  visit_all-IssuedAt :
      (tok : Bytes) (i : ℕ) (rs : List (Request × Bool)) (s : Server B.State W)
      → InTime rs
      → IssuedAt B T tok i s.db
      → IssuedAt B T tok i (visit_all B T rs s).db
  unfolding visit_all
  visit_all-IssuedAt tok i [] s ht h = h
  visit_all-IssuedAt tok i ((r, slide) ∷ rs) s ht h =
      visit_all-IssuedAt tok i rs (session_valid B T s r slide).1 ht.1 (
        issued_kept B T tok i s.db _ slide r.now h (check-Moves B L T K is_open tok s r slide ht.0))

  expired_answer :
      (s : Server B.State W) (r : Request) (slide : Bool) (i l : ℕ)
      → session B T s.db (session_token r) ≡ ok (some (i, l))
      → is_expired r.now i l ≡ true
      → (session_valid B T s r slide).0 ≡ false
  unfolding settle
  expired_answer s r slide i l found e =
      ground (arith, valid_at B L T K is_open s r slide i l found)

  -- No activity outlives sessionAbsolute: in an open database, after any requests before the year
  -- 10000, real or passive, with any cookies, a session is refused once sessionAbsolute has passed
  -- since its issue.
  pub session_cap :
      (tok : Bytes) (i l : ℕ) (rs : List (Request × Bool)) (s : Server B.State W) (r : Request)
      (slide : Bool)
      → session B T s.db tok ≡ ok (some (i, l))
      → InTime rs
      → session_token r ≡ tok
      → i + session_absolute < r.now
      → (session_valid B T (visit_all B T rs s) r slide).0 ≡ false
  unfolding is_expired
  session_cap tok i l rs s r slide found ht e late =
      elim (visit_all-IssuedAt tok i rs s ht (inr (l, found))) [
        | inl gone ↦
            ap (λ p. p.0) (absent_at B L T K is_open (visit_all B T rs s) r slide (rw e gone))
        | inr (l', h) ↦ expired_answer (visit_all B T rs s) r slide i l' (rw e h) (ground arith)
      ]

  visit_all-SeenAt :
      (tok : Bytes) (i l : ℕ) (rs : List (Request × Bool)) (s : Server B.State W)
      → InTime rs
      → ArePassive rs
      → SeenAt B T tok i l s.db
      → SeenAt B T tok i l (visit_all B T rs s).db
  unfolding visit_all
  visit_all-SeenAt tok i l [] s ht hp h = h
  visit_all-SeenAt tok i l ((r, slide) ∷ rs) s ht hp h =
      visit_all-SeenAt tok i l rs (session_valid B T s r slide).1 ht.1 hp.1 (
        seen_kept B T tok i l s.db _ slide r.now hp.0 h
          (check-Moves B L T K is_open tok s r slide ht.0))

  -- Polling keeps no session alive: in an open database, after passive checks alone, all before
  -- the year 10000, a session is refused once sessionIdle has passed since it was last seen.
  pub session_idle_polling :
      (tok : Bytes) (i l : ℕ) (rs : List (Request × Bool)) (s : Server B.State W) (r : Request)
      (slide : Bool)
      → session B T s.db tok ≡ ok (some (i, l))
      → InTime rs
      → ArePassive rs
      → session_token r ≡ tok
      → l + session_idle < r.now
      → (session_valid B T (visit_all B T rs s) r slide).0 ≡ false
  unfolding is_expired
  session_idle_polling tok i l rs s r slide found ht hp e late =
      elim (visit_all-SeenAt tok i l rs s ht hp (inr found)) [
        | inl gone ↦
            ap (λ p. p.0) (absent_at B L T K is_open (visit_all B T rs s) r slide (rw e gone))
        | inr h ↦ expired_answer (visit_all B T rs s) r slide i l (rw e h) (ground arith)
      ]
