-- ===== src/HttpApi/Session/Moves.antt =====
-- internal/httpapi/authflow.go, sessionValid: its answer, and the records of all sessions after it.
use mist_ui.Store.Database.{Bolt, IsLawful, Rfc3339, IsRfc3339, to_second, year_10000}
use mist_ui.Store.{session, bump_session, delete_session}
use mist_ui.Store.Sessions.{session-bump_session, session-delete_session}
use mist_ui.HttpApi.Server.{Server, Request, session_token}
use mist_ui.HttpApi.Session.{session_valid, settle, is_expired, session_bump_min}
use mist_ui.Base.{
  ℕ, ◌-◌, ◌<◌, String, ◌≡◌, refl, ap, ◌∙◌, ◌⊎◌, inl, inr, Bool, true, false, none, some, arith,
  if◌then◌else◌, ltb, Bytes, bytes_eq, bytes_eq_iff, Bool-cases, ok, err, result_or, Result-cases,
  Option-cases,
}

-- What a check of some session can do to the record of `tok`: nothing, remove it, or, if the
-- check slides, move its last-seen time.
abbrev pub Moves : (B : Bolt) → Rfc3339 → Bytes → Bool → ℕ → B.State → B.State → Type 0
Moves B T tok slide now d e =
    (session B T e tok ≡ session B T d tok)
    ⊎ (session B T e tok ≡ ok none)
    ⊎ ((slide ≡ true)
        × ((i : ℕ) × (l : ℕ) × (session B T d tok ≡ ok (some (i, l)))
            × (session B T e tok ≡ ok (some (i, to_second now)))))

module _ (B : Bolt) (L : IsLawful B) (T : Rfc3339) (K : IsRfc3339 T) {W : Type 0}
    (is_open : (d : B.State) → B.view d ≡ ok tt) where
  pub valid_at :
      (s : Server B.State W) (r : Request) (slide : Bool) (i l : ℕ)
      → session B T s.db (session_token r) ≡ ok (some (i, l))
      → session_valid B T s r slide ≡ settle B T s r slide i l
  unfolding session_valid
  valid_at s r slide i l e = rw (e, session_valid) refl

  failed_at :
      (s : Server B.State W) (r : Request) (slide : Bool) (m : String)
      → session B T s.db (session_token r) ≡ err m
      → session_valid B T s r slide ≡ (false, s)
  unfolding session_valid
  failed_at s r slide m e = rw (e, session_valid) refl

  pub absent_at :
      (s : Server B.State W) (r : Request) (slide : Bool)
      → session B T s.db (session_token r) ≡ ok none
      → session_valid B T s r slide ≡ (false, s)
  unfolding session_valid
  absent_at s r slide e = rw (e, session_valid) refl

  pub session-deleted :
      (s : Server B.State W) (d : B.State) (tok j : Bytes)
      → delete_session B s.db tok ≡ ok d
      → session B T d j ≡ (if bytes_eq tok j then ok none else session B T s.db j)
  session-deleted s d tok j h =
      session-delete_session B L T K s.db d tok j h (is_open s.db) (is_open d)

  expired-Moves :
      (tok : Bytes) (s : Server B.State W) (r : Request) (slide : Bool)
      → Moves B T tok slide r.now s.db (result_or (delete_session B s.db (session_token r)) s.db)
  expired-Moves tok s r slide = elim (Result-cases (delete_session B s.db (session_token r))) [
    | inr (m, e) ↦ rw e (inl refl)
    | inl (d, e) ↦ rw e (ground (arith, session-deleted s d (session_token r) tok e))
  ]

  slide-Moves :
      (tok : Bytes) (s : Server B.State W) (r : Request) (slide : Bool) (i l : ℕ)
      → session B T s.db (session_token r) ≡ ok (some (i, l))
      → r.now < year_10000
      → slide ≡ true
      → Moves B T tok slide r.now s.db
          (result_or (bump_session B T s.db (session_token r) r.now) s.db)
  slide-Moves tok s r slide i l found hn on =
      elim (Result-cases (bump_session B T s.db (session_token r) r.now)) [
        | inr (m, e) ↦ rw e (inl refl)
        | inl (d, e) ↦
            let after =
              session-bump_session B L T K s.db d (session_token r) tok i l r.now found e
                (is_open d) hn in
            elim (Bool-cases (bytes_eq (session_token r) tok)) [
              | inr other ↦ rw e (inl (ground (arith, after, other)))
              | inl same ↦ rw e (
                  inr (
                    inr (
                      on,
                      (
                        i,
                        l,
                        ground (arith, (bytes_eq_iff (session_token r) tok).0 same, found),
                        ground (arith, after, same),
                      ),
                    )))
            ]
      ]

  settle-Moves :
      (tok : Bytes) (s : Server B.State W) (r : Request) (slide : Bool) (i l : ℕ)
      → session B T s.db (session_token r) ≡ ok (some (i, l))
      → r.now < year_10000
      → Moves B T tok slide r.now s.db (settle B T s r slide i l).1.db
  unfolding settle
  settle-Moves tok s r slide i l found hn = elim (Bool-cases (is_expired r.now i l)) [
    | inl e ↦ rw (e, settle) (expired-Moves tok s r slide)
    | inr e ↦ elim (Bool-cases slide) [
      | inr off ↦ rw (e, off, settle) (inl refl)
      | inl on ↦ elim (Bool-cases (ltb session_bump_min (r.now - l))) [
        | inr soon ↦ rw (e, on, soon, settle) (inl refl)
        | inl late ↦ rw (e, on, late, settle) (slide-Moves tok s r true i l found hn refl)
      ]
    ]
  ]

  pub check-Moves :
      (tok : Bytes) (s : Server B.State W) (r : Request) (slide : Bool)
      → r.now < year_10000
      → Moves B T tok slide r.now s.db (session_valid B T s r slide).1.db
  check-Moves tok s r slide hn = elim (Result-cases (session B T s.db (session_token r))) [
    | inr (m, e) ↦ rw (failed_at s r slide m e) (inl refl)
    | inl (o, e) ↦ elim (Option-cases o) [
      | inl q ↦ rw (absent_at s r slide (e ∙ ap ok q)) (inl refl)
      | inr ((i, l), q) ↦
          rw (valid_at s r slide i l (e ∙ ap ok q))
            (settle-Moves tok s r slide i l (e ∙ ap ok q) hn)
    ]
  ]
