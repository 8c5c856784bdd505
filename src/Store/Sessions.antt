-- ===== src/Store/Sessions.antt =====
-- internal/store/store.go: PutSession, BumpSession and DeleteSession, as Session reads them.
use mist_ui.Base.{
  ℕ, ◌<◌, ◌≡◌, ◌≢◌, inl, inr, none, some, [], ◌∷◌, ◌++◌, arith, if◌then◌else◌, Bytes, bytes_eq,
  bytes_eq_iff, ok, Option-cases,
}
use mist_ui.Store.Database.{
  Bolt, IsLawful, Rfc3339, IsRfc3339, bucket_sessions, Absent, bar, to_second, year_10000,
}
use mist_ui.Store.{
  bytes_cut, put_session, session, read_record, bump_session, bump_record, delete_session,
}

pub bytes_cut-append :
    (xs ys : Bytes) (sep : ℕ) → Absent sep xs → bytes_cut (xs ++ (sep ∷ ys)) sep ≡ some (xs, ys)
unfolding bytes_cut
bytes_cut-append [] ys sep h = ground arith
bytes_cut-append (x ∷ xs) ys sep h = ground (arith, bytes_cut-append xs ys sep h.1)

bytes_cut-Absent :
    (v : Bytes) (sep : ℕ) (xs ys : Bytes) → bytes_cut v sep ≡ some (xs, ys) → Absent sep xs
unfolding bytes_cut
bytes_cut-Absent [] sep xs ys h = cc
bytes_cut-Absent (c ∷ v) sep [] ys h = tt
bytes_cut-Absent (c ∷ v) sep (x ∷ xs) ys h = ground (arith, bytes_cut-Absent v sep xs ys)

module _ (B : Bolt) (L : IsLawful B) (T : Rfc3339) (K : IsRfc3339 T) where
  read_record-append :
      (v : Bytes) (i seen : ℕ)
      → Absent bar v
      → T.parse v ≡ some i
      → seen < year_10000
      → read_record B T (some (v ++ (bar ∷ T.format seen))) ≡ some (i, to_second seen)
  unfolding read_record
  read_record-append v i seen a e hs =
      ground (arith, bytes_cut-append v (T.format seen) bar a, K.parse-format seen hs)

  -- What a read returns after a write of `v` under `token`.
  session-after_put :
      (s t : B.State) (token j v : Bytes)
      → B.put s bucket_sessions token v ≡ ok t
      → B.view s ≡ ok tt
      → B.view t ≡ ok tt
      → token ≢ []
      → session B T t j
        ≡ (if bytes_eq token j then ok (read_record B T (some v)) else session B T s j)
  unfolding session
  session-after_put s t token [] v h vs vt ne = ground (arith, bytes_eq_iff token [])
  session-after_put s t token (c ∷ j) v h vs vt ne =
      ground (arith, L.get-put s t bucket_sessions bucket_sessions token (c ∷ j) v h)

  -- A stored session is found under its token with both of its times, cut to the second, and
  -- every other token keeps its answer; the token is not empty, the times lie before the year
  -- 10000, and the database can be read before and after.
  pub session-put_session :
      (s t : B.State) (token j : Bytes) (issued seen : ℕ)
      → put_session B T s token issued seen ≡ ok t
      → B.view s ≡ ok tt
      → B.view t ≡ ok tt
      → token ≢ []
      → issued < year_10000
      → seen < year_10000
      → session B T t j ≡ (
          if bytes_eq token j
          then ok (some (to_second issued, to_second seen))
          else session B T s j)
  unfolding put_session
  session-put_session s t token j issued seen h vs vt ne hi hs = ground (
    arith,
    session-after_put s t token j _ h vs vt ne,
    read_record-append (T.format issued) (to_second issued) seen (K.format-Absent issued)
        (K.parse-format issued hi) hs,
  )

  read_record-inverse :
      (v : Bytes) (i l : ℕ)
      → read_record B T (some v) ≡ some (i, l)
      → (xs : Bytes) × (ys : Bytes) × (bytes_cut v bar ≡ some (xs, ys)) × (T.parse xs ≡ some i)
  unfolding read_record
  read_record-inverse v i l h = elim (Option-cases (bytes_cut v bar)) [
    | inl e ↦ absurd (ground (arith, e))
    | inr ((xs, ys), e) ↦ (xs, ys, e, ground (arith, e))
  ]

  -- The record that a slide rewrites is one that reads back.
  session-bump_record :
      (s t : B.State) (token j v : Bytes) (issued last seen : ℕ)
      → token ≢ []
      → B.view s ≡ ok tt
      → B.view t ≡ ok tt
      → seen < year_10000
      → read_record B T (some v) ≡ some (issued, last)
      → bump_record B T s token seen (some v) ≡ ok t
      → session B T t j
        ≡ (if bytes_eq token j then ok (some (issued, to_second seen)) else session B T s j)
  unfolding bump_record
  session-bump_record s t token j v issued last seen ne vs vt hs found h =
      let (xs, ys, c, e) = read_record-inverse v issued last found in
      ground (
        arith,
        session-after_put s t token j (xs ++ (bar ∷ T.format seen)) (ground (arith, c)) vs vt ne,
        read_record-append xs issued seen (bytes_cut-Absent v bar xs ys c) e hs,
      )

  session_empty : (s : B.State) (i l : ℕ) → ¬ (session B T s [] ≡ ok (some (i, l)))
  unfolding session
  session_empty s i l h = ground arith

  no_record :
      (s : B.State) (c : ℕ) (token : Bytes) (i l : ℕ)
      → B.get s bucket_sessions (c ∷ token) ≡ none
      → ¬ (session B T s (c ∷ token) ≡ ok (some (i, l)))
  unfolding session read_record
  no_record s c token i l e h = ground arith

  session_found :
      (s : B.State) (c : ℕ) (token : Bytes) (i l : ℕ)
      → session B T s (c ∷ token) ≡ ok (some (i, l))
      → (v : Bytes) × (B.view s ≡ ok tt)
        × (B.get s bucket_sessions (c ∷ token) ≡ some v)
        × (read_record B T (some v) ≡ some (i, l))
  unfolding session
  session_found s c token i l h = elim (Option-cases (B.get s bucket_sessions (c ∷ token))) [
    | inl e ↦ absurd (no_record s c token i l e h)
    | inr (v, e) ↦ (v, ground arith, e, ground (arith, e))
  ]

  -- A slide of a live session moves its last-seen time to `seen`, cut to the second, keeps the
  -- time of issue exactly, and touches no other session.
  pub session-bump_session :
      (s t : B.State) (token j : Bytes) (issued last seen : ℕ)
      → session B T s token ≡ ok (some (issued, last))
      → bump_session B T s token seen ≡ ok t
      → B.view t ≡ ok tt
      → seen < year_10000
      → session B T t j
        ≡ (if bytes_eq token j then ok (some (issued, to_second seen)) else session B T s j)
  unfolding bump_session
  session-bump_session s t [] j issued last seen found h vt hs =
      absurd (session_empty s issued last found)
  session-bump_session s t (c ∷ token) j issued last seen found h vt hs =
      let (v, vs, e, f) = session_found s c token issued last found in
      session-bump_record s t (c ∷ token) j v issued last seen (λ q. cc) vs vt hs f
        (ground (arith, e))

  -- A deleted session is not found, and every other token keeps its answer.
  pub session-delete_session :
      (s t : B.State) (token j : Bytes)
      → delete_session B s token ≡ ok t
      → B.view s ≡ ok tt
      → B.view t ≡ ok tt
      → session B T t j ≡ (if bytes_eq token j then ok none else session B T s j)
  unfolding session delete_session read_record
  session-delete_session s t token [] h vs vt = ground arith
  session-delete_session s t token (c ∷ j) h vs vt =
      ground (arith, L.get-delete s t bucket_sessions bucket_sessions token (c ∷ j) h)
