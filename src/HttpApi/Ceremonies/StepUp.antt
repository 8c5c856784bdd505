-- ===== src/HttpApi/Ceremonies/StepUp.antt =====
-- internal/httpapi/authflow.go, stepUpFinish and requireStepUp: the credits.
use mist_ui.HttpApi.Ceremonies.{require_step_up}
use mist_ui.HttpApi.Ceremonies.Login.{Verified, verify_login_sound, verify_login_refuses}
use mist_ui.Auth.{Crypto}
use mist_ui.Store.Database.{Bolt, Rfc3339}
use mist_ui.HttpApi.TtlSet.{consume-grant, consume, grant, consume_once}
use mist_ui.HttpApi.Server.{
  Server, Request, Response, flag, return, value, write_json, session_token, Handler, Outcome-cases,
}
use mist_ui.HttpApi.Ceremonies.{LoginReq, verify_login, step_up_finish}
use mist_ui.Base.{
  ◌+◌, ◌<◌, ◌≡◌, refl, ◌≢◌, ◌⊎◌, inl, inr, true, false, Option, none, some, [], ◌∷◌, arith, Bytes,
  bytes_eq_refl, Bool-cases,
}

module _ (B : Bolt) (T : Rfc3339) (c : Crypto) (base64 : Bytes → Bytes) {W : Type 0} where
  step_ups-verify_login :
      (body : Option LoginReq) (r : Request) (s : Server B.State W)
      → (verify_login B T c base64 body r s).1.step_ups ≡ s.step_ups
  unfolding verify_login
  step_ups-verify_login none r s = refl
  step_ups-verify_login (some req) r s = ground arith

  step_up_passed :
      (body : Option LoginReq) (r : Request) (s : Server B.State W)
      → (step_up_finish B T c base64 body r s).0.status ≡ 200
      → (verify_login B T c base64 body r s).0 ≡ value tt
  unfolding step_up_finish
  step_up_passed body r s h = elim (Outcome-cases (verify_login B T c base64 body r s).0) [
    | inl (a, e) ↦ e
    | inr (resp, e) ↦ absurd (verify_login_refuses B T c base64 body r s resp e (ground (arith, e)))
  ]

  step_ups-step_up_finish :
      (body : Option LoginReq) (r : Request) (s : Server B.State W)
      → (step_up_finish B T c base64 body r s).0.status ≡ 200
      → (step_up_finish B T c base64 body r s).1.step_ups ≡ grant (session_token r) r.now s.step_ups
  unfolding step_up_finish
  step_ups-step_up_finish body r s h =
      ground (arith, step_up_passed body r s h, step_ups-verify_login body r s)

  step_ups_refused :
      (body : Option LoginReq) (r : Request) (s : Server B.State W) (resp : Response)
      → (verify_login B T c base64 body r s).0 ≡ return resp
      → (step_up_finish B T c base64 body r s).1.step_ups ≡ s.step_ups
  unfolding step_up_finish
  step_ups_refused body r s resp h = ground (arith, step_ups-verify_login body r s)

  step_up_refused :
      (body : Option LoginReq) (r : Request) (s : Server B.State W) (resp : Response)
      → (verify_login B T c base64 body r s).0 ≡ return resp
      → (step_up_finish B T c base64 body r s).0.status ≢ 200
  unfolding step_up_finish
  step_up_refused body r s resp h =
      ground (arith, verify_login_refuses B T c base64 body r s resp h)

  step_up_ok :
      (body : Option LoginReq) (r : Request) (s : Server B.State W)
      → (verify_login B T c base64 body r s).0 ≡ value tt
      → (step_up_finish B T c base64 body r s).0.status ≡ 200
  unfolding step_up_finish
  step_up_ok body r s h = ground arith

  step_ups-gate :
      (next : Request → Handler (Server B.State W)) (r : Request) (s : Server B.State W)
      → ((q : Request) (u : Server B.State W) → (next q u).1.step_ups ≡ u.step_ups)
      → (require_step_up B T c base64 next r s).1.step_ups
        ≡ (consume (session_token r) r.now s.step_ups).1
  unfolding require_step_up
  step_ups-gate next r s keeps = elim (Bool-cases (consume (session_token r) r.now s.step_ups).0) [
    | inl e ↦ rw e (keeps r _)
    | inr e ↦ rw e refl
  ]

  gate_opens :
      (next : Request → Handler (Server B.State W)) (r : Request) (s : Server B.State W)
      → (consume (session_token r) r.now s.step_ups).0 ≡ true
      → require_step_up B T c base64 next r s
        ≡ next r (record s { step_ups = (consume (session_token r) r.now s.step_ups).1 })
  unfolding require_step_up
  gate_opens next r s h = rw h refl

  gate_shuts :
      (next : Request → Handler (Server B.State W)) (r : Request) (s : Server B.State W)
      → (consume (session_token r) r.now s.step_ups).0 ≡ false
      → require_step_up B T c base64 next r s ≡ (
        write_json 428 (("stepUpRequired", flag true) ∷ []),
        record s { step_ups = (consume (session_token r) r.now s.step_ups).1 },
      )
  unfolding require_step_up
  gate_shuts next r s h = rw h refl

  -- A step-up that answers 200 passed every check of a login, with a fresh challenge and a
  -- registered key; with any other answer the credits are as they were.
  pub step_up_finish_sound :
      (body : Option LoginReq) (r : Request) (s : Server B.State W)
      → ((step_up_finish B T c base64 body r s).0.status ≡ 200
          × ((req : LoginReq) × (body ≡ some req) × Verified B T c base64 req r s))
        ⊎ (((step_up_finish B T c base64 body r s).0.status ≢ 200)
            × ((step_up_finish B T c base64 body r s).1.step_ups ≡ s.step_ups))
  step_up_finish_sound body r s = elim (Outcome-cases (verify_login B T c base64 body r s).0) [
    | inl (a, e) ↦ inl (
      step_up_ok body r s e,
      verify_login_sound B T c base64 body r s (verify_login B T c base64 body r s).1
          (ground (arith, e)),
    )
    | inr (resp, e) ↦ inr (step_up_refused body r s resp e, step_ups_refused body r s resp e)
  ]

  -- After a step-up that answered 200, the gate lets this session's next destructive call
  -- through as long as it comes within the lifetime of a credit, and has spent the credit then.
  pub step_up_opens :
      (body : Option LoginReq) (r r' : Request) (s : Server B.State W)
      (next : Request → Handler (Server B.State W))
      → (step_up_finish B T c base64 body r s).0.status ≡ 200
      → session_token r' ≡ session_token r
      → r'.now < r.now + s.step_ups.ttl
      → let t = (step_up_finish B T c base64 body r s).1 in
        require_step_up B T c base64 next r' t
        ≡ next r' (record t { step_ups = (consume (session_token r) r'.now t.step_ups).1 })
  step_up_opens body r r' s next h same soon = rw (← same) (
      gate_opens next r' _ (
        rw (step_ups-step_up_finish body r s h, same)
          (consume-grant s.step_ups (session_token r) r.now r'.now soon)))

  -- Two gated calls of one session with no step-up between them: the second is answered 428
  -- and its handler does not run, whatever the first one was answered. The first handler grants no
  -- credits.
  pub step_up_once :
      (next next' : Request → Handler (Server B.State W)) (r r' : Request) (s : Server B.State W)
      → ((q : Request) (u : Server B.State W) → (next q u).1.step_ups ≡ u.step_ups)
      → session_token r' ≡ session_token r
      → let t = (require_step_up B T c base64 next r s).1 in
        require_step_up B T c base64 next' r' t ≡ (
          write_json 428 (("stepUpRequired", flag true) ∷ []),
          record t { step_ups = (consume (session_token r') r'.now t.step_ups).1 },
        )
  step_up_once next next' r r' s keeps same = gate_shuts next' r' _ (
      rw (step_ups-gate next r s keeps, same)
        (ground (
          arith,
          consume_once s.step_ups (session_token r) (session_token r) r.now r'.now,
          bytes_eq_refl (session_token r),
        )))
