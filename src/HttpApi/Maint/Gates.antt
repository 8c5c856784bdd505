-- ===== src/HttpApi/Maint/Gates.antt =====
-- internal/httpapi/maintops.go and api.go: the route of the firmware flash.
use mist_ui.Store.Database.{Bolt, Rfc3339}
use mist_ui.Store.{session}
use mist_ui.Auth.{Crypto}
use mist_ui.HttpApi.TtlSet.{consume}
use mist_ui.HttpApi.Server.{Server, Request, session_token}
use mist_ui.HttpApi.Session.{require_session, session_valid, settle}
use mist_ui.HttpApi.Ceremonies.{require_step_up}
use mist_ui.HttpApi.Maint.{Maint, firmware_flash, serve_flash}
use mist_ui.Base.{
  ◌≡◌, refl, ◌≢◌, ◌⊎◌, inl, inr, Bool, true, arith, Bytes, Bool-cases, ok, Result-cases,
  Option-cases,
}

module _ (B : Bolt) (T : Rfc3339) (c : Crypto) (base64 : Bytes → Bytes) {W : Type 0}
    (A : Maint W) where
  -- The check of the session touches neither the router nor the credits.
  check_frame :
      (s : Server B.State W) (r : Request) (slide : Bool)
      → ((session_valid B T s r slide).1.world ≡ s.world)
        × ((session_valid B T s r slide).1.step_ups ≡ s.step_ups)
  unfolding session_valid settle
  check_frame s r slide = elim (Result-cases (session B T s.db (session_token r))) [
    | inr (m, e) ↦ rw (e, session_valid) (refl, refl)
    | inl (o, e) ↦ elim (Option-cases o) [
      | inl q ↦ rw (e, q, session_valid) (refl, refl)
      | inr ((i, l), q) ↦ rw (e, q, session_valid) (ground arith)
    ]
  ]

  -- The session is valid, and it holds a live credit.
  abbrev pub IsGranted : Request → Server B.State W → Type 0
  IsGranted r s =
      ((session_valid B T s r true).0 ≡ true)
      × ((consume (session_token r) r.now s.step_ups).0 ≡ true)

  firmware_flash_cases :
      (r : Request) (s : Server B.State W)
      → ((firmware_flash A r s).1.world ≡ s.world)
        ⊎ ((A.image_size s.world ≢ 0)
            × (A.test_image s.world ≡ ok tt)
            × ((firmware_flash A r s).1.world ≡ (A.flash s.world).1))
  unfolding firmware_flash
  firmware_flash_cases r s = ground arith

  step_up_world :
      (r : Request) (s : Server B.State W)
      → ((require_step_up B T c base64 (firmware_flash A) r s).1.world ≡ s.world)
        ⊎ (((consume (session_token r) r.now s.step_ups).0 ≡ true)
            × (A.image_size s.world ≢ 0)
            × (A.test_image s.world ≡ ok tt)
            × ((require_step_up B T c base64 (firmware_flash A) r s).1.world ≡ (A.flash s.world).1))
  unfolding require_step_up
  step_up_world r s =
      let t = record s { step_ups = (consume (session_token r) r.now s.step_ups).1 } in
      ground (arith, firmware_flash_cases r t)

  -- A call of the flash route leaves the router as it was, unless the session is valid and holds a
  -- live step-up credit, an image has been uploaded and sysupgrade accepts it; then the one thing
  -- that happens to the router is the start of the flash.
  pub serve_flash_gated :
      (r : Request) (s : Server B.State W)
      → ((serve_flash B T c base64 A r s).1.world ≡ s.world)
        ⊎ (IsGranted r s
            × (A.image_size s.world ≢ 0)
            × (A.test_image s.world ≡ ok tt)
            × ((serve_flash B T c base64 A r s).1.world ≡ (A.flash s.world).1))
  unfolding serve_flash require_session
  serve_flash_gated r s =
      let (same, credits) = check_frame s r true in
      elim (Bool-cases (session_valid B T s r true).0) [
        | inr e ↦ rw e (inl same)
        | inl e ↦
            rw e (ground (arith, step_up_world r (session_valid B T s r true).1, same, credits))
      ]
