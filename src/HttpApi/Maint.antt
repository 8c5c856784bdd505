-- ===== src/HttpApi/Maint.antt =====
-- internal/httpapi/maintops.go: firmware upload and flash, and the factory reset, with the gates
-- that api.go wraps them in. The operations of internal/maint/maint.go, which start sysupgrade and
-- write the image file, are a parameter.
pub mod Gates
use mist_ui.Store.Database.{Bolt, Rfc3339}
use mist_ui.Auth.{Crypto}
use mist_ui.HttpApi.Server.{
  Server, Request, Response, Handler, Outcome, return, value, M, ◌>>=◌, ◌>>◌, pure, exit, gets,
  modify, or_exit, guard, final, bad_request, http_error, write_json, flag, number, label,
}
use mist_ui.HttpApi.Session.{require_session}
use mist_ui.HttpApi.Ceremonies.{require_step_up}
use mist_ui.HttpApi.Toggles.{router_or_exit, bad_gateway}
use mist_ui.Base.{
  ℕ, zero, suc, ◌+◌, ◌-◌, ◌*◌, ◌/◌, ◌%◌, ◌≤◌, ◌<◌, String, ◌≡◌, refl, sym, ap, subst, ◌∙◌, ◌≢◌, ◌↔◌,
  ◌⊎◌, inl, inr, Bool, true, false, not, ◌&&◌, ◌||◌, Option, none, some, List, [], ◌∷◌, ◌++◌, map,
  arith, if◌then◌else◌, ltb, leb, nat_eq, Bytes, str, bytes_eq, bytes_eq_iff, bytes_eq_refl,
  Bool-cases, Result, ok, err, result_or, Result-cases, Option-cases, length, get_or, take, drop,
  length-append, take-append, drop-append, drop_past, get_or_past, take_part,
}

-- SaveImage (of an upload, or of one that breaks off), ImageSize, TestImage, Flash, FactoryReset.
pub record Maint (W : Type 0) : Type 0 where
  pub save_image : Result Bytes → W → Result ℕ × W
  pub image_size : W → ℕ
  pub test_image : W → Result (Unit {0})
  pub flash : W → Result (Unit {0}) × W
  pub factory_reset : W → Result (Unit {0}) × W

-- The answer to an image that sysupgrade refuses; its own words are not kept.
abbrev pub refused_image : Response
refused_image = write_json 422 (("error", label "sysupgrade") ∷ [])

module _ {D W : Type 0} (A : Maint W) where
  unfoldable pub firmware_upload : Result Bytes → Handler (Server D W)
  firmware_upload body s =
      let (o, w) = A.save_image body s.world in
      let t = record s { world = w } in
      elim o [
        | err e ↦ (http_error "upload failed" 400, t)
        | ok n ↦ elim (A.test_image w) [
          | err e ↦ (
            write_json 422
                (("valid", flag false) ∷ ("size", number n) ∷ ("error", label "sysupgrade") ∷ []),
            t,
          )
          | ok _ ↦ (write_json 200 (("valid", flag true) ∷ ("size", number n) ∷ []), t)
        ]
      ]

  unfoldable pub firmware_flash : Request → Handler (Server D W)
  firmware_flash r s = final (
      (do
        guard (not (nat_eq (A.image_size s.world) 0)) (http_error "no image uploaded" 409)
        or_exit (A.test_image s.world) refused_image
        router_or_exit A.flash (bad_gateway "flash failed to start")
        pure (write_json 200 (("flashing", flag true) ∷ [])))
        s)

  unfoldable pub factory_reset : Request → Handler (Server D W)
  factory_reset r s = final (
      (do
        router_or_exit A.factory_reset (bad_gateway "factory reset failed to start")
        pure (write_json 200 (("resetting", flag true) ∷ [])))
        s)

-- The two destructive routes.
module _ (B : Bolt) (T : Rfc3339) (c : Crypto) (base64 : Bytes → Bytes) {W : Type 0}
    (A : Maint W) where
  unfoldable pub serve_flash : Request → Handler (Server B.State W)
  serve_flash r s = require_session B T (require_step_up B T c base64 (firmware_flash A)) r s

  unfoldable pub serve_reset : Request → Handler (Server B.State W)
  serve_reset r s = require_session B T (require_step_up B T c base64 (factory_reset A)) r s
