-- ===== src/HttpApi/Toggles.antt =====
-- internal/httpapi: the handlers that switch the kill switch (netops.go) and encrypted DNS
-- (dnsops.go), and the one that starts and ends a pause (portalmode.go). A request
-- whose body does not decode is `none`.
pub mod Postures
pub mod Companion
use mist_ui.Store.Database.{Bolt}
use mist_ui.Store
use mist_ui.Router.{Connector, Dns}
use mist_ui.Dns.{valid_provider}
use mist_ui.HttpApi.Server.{
  Server, Response, Handler, Outcome, return, value, M, ◌>>=◌, ◌>>◌, pure, exit, gets, modify,
  or_exit, guard, final, store_or_exit, store_ignoring, internal, bad_request, http_error,
  write_json, flag, text,
}
use mist_ui.HttpApi.Portal.{Json, enter_portal_mode, exit_portal_mode, cancel_portal_mode}
use mist_ui.Base.{
  ℕ, zero, suc, ◌+◌, ◌-◌, ◌*◌, ◌/◌, ◌%◌, ◌≤◌, ◌<◌, String, ◌≡◌, refl, sym, ap, subst, ◌∙◌, ◌≢◌, ◌↔◌,
  ◌⊎◌, inl, inr, Bool, true, false, not, ◌&&◌, ◌||◌, Option, none, some, List, [], ◌∷◌, ◌++◌, map,
  arith, if◌then◌else◌, ltb, leb, nat_eq, Bytes, str, bytes_eq, bytes_eq_iff, bytes_eq_refl,
  Bool-cases, Result, ok, err, result_or, Result-cases, Option-cases, length, get_or, take, drop,
  length-append, take-append, drop-append, drop_past, get_or_past, take_part,
}

abbrev pub dns_provider_key : Bytes
dns_provider_key = str "dns_provider"

abbrev pub dns_defaulted_key : Bytes
dns_defaulted_key = str "dns_defaulted"

-- `on, err := f(ctx); err == nil && on`
abbrev pub reads_on : Result Bool → Bool
reads_on (ok on) = on
reads_on (err e) = false

-- A call on the router whose failure ends the handler with `r`.
abbrev pub router_or_exit :
    {D W : Type 0} → (W → Result (Unit {0}) × W) → Response → M (Server D W) (Unit {0})
router_or_exit f r s =
    let (o, w) = f s.world in
    elim o [
      | ok _ ↦ (value tt, record s { world = w })
      | err e ↦ (return r, record s { world = w })
    ]

-- A part that runs only if the state passes a test.
abbrev pub only_if : {S : Type 0} → (S → Bool) → M S (Unit {0}) → M S (Unit {0})
only_if p m s = let rest = m s in if p s then rest else (value tt, s)

abbrev pub bad_gateway : String → Response
bad_gateway msg = http_error msg 502

module _ (B : Bolt) (J : Json) {W : Type 0} (V : Connector W) (N : Dns W) where
  unfoldable pub kill_switch_get : Handler (Server B.State W)
  kill_switch_get s = elim (V.kill_switch s.world) [
    | err e ↦ (bad_gateway "status failed", s)
    | ok on ↦ (write_json 200 (("enabled", flag on) ∷ []), s)
  ]

  unfoldable pub kill_switch_set : Option Bool → Handler (Server B.State W)
  kill_switch_set none s = (bad_request, s)
  kill_switch_set (some on) s = final (
      (do
        router_or_exit (V.set_kill_switch on) (bad_gateway "kill switch change failed")
        only_if (λ t. reads_on (N.enabled t.world))
            (router_or_exit (N.set_fail_closed on)
              (bad_gateway "kill switch changed, but the DNS fail-closed rule failed"))
        modify (cancel_portal_mode B J V N "you changed the kill switch manually")
        pure (write_json 200 (("enabled", flag on) ∷ [])))
        s)

  -- The two branches of dnsSet.
  unfoldable pub switch_dns : Bool → M (Server B.State W) (Unit {0})
  switch_dns true = do
    router_or_exit N.enable (bad_gateway "could not enable encrypted DNS")
    only_if (λ t. reads_on (V.kill_switch t.world))
        (router_or_exit (N.set_fail_closed true)
          (bad_gateway "encrypted DNS is on, but the fail-closed rule failed"))
  switch_dns false = router_or_exit N.disable (bad_gateway "could not disable encrypted DNS")

  unfoldable pub dns_set : Option Bool → Handler (Server B.State W)
  dns_set none s = (bad_request, s)
  dns_set (some on) s = final (
      (do
        switch_dns on
        store_ignoring (λ d. Store.put_config B d dns_defaulted_key (str "user"))
        modify (cancel_portal_mode B J V N "you changed encrypted DNS manually")
        pure (write_json 200 (("enabled", flag on) ∷ [])))
        s)

  -- The marker, once it is there, keeps the default from being applied.
  abbrev marked : Result (Option Bytes) → Bool
  marked (ok (some v)) = true
  marked _ = false

  unfoldable pub apply_dns_default : Server B.State W → Server B.State W
  apply_dns_default s =
      let (o, w) = N.enable s.world in
      let on : Server B.State W = elim o [
        | err e ↦ record s { world = w }
        | ok _ ↦ record s {
          world = w;
          db = result_or (Store.put_config B s.db dns_defaulted_key (str "auto")) s.db;
        }
      ] in
      if marked (Store.config B s.db dns_defaulted_key) then s else on

  -- `set_provider` is the forwarder's SetProvider.
  unfoldable pub dns_provider_set : (Bytes → W → W) → Option Bytes → Handler (Server B.State W)
  dns_provider_set set_provider none s = (http_error "unknown DNS provider" 400, s)
  dns_provider_set set_provider (some key) s = final (
      (do
        guard (valid_provider key) (http_error "unknown DNS provider" 400)
        store_or_exit (λ d. Store.put_config B d dns_provider_key key) internal
        modify (λ t. record t { world = set_provider key t.world })
        pure (write_json 200 (("provider", text key) ∷ [])))
        s)

  -- `now` is the clock when a pause begins.
  unfoldable pub net_portal_mode : ℕ → Option Bool → Handler (Server B.State W)
  net_portal_mode now none s = (bad_request, s)
  net_portal_mode now (some true) s =
      (write_json 200 (("active", flag true) ∷ []), enter_portal_mode B J V N now [] s)
  net_portal_mode now (some false) s = (
    write_json 200 (("active", flag false) ∷ []),
    exit_portal_mode B J V N "protections restored on request" s,
  )
