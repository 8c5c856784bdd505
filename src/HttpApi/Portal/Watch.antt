-- ===== src/HttpApi/Portal/Watch.antt =====
-- internal/httpapi/portalmode.go, RunPortalWatch and portalScout, as sequences of rounds.
use mist_ui.Store.Database.{Bolt, IsLawful}
use mist_ui.Router.{Connector, Dns}
use mist_ui.HttpApi.Server.{Server}
use mist_ui.HttpApi.Portal.{
  PortalRecord, PortalStatus, Json, portal_record, watch_round, portal_scout,
}
use mist_ui.HttpApi.Portal.Records.{IsHealthy, ReadsBack, portal_record-save, portal_record_active}
use mist_ui.HttpApi.Portal.Calls.{restoring, perform}
use mist_ui.HttpApi.Portal.Restore.{exit_restores, world-save, has_vpn, has_vpn-save}
use mist_ui.Base.{
  ℕ, ◌≡◌, refl, subst, inl, inr, Bool, true, false, not, ◌&&◌, ◌||◌, none, some, List, [], ◌∷◌,
  arith, ltb, Bytes, bytes_eq, Bool-cases,
}

-- The rounds of the watch that find the pause on, in order.
pub watch_all :
    (B : Bolt) (J : Json) {W : Type 0} (V : Connector W) (N : Dns W)
    → List (ℕ × PortalStatus)
    → Server B.State W
    → Server B.State W
watch_all B J V N [] s = s
watch_all B J V N ((now, p) ∷ rounds) s = watch_all B J V N rounds (watch_round B J V N now p s)

-- A round at which the pause has to end: its deadline is over, or the router is online.
abbrev pub ends : ℕ → ℕ × PortalStatus → Bool
ends deadline (now, p) = ltb deadline now || p.online

abbrev pub some_ends : ℕ → List (ℕ × PortalStatus) → Bool
some_ends deadline [] = false
some_ends deadline (r ∷ rounds) = ends deadline r || some_ends deadline rounds

online_of_ends :
    (deadline now : ℕ) (p : PortalStatus)
    → ltb deadline now ≡ false
    → ends deadline (now, p) ≡ true
    → p.online ≡ true
online_of_ends deadline now p early e = ground arith

not_ended :
    (deadline now : ℕ) (p : PortalStatus)
    → ends deadline (now, p) ≡ false
    → (ltb deadline now ≡ false) × (p.online ≡ false)
not_ended deadline now p e = ground arith

module _ (B : Bolt) (L : IsLawful B) (H : IsHealthy B) (J : Json) {W : Type 0} (V : Connector W)
    (N : Dns W) where
  -- The pause is over, and the router was given exactly the calls that restore it.
  abbrev pub IsRestored : Bool → PortalRecord → W → Server B.State W → Type 0
  IsRestored vpn rec w t =
      (portal_record B J t ≡ none) × (t.world ≡ perform V N (restoring vpn rec) w)

  -- JSON reads the record back with every address of a portal that the rounds report.
  abbrev pub AllReadBack : PortalRecord → List (ℕ × PortalStatus) → Type 0
  AllReadBack rec [] = Unit
  AllReadBack rec ((now, p) ∷ rounds) =
      ReadsBack J (record rec { portal_url = p.portal_url }) × AllReadBack rec rounds

  watch_round_idle :
      (now : ℕ) (p : PortalStatus) (s : Server B.State W)
      → portal_record B J s ≡ none
      → watch_round B J V N now p s ≡ s
  unfolding watch_round
  watch_round_idle now p s h = rw (h, watch_round) refl

  watch_all_idle :
      (rounds : List (ℕ × PortalStatus)) (s : Server B.State W)
      → portal_record B J s ≡ none
      → watch_all B J V N rounds s ≡ s
  unfolding watch_all
  watch_all_idle [] s h = refl
  watch_all_idle ((now, p) ∷ rounds) s h =
      rw (watch_round_idle now p s h) (watch_all_idle rounds s h)

  round_ends :
      (now : ℕ) (p : PortalStatus) (s : Server B.State W) (rec : PortalRecord)
      → portal_record B J s ≡ some rec
      → ends rec.deadline (now, p) ≡ true
      → IsRestored (has_vpn B L H J V N s) rec s.world (watch_round B J V N now p s)
  unfolding watch_round
  round_ends now p s rec h e = elim (Bool-cases (ltb rec.deadline now)) [
    | inl late ↦
        rw (h, late, watch_round) (exit_restores B L H J V N "sign-in window expired" s rec h)
    | inr early ↦
        rw (h, early, watch_round)
          (rw (online_of_ends rec.deadline now p early e)
            (exit_restores B L H J V N "you're online" s rec h))
  ]

  -- A round that does not end the pause keeps the posture and the deadline of its record.
  round_goes_on :
      (now : ℕ) (p : PortalStatus) (s : Server B.State W) (rec : PortalRecord)
      → portal_record B J s ≡ some rec
      → ReadsBack J (record rec { portal_url = p.portal_url })
      → ends rec.deadline (now, p) ≡ false
      → (url : Bytes) × (portal_record B J (watch_round B J V N now p s)
          ≡ some (record rec { portal_url = url }))
  unfolding watch_round
  round_goes_on now p s rec h st e =
      elim (Bool-cases (
        p.captive
        && not (bytes_eq p.portal_url [])
        && not (bytes_eq p.portal_url rec.portal_url))) [
          | inl new ↦ (
            p.portal_url,
            rw
                (
                  h,
                  (not_ended rec.deadline now p e).0,
                  (not_ended rec.deadline now p e).1,
                  watch_round,
                )
                (rw new (
                  portal_record-save B L H J (record rec { portal_url = p.portal_url }) s st
                    (portal_record_active B L H J s rec h))),
          )
          | inr old ↦ (
            rec.portal_url,
            rw
                (
                  h,
                  (not_ended rec.deadline now p e).0,
                  (not_ended rec.deadline now p e).1,
                  watch_round,
                )
                (rw old h),
          )
        ]

  world_goes_on :
      (now : ℕ) (p : PortalStatus) (s : Server B.State W) (rec : PortalRecord)
      → portal_record B J s ≡ some rec
      → ends rec.deadline (now, p) ≡ false
      → (watch_round B J V N now p s).world ≡ s.world
  unfolding watch_round
  world_goes_on now p s rec h e =
      ground (arith, h, world-save B L H J V N (record rec { portal_url = p.portal_url }) s)

  vpn_goes_on :
      (now : ℕ) (p : PortalStatus) (s : Server B.State W) (rec : PortalRecord)
      → portal_record B J s ≡ some rec
      → ends rec.deadline (now, p) ≡ false
      → has_vpn B L H J V N (watch_round B J V N now p s) ≡ has_vpn B L H J V N s
  unfolding watch_round
  vpn_goes_on now p s rec h e =
      ground (arith, h, has_vpn-save B L H J V N (record rec { portal_url = p.portal_url }) s)

  -- A pause whose deadline or whose end of captivity is among the rounds of the watch is over
  -- after them, if the database takes its writes and JSON reads the record back with the addresses that
  -- the rounds report: the record is gone, and the router was given exactly these calls, once and whatever they returned: the
  -- tunnel up if one is configured, the kill switch and encrypted DNS on if the pause had switched them
  -- off, and the fail-closed rule if both were on.
  pub watch_all_restores :
      (rounds : List (ℕ × PortalStatus)) (s : Server B.State W) (rec : PortalRecord)
      → portal_record B J s ≡ some rec
      → AllReadBack rec rounds
      → some_ends rec.deadline rounds ≡ true
      → IsRestored (has_vpn B L H J V N s) rec s.world (watch_all B J V N rounds s)
  unfolding watch_all
  watch_all_restores [] s rec h st e = absurd (ground arith)
  watch_all_restores ((now, p) ∷ rounds) s rec h st e =
      elim (Bool-cases (ends rec.deadline (now, p))) [
        | inl last ↦
            let q = round_ends now p s rec h last in
            rw (watch_all_idle rounds (watch_round B J V N now p s) q.0) q
        | inr more ↦
            let t = watch_round B J V N now p s in
            let (url, k) = round_goes_on now p s rec h st.0 more in
            subst (λ b. IsRestored b rec s.world (watch_all B J V N rounds t))
              (vpn_goes_on now p s rec h more)
              (subst (λ w. IsRestored (has_vpn B L H J V N t) rec w (watch_all B J V N rounds t))
                (world_goes_on now p s rec h more)
                (watch_all_restores rounds t (record rec { portal_url = url }) k st.1
                  (ground arith)))
      ]

  -- The scout: nothing happens unless some probe is captive.
  abbrev pub some_captive : List (ℕ × PortalStatus × ℕ) → Bool
  some_captive [] = false
  some_captive ((now, p, t) ∷ rest) = p.captive || some_captive rest

  -- Without a captive verdict among its probes, the scout of a new uplink leaves the server and the
  -- router alone.
  pub portal_scout_quiet :
      (deadline : ℕ) (probes : List (ℕ × PortalStatus × ℕ)) (s : Server B.State W)
      → some_captive probes ≡ false
      → portal_scout B J V N deadline probes s ≡ s
  unfolding portal_scout
  portal_scout_quiet deadline [] s h = refl
  portal_scout_quiet deadline ((now, p, t) ∷ rest) s h =
      ground (arith, portal_scout_quiet deadline rest s)
