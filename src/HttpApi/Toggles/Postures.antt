-- ===== src/HttpApi/Toggles/Postures.antt =====
-- internal/httpapi: killSwitchSet, dnsSet and applyDNSDefault, and a pause that is on.
use mist_ui.Store.Database.{Bolt, IsLawful, bucket_config}
use mist_ui.Store.{put_config, delete_config, config}
use mist_ui.Store.Config.{config-put_config}
use mist_ui.Router.{Connector, Dns}
use mist_ui.HttpApi.Server.{Server}
use mist_ui.HttpApi.Portal.{
  Json, portal_record, portal_mode_key, cancel_portal_mode, exit_portal_mode,
}
use mist_ui.HttpApi.Portal.Calls.{
  Call, only_when, kill_switch_to, dns_enable, dns_disable, fail_closed_to, perform, AllSucceed,
}
use mist_ui.HttpApi.Portal.Records.{IsHealthy, portal_record-delete, portal_record_db}
use mist_ui.HttpApi.Toggles.{
  kill_switch_set, switch_dns, dns_set, apply_dns_default, dns_defaulted_key, reads_on,
}
use mist_ui.Base.{
  String, List, [], ◌∷◌, ◌≡◌, refl, sym, ap, subst, ◌∙◌, inl, inr, Bool, true, false, none, some,
  arith, Bytes, str, bytes_eq, ok, result_or, Option-cases,
}

module _ (B : Bolt) (L : IsLawful B) (H : IsHealthy B) (J : Json) {W : Type 0} (V : Connector W)
    (N : Dns W) where
  -- Canceling ends the pause without a step on the router.
  pub cancel_ends :
      (reason : String) (s : Server B.State W)
      → let t = cancel_portal_mode B J V N reason s in
        (portal_record B J t ≡ none) × (t.world ≡ s.world)
  unfolding cancel_portal_mode
  cancel_ends reason s = elim (Option-cases (portal_record B J s)) [
    | inl q ↦ rw (q, cancel_portal_mode) (q, refl)
    | inr (rec, q) ↦
        rw (q, cancel_portal_mode)
          (portal_record_db B L H J _ _ refl ∙ portal_record-delete B L H J s, refl)
  ]

  -- No pause is on, and the end of one changes nothing: it cannot undo the user's choice.
  abbrev pub IsOver : Server B.State W → Type 0
  IsOver t = (portal_record B J t ≡ none) × ((note : String) → exit_portal_mode B J V N note t ≡ t)

  exit-IsOver :
      (note : String) (t : Server B.State W)
      → portal_record B J t ≡ none
      → exit_portal_mode B J V N note t ≡ t
  unfolding exit_portal_mode
  exit-IsOver note t h = rw (h, exit_portal_mode) refl

  cancel-IsOver :
      (reason : String) (s : Server B.State W)
      → IsOver (cancel_portal_mode B J V N reason s)
        × ((cancel_portal_mode B J V N reason s).world ≡ s.world)
  cancel-IsOver reason s =
      let (gone, same) = cancel_ends reason s in
      ((gone, λ note. exit-IsOver note (cancel_portal_mode B J V N reason s) gone), same)

  -- The calls of a kill-switch change: the switch, and if encrypted DNS then reads as on, the
  -- fail-closed rule with it.
  abbrev pub kill_switch_calls : Bool → W → List Call
  kill_switch_calls on w =
      kill_switch_to on
      ∷ only_when (reads_on (N.enabled (V.set_kill_switch on w).1)) (fail_closed_to on)

  kill_switch_set_state :
      (on : Bool) (s : Server B.State W)
      → (kill_switch_set B J V N (some on) s).0.status ≡ 200
      → AllSucceed V N (kill_switch_calls on s.world) s.world
        × ((kill_switch_set B J V N (some on) s).1
            ≡ cancel_portal_mode B J V N "you changed the kill switch manually"
                (record s { world = perform V N (kill_switch_calls on s.world) s.world }))
  unfolding kill_switch_set
  kill_switch_set_state on s h = ground arith

  -- A kill-switch change that is answered with 200, in a database that takes its writes: every one of
  -- its calls succeeded, the router is as exactly these calls leave it (the switch as asked, and if
  -- encrypted DNS then reads as on the fail-closed rule with it), and no pause is on, so that the
  -- end of a pause changes nothing any more.
  pub kill_switch_set_sound :
      (on : Bool) (s : Server B.State W)
      → (kill_switch_set B J V N (some on) s).0.status ≡ 200
      → let t = (kill_switch_set B J V N (some on) s).1 in
        let calls = kill_switch_calls on s.world in
        AllSucceed V N calls s.world × (t.world ≡ perform V N calls s.world) × IsOver t
  kill_switch_set_sound on s h =
      let (done, e) = kill_switch_set_state on s h in
      let (over, same) =
        cancel-IsOver "you changed the kill switch manually"
          (record s { world = perform V N (kill_switch_calls on s.world) s.world }) in
      (done, ap (λ t. t.world) e ∙ same, subst IsOver (sym e) over)

  -- The calls of a change of encrypted DNS: its own, and where it goes on and the kill switch then
  -- reads as on, the fail-closed rule.
  abbrev pub dns_calls : Bool → W → List Call
  dns_calls true w =
      dns_enable ∷ only_when (reads_on (V.kill_switch (N.enable w).1)) (fail_closed_to true)
  dns_calls false w = dns_disable ∷ []

  dns_set_state :
      (on : Bool) (s : Server B.State W)
      → (dns_set B J V N (some on) s).0.status ≡ 200
      → AllSucceed V N (dns_calls on s.world) s.world
        × ((dns_set B J V N (some on) s).1
            ≡ cancel_portal_mode B J V N "you changed encrypted DNS manually" (record s {
              world = perform V N (dns_calls on s.world) s.world;
              db = result_or (put_config B s.db dns_defaulted_key (str "user")) s.db;
            }))
  unfolding dns_set switch_dns
  dns_set_state true s h = ground arith
  dns_set_state false s h = ground arith

  -- A change of encrypted DNS that is answered with 200, in a database that takes its writes: every one
  -- of its calls succeeded, the router is as exactly these calls leave it (encrypted DNS as asked,
  -- and where it goes on and the kill switch then reads as on the fail-closed rule too), and no pause
  -- is on, so that the end of a pause changes nothing any more.
  pub dns_set_sound :
      (on : Bool) (s : Server B.State W)
      → (dns_set B J V N (some on) s).0.status ≡ 200
      → let t = (dns_set B J V N (some on) s).1 in
        let calls = dns_calls on s.world in
        AllSucceed V N calls s.world × (t.world ≡ perform V N calls s.world) × IsOver t
  dns_set_sound on s h =
      let (done, e) = dns_set_state on s h in
      let (over, same) = cancel-IsOver "you changed encrypted DNS manually" (record s {
        world = perform V N (dns_calls on s.world) s.world;
        db = result_or (put_config B s.db dns_defaulted_key (str "user")) s.db;
      }) in
      (done, ap (λ t. t.world) e ∙ same, subst IsOver (sym e) over)

  -- The marker that a user's choice writes outlives the end of a pause.
  marker-cancel :
      (reason : String) (s : Server B.State W)
      → config B (cancel_portal_mode B J V N reason s).db dns_defaulted_key
        ≡ config B s.db dns_defaulted_key
  unfolding cancel_portal_mode config delete_config str bytes_eq
  marker-cancel reason s =
      let (e, w) = H.deletes s.db in
      ground (
        arith,
        H.is_open s.db,
        H.is_open e,
        w,
        L.get-delete s.db e bucket_config bucket_config portal_mode_key dns_defaulted_key w,
      )

  apply_dns_default-marked :
      (s : Server B.State W) (v : Bytes)
      → config B s.db dns_defaulted_key ≡ ok (some v)
      → apply_dns_default B J V N s ≡ s
  unfolding apply_dns_default
  apply_dns_default-marked s v h = rw (h, apply_dns_default) refl

  marker-put :
      (s : Server B.State W) (d : B.State)
      → put_config B s.db dns_defaulted_key (str "user") ≡ ok d
      → config B
          (result_or (put_config B s.db dns_defaulted_key (str "user")) s.db)
          dns_defaulted_key
        ≡ ok (some (str "user"))
  unfolding config
  marker-put s d h =
      rw h
        (rw (H.is_open d) (ap ok (config-put_config B L s.db d dns_defaulted_key (str "user") h)))

  -- After a change of encrypted DNS that is answered with 200 and whose marker is stored, the
  -- default is not applied any more: it changes nothing at all.
  pub apply_dns_default-dns_set :
      (on : Bool) (s : Server B.State W) (d : B.State)
      → put_config B s.db dns_defaulted_key (str "user") ≡ ok d
      → (dns_set B J V N (some on) s).0.status ≡ 200
      → apply_dns_default B J V N (dns_set B J V N (some on) s).1 ≡ (dns_set B J V N (some on) s).1
  apply_dns_default-dns_set on s d h k =
      let (_, e) = dns_set_state on s k in
      apply_dns_default-marked (dns_set B J V N (some on) s).1 (str "user")
        (ap (λ t. config B t.db dns_defaulted_key) e ∙ marker-cancel _ _ ∙ marker-put s d h)
