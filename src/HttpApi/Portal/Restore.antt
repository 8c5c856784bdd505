-- ===== src/HttpApi/Portal/Restore.antt =====
-- internal/httpapi/portalmode.go, enterPortalMode and exitPortalMode: what a whole pause does.
use mist_ui.Store.Database.{Bolt, IsLawful}
use mist_ui.Store
use mist_ui.Router.{Connector, Dns}
use mist_ui.HttpApi.Server.{Server}
use mist_ui.HttpApi.Portal.{
  PortalRecord, Json, portal_record, save_portal_record, vpn_summary_key, portal_window,
  pause_record, enter_portal_mode, exit_portal_mode, has_summary,
}
use mist_ui.HttpApi.Portal.Calls.{
  relaxing, restoring, perform, perform-append, relax-perform, restore-perform,
}
use mist_ui.HttpApi.Portal.Records.{
  IsHealthy, ReadsBack, portal_record-save, portal_record-delete, portal_record_active,
  portal_record_db, config-save,
}
use mist_ui.Base.{
  ℕ, ◌+◌, String, ◌≡◌, refl, sym, ap, ◌∙◌, Bool, true, none, some, [], ◌++◌, arith, if◌then◌else◌,
  Bytes, str, bytes_eq, ok,
}

-- The record of a pause that begins now, on a router whose switches read `ks` and `dns`.
abbrev pub fresh_pause : ℕ → Bytes → Bool → Bool → PortalRecord
fresh_pause now url ks dns = record {
  active = true;
  since = now;
  deadline = now + portal_window;
  portal_url = url;
  saved_ks = ks;
  saved_dns = dns;
}

module _ (B : Bolt) (L : IsLawful B) (H : IsHealthy B) (J : Json) {W : Type 0} (V : Connector W)
    (N : Dns W) where
  portal_record-enter :
      (now : ℕ) (url : Bytes) (s : Server B.State W)
      → portal_record B J (enter_portal_mode B J V N now url s)
        ≡ portal_record B J
            (save_portal_record B J (pause_record B J V N now url s (portal_record B J s)) s)
  unfolding enter_portal_mode
  portal_record-enter now url s = portal_record_db B L H J _ _ refl

  pause_record-fresh :
      (now : ℕ) (url : Bytes) (s : Server B.State W) (ks dns : Bool)
      → V.kill_switch s.world ≡ ok ks
      → N.enabled s.world ≡ ok dns
      → pause_record B J V N now url s none ≡ fresh_pause now url ks dns
  unfolding pause_record
  pause_record-fresh now url s ks dns k d = rw (k, d) refl

  -- A pause that begins where none is on records the posture of the moment, with a deadline one
  -- window ahead, if the switches can be read and JSON reads the record back.
  pub enter_fresh :
      (now : ℕ) (url : Bytes) (s : Server B.State W) (ks dns : Bool)
      → portal_record B J s ≡ none
      → V.kill_switch s.world ≡ ok ks
      → N.enabled s.world ≡ ok dns
      → ReadsBack J (fresh_pause now url ks dns)
      → portal_record B J (enter_portal_mode B J V N now url s) ≡ some (fresh_pause now url ks dns)
  enter_fresh now url s ks dns h k d r =
      portal_record-enter now url s
      ∙ rw (h, pause_record-fresh now url s ks dns k d)
          (portal_record-save B L H J (fresh_pause now url ks dns) s r refl)

  -- A second beginning during a pause moves the deadline (and takes over a new address of the
  -- portal), and keeps the posture to restore as the first one found it, if JSON reads the
  -- record back.
  pub enter_again :
      (now : ℕ) (url : Bytes) (s : Server B.State W) (rec : PortalRecord)
      → portal_record B J s ≡ some rec
      → ReadsBack J (record rec {
        deadline = now + portal_window;
        portal_url = if bytes_eq url [] then rec.portal_url else url;
      })
      → portal_record B J (enter_portal_mode B J V N now url s)
        ≡ some (record rec {
          deadline = now + portal_window;
          portal_url = if bytes_eq url [] then rec.portal_url else url;
        })
  unfolding pause_record
  enter_again now url s rec h r =
      portal_record-enter now url s
      ∙ rw (h, pause_record)
          (portal_record-save B L H J _ s r (portal_record_active B L H J s rec h))

  -- Whether a VPN is configured.
  abbrev pub has_vpn : Server B.State W → Bool
  has_vpn s = has_summary B J V N (Store.config B s.db vpn_summary_key)

  -- The end of a pause clears the record and makes exactly the calls that restore it.
  pub exit_restores :
      (note : String) (s : Server B.State W) (rec : PortalRecord)
      → portal_record B J s ≡ some rec
      → let t = exit_portal_mode B J V N note s in
        (portal_record B J t ≡ none) × (t.world ≡ perform V N (restoring (has_vpn s) rec) s.world)
  unfolding exit_portal_mode
  exit_restores note s rec h =
      rw (h, exit_portal_mode)
        (
          portal_record_db B L H J _ _ refl ∙ portal_record-delete B L H J s,
          restore-perform V N B J (has_vpn s) rec s.world,
        )

  pub world-save :
      (rec : PortalRecord) (s : Server B.State W) → (save_portal_record B J rec s).world ≡ s.world
  unfolding save_portal_record
  world-save rec s = ground arith

  pub has_vpn-save :
      (rec : PortalRecord) (s : Server B.State W)
      → has_vpn (save_portal_record B J rec s) ≡ has_vpn s
  unfolding str bytes_eq
  has_vpn-save rec s = ap (has_summary B J V N) (config-save B L H J rec s vpn_summary_key refl)

  world-enter :
      (now : ℕ) (url : Bytes) (s : Server B.State W) (ks dns : Bool)
      → portal_record B J s ≡ none
      → V.kill_switch s.world ≡ ok ks
      → N.enabled s.world ≡ ok dns
      → (enter_portal_mode B J V N now url s).world
        ≡ perform V N (relaxing (fresh_pause now url ks dns)) s.world
  unfolding enter_portal_mode
  world-enter now url s ks dns h k d =
      rw (world-save, h, pause_record-fresh now url s ks dns k d)
        (relax-perform V N B J (fresh_pause now url ks dns) s.world)

  has_vpn-enter :
      (now : ℕ) (url : Bytes) (s : Server B.State W)
      → has_vpn (enter_portal_mode B J V N now url s) ≡ has_vpn s
  unfolding enter_portal_mode
  has_vpn-enter now url s = has_vpn-save (pause_record B J V N now url s (portal_record B J s)) s

  -- A whole pause, where none was on, both switches could be read, JSON reads its record back and the
  -- database takes its writes: the router has been given exactly these calls, in this order, whatever
  -- they returned: the tunnel down, the kill switch off if it was on, encrypted DNS off if it was on; and
  -- then the tunnel up if one is configured, the kill switch on if it was, encrypted DNS on if it was, and
  -- the fail-closed rule on if both were. No pause is on then.
  pub exit-enter :
      (now : ℕ) (url : Bytes) (note : String) (s : Server B.State W) (ks dns : Bool)
      → portal_record B J s ≡ none
      → V.kill_switch s.world ≡ ok ks
      → N.enabled s.world ≡ ok dns
      → ReadsBack J (fresh_pause now url ks dns)
      → let rec = fresh_pause now url ks dns in
        let t = exit_portal_mode B J V N note (enter_portal_mode B J V N now url s) in
        (portal_record B J t ≡ none)
        × (t.world ≡ perform V N (relaxing rec ++ restoring (has_vpn s) rec) s.world)
  exit-enter now url note s ks dns h k d r =
      let rec = fresh_pause now url ks dns in
      let u = enter_portal_mode B J V N now url s in
      let (gone, made) = exit_restores note u rec (enter_fresh now url s ks dns h k d r) in
      (
        gone,
        made
            ∙ ap (λ b. perform V N (restoring b rec) u.world) (has_vpn-enter now url s)
            ∙ ap (perform V N (restoring (has_vpn s) rec)) (world-enter now url s ks dns h k d)
            ∙ sym (perform-append V N (relaxing rec) (restoring (has_vpn s) rec) s.world),
      )
