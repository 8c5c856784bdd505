-- ===== src/HttpApi/Portal.antt =====
-- internal/httpapi/portalmode.go: the pause of the protections around a captive portal, and the
-- state machine that ends it. JSON is a parameter; the clock readings and the verdicts of
-- the probe are arguments.
pub mod Calls
pub mod Records
pub mod Restore
pub mod Watch
use mist_ui.Store.Database.{Bolt}
use mist_ui.Store
use mist_ui.Router.{Connector, Dns}
use mist_ui.HttpApi.Server.{Server}
use mist_ui.HttpApi.Session.{seconds}
use mist_ui.Base.{
  ℕ, zero, suc, ◌+◌, ◌-◌, ◌*◌, ◌/◌, ◌%◌, ◌≤◌, ◌<◌, String, ◌≡◌, refl, sym, ap, subst, ◌∙◌, ◌≢◌, ◌↔◌,
  ◌⊎◌, inl, inr, Bool, true, false, not, ◌&&◌, ◌||◌, Option, none, some, List, [], ◌∷◌, ◌++◌, map,
  arith, if◌then◌else◌, ltb, leb, nat_eq, Bytes, str, bytes_eq, bytes_eq_iff, bytes_eq_refl,
  Bool-cases, Result, ok, err, ◌>>=◌, ◌>>◌, result_or, Result-cases, Option-cases, length, get_or,
  take, drop, length-append, take-append, drop-append, drop_past, get_or_past, take_part,
}

abbrev pub portal_mode_key : Bytes
portal_mode_key = str "portal_mode"

abbrev pub vpn_summary_key : Bytes
vpn_summary_key = str "vpn_summary"

abbrev pub portal_window : ℕ
portal_window = seconds (10 * 60)

abbrev pub portal_scout_for : ℕ
portal_scout_for = seconds 90

pub record PortalRecord : Type 0 where
  pub active : Bool
  pub since : ℕ
  pub deadline : ℕ
  pub portal_url : Bytes
  pub saved_ks : Bool
  pub saved_dns : Bool

-- The verdict of netcfg.ProbePortal.
pub record PortalStatus : Type 0 where
  pub online : Bool
  pub captive : Bool
  pub portal_url : Bytes

-- json.Marshal and json.Unmarshal of a portalRecord.
pub record Json : Type 0 where
  pub marshal : PortalRecord → Result Bytes
  pub unmarshal : Bytes → Option PortalRecord

-- An active record, if the stored text is one.
abbrev pub if_active : Option PortalRecord → Option PortalRecord
if_active none = none
if_active (some rec) = if rec.active then some rec else none

module _ (B : Bolt) (J : Json) where
  unfoldable pub read_portal : Result (Option Bytes) → Option PortalRecord
  read_portal (err e) = none
  read_portal (ok none) = none
  read_portal (ok (some raw)) = if_active (J.unmarshal raw)

  unfoldable pub portal_record : {W : Type 0} → Server B.State W → Option PortalRecord
  portal_record s = read_portal (Store.config B s.db portal_mode_key)

  -- A failed save is only logged.
  unfoldable pub save_portal_record :
      {W : Type 0} → PortalRecord → Server B.State W → Server B.State W
  save_portal_record rec s = elim (J.marshal rec) [
    | err e ↦ s
    | ok raw ↦ record s { db = result_or (Store.put_config B s.db portal_mode_key raw) s.db }
  ]

module _ (B : Bolt) (J : Json) {W : Type 0} (V : Connector W) (N : Dns W) where
  -- The record of a pause that begins now, or the one of the pause that is on.
  unfoldable pub pause_record : ℕ → Bytes → Server B.State W → Option PortalRecord → PortalRecord
  pause_record now url s (some rec) = record rec {
    deadline = now + portal_window;
    portal_url = if bytes_eq url [] then rec.portal_url else url;
  }
  pause_record now url s none = record {
    active = true;
    since = now;
    deadline = now + portal_window;
    portal_url = url;
    saved_ks = result_or (V.kill_switch s.world) false;
    saved_dns = result_or (N.enabled s.world) false;
  }

  -- The steps on the router, in their order; their errors are only logged.
  unfoldable pub relax : PortalRecord → W → W
  relax rec w =
      let w1 = (V.down w).1 in
      let w2 = if rec.saved_ks then (V.set_kill_switch false w1).1 else w1 in
      if rec.saved_dns then (N.disable w2).1 else w2

  unfoldable pub enter_portal_mode : ℕ → Bytes → Server B.State W → Server B.State W
  enter_portal_mode now url s =
      let rec = pause_record now url s (portal_record B J s) in
      let t = save_portal_record B J rec s in
      record t { world = relax rec t.world; portal_note = some ""; portal_kick = true }

  unfoldable pub restore : Bool → PortalRecord → W → W
  restore has_vpn rec w =
      let w1 = if has_vpn then (V.up w).1 else w in
      let w2 = if rec.saved_ks then (V.set_kill_switch true w1).1 else w1 in
      if rec.saved_dns
      then (let w3 = (N.enable w2).1 in if rec.saved_ks then (N.set_fail_closed true w3).1 else w3)
      else w2

  -- `raw, _ := s.store.Config(vpnSummaryKey); raw != nil`
  abbrev has_summary : Result (Option Bytes) → Bool
  has_summary (ok (some raw)) = true
  has_summary _ = false

  unfoldable pub exit_portal_mode : String → Server B.State W → Server B.State W
  exit_portal_mode note s = elim (portal_record B J s) [
    | none ↦ s
    | some rec ↦ record s {
      world = restore (has_summary (Store.config B s.db vpn_summary_key)) rec s.world;
      db = result_or (Store.delete_config B s.db portal_mode_key) s.db;
      portal_note = some note;
    }
  ]

  -- The note stands for "portal pause canceled — " and the reason.
  unfoldable pub cancel_portal_mode : String → Server B.State W → Server B.State W
  cancel_portal_mode reason s = elim (portal_record B J s) [
    | none ↦ s
    | some rec ↦ record s {
      db = result_or (Store.delete_config B s.db portal_mode_key) s.db;
      portal_note = some reason;
    }
  ]

  -- One round of RunPortalWatch while a pause is on: what the clock reads before the probe, and
  -- the verdict.
  unfoldable pub watch_round : ℕ → PortalStatus → Server B.State W → Server B.State W
  watch_round now p s = elim (portal_record B J s) [
    | none ↦ s
    | some rec ↦
        if ltb rec.deadline now
        then exit_portal_mode "sign-in window expired" s
        else if p.online
        then exit_portal_mode "you're online" s
        else if p.captive
            && not (bytes_eq p.portal_url [])
            && not (bytes_eq p.portal_url rec.portal_url)
        then save_portal_record B J (record rec { portal_url = p.portal_url }) s
        else s
  ]

  -- portalScout from its deadline on: each probe with the clock before it, and the clock when the
  -- pause would begin.
  unfoldable pub portal_scout :
      ℕ → List (ℕ × PortalStatus × ℕ) → Server B.State W → Server B.State W
  portal_scout deadline [] s = s
  portal_scout deadline ((now, p, then_now) ∷ rest) s =
      let on = portal_scout deadline rest s in
      if not (ltb now deadline) then s else elim (portal_record B J s) [
        | some rec ↦ s
        | none ↦
            if p.captive
            then enter_portal_mode then_now p.portal_url s
            else if p.online
            then s
            else on
      ]
