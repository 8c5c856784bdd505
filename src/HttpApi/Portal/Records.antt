-- ===== src/HttpApi/Portal/Records.antt =====
-- internal/httpapi/portalmode.go, portalRecord and savePortalRecord: the persisted record.
use mist_ui.Store.Database.{Bolt, IsLawful, bucket_config}
use mist_ui.Store.{put_config, delete_config, config}
use mist_ui.Store.Config.{config-put_config, config-delete_config}
use mist_ui.HttpApi.Server.{Server}
use mist_ui.HttpApi.Portal.{
  PortalRecord, Json, if_active, read_portal, portal_record, save_portal_record, portal_mode_key,
}
use mist_ui.Base.{
  ◌≡◌, refl, sym, ap, ◌∙◌, true, false, inl, inr, Option, none, some, arith, Bytes, bytes_eq, ok,
  result_or, Result-cases,
}

-- The database is open, and takes writes of the portal record.
pub record IsHealthy (B : Bolt) : Type 0 where
  pub is_open : (d : B.State) → B.view d ≡ ok tt
  pub writes : (d : B.State) (v : Bytes) → (e : B.State) × (put_config B d portal_mode_key v ≡ ok e)
  pub deletes : (d : B.State) → (e : B.State) × (delete_config B d portal_mode_key ≡ ok e)

-- JSON encodes the record, and reads it back as it was (which it does not where the portal's address is
-- not valid UTF-8, or a time is beyond the year 9999).
abbrev pub ReadsBack : Json → PortalRecord → Type 0
ReadsBack J rec = (raw : Bytes) × (J.marshal rec ≡ ok raw) × (J.unmarshal raw ≡ some rec)

if_active-active :
    (o : Option PortalRecord) (rec : PortalRecord) → if_active o ≡ some rec → rec.active ≡ true
if_active-active none rec h = absurd (ground arith)
if_active-active (some q) rec h = ground arith

module _ (B : Bolt) (L : IsLawful B) (H : IsHealthy B) where
  other_key :
      (d e : B.State) (raw key : Bytes)
      → put_config B d portal_mode_key raw ≡ ok e
      → bytes_eq portal_mode_key key ≡ false
      → config B e key ≡ config B d key
  unfolding config put_config
  other_key d e raw key w ne = ground (
    arith,
    H.is_open d,
    H.is_open e,
    w,
    ne,
    L.get-put d e bucket_config bucket_config portal_mode_key key raw w,
  )

module _ (B : Bolt) (L : IsLawful B) (H : IsHealthy B) (J : Json) {W : Type 0} where
  portal_record_at :
      (s : Server B.State W) (o : Option Bytes)
      → B.get s.db bucket_config portal_mode_key ≡ o
      → portal_record B J s ≡ read_portal B J (ok o)
  unfolding portal_record config
  portal_record_at s o e = ap (read_portal B J) (rw (H.is_open s.db) (ap ok e))

  -- A saved record is the record of the state.
  pub portal_record-save :
      (rec : PortalRecord) (s : Server B.State W)
      → ReadsBack J rec
      → rec.active ≡ true
      → portal_record B J (save_portal_record B J rec s) ≡ some rec
  unfolding save_portal_record read_portal
  portal_record-save rec s (raw, m, u) on =
      let (e, w) = H.writes s.db raw in
      rw (m, save_portal_record)
        (rw w (
          portal_record_at (record s { db = e }) (some raw)
            (config-put_config B L s.db e portal_mode_key raw w)
          ∙ rw u (ground (arith, on))))

  -- Deleting the record ends the pause.
  pub portal_record-delete :
      (s : Server B.State W)
      → portal_record B J (record s { db = result_or (delete_config B s.db portal_mode_key) s.db })
        ≡ none
  unfolding read_portal
  portal_record-delete s =
      let (e, w) = H.deletes s.db in
      rw w (
        portal_record_at (record s { db = e }) none
          (config-delete_config B L s.db e portal_mode_key w))

  -- The record of a pause is marked active.
  pub portal_record_active :
      (s : Server B.State W) (rec : PortalRecord)
      → portal_record B J s ≡ some rec
      → rec.active ≡ true
  unfolding read_portal
  portal_record_active s rec h =
      let o = B.get s.db bucket_config portal_mode_key in
      active_read (B.get s.db bucket_config portal_mode_key) rec
        (sym (portal_record_at s o refl) ∙ h)
    where
      active_read :
          (o : Option Bytes) (rec : PortalRecord)
          → read_portal B J (ok o) ≡ some rec
          → rec.active ≡ true
      active_read none rec h = absurd (ground arith)
      active_read (some raw) rec h = if_active-active (J.unmarshal raw) rec h

  -- It is part of the database alone.
  pub portal_record_db :
      (s t : Server B.State W) → s.db ≡ t.db → portal_record B J s ≡ portal_record B J t
  unfolding portal_record
  portal_record_db s t e = ap (λ d. read_portal B J (config B d portal_mode_key)) e

  -- A save leaves the other keys alone.
  pub config-save :
      (rec : PortalRecord) (s : Server B.State W) (key : Bytes)
      → bytes_eq portal_mode_key key ≡ false
      → config B (save_portal_record B J rec s).db key ≡ config B s.db key
  unfolding save_portal_record
  config-save rec s key ne = elim (Result-cases (J.marshal rec)) [
    | inr (m, q) ↦ rw (q, save_portal_record) refl
    | inl (raw, q) ↦
        let (e, w) = H.writes s.db raw in
        rw (q, save_portal_record) (rw w (other_key B L H s.db e raw key w ne))
  ]
