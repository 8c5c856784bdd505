-- ===== src/HttpApi/Joins/Quiet.antt =====
-- internal/httpapi/netops.go, wifiJoinUplink, and the daily rotation after it.
use mist_ui.Store.Database.{Bolt, IsLawful, Rfc3339, IsRfc3339, to_second, year_10000}
use mist_ui.Store.{put_config}
use mist_ui.Netcfg.Identity.{Identity, Profile, Raw, generate_identity}
use mist_ui.HttpApi.Server.{Server, Request}
use mist_ui.HttpApi.Privacy.{
  mac_last_roll_key, one_day, mac_schedule, mac_profile, is_recent, mac_tick,
}
use mist_ui.HttpApi.Privacy.Rolls.{tick_recent, recent_text, last_roll}
use mist_ui.HttpApi.Joins.{choose_identity, note_join, wifi_join_uplink}
use mist_ui.Base.{
  ℕ, ◌+◌, ◌<◌, ◌≡◌, ap, ◌∙◌, ◌≢◌, inl, inr, true, false, Option, none, some, List, [], arith, Bytes,
  str, bytes_eq, Result, ok, Result-cases,
}

module _ (B : Bolt) (L : IsLawful B) (T : Rfc3339) (K : IsRfc3339 T) (table : List Profile)
    {W : Type 0} (apply : Identity → W → Result (Unit {0}) × W)
    (join : Bytes → Bytes → Option Identity → W → Result (Unit {0}) × W)
    (is_open : (d : B.State) → B.view d ≡ ok tt) where
  -- What a join that is answered with 200 leaves, under a schedule that is not off.
  joined_state :
      (random : Result Raw) (r : Request) (body : Option (Bytes × Bytes)) (s : Server B.State W)
      (d : B.State)
      → bytes_eq (mac_schedule B s) (str "off") ≡ false
      → put_config B s.db mac_last_roll_key (T.format r.now) ≡ ok d
      → (wifi_join_uplink B T table join random r body s).0.status ≡ 200
      → ((wifi_join_uplink B T table join random r body s).1.db ≡ d)
        × ((wifi_join_uplink B T table join random r body s).1.portal_kick ≡ true)
  unfolding wifi_join_uplink choose_identity note_join
  joined_state random r none s d on h k = absurd (ground arith)
  joined_state random r (some (ssid, key)) s d on h k =
      elim (Result-cases (generate_identity table random (mac_profile B table s))) [
        | inr (e, p) ↦ absurd (ground (arith, on, p))
        | inl (id, p) ↦ elim (Result-cases (join ssid key (some id) s.world).0) [
          | inr (e, q) ↦ absurd (ground (arith, on, p, q))
          | inl (u, q) ↦ (ground (arith, on, p, q, h), ground (arith, on, p, q))
        ]
      ]

  -- After a join under a schedule that is not off that is answered with 200 and put on record, in an open
  -- database and before the year 10000, the portal watch is kicked, and no tick of the daily rotation changes
  -- anything for a day, counted from the second of the join; the text of a time is not empty.
  pub mac_tick-wifi_join_uplink :
      (random random' : Result Raw) (r : Request) (body : Option (Bytes × Bytes)) (now : ℕ)
      (s : Server B.State W) (d : B.State)
      → bytes_eq (mac_schedule B s) (str "off") ≡ false
      → put_config B s.db mac_last_roll_key (T.format r.now) ≡ ok d
      → (wifi_join_uplink B T table join random r body s).0.status ≡ 200
      → T.format r.now ≢ []
      → r.now < year_10000
      → now < to_second r.now + one_day
      → let t = (wifi_join_uplink B T table join random r body s).1 in
        (t.portal_kick ≡ true) × (mac_tick B T table apply random' now t ≡ t)
  mac_tick-wifi_join_uplink random random' r body now s d on h k ne hr hn =
      let t = (wifi_join_uplink B T table join random r body s).1 in
      let (db, kick) = joined_state random r body s d on h k in
      let last = last_roll B L T K table apply is_open t s.db d (T.format r.now) h db in
      (
        kick,
        tick_recent B L T K table apply is_open random' now t (
            ap (is_recent B T table apply now) last
            ∙ recent_text B L T K table apply is_open (T.format r.now) (to_second r.now) now ne
                (K.parse-format r.now hr) hn),
      )
