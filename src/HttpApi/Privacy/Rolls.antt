-- ===== src/HttpApi/Privacy/Rolls.antt =====
-- internal/httpapi/netops.go, rollMAC and RunMACSchedule: a roll and the ticks after it.
use mist_ui.Store.Database.{Bolt, IsLawful, Rfc3339, IsRfc3339, to_second, year_10000}
use mist_ui.Store.{put_config, config}
use mist_ui.Store.Config.{config-put_config}
use mist_ui.Netcfg.Identity.{Identity, Profile, Raw}
use mist_ui.HttpApi.Server.{Server, Request}
use mist_ui.HttpApi.Privacy.{mac_last_roll_key, one_day, bytes_of, roll_mac, is_recent, mac_tick}
use mist_ui.Base.{
  ℕ, ◌+◌, ◌<◌, ◌≡◌, refl, ap, ◌∙◌, ◌≢◌, true, some, List, [], ◌∷◌, arith, Bytes, Result, ok,
}

module _ (B : Bolt) (L : IsLawful B) (T : Rfc3339) (K : IsRfc3339 T) (table : List Profile)
    {W : Type 0} (apply : Identity → W → Result (Unit {0}) × W)
    (is_open : (d : B.State) → B.view d ≡ ok tt) where
  pub tick_recent :
      (random : Result Raw) (now : ℕ) (s : Server B.State W)
      → is_recent B T table apply now (bytes_of (config B s.db mac_last_roll_key)) ≡ true
      → mac_tick B T table apply random now s ≡ s
  unfolding mac_tick
  tick_recent random now s h = ground arith

  pub recent_text :
      (v : Bytes) (ts now : ℕ)
      → v ≢ []
      → T.parse v ≡ some ts
      → now < ts + one_day
      → is_recent B T table apply now v ≡ true
  unfolding is_recent
  recent_text [] ts now ne e h = absurd (ne refl)
  recent_text (c ∷ v) ts now ne e h = ground (arith, e)

  -- What a successful roll leaves in the database.
  roll_mac_db :
      (random : Result Raw) (r : Request) (s : Server B.State W) (d : B.State)
      → put_config B s.db mac_last_roll_key (T.format r.now) ≡ ok d
      → (roll_mac B T table apply random r s).0.status ≡ 200
      → (roll_mac B T table apply random r s).1.db ≡ d
  unfolding roll_mac
  roll_mac_db random r s d h k = ground (arith, h)

  pub last_roll :
      (s : Server B.State W) (d e : B.State) (v : Bytes)
      → put_config B d mac_last_roll_key v ≡ ok e
      → s.db ≡ e
      → bytes_of (config B s.db mac_last_roll_key) ≡ v
  unfolding config
  last_roll s d e v h q = rw (q, is_open e, config-put_config B L d e mac_last_roll_key v h) refl

  -- After a roll on request that is answered with 200 and put on record, in an open database and
  -- before the year 10000, no tick of the daily rotation changes anything for a day, counted
  -- from the second of the roll; the text of a time is not empty.
  pub mac_tick-roll_mac :
      (random random' : Result Raw) (r : Request) (now : ℕ) (s : Server B.State W) (d : B.State)
      → put_config B s.db mac_last_roll_key (T.format r.now) ≡ ok d
      → (roll_mac B T table apply random r s).0.status ≡ 200
      → T.format r.now ≢ []
      → r.now < year_10000
      → now < to_second r.now + one_day
      → let t = (roll_mac B T table apply random r s).1 in
        mac_tick B T table apply random' now t ≡ t
  mac_tick-roll_mac random random' r now s d h k ne hr hn =
      let t = (roll_mac B T table apply random r s).1 in
      tick_recent random' now (roll_mac B T table apply random r s).1 (
        ap (is_recent B T table apply now) (
          last_roll (roll_mac B T table apply random r s).1 s.db d (T.format r.now) h
            (roll_mac_db random r s d h k))
        ∙ recent_text (T.format r.now) (to_second r.now) now ne (K.parse-format r.now hr) hn)
