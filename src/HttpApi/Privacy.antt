-- ===== src/HttpApi/Privacy.antt =====
-- internal/httpapi/netops.go: the settings of the MAC rotation, a roll on request and a tick of the
-- daily loop. `table` is the table of profiles, `random` the random bytes of
-- an identity, and `apply` is ApplySTAIdentity.
pub mod Rolls
use mist_ui.Store.Database.{Bolt, Rfc3339}
use mist_ui.Store
use mist_ui.Netcfg.Identity.{Identity, Profile, Raw, valid_profile, generate_identity}
use mist_ui.HttpApi.Server.{
  Server, Request, Response, Handler, Outcome, return, value, M, ◌>>=◌, ◌>>◌, pure, exit, gets,
  modify, or_exit, guard, final, store_or_exit, store_ignoring, internal, bad_request, http_error,
  write_json, flag, text, label,
}
use mist_ui.HttpApi.Session.{seconds}
use mist_ui.HttpApi.Toggles.{router_or_exit}
use mist_ui.Base.{
  ℕ, zero, suc, ◌+◌, ◌-◌, ◌*◌, ◌/◌, ◌%◌, ◌≤◌, ◌<◌, String, ◌≡◌, refl, sym, ap, subst, ◌∙◌, ◌≢◌, ◌↔◌,
  ◌⊎◌, inl, inr, Bool, true, false, not, ◌&&◌, ◌||◌, Option, none, some, List, [], ◌∷◌, ◌++◌, map,
  arith, if◌then◌else◌, ltb, leb, nat_eq, Bytes, str, bytes_eq, bytes_eq_iff, bytes_eq_refl,
  Bool-cases, Result, ok, err, result_or, Result-cases, Option-cases, length, get_or, take, drop,
  length-append, take-append, drop-append, drop_past, get_or_past, take_part,
}

abbrev pub mac_schedule_key : Bytes
mac_schedule_key = str "mac_schedule"

abbrev pub mac_profile_key : Bytes
mac_profile_key = str "mac_profile"

abbrev pub mac_last_roll_key : Bytes
mac_last_roll_key = str "mac_last_roll"

abbrev pub one_day : ℕ
one_day = seconds (24 * 60 * 60)

-- The keys of macScheduleModes.
unfoldable pub is_mode : Bytes → Bool
is_mode m = bytes_eq m (str "off") || bytes_eq m (str "on-join") || bytes_eq m (str "daily")

-- `v, _ := s.store.Config(key)`: no bytes where the call fails or there is no value.
abbrev pub bytes_of : Result (Option Bytes) → Bytes
bytes_of (ok (some v)) = v
bytes_of _ = []

-- The router's error as the answer; its text is not kept.
abbrev pub unprocessable : Response
unprocessable = write_json 422 (("error", label "err") ∷ [])

module _ (B : Bolt) {W : Type 0} where
  unfoldable pub mac_schedule : Server B.State W → Bytes
  mac_schedule s = elim (bytes_of (Store.config B s.db mac_schedule_key)) [
    | [] ↦ str "on-join"
    | c ∷ v ↦ c ∷ v
  ]

  unfoldable pub mac_profile : List Profile → Server B.State W → Bytes
  mac_profile table s = elim (bytes_of (Store.config B s.db mac_profile_key)) [
    | [] ↦ str "generic"
    | c ∷ v ↦ if valid_profile table (c ∷ v) then c ∷ v else str "generic"
  ]

  unfoldable pub mac_schedule_set : Option Bytes → Handler (Server B.State W)
  mac_schedule_set none s = (http_error "mode must be off, on-join, or daily" 400, s)
  mac_schedule_set (some mode) s = final (
      (do
        guard (is_mode mode) (http_error "mode must be off, on-join, or daily" 400)
        store_or_exit (λ d. Store.put_config B d mac_schedule_key mode) internal
        pure (write_json 200 (("mode", text mode) ∷ [])))
        s)

  unfoldable pub mac_profile_set : List Profile → Option Bytes → Handler (Server B.State W)
  mac_profile_set table none s = (http_error "unknown identity profile" 400, s)
  mac_profile_set table (some key) s = final (
      (do
        guard (valid_profile table key) (http_error "unknown identity profile" 400)
        store_or_exit (λ d. Store.put_config B d mac_profile_key key) internal
        pure (write_json 200 (("profile", text key) ∷ [])))
        s)

module _ (B : Bolt) (T : Rfc3339) (table : List Profile) {W : Type 0}
    (apply : Identity → W → Result (Unit {0}) × W) where
  unfoldable pub roll_mac : Result Raw → Request → Handler (Server B.State W)
  unfolding mac_profile
  roll_mac random r s = final (
      (do
        id ← or_exit (generate_identity table random (mac_profile B table s)) internal
        router_or_exit (apply id) unprocessable
        store_ignoring (λ d. Store.put_config B d mac_last_roll_key (T.format r.now))
        pure (write_json 200 (("identity", text id.mac) ∷ [])))
        s)

  -- The last roll is on record and younger than a day.
  unfoldable pub is_recent : ℕ → Bytes → Bool
  is_recent now [] = false
  is_recent now (c ∷ last) = elim (T.parse (c ∷ last)) [
    | none ↦ false
    | some ts ↦ ltb (now - ts) one_day
  ]

  -- A tick of RunMACSchedule that rolls.
  unfoldable pub scheduled_roll : Result Raw → ℕ → Server B.State W → Server B.State W
  unfolding mac_profile
  scheduled_roll random now s = elim (generate_identity table random (mac_profile B table s)) [
    | err e ↦ s
    | ok id ↦ elim (apply id s.world).0 [
      | err e ↦ record s { world = (apply id s.world).1 }
      | ok _ ↦ record s {
        world = (apply id s.world).1;
        db = result_or (Store.put_config B s.db mac_last_roll_key (T.format now)) s.db;
      }
    ]
  ]

  -- One tick of RunMACSchedule.
  unfoldable pub mac_tick : Result Raw → ℕ → Server B.State W → Server B.State W
  unfolding mac_schedule
  mac_tick random now s =
      let roll = scheduled_roll random now s in
      if not (bytes_eq (mac_schedule B s) (str "daily"))
      then s
      else if is_recent now (bytes_of (Store.config B s.db mac_last_roll_key))
      then s
      else roll
