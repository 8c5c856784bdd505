-- ===== src/Netcfg/Wifi/Uplink/Effects.antt =====
-- internal/netcfg/wifi.go, JoinUplink: a run that returns no error.
use mist_ui.Netcfg.Wifi.Uplink.Plain.{
  mac_of, hostname_of, HasUplink, plain_cmds-HasUplink, are_plain-plain_cmds, join_cmds-plain_cmds,
  on_disk-plain_cmds,
}
use mist_ui.Netcfg.Wifi.Uplink.{join_cmds, reload_cmds, valid_key, run_join, join_uplink}
use mist_ui.Netcfg.Wifi.{wireless, network, valid_ssid}
use mist_ui.Netcfg.Identity.{Identity}
use mist_ui.Router.Uci.{Runner, IsUci, run_all, effect, effects, are_plain, is_plain, view-run_all}
use mist_ui.Router.Uci.{reads}
use mist_ui.Base.{str, bytes_eq}
use mist_ui.Router.Force.{SameAt, IsInForce, staged, stage_after, on_disk-run_all, load-run_all}
use mist_ui.Base.{
  ℕ, ◌≤◌, ◌≡◌, refl, sym, ap, subst, ◌∙◌, inl, inr, true, Option, [], ◌∷◌, arith, Bytes, Result, ok,
  Result-cases, length,
}

valid_ssid_bounds :
    (ssid : Bytes) (t : Unit {0}) → valid_ssid ssid ≡ ok t → (1 ≤ length ssid) × (length ssid ≤ 32)
unfolding valid_ssid
valid_ssid_bounds ssid t h = ground (arith, h)

-- A configuration is the same in two routers, staged and in the files.
abbrev pub IsKept : {W : Type 0} → Runner W → Bytes → W → W → Type 0
IsKept U conf w w' = (U.view w' conf ≡ U.view w conf) × (U.saved w' conf ≡ U.saved w conf)

module _ {W : Type 0} (U : Runner W) (L : IsUci U) (zone : W → Result (Unit {0}) × W)
    (zone_keeps : (w : W) → IsKept U wireless w (zone w).1 × IsKept U network w (zone w).1) where
  joined :
      (b : ℕ) (ssid key : Bytes) (ident : Option Identity) (w : W)
      → (run_all U (join_cmds (b ∷ ssid) key ident) w).0 ≡ ok tt
      → let v = U.view (run_all U (join_cmds (b ∷ ssid) key ident) w).1 in
        HasUplink (b ∷ ssid) key (mac_of ident) (hostname_of ident) (v wireless) (v network)
  joined b ssid key ident w h =
      let same = join_cmds-plain_cmds (b ∷ ssid) key ident in
      let plain : are_plain (join_cmds (b ∷ ssid) key ident) ≡ true =
        ap are_plain same ∙ are_plain-plain_cmds b ssid key (mac_of ident) (hostname_of ident) in
      let seen =
        view-run_all U L (join_cmds (b ∷ ssid) key ident) w plain h
        ∙ ap (λ cs. effects cs (U.view w)) same in
      subst
        (λ v. HasUplink (b ∷ ssid) key (mac_of ident) (hostname_of ident) (v wireless) (v network))
        (sym seen)
        (plain_cmds-HasUplink (b ∷ ssid) key (mac_of ident) (hostname_of ident) (U.view w))

  committed :
      (b : ℕ) (ssid key : Bytes) (ident : Option Identity) (w : W)
      → (run_all U (join_cmds (b ∷ ssid) key ident) w).0 ≡ ok tt
      → let t = (run_all U (join_cmds (b ∷ ssid) key ident) w).1 in
        SameAt wireless (U.saved t) (U.view t) × SameAt network (U.saved t) (U.view t)
  committed b ssid key ident w h =
      let cs = join_cmds (b ∷ ssid) key ident in
      let same = join_cmds-plain_cmds (b ∷ ssid) key ident in
      let plain : are_plain cs ≡ true =
        ap are_plain same ∙ are_plain-plain_cmds b ssid key (mac_of ident) (hostname_of ident) in
      let (wl, nw) = on_disk-plain_cmds (b ∷ ssid) key (mac_of ident) (hostname_of ident) in
      (
        on_disk-run_all U L wireless cs w plain (ap (λ x. stage_after wireless x staged) same ∙ wl)
            h,
        on_disk-run_all U L network cs w plain (ap (λ x. stage_after network x staged) same ∙ nw) h,
      )

  SameAt-kept :
      (conf : Bytes) (w w' : W)
      → IsKept U conf w w'
      → SameAt conf (U.saved w) (U.view w)
      → SameAt conf (U.saved w') (U.view w')
  SameAt-kept conf w w' (kv, ks) m = λ s o. ap (λ f. f s o) ks ∙ m s o ∙ sym (ap (λ f. f s o) kv)

  IsInForce-reload :
      (w : W)
      → (run_all U reload_cmds w).0 ≡ ok tt
      → SameAt wireless (U.saved w) (U.view w)
      → SameAt network (U.saved w) (U.view w)
      → IsInForce U wireless (run_all U reload_cmds w).1
        × IsInForce U network (run_all U reload_cmds w).1
  unfolding reload_cmds stage_after are_plain is_plain reads str bytes_eq
  IsInForce-reload w h mw mn = (
    load-run_all U L wireless reload_cmds w refl refl h mw,
    load-run_all U L network reload_cmds w refl refl h mn,
  )

  reloaded :
      (w : W) → (run_all U reload_cmds w).0 ≡ ok tt → U.view (run_all U reload_cmds w).1 ≡ U.view w
  unfolding reload_cmds effects effect are_plain is_plain
  reloaded w h = view-run_all U L reload_cmds w refl h

  -- What a run that returns no error has gone through.
  run_join_steps :
      (ssid key : Bytes) (ident : Option Identity) (w : W)
      → (run_join U zone ssid key ident w).0 ≡ ok tt
      → let w1 = (run_all U (join_cmds ssid key ident) w).1 in
        let w2 = (zone w1).1 in
        ((run_all U (join_cmds ssid key ident) w).0 ≡ ok tt)
        × ((run_all U reload_cmds w2).0 ≡ ok tt)
        × ((run_join U zone ssid key ident w).1 ≡ (run_all U reload_cmds w2).1)
  unfolding run_join
  run_join_steps ssid key ident w h =
      let w1 = (run_all U (join_cmds ssid key ident) w).1 in
      elim (Result-cases (run_all U (join_cmds ssid key ident) w).0) [
        | inr (e, p) ↦ absurd (ground (arith, p))
        | inl (t, p) ↦ elim (Result-cases (zone w1).0) [
          | inr (e, q) ↦ absurd (ground (arith, p, q))
          | inl (u, q) ↦ (p, ground (arith, p, q, h), ground (arith, p, q))
        ]
      ]

  -- The station is configured, and both configurations are in force.
  abbrev pub IsJoined : Bytes → Bytes → Option Identity → W → Type 0
  IsJoined ssid key ident t =
      HasUplink ssid key (mac_of ident) (hostname_of ident) (U.view t wireless) (U.view t network)
      × IsInForce U wireless t
      × IsInForce U network t

  run_join-IsJoined :
      (ssid key : Bytes) (ident : Option Identity) (w : W)
      → 1 ≤ length ssid
      → (run_join U zone ssid key ident w).0 ≡ ok tt
      → IsJoined ssid key ident (run_join U zone ssid key ident w).1
  run_join-IsJoined [] key ident w lo h = absurd (omega (arith, lo))
  run_join-IsJoined (b ∷ ssid) key ident w lo h =
      let w1 = (run_all U (join_cmds (b ∷ ssid) key ident) w).1 in
      let w2 = (zone w1).1 in
      let (p, done, end) = run_join_steps (b ∷ ssid) key ident w h in
      let (keep_wl, keep_nw) = zone_keeps w1 in
      let (disk_wl, disk_nw) = committed b ssid key ident w p in
      let seen = reloaded w2 done in
      let loaded =
        IsInForce-reload w2 done (SameAt-kept wireless w1 w2 keep_wl disk_wl)
          (SameAt-kept network w1 w2 keep_nw disk_nw) in
      let has : HasUplink (b ∷ ssid) key (mac_of ident) (hostname_of ident) (U.view w2 wireless)
          (U.view w2 network) =
        rw (keep_wl.0, keep_nw.0) (joined b ssid key ident w p) in
      subst (IsJoined (b ∷ ssid) key ident) (sym end) (
        subst
            (λ v.
              HasUplink (b ∷ ssid) key (mac_of ident) (hostname_of ident) (v wireless) (v network))
            (sym seen) has,
        loaded.0,
        loaded.1,
      )

  -- Where the script of the firewall's zone leaves the wireless and network configurations alone: when
  -- JoinUplink returns no error, the name has 1 to 32 bytes; the wireless configuration has a station on
  -- the first radio that joins that network, encrypted exactly if there is a key, and the network has its
  -- interface with DHCP, with the address and the DHCP name of the identity, both absent where it has
  -- none; and both configurations are in force: committed, and then loaded by the reloads.
  pub join_uplink-HasUplink :
      (ssid key : Bytes) (ident : Option Identity) (w : W)
      → (join_uplink U zone ssid key ident w).0 ≡ ok tt
      → (1 ≤ length ssid)
        × (length ssid ≤ 32)
        × IsJoined ssid key ident (join_uplink U zone ssid key ident w).1
  unfolding join_uplink
  join_uplink-HasUplink ssid key ident w h = elim (Result-cases (valid_ssid ssid)) [
    | inr (e, p) ↦ absurd (ground (arith, p))
    | inl (t, p) ↦ elim (Result-cases (valid_key key)) [
      | inr (e, q) ↦ absurd (ground (arith, p, q))
      | inl (u, q) ↦
          let end : run_join U zone ssid key ident w ≡ join_uplink U zone ssid key ident w =
            ground (arith, p, q) in
          let (lo, hi) = valid_ssid_bounds ssid t p in
          (
            lo,
            hi,
            subst (λ r. IsJoined ssid key ident r.1) end
                (run_join-IsJoined ssid key ident w lo (ap (λ r. r.0) end ∙ h)),
          )
    ]
  ]
