-- ===== src/Netcfg/Wifi/Scan/Distinct.antt =====
-- internal/netcfg/wifi.go, Scan: the networks that are listed.
use mist_ui.Netcfg.Wifi.Scan.{
  ScanResult, Network, Radio, knows, network_of, networks, await_device, scan,
}
use mist_ui.Base.{
  ℕ, ◌≡◌, refl, ap, subst, inl, inr, Bool, true, false, not, ◌&&◌, ◌||◌, List, [], ◌∷◌, arith,
  Bytes, bytes_eq, bytes_eq_iff, bytes_eq_refl, Bool-cases, Result, ok, Result-cases,
}

unfoldable pub ssids : List Network → List Bytes
ssids [] = []
ssids (n ∷ ns) = n.ssid ∷ ssids ns

unfoldable pub heard : List ScanResult → List Bytes
heard [] = []
heard (r ∷ rs) = r.ssid ∷ heard rs

unfoldable pub AreDistinct : List Bytes → Type 0
AreDistinct [] = Unit
AreDistinct (s ∷ ss) = (knows s ss ≡ false) × AreDistinct ss

skipped :
    (seen : List Bytes) (r : ScanResult) (rs : List ScanResult)
    → (bytes_eq r.ssid [] || knows r.ssid seen) ≡ true
    → networks seen rs ≡ networks seen (r ∷ rs)
unfolding networks
skipped seen r rs h = ground (arith, h)

listed :
    (seen : List Bytes) (r : ScanResult) (rs : List ScanResult)
    → (bytes_eq r.ssid [] || knows r.ssid seen) ≡ false
    → network_of r ∷ networks (r.ssid ∷ seen) rs ≡ networks seen (r ∷ rs)
unfolding networks
listed seen r rs h = ground (arith, h)

known_same : (s t : Bytes) (seen : List Bytes) → bytes_eq s t ≡ true → knows s seen ≡ knows t seen
known_same s t seen h = ap (λ u. knows u seen) ((bytes_eq_iff s t).0 h)

-- What has been seen, or is empty, is not listed again.
networks_seen :
    (s : Bytes) (seen : List Bytes) (rs : List ScanResult)
    → knows s seen ≡ true
    → knows s (ssids (networks seen rs)) ≡ false
unfolding networks ssids knows network_of
networks_seen s seen [] h = refl
networks_seen s seen (r ∷ rs) h = elim (Bool-cases (bytes_eq r.ssid [] || knows r.ssid seen)) [
  | inl p ↦ ground (arith, p, networks_seen s seen rs h)
  | inr p ↦ elim (Bool-cases (bytes_eq s r.ssid)) [
    | inl q ↦ absurd (ground (arith, p, h, known_same s r.ssid seen q))
    | inr q ↦ ground (arith, p, q, networks_seen s (r.ssid ∷ seen) rs (ground (arith, h)))
  ]
]

knows_first : (s : Bytes) (seen : List Bytes) → knows s (s ∷ seen) ≡ true
unfolding knows
knows_first s seen = ground (arith, bytes_eq_refl s)

networks-AreDistinct :
    (seen : List Bytes) (rs : List ScanResult) → AreDistinct (ssids (networks seen rs))
unfolding networks ssids AreDistinct network_of
networks-AreDistinct seen [] = tt
networks-AreDistinct seen (r ∷ rs) = elim (Bool-cases (bytes_eq r.ssid [] || knows r.ssid seen)) [
  | inl p ↦
      subst (λ ns. AreDistinct (ssids ns)) (skipped seen r rs p) (networks-AreDistinct seen rs)
  | inr p ↦
      subst (λ ns. AreDistinct (ssids ns)) (listed seen r rs p)
        (
          networks_seen r.ssid (r.ssid ∷ seen) rs (knows_first r.ssid seen),
          networks-AreDistinct (r.ssid ∷ seen) rs,
        )
]

-- Each SSID that is not empty is listed, unless it has been seen, and no other is.
networks-knows :
    (s : Bytes) (seen : List Bytes) (rs : List ScanResult)
    → knows s seen ≡ false
    → knows s (ssids (networks seen rs)) ≡ (not (bytes_eq s []) && knows s (heard rs))
unfolding networks ssids knows heard network_of
networks-knows s seen [] h = elim (Bool-cases (bytes_eq s [])) [
  | inl e ↦ ground (arith, e)
  | inr e ↦ ground (arith, e)
]
networks-knows s seen (r ∷ rs) h =
    let k = networks-knows s seen rs h in
    let goal : List Network → Type 0 = λ ns.
      knows s (ssids ns) ≡ (not (bytes_eq s []) && (bytes_eq s r.ssid || knows s (heard rs))) in
    elim (Bool-cases (bytes_eq s r.ssid)) [
      | inl q ↦
          let same = known_same s r.ssid seen q in
          let empty = ap (λ u. bytes_eq u []) ((bytes_eq_iff s r.ssid).0 q) in
          elim (Bool-cases (bytes_eq r.ssid [] || knows r.ssid seen)) [
            | inl p ↦ subst goal (skipped seen r rs p) (ground (arith, p, q, h, k, same, empty))
            | inr p ↦ subst goal (listed seen r rs p) (ground (arith, p, q, empty))
          ]
      | inr q ↦ elim (Bool-cases (bytes_eq r.ssid [] || knows r.ssid seen)) [
        | inl p ↦ subst goal (skipped seen r rs p) (ground (arith, q, k))
        | inr p ↦
            let later = networks-knows s (r.ssid ∷ seen) rs (ground (arith, q, h)) in
            subst goal (listed seen r rs p) (ground (arith, q, later))
      ]
    ]

-- The networks of a scan that succeeds have different SSIDs, and they are exactly the SSIDs that are not empty
-- among the results on the device that was found.
pub scan_distinct :
    (is_done : ℕ → Bool) (status : ℕ → Result (List Radio))
    (answer : Bytes → Result (List ScanResult)) (ns : List Network)
    → scan is_done status answer ≡ ok ns
    → AreDistinct (ssids ns)
      × ((dev : Bytes) × (rs : List ScanResult) × (await_device is_done status 10 0 ≡ ok dev)
          × (answer dev ≡ ok rs)
          × ((s : Bytes) → knows s (ssids ns) ≡ (not (bytes_eq s []) && knows s (heard rs))))
unfolding scan
scan_distinct is_done status answer ns h = elim (Result-cases (await_device is_done status 10 0)) [
  | inr (e, p) ↦ absurd (ground (arith, p))
  | inl (dev, p) ↦ elim (Result-cases (answer dev)) [
    | inr (e, q) ↦ absurd (ground (arith, p, q))
    | inl (rs, q) ↦
        let e : networks [] rs ≡ ns = ground (arith, p, q, h) in
        (
          subst (λ ms. AreDistinct (ssids ms)) e (networks-AreDistinct [] rs),
          (
            dev,
            rs,
            p,
            q,
            λ s.
                subst (λ ms. knows s (ssids ms) ≡ (not (bytes_eq s []) && knows s (heard rs))) e
                  (networks-knows s [] rs refl),
          ),
        )
  ]
]
