-- ===== src/Netcfg/Wifi/Scan.antt =====
-- internal/netcfg/wifi.go: Scan and upDevice, on the decoded answers of ubus.
pub mod Distinct
use mist_ui.Base.{
  ℕ, zero, suc, ◌+◌, ◌-◌, ◌*◌, ◌/◌, ◌%◌, ◌≤◌, ◌<◌, String, ◌≡◌, refl, sym, ap, subst, ◌∙◌, ◌≢◌, ◌↔◌,
  ◌⊎◌, inl, inr, Bool, true, false, not, ◌&&◌, ◌||◌, Option, none, some, List, [], ◌∷◌, ◌++◌, map,
  arith, if◌then◌else◌, ltb, leb, nat_eq, Bytes, str, bytes_eq, bytes_eq_iff, bytes_eq_refl,
  Bool-cases, Result, ok, err, ◌>>=◌, ◌>>◌, result_or, Result-cases, Option-cases, length, get_or,
  take, drop, length-append, take-append, drop-append, drop_past, get_or_past, take_part,
}
use mist_ui.Base.{ℤ}

-- A radio of the wireless status: whether it is up, and the names of its interfaces.
pub record Radio : Type 0 where
  pub is_up : Bool
  pub ifnames : List Bytes

pub record ScanResult : Type 0 where
  pub ssid : Bytes
  pub signal : ℤ
  pub encrypted : Bool

pub record Network : Type 0 where
  pub ssid : Bytes
  pub signal : ℤ
  pub encryption : Bytes

unfoldable pub first_ifname : List Bytes → Option Bytes
first_ifname [] = none
first_ifname ([] ∷ names) = first_ifname names
first_ifname ((c ∷ name) ∷ names) = some (c ∷ name)

-- The loop over the radios, in the order in which Go's map gives them.
unfoldable pub first_device : List Radio → Option Bytes
first_device [] = none
first_device (r ∷ rs) =
    let rest = first_device rs in
    if r.is_up then elim (first_ifname r.ifnames) [ none ↦ rest | some name ↦ some name ] else rest

unfoldable pub up_device : Result (List Radio) → Result Bytes
unfolding first_device first_ifname
up_device (err e) = err e
up_device (ok radios) = elim (first_device radios) [
  | none ↦ err "no wireless interface is up"
  | some dev ↦ ok dev
]

-- The loop that waits for the radio: `left` rounds, of which this is number `i`. `status` is the answer
-- at each poll, and `is_done` says whether the context ends during a wait.
unfoldable pub await_device : (ℕ → Bool) → (ℕ → Result (List Radio)) → ℕ → ℕ → Result Bytes
unfolding up_device
await_device is_done status zero i = up_device (status i)
await_device is_done status (suc left) i =
    let rest = await_device is_done status left (suc i) in
    elim (up_device (status i)) [
      | ok dev ↦ ok dev
      | err e ↦ if is_done i then err "context done" else rest
    ]

unfoldable pub knows : Bytes → List Bytes → Bool
knows s [] = false
knows s (t ∷ ts) = bytes_eq s t || knows s ts

unfoldable pub network_of : ScanResult → Network
network_of r = record {
  ssid = r.ssid;
  signal = r.signal;
  encryption = if r.encrypted then str "psk" else str "none";
}

-- The loop over the results; `seen` is the map of the SSIDs so far.
unfoldable pub networks : List Bytes → List ScanResult → List Network
unfolding knows network_of
networks seen [] = []
networks seen (r ∷ rs) =
    let rest = networks (r.ssid ∷ seen) rs in
    let skipped = networks seen rs in
    if bytes_eq r.ssid [] || knows r.ssid seen then skipped else network_of r ∷ rest

-- `answer` is the decoded scan on a device.
unfoldable pub scan :
    (ℕ → Bool)
    → (ℕ → Result (List Radio))
    → (Bytes → Result (List ScanResult))
    → Result (List Network)
unfolding await_device networks
scan is_done status answer = do
  dev ← await_device is_done status 10 0
  results ← answer dev
  ok (networks [] results)
