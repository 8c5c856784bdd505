-- ===== src/Vpn/KillSwitch.antt =====
-- internal/vpn/killswitch.go: the shell scripts of the kill switch on the forwardings of the firewall's
-- configuration. What `uci show`, `get`, `delete` and `add` do to the list of the forwardings is written
-- as documented; what can fail is an argument.
pub mod Loop
pub mod Switch
use mist_ui.Base.{
  ℕ, zero, suc, ◌+◌, ◌-◌, ◌*◌, ◌/◌, ◌%◌, ◌≤◌, ◌<◌, String, ◌≡◌, refl, sym, ap, subst, ◌∙◌, ◌≢◌, ◌↔◌,
  ◌⊎◌, inl, inr, Bool, true, false, not, ◌&&◌, ◌||◌, Option, none, some, List, [], ◌∷◌, ◌++◌, map,
  arith, if◌then◌else◌, ltb, leb, nat_eq, Bytes, str, bytes_eq, bytes_eq_iff, bytes_eq_refl,
  Bool-cases, Result, ok, err, ◌>>=◌, ◌>>◌, result_or, Result-cases, Option-cases, length, get_or,
  take, drop, length-append, take-append, drop-append, drop_past, get_or_past, take_part,
}

-- A `forwarding` section: whether it has a name, and the two zones. An absent option is empty.
pub record Forwarding : Type 0 where
  pub named : Bool
  pub src : Bytes
  pub dest : Bytes

abbrev pub no_forwarding : Forwarding
no_forwarding = record { named = true; src = []; dest = [] }

abbrev pub lan_wan : Forwarding
lan_wan = record { named = false; src = str "lan"; dest = str "wan" }

-- findLanWanForwarding: the indices of the sections that `uci show` prints as @forwarding[N], which
-- are those without a name, with src='lan'; `n` is the index of the first one.
unfoldable pub lan_forwardings : ℕ → List Forwarding → List ℕ
lan_forwardings n [] = []
lan_forwardings n (f ∷ fs) =
    let rest = lan_forwardings (suc n) fs in
    if not f.named && bytes_eq f.src (str "lan") then n ∷ rest else rest

-- uci -q get firewall.@forwarding[i].dest, which prints nothing where there is none.
unfoldable pub get_dest : List Forwarding → ℕ → Bytes
get_dest fs i = (get_or fs i no_forwarding).dest

-- The for loop over the sections found: the first one whose dest is wan.
unfoldable pub find_wan : List Forwarding → List ℕ → Option ℕ
find_wan fs [] = none
find_wan fs (s ∷ ss) =
    let rest = find_wan fs ss in if bytes_eq (get_dest fs s) (str "wan") then some s else rest

unfoldable pub find_lan_wan : List Forwarding → Option ℕ
find_lan_wan fs = find_wan fs (lan_forwardings 0 fs)

-- uci delete firewall.@forwarding[i]: the indices behind it shift.
unfoldable pub delete_at : ℕ → List Forwarding → List Forwarding
delete_at i [] = []
delete_at zero (f ∷ fs) = fs
delete_at (suc i) (f ∷ fs) = f ∷ delete_at i fs

-- The while loop of the script that turns the switch on, where each deletion succeeds: `changed` and the
-- forwardings at its end, none if the rounds run out.
unfoldable pub delete_lan_wan : ℕ → Bool → List Forwarding → Option (Bool × List Forwarding)
delete_lan_wan zero changed fs = none
delete_lan_wan (suc rounds) changed fs = elim (find_lan_wan fs) [
  | none ↦ some (changed, fs)
  | some s ↦ delete_lan_wan rounds true (delete_at s fs)
]

-- The script that turns it off: a forwarding is added at the end unless there is one.
unfoldable pub add_lan_wan : List Forwarding → Bool × List Forwarding
add_lan_wan fs = elim (find_lan_wan fs) [
  | none ↦ (true, fs ++ (lan_wan ∷ []))
  | some s ↦ (false, fs)
]

-- What can fail: the start of the shell, the reload of the firewall, and the flush of the conntrack
-- table, which a connector may lack.
pub record Faults : Type 0 where
  pub start : Result (Unit {0})
  pub reload : Result (Unit {0})
  pub flush : Option (Result (Unit {0}))

-- The flush that follows a script without an error.
unfoldable pub after_script : Faults → Bool → Result (Unit {0})
after_script x enabled =
    if enabled
    then elim x.flush [
      | none ↦ ok tt
      | some (ok _) ↦ ok tt
      | some (err e) ↦ err "kill switch set, but conntrack flush failed"
    ]
    else ok tt

-- The first script ends in `|| true`, so that a failed reload is no error; the status of the second
-- one is that of its reload.
unfoldable pub set_kill_switch :
    Faults → ℕ → Bool → List Forwarding → Option (Result (Unit {0}) × List Forwarding)
set_kill_switch x rounds enabled fs = elim x.start [
  | err e ↦ some (err e, fs)
  | ok _ ↦
      (if enabled
        then elim (delete_lan_wan rounds false fs) [
          | none ↦ none
          | some (changed, gs) ↦ some (after_script x true, gs)
        ]
        else (let (added, gs) = add_lan_wan fs in
            some ((if added then x.reload else after_script x false), gs)))
]

unfoldable pub kill_switch : Faults → List Forwarding → Result Bool
kill_switch x fs = elim x.start [
  | err e ↦ err e
  | ok _ ↦ elim (find_lan_wan fs) [ none ↦ ok true | some s ↦ ok false ]
]
