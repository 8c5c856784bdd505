-- ===== src/Vpn/KillSwitch/Switch.antt =====
-- internal/vpn/killswitch.go: SetKillSwitch followed by KillSwitch.
use mist_ui.Vpn.KillSwitch.Loop.{
  without_lan_wan-none, without_lan_wan, has_lan_wan, find_lan_wan-none, find_lan_wan-some,
  delete_lan_wan-without_lan_wan, has_lan_wan-without_lan_wan, find_lan_wan-has_lan_wan,
  has_lan_wan-append_lan_wan, without_lan_wan-append_lan_wan,
}
use mist_ui.Vpn.KillSwitch.{
  Forwarding, Faults, lan_wan, find_lan_wan, add_lan_wan, after_script, set_kill_switch,
  kill_switch,
}
use mist_ui.Base.{
  ℕ, ◌<◌, ◌≡◌, refl, sym, ap, subst, ◌∙◌, inl, inr, Bool, true, false, not, some, List, [], ◌∷◌,
  ◌++◌, arith, if◌then◌else◌, Bool-cases, Result, ok, Result-cases, Option-cases, length,
}

-- What a change of the switch to `enabled` leaves of the forwardings `fs`.
pub record IsSwitched (x : Faults) (enabled : Bool) (fs gs : List Forwarding) : Type 0 where
  pub reads : kill_switch x gs ≡ ok enabled
  pub same_others : without_lan_wan gs ≡ without_lan_wan fs
  pub idle : kill_switch x fs ≡ ok enabled → gs ≡ fs

kill_switch-has_lan_wan :
    (x : Faults) (fs : List Forwarding)
    → x.start ≡ ok tt
    → kill_switch x fs ≡ ok (not (has_lan_wan fs))
unfolding kill_switch
kill_switch-has_lan_wan x fs h = elim (Option-cases (find_lan_wan fs)) [
  | inl e ↦ ground (arith, h, e, find_lan_wan-none fs e)
  | inr (i, e) ↦ ground (arith, h, e, find_lan_wan-some fs i e)
]

-- What KillSwitch reads depends on the forwardings from lan to wan without a name alone.
pub kill_switch_same :
    (x : Faults) (fs gs : List Forwarding)
    → has_lan_wan fs ≡ has_lan_wan gs
    → kill_switch x fs ≡ kill_switch x gs
unfolding kill_switch
kill_switch_same x fs gs h = elim (Result-cases x.start) [
  | inr (e, p) ↦ ground (arith, p)
  | inl (u, p) ↦
      kill_switch-has_lan_wan x fs p ∙ ap (λ b. ok (not b)) h ∙ sym (kill_switch-has_lan_wan x gs p)
]

without_lan_wan-IsSwitched :
    (x : Faults) (fs : List Forwarding)
    → x.start ≡ ok tt
    → IsSwitched x true fs (without_lan_wan fs)
without_lan_wan-IsSwitched x fs h =
    let after = kill_switch-has_lan_wan x (without_lan_wan fs) h in
    let before = kill_switch-has_lan_wan x fs h in
    let gone = has_lan_wan-without_lan_wan fs in
    record {
      reads = ground (arith, after, gone);
      same_others = without_lan_wan-none (without_lan_wan fs) gone;
      idle = λ k. without_lan_wan-none fs (ground (arith, k, before));
    }

add_lan_wan-IsSwitched :
    (x : Faults) (fs : List Forwarding) → x.start ≡ ok tt → IsSwitched x false fs (add_lan_wan fs).1
unfolding add_lan_wan
add_lan_wan-IsSwitched x fs h =
    let before = kill_switch-has_lan_wan x fs h in
    elim (Bool-cases (has_lan_wan fs)) [
      | inl p ↦
          let (i, e) = (find_lan_wan-has_lan_wan fs).1 p in
          subst (λ gs. IsSwitched x false fs gs) (ground (arith, e))
            (record {
              reads = before ∙ ap (λ b. ok (not b)) p;
              same_others = refl;
              idle = λ _. refl;
            })
      | inr p ↦
          let gs = fs ++ (lan_wan ∷ []) in
          let e = (find_lan_wan-has_lan_wan fs).0 p in
          subst (λ hs. IsSwitched x false fs hs) (ground (arith, e))
            (record {
              reads =
                  kill_switch-has_lan_wan x gs h
                  ∙ ap (λ b. ok (not b)) (has_lan_wan-append_lan_wan fs);
              same_others = without_lan_wan-append_lan_wan fs;
              idle = λ k. absurd (ground (arith, k, before, p));
            })
    ]

-- Where the shell starts and the rounds are more than the forwardings, SetKillSwitch returns, whatever
-- the reload of the firewall and the conntrack flush do. KillSwitch then reads the value that was set, every
-- forwarding but those from lan to wan without a name is kept, and nothing changes where the switch has
-- that value before.
pub set_kill_switch-IsSwitched :
    (x : Faults) (rounds : ℕ) (enabled : Bool) (fs : List Forwarding)
    → x.start ≡ ok tt
    → length fs < rounds
    → (r : Result (Unit {0})) × (gs : List Forwarding) × (set_kill_switch x rounds enabled fs
        ≡ some (r, gs))
      × IsSwitched x enabled fs gs
unfolding set_kill_switch
set_kill_switch-IsSwitched x rounds true fs h lt = (
  after_script x true,
  without_lan_wan fs,
  ground (arith, h, delete_lan_wan-without_lan_wan rounds false fs lt),
  without_lan_wan-IsSwitched x fs h,
)
set_kill_switch-IsSwitched x rounds false fs h lt = (
  (if (add_lan_wan fs).0 then x.reload else after_script x false),
  (add_lan_wan fs).1,
  ground (arith, h),
  add_lan_wan-IsSwitched x fs h,
)
