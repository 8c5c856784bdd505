-- ===== src/Router/Force.antt =====
-- The runs of commands after which a configuration is in force: staged, then committed, then loaded by the
-- service that reads it (internal/dns/service.go, internal/netcfg/wifi.go: `uci commit`, then the reloads).
use mist_ui.Router.Uci.{
  Cmd, View, set_section, set_option, add_list, del_list, delete_section, delete_option, commit,
  get_section, service, effect, saves, loads, reads, is_plain, are_plain, Runner, IsUci, run_all,
}
use mist_ui.Base.{
  ◌≡◌, refl, sym, ◌∙◌, inl, inr, Bool, true, false, List, [], ◌∷◌, arith, if◌then◌else◌, Bytes,
  bytes_eq, Bool-cases, ok, Result-cases, subst,
}

-- How far the last change of a configuration has come.
pub data Stage : Type 0 where
  staged : Stage
  on_disk : Stage
  in_force : Stage

-- Whether a command changes a configuration.
unfoldable writes : Bytes → Cmd → Bool
writes conf (set_section d sec t) = bytes_eq d conf
writes conf (set_option d sec opt x) = bytes_eq d conf
writes conf (add_list d sec opt x) = bytes_eq d conf
writes conf (del_list d sec opt x) = bytes_eq d conf
writes conf (delete_section d sec) = bytes_eq d conf
writes conf (delete_option d sec opt) = bytes_eq d conf
writes conf _ = false

unfoldable committed : Stage → Stage
committed staged = on_disk
committed on_disk = on_disk
committed in_force = in_force

unfoldable loaded : Stage → Stage
loaded staged = staged
loaded on_disk = in_force
loaded in_force = in_force

unfoldable settle : Bytes → Cmd → Stage → Stage
settle conf (commit d) p = if bytes_eq d conf then committed p else p
settle conf (service name action) p = if reads name conf then loaded p else p
settle conf _ p = p

-- Where a configuration stands after a list of commands that begins at `p`.
unfoldable pub stage_after : Bytes → List Cmd → Stage → Stage
unfolding writes settle committed loaded
stage_after conf [] p = p
stage_after conf (c ∷ cs) p =
    stage_after conf cs (if writes conf c then staged else settle conf c p)

abbrev pub SameAt : Bytes → View → View → Type 0
SameAt conf a b = (s o : Bytes) → a conf s o ≡ b conf s o

-- What a stage means for the staged configuration, the files and what is loaded.
abbrev Means : Bytes → Stage → View → View → View → Type 0
Means conf staged v f l = Unit
Means conf on_disk v f l = SameAt conf f v
Means conf in_force v f l = SameAt conf f v × SameAt conf l v

effect_other :
    (conf : Bytes) (c : Cmd) (v : View) (s o : Bytes)
    → writes conf c ≡ false
    → effect c v conf s o ≡ v conf s o
unfolding effect writes
effect_other conf (set_section d sec t) v s o h = ground arith
effect_other conf (set_option d sec opt x) v s o h = ground arith
effect_other conf (add_list d sec opt x) v s o h = ground arith
effect_other conf (del_list d sec opt x) v s o h = ground arith
effect_other conf (delete_section d sec) v s o h = ground arith
effect_other conf (delete_option d sec opt) v s o h = ground arith
effect_other conf (commit d) v s o h = refl
effect_other conf (get_section d sec) v s o h = refl
effect_other conf (service d a) v s o h = refl

Means-effect :
    (conf : Bytes) (c : Cmd) (p : Stage) (v f l : View)
    → writes conf c ≡ false
    → Means conf p v f l
    → Means conf p (effect c v) f l
Means-effect conf c staged v f l h m = tt
Means-effect conf c on_disk v f l h m = λ s o. m s o ∙ sym (effect_other conf c v s o h)
Means-effect conf c in_force v f l h m = (
  λ s o. m.0 s o ∙ sym (effect_other conf c v s o h),
  λ s o. m.1 s o ∙ sym (effect_other conf c v s o h),
)

Means-commit :
    (conf d : Bytes) (p : Stage) (v f l : View)
    → Means conf p v f l
    → Means conf (settle conf (commit d) p) v (saves (commit d) v f) l
unfolding settle committed saves
Means-commit conf d staged v f l m = elim (Bool-cases (bytes_eq d conf)) [
  | inl e ↦ rw (e, settle) (λ s o. ground (arith, e))
  | inr e ↦ rw (e, settle) tt
]
Means-commit conf d on_disk v f l m = elim (Bool-cases (bytes_eq d conf)) [
  | inl e ↦ rw (e, settle) (λ s o. ground (arith, e))
  | inr e ↦ rw (e, settle) (λ s o. ground (arith, e, m s o))
]
Means-commit conf d in_force v f l m = elim (Bool-cases (bytes_eq d conf)) [
  | inl e ↦ rw (e, settle) ((λ s o. ground (arith, e)), m.1)
  | inr e ↦ rw (e, settle) ((λ s o. ground (arith, e, m.0 s o)), m.1)
]

Means-service :
    (conf name action : Bytes) (p : Stage) (v f l : View)
    → Means conf p v f l
    → Means conf (settle conf (service name action) p) v f (loads (service name action) f l)
unfolding settle loaded loads
Means-service conf name action staged v f l m = ground (arith, m)
Means-service conf name action on_disk v f l m = elim (Bool-cases (reads name conf)) [
  | inl e ↦ rw (e, settle) (m, λ s o. ground (arith, e, m s o))
  | inr e ↦ rw (e, settle) m
]
Means-service conf name action in_force v f l m = elim (Bool-cases (reads name conf)) [
  | inl e ↦ rw (e, settle) (m.0, λ s o. ground (arith, e, m.0 s o))
  | inr e ↦ rw (e, settle) (m.0, λ s o. ground (arith, e, m.1 s o))
]

Means-unwritten :
    (conf : Bytes) (c : Cmd) (p : Stage) (v f l : View)
    → writes conf c ≡ false
    → Means conf p v f l
    → Means conf (settle conf c p) (effect c v) (saves c v f) (loads c f l)
unfolding settle saves loads effect
Means-unwritten conf (set_section d sec t) p v f l h m =
    Means-effect conf (set_section d sec t) p v f l h m
Means-unwritten conf (set_option d sec opt x) p v f l h m =
    Means-effect conf (set_option d sec opt x) p v f l h m
Means-unwritten conf (add_list d sec opt x) p v f l h m =
    Means-effect conf (add_list d sec opt x) p v f l h m
Means-unwritten conf (del_list d sec opt x) p v f l h m =
    Means-effect conf (del_list d sec opt x) p v f l h m
Means-unwritten conf (delete_section d sec) p v f l h m =
    Means-effect conf (delete_section d sec) p v f l h m
Means-unwritten conf (delete_option d sec opt) p v f l h m =
    Means-effect conf (delete_option d sec opt) p v f l h m
Means-unwritten conf (commit d) p v f l h m = Means-commit conf d p v f l m
Means-unwritten conf (get_section d sec) p v f l h m = m
Means-unwritten conf (service d a) p v f l h m = Means-service conf d a p v f l m

Means-step :
    (conf : Bytes) (c : Cmd) (p : Stage) (v f l : View)
    → Means conf p v f l
    → Means conf
        (if writes conf c then staged else settle conf c p)
        (effect c v)
        (saves c v f)
        (loads c f l)
Means-step conf c p v f l m = elim (Bool-cases (writes conf c)) [
  | inl e ↦ rw e tt
  | inr e ↦ rw e (Means-unwritten conf c p v f l e m)
]

module _ {W : Type 0} (U : Runner W) where
  -- What the services have loaded of a configuration is what is staged.
  abbrev pub IsInForce : Bytes → W → Type 0
  IsInForce conf w = SameAt conf (U.live w) (U.view w)

  Means-run :
      IsUci U
      → (conf : Bytes) (c : Cmd) (p : Stage) (w : W) (out : Bytes) → is_plain c ≡ true
      → (U.run c w).0 ≡ ok out
      → Means conf p (U.view w) (U.saved w) (U.live w)
      → let t = (U.run c w).1 in
        Means conf
          (if writes conf c then staged else settle conf c p)
          (U.view t)
          (U.saved t)
          (U.live t)
  Means-run L conf c p w out k h m =
      let t = (U.run c w).1 in
      let e : U.run c w ≡ (ok out, t) = ground (arith, h) in
      rw (L.run_effect c w t out k e, L.run_saves c w t out k e, L.run_loads c w t out k e)
        (Means-step conf c p (U.view w) (U.saved w) (U.live w) m)

  Means-run_all :
      IsUci U
      → (conf : Bytes) (cs : List Cmd) (p : Stage) (w : W) → are_plain cs ≡ true
      → (run_all U cs w).0 ≡ ok tt
      → Means conf p (U.view w) (U.saved w) (U.live w)
      → let t = (run_all U cs w).1 in
        Means conf (stage_after conf cs p) (U.view t) (U.saved t) (U.live t)
  unfolding run_all stage_after are_plain
  Means-run_all L conf [] p w k h m = m
  Means-run_all L conf (c ∷ cs) p w k h m = elim (Result-cases (U.run c w).0) [
    | inr (e, q) ↦ absurd (ground (arith, q))
    | inl (out, q) ↦
        rw (q, run_all)
          (Means-run_all L conf cs (if writes conf c then staged else settle conf c p) (U.run c w).1
            (ground arith) (ground (arith, q)) (Means-run L conf c p w out (ground arith) q m))
  ]

  -- After a run without an error whose last change of a configuration is committed and then
  -- loaded, the configuration is in force.
  pub run_all-IsInForce :
      IsUci U
      → (conf : Bytes) (cs : List Cmd) (w : W) → are_plain cs ≡ true
      → stage_after conf cs staged ≡ in_force
      → (run_all U cs w).0 ≡ ok tt
      → IsInForce conf (run_all U cs w).1
  run_all-IsInForce L conf cs w k e h =
      let t = (run_all U cs w).1 in
      (subst (λ p. Means conf p (U.view t) (U.saved t) (U.live t)) e
        (Means-run_all L conf cs staged w k h tt)).1

  -- The same in two runs: the first commits, the second loads.
  pub on_disk-run_all :
      IsUci U
      → (conf : Bytes) (cs : List Cmd) (w : W) → are_plain cs ≡ true
      → stage_after conf cs staged ≡ on_disk
      → (run_all U cs w).0 ≡ ok tt
      → SameAt conf (U.saved (run_all U cs w).1) (U.view (run_all U cs w).1)
  on_disk-run_all L conf cs w k e h =
      let t = (run_all U cs w).1 in
      subst (λ p. Means conf p (U.view t) (U.saved t) (U.live t)) e
        (Means-run_all L conf cs staged w k h tt)

  pub load-run_all :
      IsUci U
      → (conf : Bytes) (cs : List Cmd) (w : W) → are_plain cs ≡ true
      → stage_after conf cs on_disk ≡ in_force
      → (run_all U cs w).0 ≡ ok tt
      → SameAt conf (U.saved w) (U.view w)
      → IsInForce conf (run_all U cs w).1
  load-run_all L conf cs w k e h m =
      let t = (run_all U cs w).1 in
      (subst (λ p. Means conf p (U.view t) (U.saved t) (U.live t)) e
        (Means-run_all L conf cs on_disk w k h m)).1
