-- ===== src/Vpn/KillSwitch/Loop.antt =====
-- internal/vpn/killswitch.go: the loop that deletes the forwardings, one at a time.
use mathlib.Core.List.{append_assoc}
use mist_ui.Vpn.KillSwitch.{
  Forwarding, no_forwarding, lan_wan, lan_forwardings, get_dest, find_wan, find_lan_wan, delete_at,
  delete_lan_wan,
}
use mist_ui.Base.{
  ℕ, zero, suc, ◌+◌, ◌<◌, ◌≡◌, refl, sym, ap, subst, ◌∙◌, inl, inr, Bool, true, false, not, ◌&&◌,
  ◌||◌, Option, none, some, List, [], ◌∷◌, ◌++◌, arith, if◌then◌else◌, str, bytes_eq, Bool-cases,
  Option-cases, length, length-append, get_or_past,
}

-- A forwarding from lan to wan without a name.
unfoldable pub is_lan_wan : Forwarding → Bool
is_lan_wan f = (not f.named && bytes_eq f.src (str "lan")) && bytes_eq f.dest (str "wan")

unfoldable pub without_lan_wan : List Forwarding → List Forwarding
without_lan_wan [] = []
without_lan_wan (f ∷ fs) = let rest = without_lan_wan fs in if is_lan_wan f then rest else f ∷ rest

unfoldable pub has_lan_wan : List Forwarding → Bool
has_lan_wan [] = false
has_lan_wan (f ∷ fs) = is_lan_wan f || has_lan_wan fs

first_lan_wan : ℕ → List Forwarding → Option ℕ
first_lan_wan n [] = none
first_lan_wan n (f ∷ fs) =
    let rest = first_lan_wan (suc n) fs in if is_lan_wan f then some n else rest

get_dest-append :
    (before fs : List Forwarding) (f : Forwarding)
    → get_dest (before ++ (f ∷ fs)) (length before) ≡ f.dest
unfolding get_dest
get_dest-append before fs f =
    ap (λ g. g.dest) (get_or_past (length before) 0 before (f ∷ fs) no_forwarding (omega arith))

length-snoc :
    (before : List Forwarding) (f : Forwarding) → length (before ++ (f ∷ [])) ≡ suc (length before)
length-snoc before f = omega (arith, length-append before (f ∷ []))

find_wan-first_lan_wan :
    (before fs : List Forwarding)
    → find_wan (before ++ fs) (lan_forwardings (length before) fs)
      ≡ first_lan_wan (length before) fs
unfolding find_wan lan_forwardings first_lan_wan is_lan_wan
find_wan-first_lan_wan before [] = refl
find_wan-first_lan_wan before (f ∷ fs) =
    let d = get_dest-append before fs f in
    let later : find_wan (before ++ (f ∷ fs)) (lan_forwardings (suc (length before)) fs)
        ≡ first_lan_wan (suc (length before)) fs =
      subst (λ n. find_wan (before ++ (f ∷ fs)) (lan_forwardings n fs) ≡ first_lan_wan n fs)
        (length-snoc before f)
        (subst
          (λ gs.
            find_wan gs (lan_forwardings (length (before ++ (f ∷ []))) fs)
            ≡ first_lan_wan (length (before ++ (f ∷ []))) fs)
          (append_assoc before (f ∷ []) fs) (find_wan-first_lan_wan (before ++ (f ∷ [])) fs)) in
    elim (Bool-cases (not f.named && bytes_eq f.src (str "lan"))) [
      | inl p ↦ elim (Bool-cases (bytes_eq f.dest (str "wan"))) [
        | inl r ↦ ground (arith, p, d, r)
        | inr r ↦ ground (arith, p, d, r, later)
      ]
      | inr p ↦ ground (arith, p, later)
    ]

find_lan_wan-first_lan_wan : (fs : List Forwarding) → find_lan_wan fs ≡ first_lan_wan 0 fs
unfolding find_lan_wan
find_lan_wan-first_lan_wan fs = find_wan-first_lan_wan [] fs

first_lan_wan-some :
    (n : ℕ) (fs : List Forwarding) (i : ℕ)
    → first_lan_wan n fs ≡ some i
    → (k : ℕ) × (i ≡ n + k)
      × (length fs ≡ suc (length (delete_at k fs)))
      × (without_lan_wan (delete_at k fs) ≡ without_lan_wan fs)
      × (has_lan_wan fs ≡ true)
unfolding first_lan_wan delete_at without_lan_wan has_lan_wan
first_lan_wan-some n [] i h = absurd (ground arith)
first_lan_wan-some n (f ∷ fs) i h = elim (Bool-cases (is_lan_wan f)) [
  | inl p ↦ (0, ground (arith, p), omega arith, ground (arith, p), ground (arith, p))
  | inr p ↦
      let (k, e, l, w, t) = first_lan_wan-some (suc n) fs i (ground (arith, p)) in
      (suc k, omega (arith, e), omega (arith, l), ground (arith, p, w), ground (arith, p, t))
]

first_lan_wan-none :
    (n : ℕ) (fs : List Forwarding)
    → first_lan_wan n fs ≡ none
    → (without_lan_wan fs ≡ fs) × (has_lan_wan fs ≡ false)
unfolding first_lan_wan without_lan_wan has_lan_wan
first_lan_wan-none n [] h = (refl, refl)
first_lan_wan-none n (f ∷ fs) h = elim (Bool-cases (is_lan_wan f)) [
  | inl p ↦ absurd (ground (arith, p))
  | inr p ↦
      let (w, t) = first_lan_wan-none (suc n) fs (ground (arith, p)) in
      (ground (arith, p, w), ground (arith, p, t))
]

pub find_lan_wan-none :
    (fs : List Forwarding)
    → find_lan_wan fs ≡ none
    → (without_lan_wan fs ≡ fs) × (has_lan_wan fs ≡ false)
find_lan_wan-none fs h = first_lan_wan-none 0 fs (sym (find_lan_wan-first_lan_wan fs) ∙ h)

pub find_lan_wan-some :
    (fs : List Forwarding) (i : ℕ)
    → find_lan_wan fs ≡ some i
    → (length fs ≡ suc (length (delete_at i fs)))
      × (without_lan_wan (delete_at i fs) ≡ without_lan_wan fs)
      × (has_lan_wan fs ≡ true)
find_lan_wan-some fs i h =
    let (k, e, l, w, t) = first_lan_wan-some 0 fs i (sym (find_lan_wan-first_lan_wan fs) ∙ h) in
    subst
      (λ j.
        (length fs ≡ suc (length (delete_at j fs)))
        × (without_lan_wan (delete_at j fs) ≡ without_lan_wan fs)
        × (has_lan_wan fs ≡ true))
      (omega (arith, e)) (l, w, t)

-- The script's loop, which finds and deletes one forwarding at a time while the indices shift, ends
-- within a round for each forwarding and one more, has then deleted all those from lan to wan that have
-- no name, has kept the others in their order, and has noted a change exactly if there was one of them.
pub delete_lan_wan-without_lan_wan :
    (rounds : ℕ) (changed : Bool) (fs : List Forwarding)
    → length fs < rounds
    → delete_lan_wan rounds changed fs ≡ some (changed || has_lan_wan fs, without_lan_wan fs)
unfolding delete_lan_wan
delete_lan_wan-without_lan_wan zero changed fs lt = absurd (omega arith)
delete_lan_wan-without_lan_wan (suc rounds) changed fs lt = elim (Option-cases (find_lan_wan fs)) [
  | inl e ↦
      let (w, t) = find_lan_wan-none fs e in
      elim changed [ true ↦ ground (arith, e, w, t) | false ↦ ground (arith, e, w, t) ]
  | inr (i, e) ↦
      let (l, w, t) = find_lan_wan-some fs i e in
      let k = delete_lan_wan-without_lan_wan rounds true (delete_at i fs) (omega (arith, l)) in
      elim changed [ true ↦ ground (arith, e, k, w, t) | false ↦ ground (arith, e, k, w, t) ]
]

pub has_lan_wan-without_lan_wan : (fs : List Forwarding) → has_lan_wan (without_lan_wan fs) ≡ false
unfolding has_lan_wan without_lan_wan
has_lan_wan-without_lan_wan [] = refl
has_lan_wan-without_lan_wan (f ∷ fs) = elim (Bool-cases (is_lan_wan f)) [
  | inl p ↦ ground (arith, p, has_lan_wan-without_lan_wan fs)
  | inr p ↦ ground (arith, p, has_lan_wan-without_lan_wan fs)
]

pub find_lan_wan-has_lan_wan :
    (fs : List Forwarding)
    → (has_lan_wan fs ≡ false → find_lan_wan fs ≡ none)
      × (has_lan_wan fs ≡ true → (i : ℕ) × (find_lan_wan fs ≡ some i))
find_lan_wan-has_lan_wan fs = elim (Option-cases (find_lan_wan fs)) [
  | inl e ↦ (λ _. e, λ h. absurd (ground (arith, h, find_lan_wan-none fs e)))
  | inr (i, e) ↦ (λ h. absurd (ground (arith, h, find_lan_wan-some fs i e)), λ _. (i, e))
]

pub has_lan_wan-append_lan_wan : (fs : List Forwarding) → has_lan_wan (fs ++ (lan_wan ∷ [])) ≡ true
unfolding has_lan_wan is_lan_wan bytes_eq str
has_lan_wan-append_lan_wan [] = refl
has_lan_wan-append_lan_wan (f ∷ fs) = ground (arith, has_lan_wan-append_lan_wan fs)

pub without_lan_wan-append_lan_wan :
    (fs : List Forwarding) → without_lan_wan (fs ++ (lan_wan ∷ [])) ≡ without_lan_wan fs
unfolding without_lan_wan is_lan_wan bytes_eq str
without_lan_wan-append_lan_wan [] = refl
without_lan_wan-append_lan_wan (f ∷ fs) =
    let k = without_lan_wan-append_lan_wan fs in
    elim (Bool-cases (is_lan_wan f)) [ inl p ↦ ground (arith, p, k) | inr p ↦ ground (arith, p, k) ]

pub without_lan_wan-none : (fs : List Forwarding) → has_lan_wan fs ≡ false → without_lan_wan fs ≡ fs
without_lan_wan-none fs h = (find_lan_wan-none fs ((find_lan_wan-has_lan_wan fs).0 h)).0
