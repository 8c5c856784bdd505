-- ===== src/Netcfg/Identity/Plausible.antt =====
-- internal/netcfg/identity.go, GenerateIdentity: how the address and the name belong together.
use mathlib.Core.List.{Mem, mem-cons_self, mem-cons_of_mem}
use mist_ui.Netcfg.Identity.{
  Oui, Identity, Profile, generic, profile_by_key, valid_profile, identity_of, Raw, mac_text,
  at_index, host_of, identity_with, generate_identity,
}
use mist_ui.Base.{
  ℕ, zero, suc, ◌/◌, ◌%◌, ◌<◌, ◌≡◌, refl, subst, ◌⊎◌, inl, inr, false, List, [], ◌∷◌, arith, Bytes,
  bytes_eq, bytes_eq_iff, Bool-cases, ok, length,
}

pub at_index-Mem :
    {A : Type 0} (x : A) (xs : List A) (n : ℕ) → n < length xs → Mem (at_index x xs n) xs
unfolding at_index
at_index-Mem x [] n h = absurd (omega (arith, h))
at_index-Mem x (y ∷ ys) zero h = mem-cons_self
at_index-Mem x (y ∷ ys) (suc n) h = mem-cons_of_mem y (at_index-Mem x ys n (omega (arith, h)))

-- A throwaway address: assigned locally, to one station, and without a name.
abbrev pub IsLocal : Raw → Identity → Type 0
IsLocal r id =
    (b : ℕ) × (id.mac ≡ mac_text b r.b1 r.b2 r.b3 r.b4 r.b5)
    × (b < 256)
    × (b / 2 % 2 ≡ 1)
    × (b % 2 ≡ 0)
    × (id.hostname ≡ [])

-- A prefix of the profile's own pool, with one of its names, if it has any.
abbrev pub IsOf : Profile → Raw → Identity → Type 0
IsOf p r id =
    (o : Oui) × Mem o p.ouis
    × (id.mac ≡ mac_text o.0 o.1 o.2 r.b3 r.b4 r.b5)
    × (Mem id.hostname p.names ⊎ ((p.names ≡ []) × (id.hostname ≡ [])))

host_of-Mem :
    (names : List Bytes) (sel : ℕ)
    → Mem (host_of names sel) names ⊎ ((names ≡ []) × (host_of names sel ≡ []))
unfolding host_of
host_of-Mem [] sel = inr (refl, refl)
host_of-Mem (n ∷ ns) sel = inl (at_index-Mem n (n ∷ ns) (sel % length (n ∷ ns)) (omega arith))

-- What the table says of a key: the first profile with it, or the generic one.
abbrev pub IsFound : List Profile → Bytes → Profile → Type 0
IsFound table key p =
    (Mem p table × (p.key ≡ key)) ⊎ ((p ≡ generic) × (valid_profile table key ≡ false))

profile_by_key-IsFound :
    (table : List Profile) (key : Bytes) → IsFound table key (profile_by_key generic table key)
unfolding profile_by_key valid_profile
profile_by_key-IsFound [] key = inr (refl, refl)
profile_by_key-IsFound (p ∷ ps) key = elim (Bool-cases (bytes_eq p.key key)) [
  | inl same ↦ rw (same, profile_by_key) (inl (mem-cons_self, (bytes_eq_iff p.key key).0 same))
  | inr other ↦ elim (profile_by_key-IsFound ps key) [
    | inl (m, e) ↦ rw (other, profile_by_key) (inl (mem-cons_of_mem p m, e))
    | inr (e, v) ↦ rw (other, profile_by_key) (inr (e, v))
  ]
]

generic_part :
    (p : Bytes) (names : List Bytes) (r : Raw) → r.b0 < 256 → IsLocal r (identity_with p [] names r)
unfolding identity_with
generic_part p names r h = (_, refl, grind arith, grind arith, grind arith, refl)

vendor_part :
    (key : Bytes) (o : Oui) (os : List Oui) (names : List Bytes) (r : Raw)
    → (q : Oui) × Mem q (o ∷ os)
      × ((identity_with key (o ∷ os) names r).mac ≡ mac_text q.0 q.1 q.2 r.b3 r.b4 r.b5)
      × (Mem (identity_with key (o ∷ os) names r).hostname names
          ⊎ ((names ≡ []) × ((identity_with key (o ∷ os) names r).hostname ≡ [])))
unfolding identity_with
vendor_part key o os names r = (
  at_index o (o ∷ os) (r.sel1 % length (o ∷ os)),
  at_index-Mem o (o ∷ os) _ (omega arith),
  refl,
  host_of-Mem names r.sel2,
)

profile_part :
    (key : Bytes) (ouis : List Oui) (names : List Bytes) (r : Raw)
    → r.b0 < 256
    → let id = identity_with key ouis names r in
      (id.profile ≡ key)
      × (((ouis ≡ []) × IsLocal r id)
          ⊎ ((q : Oui) × Mem q ouis
              × (id.mac ≡ mac_text q.0 q.1 q.2 r.b3 r.b4 r.b5)
              × (Mem id.hostname names ⊎ ((names ≡ []) × (id.hostname ≡ [])))))
unfolding identity_with
profile_part key [] names r h = (refl, inl (refl, generic_part key names r h))
profile_part key (o ∷ os) names r h = (refl, inr (vendor_part key o os names r))

-- An identity from random bytes (the first below 256) is always that of one profile: the one of the key, or the generic one where no
-- profile has the key. Its address starts with a prefix of that profile's pool and its name is one
-- of that profile's names; without a pool, the address is locally administered and not a group's,
-- and there is no name.
pub generate_identity_plausible :
    (table : List Profile) (key : Bytes) (r : Raw) (id : Identity)
    → r.b0 < 256
    → generate_identity table (ok r) key ≡ ok id
    → (p : Profile) × IsFound table key p
      × (id.profile ≡ p.key)
      × (((p.ouis ≡ []) × IsLocal r id) ⊎ IsOf p r id)
unfolding generate_identity
generate_identity_plausible table key r id b h =
    let p = profile_by_key generic table key in
    let same : identity_of p r ≡ id = ground (arith, h) in
    let (key_of, rest) =
      subst (λ i. (i.profile ≡ p.key) × (((p.ouis ≡ []) × IsLocal r i) ⊎ IsOf p r i)) same
        (profile_part p.key p.ouis p.names r b) in
    (p, profile_by_key-IsFound table key, key_of, rest)
