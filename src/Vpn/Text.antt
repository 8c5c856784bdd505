-- ===== src/Vpn/Text.antt =====
-- What internal/vpn/config.go takes from Go's package strings, on ASCII texts: TrimSpace, ToLower,
-- Trim, Split and Cut.
use mist_ui.Base.{
  ℕ, ◌+◌, ◌≡◌, refl, ap, ◌∙◌, ◌≢◌, Bool, true, false, ◌&&◌, ◌||◌, Option, none, some, List, [], ◌∷◌,
  ◌++◌, arith, if◌then◌else◌, leb, nat_eq, Bytes,
}

abbrev pub is_space : ℕ → Bool
is_space c = nat_eq c b' ' || (leb 9 c && leb c 13)

-- Without the bytes at one end that pass a test.
unfoldable pub trim_left : (ℕ → Bool) → Bytes → Bytes
trim_left p [] = []
trim_left p (c ∷ s) = let rest = trim_left p s in if p c then rest else c ∷ s

unfoldable pub trim_right : (ℕ → Bool) → Bytes → Bytes
trim_right p [] = []
trim_right p (c ∷ s) = elim (trim_right p s) [ [] ↦ if p c then [] else c ∷ [] | d ∷ t ↦ c ∷ d ∷ t ]

unfoldable pub trim : (ℕ → Bool) → Bytes → Bytes
unfolding trim_left trim_right
trim p s = trim_right p (trim_left p s)

unfoldable pub trim_space : Bytes → Bytes
unfolding trim
trim_space s = trim is_space s

unfoldable pub to_lower : Bytes → Bytes
to_lower [] = []
to_lower (c ∷ s) = (if leb b'A' c && leb c b'Z' then c + 32 else c) ∷ to_lower s

-- The parts before and after the first byte that passes a test.
unfoldable pub cut_where : (ℕ → Bool) → Bytes → Option (Bytes × Bytes)
cut_where p [] = none
cut_where p (c ∷ s) =
    if p c
    then some ([], s)
    else elim (cut_where p s) [ none ↦ none | some (before, after) ↦ some (c ∷ before, after) ]

-- A part that is open at its front.
abbrev push_front : ℕ → List Bytes → List Bytes
push_front c [] = (c ∷ []) ∷ []
push_front c (part ∷ parts) = (c ∷ part) ∷ parts

unfoldable pub split : ℕ → Bytes → List Bytes
split sep [] = [] ∷ []
split sep (c ∷ s) = let rest = split sep s in if nat_eq c sep then [] ∷ rest else push_front c rest

unfoldable pub join : ℕ → List Bytes → Bytes
join sep [] = []
join sep (p ∷ []) = p
join sep (p ∷ q ∷ ps) = p ++ (sep ∷ join sep (q ∷ ps))

-- No byte of a text passes the test.
abbrev pub Free : (ℕ → Bool) → Bytes → Type 0
Free p [] = Unit
Free p (c ∷ s) = (p c ≡ false) × Free p s

abbrev pub AllFree : (ℕ → Bool) → List Bytes → Type 0
AllFree p [] = Unit
AllFree p (s ∷ ss) = Free p s × AllFree p ss

abbrev pub is_byte : ℕ → ℕ → Bool
is_byte sep c = nat_eq c sep

pub split-Free : (sep : ℕ) (s : Bytes) → Free (is_byte sep) s → split sep s ≡ s ∷ []
unfolding split
split-Free sep [] h = refl
split-Free sep (c ∷ s) h = ground (arith, split-Free sep s h.1)

pub split_at_sep :
    (sep : ℕ) (s t : Bytes) → Free (is_byte sep) s → split sep (s ++ (sep ∷ t)) ≡ s ∷ split sep t
unfolding split
split_at_sep sep [] t h = ground arith
split_at_sep sep (c ∷ s) t h = ground (arith, split_at_sep sep s t h.1)

-- Splitting a join gives the parts back, if there is one and none holds the separator.
pub split-join :
    (sep : ℕ) (p : Bytes) (ps : List Bytes)
    → AllFree (is_byte sep) (p ∷ ps)
    → split sep (join sep (p ∷ ps)) ≡ p ∷ ps
unfolding join
split-join sep p [] h = split-Free sep p h.0
split-join sep p (q ∷ ps) h =
    split_at_sep sep p (join sep (q ∷ ps)) h.0 ∙ ap (λ r. p ∷ r) (split-join sep q ps h.1)

pub cut_where-Free : (p : ℕ → Bool) (s : Bytes) → Free p s → cut_where p s ≡ none
unfolding cut_where
cut_where-Free p [] h = refl
cut_where-Free p (c ∷ s) h = ground (arith, cut_where-Free p s h.1)

pub cut_where_at :
    (p : ℕ → Bool) (s t : Bytes) (c : ℕ)
    → Free p s
    → p c ≡ true
    → cut_where p (s ++ (c ∷ t)) ≡ some (s, t)
unfolding cut_where
cut_where_at p [] t c h e = ground arith
cut_where_at p (d ∷ s) t c h e = ground (arith, cut_where_at p s t c h.1 e)

pub trim_right-append :
    (p : ℕ → Bool) (s t : Bytes) → trim_right p t ≡ t → t ≢ [] → trim_right p (s ++ t) ≡ s ++ t
unfolding trim_right
trim_right-append p [] t h ne = h
trim_right-append p (c ∷ s) [] h ne = absurd (ne refl)
trim_right-append p (c ∷ []) (d ∷ t) h ne = rw h refl
trim_right-append p (c ∷ b ∷ s) (d ∷ t) h ne = rw (trim_right-append p (b ∷ s) (d ∷ t) h ne) refl

pub Free-append : (p : ℕ → Bool) (s t : Bytes) → Free p s → Free p t → Free p (s ++ t)
Free-append p [] t h k = k
Free-append p (c ∷ s) t h k = (h.0, Free-append p s t h.1 k)
