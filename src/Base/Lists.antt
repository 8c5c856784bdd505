-- ===== src/Base/Lists.antt =====
-- Lists measured and cut by native numbers, under the library's names.
use Prim.Native.Nat.{ℕ, zero, suc, ◌+◌}
use mathlib.Core.Path.{◌≡◌, refl, ap}
use mathlib.Core.List.{List, [], ◌∷◌, ◌++◌}
use native.Mathlib.Omega.{arith}

module _ {ℓ} {A : Type ℓ} where
  abbrev pub length : List A → ℕ
  length [] = 0
  length (x ∷ xs) = suc (length xs)

  abbrev pub get_or : List A → ℕ → A → A
  get_or [] i d = d
  get_or (x ∷ xs) zero d = x
  get_or (x ∷ xs) (suc i) d = get_or xs i d

  abbrev pub take : ℕ → List A → List A
  take zero xs = []
  take (suc n) [] = []
  take (suc n) (x ∷ xs) = x ∷ take n xs

  abbrev pub drop : ℕ → List A → List A
  drop zero xs = xs
  drop (suc n) [] = []
  drop (suc n) (x ∷ xs) = drop n xs

  pub length-append : (xs ys : List A) → length (xs ++ ys) ≡ length xs + length ys
  length-append [] ys = omega arith
  length-append (x ∷ xs) ys = omega (arith, length-append xs ys)

  pub take-append : (xs ys : List A) → take (length xs) (xs ++ ys) ≡ xs
  take-append [] ys = refl
  take-append (x ∷ xs) ys = ap (λ r. x ∷ r) (take-append xs ys)

  pub drop-append : (xs ys : List A) → drop (length xs) (xs ++ ys) ≡ ys
  drop-append [] ys = refl
  drop-append (x ∷ xs) ys = drop-append xs ys

-- Reading a list of parts by offsets: `n` lies `k` past the first part.
module _ {ℓ} {A : Type ℓ} where
  pub drop_past : (n k : ℕ) (xs ys : List A) → n ≡ length xs + k → drop n (xs ++ ys) ≡ drop k ys
  drop_past n k [] ys h = ap (λ i. drop i ys) (omega (arith, h))
  drop_past zero k (x ∷ xs) ys h = absurd (omega arith)
  drop_past (suc n) k (x ∷ xs) ys h = drop_past n k xs ys (omega arith)

  pub get_or_past :
      (n k : ℕ) (xs ys : List A) (d : A) → n ≡ length xs + k → get_or (xs ++ ys) n d ≡ get_or ys k d
  get_or_past n k [] ys d h = ap (λ i. get_or ys i d) (omega (arith, h))
  get_or_past zero k (x ∷ xs) ys d h = absurd (omega arith)
  get_or_past (suc n) k (x ∷ xs) ys d h = get_or_past n k xs ys d (omega arith)

  pub take_part : (n : ℕ) (xs ys : List A) → n ≡ length xs → take n (xs ++ ys) ≡ xs
  take_part zero [] ys h = refl
  take_part (suc n) [] ys h = absurd (omega arith)
  take_part zero (x ∷ xs) ys h = absurd (omega arith)
  take_part (suc n) (x ∷ xs) ys h = ap (λ r. x ∷ r) (take_part n xs ys (omega arith))
