-- ===== src/Store/Memory.antt =====
-- A database in memory, and a codec that writes a time's seconds in unary: values of the store's
-- parameters that meet their laws.
use mist_ui.Base.{ℕ, zero, suc, Bytes, List, [], ◌∷◌, Option, none, some, ◌≡◌, refl, Bool, true}
use mist_ui.Base.{Result, ok, err, if◌then◌else◌, bytes_eq, bytes_eq_iff, ◌&&◌, ◌/◌, ◌*◌, ap, arith}
use mist_ui.Base.{length}
use mist_ui.Store.Database.{Bolt, IsLawful, Bucket, same_bucket, Rfc3339, IsRfc3339, Absent, bar}
use mist_ui.Store.Database.{second}

abbrev pub Entries : Type 0
Entries = List (Bucket × Bytes × Bytes)

abbrev hit : Bucket → Bytes → Bucket → Bytes → Bool
hit b k c j = same_bucket b c && bytes_eq k j

unfoldable pub lookup : Entries → Bucket → Bytes → Option Bytes
lookup [] c j = none
lookup ((b, k, v) ∷ es) c j = if hit b k c j then some v else lookup es c j

unfoldable pub erase : Entries → Bucket → Bytes → Entries
erase [] c j = []
erase ((b, k, v) ∷ es) c j =
    let rest = erase es c j in if hit b k c j then rest else (b, k, v) ∷ rest

unfoldable pub keys : Entries → Bucket → List Bytes
keys [] c = []
keys ((b, k, _) ∷ es) c = let rest = keys es c in if same_bucket b c then k ∷ rest else rest

-- bbolt refuses an empty key.
unfoldable pub put : Entries → Bucket → Bytes → Bytes → Result Entries
put es b [] v = err "key required"
put es b (c ∷ k) v = ok ((b, c ∷ k, v) ∷ erase es b (c ∷ k))

abbrev pub memory_bolt : Bolt
memory_bolt = record {
  State = Entries;
  view = λ es. ok tt;
  get = lookup;
  put = put;
  delete = λ es b k. ok (erase es b k);
  keys = keys;
  key_count = λ es b. length (keys es b);
}

same_bucket_eq : (b c : Bucket) → same_bucket b c ≡ true → b ≡ c
same_bucket_eq b c h = ground arith

lookup-erase :
    (es : Entries) (b c : Bucket) (k j : Bytes)
    → lookup (erase es b k) c j ≡ (if hit b k c j then none else lookup es c j)
unfolding lookup erase
lookup-erase [] b c k j = ground arith
lookup-erase ((d, i, v) ∷ es) b c k j =
    ground (arith, lookup-erase es b c k j, bytes_eq_iff i k, bytes_eq_iff i j, bytes_eq_iff k j)

lookup-put :
    (es fs : Entries) (b c : Bucket) (k j v : Bytes)
    → put es b k v ≡ ok fs
    → lookup fs c j ≡ (if hit b k c j then some v else lookup es c j)
unfolding put lookup
lookup-put es fs b c [] j v h = ground arith
lookup-put es fs b c (x ∷ k) j v h = ground (arith, lookup-erase es b c (x ∷ k) j)

lookup-delete :
    (es fs : Entries) (b c : Bucket) (k j : Bytes)
    → ok (erase es b k) ≡ ok fs
    → lookup fs c j ≡ (if hit b k c j then none else lookup es c j)
lookup-delete es fs b c k j h = ground (arith, lookup-erase es b c k j)

pub memory_bolt-IsLawful : IsLawful memory_bolt
memory_bolt-IsLawful = record { get-put = lookup-put; get-delete = lookup-delete }

unfoldable pub ones : ℕ → Bytes
ones zero = []
ones (suc n) = 1 ∷ ones n

abbrev pub unary_times : Rfc3339
unary_times = record { format = λ t. ones (t / second); parse = λ b. some (length b * second) }

length-ones : (n : ℕ) → length (ones n) ≡ n
unfolding ones
length-ones zero = refl
length-ones (suc n) = omega (arith, length-ones n)

ones-Absent : (n : ℕ) → Absent bar (ones n)
unfolding ones
ones-Absent zero = tt
ones-Absent (suc n) = (omega arith, ones-Absent n)

pub unary_times-IsRfc3339 : IsRfc3339 unary_times
unary_times-IsRfc3339 = record {
  parse-format = λ t _. ap (λ n. some (n * second)) (length-ones (t / second));
  format-Absent = λ t. ones-Absent (t / second);
}
