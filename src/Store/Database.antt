-- ===== src/Store/Database.antt =====
-- What internal/store takes from go.etcd.io/bbolt and from Go's package time: a database of
-- named buckets whose transactions commit or change nothing, and the RFC 3339 text of a time.
use mist_ui.Base.{ℕ, Bytes, List, [], ◌∷◌, Option, none, some, ◌≡◌, ◌≢◌, Bool, true, false}
use mist_ui.Base.{Result, ok, if◌then◌else◌, bytes_eq, ◌&&◌, ◌/◌, ◌*◌, ◌<◌}

-- The buckets that `Open` creates.
pub data Bucket : Type 0 where
  bucket_creds bucket_sessions bucket_config : Bucket

abbrev pub same_bucket : Bucket → Bucket → Bool
same_bucket bucket_creds bucket_creds = true
same_bucket bucket_sessions bucket_sessions = true
same_bucket bucket_config bucket_config = true
same_bucket _ _ = false

-- `view` is the outcome of a read transaction as a whole (an error once the database is closed);
-- `put` and `delete` are an `Update` transaction with that one write.
pub record Bolt : Type 1 where
  pub State : Type 0
  pub view : State → Result (Unit {0})
  pub get : State → Bucket → Bytes → Option Bytes
  pub put : State → Bucket → Bytes → Bytes → Result State
  pub delete : State → Bucket → Bytes → Result State
  pub keys : State → Bucket → List Bytes
  pub key_count : State → Bucket → ℕ

-- A committed write is read back, and touches no other key.
pub record IsLawful (B : Bolt) : Type 0 where
  pub get-put :
      (s t : B.State) (b c : Bucket) (k j v : Bytes)
      → B.put s b k v ≡ ok t
      → B.get t c j ≡ (if same_bucket b c && bytes_eq k j then some v else B.get s c j)
  pub get-delete :
      (s t : B.State) (b c : Bucket) (k j : Bytes)
      → B.delete s b k ≡ ok t
      → B.get t c j ≡ (if same_bucket b c && bytes_eq k j then none else B.get s c j)

abbrev pub Absent : ℕ → Bytes → Type 0
Absent c [] = Unit
Absent c (x ∷ xs) = (x ≢ c) × Absent c xs

-- The byte `|`.
abbrev pub bar : ℕ
bar = 124

abbrev pub second : ℕ
second = 1_000_000_000

-- Times from here on have a year of five digits, which `time.Parse` refuses.
abbrev pub year_10000 : ℕ
year_10000 = 253_402_300_800 * second

-- `time.RFC3339` keeps whole seconds only.
abbrev pub to_second : ℕ → ℕ
to_second t = t / second * second

-- Times are nanoseconds since 1970.
pub record Rfc3339 : Type 0 where
  pub format : ℕ → Bytes
  pub parse : Bytes → Option ℕ

pub record IsRfc3339 (T : Rfc3339) : Type 0 where
  pub parse-format : (t : ℕ) → t < year_10000 → T.parse (T.format t) ≡ some (to_second t)
  pub format-Absent : (t : ℕ) → Absent bar (T.format t)
