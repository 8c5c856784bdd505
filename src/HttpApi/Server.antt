-- ===== src/HttpApi/Server.antt =====
-- internal/httpapi/api.go: what the handlers share. A handler is a program over the server's
-- state that ends early with a response (an early `return`) or goes on with a value.
pub mod Keeps
use mist_ui.HttpApi.TtlSet.{TtlSet}
use mist_ui.Base.{
  ℕ, zero, suc, ◌+◌, ◌-◌, ◌*◌, ◌/◌, ◌%◌, ◌≤◌, ◌<◌, String, ◌≡◌, refl, sym, ap, subst, ◌∙◌, ◌≢◌, ◌↔◌,
  ◌⊎◌, inl, inr, Bool, true, false, not, ◌&&◌, ◌||◌, Option, none, some, List, [], ◌∷◌, ◌++◌, map,
  arith, if◌then◌else◌, ltb, leb, nat_eq, Bytes, str, bytes_eq, bytes_eq_iff, bytes_eq_refl,
  Bool-cases, Result, ok, err, result_or, Result-cases, Option-cases, length, get_or, take, drop,
  length-append, take-append, drop-append,
}

-- The fields of Server that requests change. `db` is the database, `world` the router outside.
pub record Server (D W : Type 0) : Type 0 where
  pub db : D
  pub world : W
  pub rp_id : Bytes
  pub origins : List Bytes
  pub chals : TtlSet
  pub step_ups : TtlSet
  -- The one slot of the channel portalKick is full.
  pub portal_kick : Bool
  pub portal_note : Option String

-- A JSON value of a response.
pub data Value : Type 0 where
  flag : Bool → Value
  text : Bytes → Value
  texts : List Bytes → Value
  label : String → Value
  number : ℕ → Value
  -- A value that is encoded already.
  raw : Bytes → Value

pub data Body : Type 0 where
  -- http.Error
  message : String → Body
  -- writeJSON of a map
  fields : List (String × Value) → Body

-- What happens to the session cookie.
pub data Cookie : Type 0 where
  keep_cookie : Cookie
  -- The token, and when the browser drops it.
  set_cookie : Bytes → ℕ → Cookie
  clear_cookie : Cookie

pub record Response : Type 0 where
  pub status : ℕ
  pub body : Body
  pub cookie : Cookie

abbrev pub http_error : String → ℕ → Response
http_error msg code = record { status = code; body = message msg; cookie = keep_cookie }

abbrev pub write_json : ℕ → List (String × Value) → Response
write_json code v = record { status = code; body = fields v; cookie = keep_cookie }

-- The cookie of the request, and the clock. All readings of the clock while a request is
-- served are taken to agree.
pub record Request : Type 0 where
  pub cookie : Option Bytes
  pub now : ℕ

unfoldable pub session_token : Request → Bytes
session_token r = elim r.cookie [ none ↦ [] | some v ↦ v ]

pub data Outcome (A : Type 0) : Type 0 where
  return : Response → Outcome A
  value : A → Outcome A

pub Outcome-cases :
    {A : Type 0} (o : Outcome A) → ((a : A) × (o ≡ value a)) ⊎ ((r : Response) × (o ≡ return r))
Outcome-cases (value a) = inl (a, refl)
Outcome-cases (return r) = inr (r, refl)

-- A whole handler over the state `S`.
abbrev pub Handler : Type 0 → Type 0
Handler S = S → Response × S

-- A part of a handler.
abbrev pub M : Type 0 → Type 0 → Type 0
M S A = S → Outcome A × S

infixl 5 ◌>>=◌ ◌>>◌
abbrev pub ◌>>=◌ : {S A B : Type 0} → M S A → (A → M S B) → M S B
◌>>=◌ m f s = let (o, t) = m s in elim o [ return r ↦ (return r, t) | value a ↦ f a t ]

abbrev pub ◌>>◌ : {S B : Type 0} → M S (Unit {0}) → M S B → M S B
◌>>◌ m k = m >>= λ _. k

abbrev pub pure : {S A : Type 0} → A → M S A
pure a s = (value a, s)

-- `return`, early.
abbrev pub exit : {S A : Type 0} → Response → M S A
exit r s = (return r, s)

abbrev pub gets : {S A : Type 0} → (S → A) → M S A
gets f s = (value (f s), s)

abbrev pub modify : {S : Type 0} → (S → S) → M S (Unit {0})
modify f s = (value tt, f s)

-- `if err != nil { write r; return }`
abbrev pub or_exit : {S A : Type 0} → Result A → Response → M S A
or_exit (ok a) r s = (value a, s)
or_exit (err e) r s = (return r, s)

abbrev pub guard : {S : Type 0} → Bool → Response → M S (Unit {0})
guard true r s = (value tt, s)
guard false r s = (return r, s)

-- The response of a handler that has run, early or not.
abbrev pub final : {S : Type 0} → Outcome Response × S → Response × S
final (return r, s) = (r, s)
final (value r, s) = (r, s)

-- A database call whose failure ends the handler with `r`.
abbrev pub store_or_exit : {D W : Type 0} → (D → Result D) → Response → M (Server D W) (Unit {0})
store_or_exit f r s = elim (f s.db) [
  | ok d ↦ (value tt, record s { db = d })
  | err e ↦ (return r, s)
]

-- `_ = s.store.F(…)`: a failed call changes nothing.
abbrev pub store_ignoring : {D W : Type 0} → (D → Result D) → M (Server D W) (Unit {0})
store_ignoring f s = (value tt, record s { db = result_or (f s.db) s.db })

abbrev pub internal : Response
internal = http_error "internal" 500

abbrev pub bad_request : Response
bad_request = http_error "bad request" 400

abbrev pub denied : Response
denied = http_error "denied" 401
