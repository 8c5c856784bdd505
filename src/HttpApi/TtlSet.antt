-- ===== src/HttpApi/TtlSet.antt =====
-- internal/httpapi/authflow.go, ttlSet: single-use keys that expire. Go's map is a function, and
-- the clock reading of each call is an argument.
use mist_ui.Base.{
  ℕ, ◌+◌, ◌≤◌, ◌<◌, ◌≡◌, refl, Bool, true, false, Option, none, some, List, [], ◌∷◌, arith,
  if◌then◌else◌, ltb, Bytes, bytes_eq, bytes_eq_refl, Result, ok, err,
}

pub record TtlSet : Type 0 where
  pub m : Bytes → Option ℕ
  pub ttl : ℕ

unfoldable pub new_ttl_set : ℕ → TtlSet
new_ttl_set ttl = record { m = λ key. none; ttl = ttl }

-- What is left of an entry after the sweep at `now`: `now.After(exp)` deletes it.
unfoldable pub sweep : ℕ → Option ℕ → Option ℕ
sweep now none = none
sweep now (some exp) = if ltb exp now then none else some exp

unfoldable pub grant : Bytes → ℕ → TtlSet → TtlSet
unfolding sweep
grant key now c = record c {
  m = λ j. if bytes_eq key j then some (now + c.ttl) else sweep now (c.m j);
}

-- `fresh` is the outcome of auth.NewToken.
unfoldable pub issue : Result Bytes → ℕ → TtlSet → Result Bytes × TtlSet
issue (err e) now c = (err e, c)
issue (ok key) now c = (ok key, grant key now c)

unfoldable pub is_live : Option ℕ → ℕ → Bool
is_live none now = false
is_live (some exp) now = ltb now exp

unfoldable pub consume : Bytes → ℕ → TtlSet → Bool × TtlSet
unfolding is_live
consume key now c =
    (is_live (c.m key) now, record c { m = λ j. if bytes_eq key j then none else c.m j })

-- What happened to a set, newest first.
pub data Event : Type 0 where
  granted consumed : Bytes → ℕ → Event

abbrev pub when : Event → ℕ
when (granted key t) = t
when (consumed key t) = t

-- No event is later than `now`, nor than the ones after it.
abbrev pub InOrder : ℕ → List Event → Type 0
InOrder now [] = Unit
InOrder now (e ∷ es) = (when e ≤ now) × InOrder (when e) es

-- The set after the events.
unfoldable pub replay : ℕ → List Event → TtlSet
unfolding new_ttl_set grant consume
replay ttl [] = new_ttl_set ttl
replay ttl (granted key t ∷ es) = grant key t (replay ttl es)
replay ttl (consumed key t ∷ es) = (consume key t (replay ttl es)).1

-- What a key is worth at `now` by the events alone: its last grant is younger than the TTL, and
-- it was not consumed since.
unfoldable pub worth : ℕ → List Event → Bytes → ℕ → Bool
worth ttl [] k now = false
worth ttl (granted key t ∷ es) k now =
    if bytes_eq key k then ltb now (t + ttl) else worth ttl es k now
worth ttl (consumed key t ∷ es) k now = if bytes_eq key k then false else worth ttl es k now

InOrder-mono : (a b : ℕ) (es : List Event) → a ≤ b → InOrder a es → InOrder b es
InOrder-mono a b [] h o = tt
InOrder-mono a b (e ∷ es) h o = (omega arith, o.1)

is_live-sweep : (o : Option ℕ) (t now : ℕ) → t ≤ now → is_live (sweep t o) now ≡ is_live o now
unfolding is_live sweep
is_live-sweep o t now h = ground arith

replay_ttl : (ttl : ℕ) (es : List Event) → (replay ttl es).ttl ≡ ttl
unfolding replay
replay_ttl ttl [] = refl
replay_ttl ttl (granted key t ∷ es) = replay_ttl ttl es
replay_ttl ttl (consumed key t ∷ es) = replay_ttl ttl es

is_live-replay :
    (ttl : ℕ) (es : List Event) (k : Bytes) (now : ℕ)
    → InOrder now es
    → is_live ((replay ttl es).m k) now ≡ worth ttl es k now
unfolding replay worth
is_live-replay ttl [] k now h = refl
is_live-replay ttl (granted key t ∷ es) k now h = ground (
  arith,
  is_live-replay ttl es k now (InOrder-mono t now es h.0 h.1),
  is_live-sweep ((replay ttl es).m k) t now h.0,
  replay_ttl ttl es,
)
is_live-replay ttl (consumed key t ∷ es) k now h =
    ground (arith, is_live-replay ttl es k now (InOrder-mono t now es h.0 h.1))

-- After any history of grants and consumptions in the order of time, a key is accepted exactly
-- if its last grant is younger than the TTL and was not consumed since; the sweep of old
-- entries never shows.
pub consume-replay :
    (ttl : ℕ) (es : List Event) (k : Bytes) (now : ℕ)
    → InOrder now es
    → (consume k now (replay ttl es)).0 ≡ worth ttl es k now
unfolding consume
consume-replay ttl es k now h = is_live-replay ttl es k now h

-- Whatever the set, a key is good for one consumption: a second one fails at every time, and a
-- consumption leaves the answers about all other keys as they were.
pub consume_once :
    (c : TtlSet) (k j : Bytes) (t now : ℕ)
    → (consume j now (consume k t c).1).0 ≡ (if bytes_eq k j then false else (consume j now c).0)
unfolding consume is_live
consume_once c k j t now = ground arith

pub consume-grant :
    (c : TtlSet) (k : Bytes) (t now : ℕ) → now < t + c.ttl → (consume k now (grant k t c)).0 ≡ true
unfolding consume grant is_live
consume-grant c k t now h = ground (arith, bytes_eq_refl k)
