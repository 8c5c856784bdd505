-- ===== src/Dns/Forwarder.antt =====
-- internal/dns/forwarder.go: the stub resolver. What the network answers is an argument: the outcome of
-- an HTTP exchange, of a dial and of the reads of a connection. The counters are uint64.
pub mod Answers
pub mod Framing
pub mod Counters
use Prim.Native.Nat.{bit_and, bit_or, bit_xor}
use mist_ui.Dns.{Provider, quad9, provider_by_key, provider_by_hostname}
use mist_ui.Base.{
  ℕ, zero, suc, ◌+◌, ◌-◌, ◌*◌, ◌/◌, ◌%◌, ◌≤◌, ◌<◌, String, ◌≡◌, refl, sym, ap, subst, ◌∙◌, ◌≢◌, ◌↔◌,
  ◌⊎◌, inl, inr, Bool, true, false, not, ◌&&◌, ◌||◌, Option, none, some, List, [], ◌∷◌, ◌++◌, map,
  arith, if◌then◌else◌, ltb, leb, nat_eq, Bytes, str, bytes_eq, bytes_eq_iff, bytes_eq_refl,
  Bool-cases, Result, ok, err, ◌>>=◌, ◌>>◌, result_or, Result-cases, Option-cases, length, get_or,
  take, drop, length-append, take-append, drop-append, drop_past, get_or_past, take_part,
}
use mist_ui.Base.{◌^◌}

abbrev pub max_msg : ℕ
max_msg = 4096

-- Add(1) on an atomic.Uint64.
unfoldable pub add_one : ℕ → ℕ
add_one n = (n + 1) % 2 ^ 64

pub record Stats : Type 0 where
  pub queries : ℕ
  pub failures : ℕ
  pub last_ok : ℕ
  pub last_error : String

-- The fields of Forwarder that change while it serves.
pub record Forwarder : Type 0 where
  pub provider : Provider
  pub queries : ℕ
  pub failures : ℕ
  pub last_ok : ℕ
  pub last_err : Option String

-- `providerByKey(DefaultProvider)` is quad9.
unfoldable pub new_forwarder : Forwarder
new_forwarder = record { provider = quad9; queries = 0; failures = 0; last_ok = 0; last_err = none }

unfoldable pub set_provider : Bytes → Forwarder → Result (Unit {0}) × Forwarder
set_provider key f = elim (provider_by_key key) [
  | none ↦ (err "unknown DNS provider", f)
  | some p ↦ (ok tt, record f { provider = p })
]

unfoldable pub provider_key : Forwarder → Bytes
provider_key f = f.provider.key

unfoldable pub stats : Forwarder → Stats
stats f = record {
  queries = f.queries;
  failures = f.failures;
  last_ok = f.last_ok;
  last_error = elim f.last_err [ none ↦ "" | some e ↦ e ];
}

-- The first address that answers, or the error of the last one; `dial` is DialContext on an address
-- and the port.
unfoldable pub dial_each : {C : Type 0} → (Bytes → Result C) → List Bytes → String → Result C
dial_each dial [] last = err last
dial_each dial (ip ∷ ips) last = elim (dial ip) [ ok c ↦ ok c | err e ↦ dial_each dial ips e ]

unfoldable pub dial_pinned : {C : Type 0} → (Bytes → Result C) → Option Bytes → Result C
unfolding dial_each
dial_pinned dial none = err "split host and port"
dial_pinned dial (some host) = elim (provider_by_hostname host) [
  | none ↦ err "no pinned addresses"
  | some p ↦ dial_each dial p.ips ""
]

-- r[2] = (r[2] | 0x80) &^ 0x06, r[3] = (r[3] &^ 0x0F) | 0x02; `b &^ m` is `b & (0xFF ^ m)` on a byte.
abbrev pub and_not : ℕ → ℕ → ℕ
and_not b m = bit_and b (bit_xor 255 m)

abbrev pub flags_hi : ℕ → ℕ
flags_hi b = and_not (bit_or b 128) 6

abbrev pub flags_lo : ℕ → ℕ
flags_lo b = bit_or (and_not b 15) 2

-- A shorter query does not reach it: `handle` has dropped it.
unfoldable pub servfail : Bytes → Bytes
servfail (a ∷ b ∷ c ∷ d ∷ q) = a ∷ b ∷ flags_hi c ∷ flags_lo d ∷ q
servfail q = q

-- The outcome of the POST: its status, the bytes of its body, and the error that ends them, if any.
pub record HttpAnswer : Type 0 where
  pub status : ℕ
  pub body : Bytes
  pub broken : Option String

-- io.ReadAll of an io.LimitReader of `n` bytes: an error behind the limit is not met.
unfoldable pub read_limited : ℕ → HttpAnswer → Result Bytes
read_limited n res =
    if ltb (length res.body) n
    then elim res.broken [ none ↦ ok res.body | some e ↦ err e ]
    else ok (take n res.body)

-- `post` is the exchange with the provider's URL, and `limit` is 0xFFFF.
unfoldable pub exchange_within :
    ℕ → (Bytes → Bytes → Result HttpAnswer) → Forwarder → Bytes → Result Bytes
unfolding read_limited
exchange_within limit post f q = do
  res ← post f.provider.url q
  if not (nat_eq res.status 200) then err "doh upstream" else ok tt
  body ← read_limited limit res
  if ltb (length body) 12 then err "doh upstream: short response" else ok body

unfoldable pub exchange : (Bytes → Bytes → Result HttpAnswer) → Forwarder → Bytes → Result Bytes
unfolding exchange_within
exchange post f q = exchange_within 65535 post f q

-- `now` is the clock in seconds after the exchange. `none` is a nil answer.
unfoldable pub handle :
    (Bytes → Bytes → Result HttpAnswer) → ℕ → Forwarder → Bytes → Option Bytes × Forwarder
unfolding exchange servfail
handle post now f q =
    if ltb (length q) 12
    then (none, f)
    else (let g = record f { queries = add_one f.queries } in
        elim (exchange post g q) [
          | err e ↦
              (some (servfail q), record g { failures = add_one g.failures; last_err = some e })
          | ok resp ↦ (some resp, record g { last_ok = now })
        ])

-- One round of serveUDP: the datagram, cut to the buffer; the answer that is written back.
unfoldable pub serve_datagram :
    (Bytes → Bytes → Result HttpAnswer) → ℕ → Forwarder → Bytes → Option Bytes × Forwarder
unfolding handle
serve_datagram post now f datagram = handle post now f (take max_msg datagram)

-- The big-endian length in front of a message on TCP.
unfoldable pub frame : Bytes → Bytes
frame resp = length resp / 256 % 256 ∷ length resp % 256 ∷ resp

-- io.ReadFull of `n` bytes from what the client has sent and will send: none if it ends before.
unfoldable pub read_full : ℕ → Bytes → Option (Bytes × Bytes)
read_full n input = if ltb (length input) n then none else some (take n input, drop n input)

-- What serveConn reads in a round: the two bytes of the length, then the message; none where it
-- returns.
unfoldable pub next_query : Bytes → Option (Bytes × Bytes)
unfolding read_full
next_query input = elim (read_full 2 input) [
  | none ↦ none
  | some (l, rest) ↦
      (let n = get_or l 0 0 * 256 + get_or l 1 0 in
        if nat_eq n 0 || ltb max_msg n then none else read_full n rest)
]

-- The loop of serveConn on everything that a client sends, with one clock for all rounds: what is
-- written back, where every write succeeds. A round that goes on takes at least three bytes of the
-- input, and `fuel` bounds the rounds: none if it runs out.
unfoldable pub serve_conn :
    (Bytes → Bytes → Result HttpAnswer)
    → ℕ
    → ℕ
    → Forwarder
    → Bytes
    → Option (List Bytes × Forwarder)
serve_conn post zero now f input = none
serve_conn post (suc fuel) now f input = elim (next_query input) [
  | none ↦ some ([], f)
  | some (q, after) ↦
      (let (answer, g) = handle post now f q in
        elim answer [
          | none ↦ some ([], g)
          | some resp ↦
              (let rest = serve_conn post fuel now g after in
                if ltb 65535 (length resp)
                then some ([], g)
                else elim rest [ none ↦ none | some (more, h) ↦ some (frame resp ∷ more, h) ])
        ])
]
