-- ===== src/Dns/Forwarder/Answers.antt =====
-- internal/dns/forwarder.go: what handle answers, the header of servfail, and the addresses that
-- dialPinned connects to.
use mathlib.Core.List.{Mem, mem-cons_self, mem-cons_of_mem}
use mist_ui.Dns.{Provider, find_provider, provider_by_hostname, all_resolver_ips}
use mist_ui.Dns.Providers.{IsListed, ips_listed}
use mist_ui.Dns.Forwarder.{
  Forwarder, HttpAnswer, flags_hi, flags_lo, servfail, read_limited, exchange_within, exchange,
  handle, add_one, dial_each, dial_pinned,
}
use mist_ui.Base.{
  ℕ, zero, suc, ◌+◌, ◌/◌, ◌%◌, ◌≤◌, ◌<◌, String, ◌≡◌, refl, subst, ◌∙◌, inl, inr, Bool, true, false,
  ◌&&◌, Option, none, some, List, [], ◌∷◌, arith, if◌then◌else◌, ltb, nat_eq, Bytes, Bool-cases,
  Result, ok, Result-cases, Option-cases, length, take,
}

-- Whether the `count` numbers from `start` on pass a test.
holds_from : (ℕ → Bool) → ℕ → ℕ → Bool
holds_from test start zero = true
holds_from test start (suc count) =
    let others = holds_from test (suc start) count in if test start then others else false

-- Each of them does, then: the one that is `k` past the start.
from_table :
    (test : ℕ → Bool) (start count k x : ℕ)
    → holds_from test start count ≡ true
    → suc k ≤ count
    → x ≡ start + k
    → test x ≡ true
unfolding holds_from
from_table test start zero k x table le at = absurd (omega (arith, le))
from_table test start (suc count) zero x table le at =
    let e : start ≡ x = omega (arith, at) in subst (λ y. test y ≡ true) e (ground (arith, table))
from_table test start (suc count) (suc k) x table le at =
    from_table test (suc start) count k x (ground (arith, table)) (omega arith) (omega (arith, at))

abbrev hi_kept : ℕ → Bool
hi_kept c =
    nat_eq (flags_hi c / 128) 1
    && nat_eq (flags_hi c / 2 % 4) 0
    && nat_eq (flags_hi c % 2) (c % 2)
    && nat_eq (flags_hi c / 8 % 16) (c / 8 % 16)

abbrev lo_kept : ℕ → Bool
lo_kept d = nat_eq (flags_lo d % 16) 2 && nat_eq (flags_lo d / 16) (d / 16)

hi_table : holds_from hi_kept 0 256 ≡ true
unfolding holds_from
hi_table = refl

lo_table : holds_from lo_kept 0 256 ≡ true
unfolding holds_from
lo_table = refl

-- The header of the answer to a failed query.
pub record IsServfail (c d hi lo : ℕ) : Type 0 where
  pub is_response : hi / 128 ≡ 1
  pub no_aa_tc : hi / 2 % 4 ≡ 0
  pub same_rd : hi % 2 ≡ c % 2
  pub same_opcode : hi / 8 % 16 ≡ c / 8 % 16
  pub rcode_is_servfail : lo % 16 ≡ 2
  pub same_high : lo / 16 ≡ d / 16

-- The synthesized failure keeps the query's ID, its opcode, its RD bit, the upper half of the fourth
-- byte and everything after it, is marked a response without AA and TC, and has RCODE 2.
pub servfail_header :
    (a b c d : ℕ) (q : Bytes)
    → c < 256
    → d < 256
    → (hi : ℕ) × (lo : ℕ) × (servfail (a ∷ b ∷ c ∷ d ∷ q) ≡ a ∷ b ∷ hi ∷ lo ∷ q)
      × IsServfail c d hi lo
unfolding servfail
servfail_header a b c d q hc hd =
    let h : hi_kept c ≡ true = from_table hi_kept 0 256 c c hi_table (omega arith) (omega arith) in
    let l : lo_kept d ≡ true = from_table lo_kept 0 256 d d lo_table (omega arith) (omega arith) in
    (
      flags_hi c,
      flags_lo d,
      refl,
      record {
        is_response = ground (arith, h);
        no_aa_tc = ground (arith, h);
        same_rd = ground (arith, h);
        same_opcode = ground (arith, h);
        rcode_is_servfail = ground (arith, l);
        same_high = ground (arith, l);
      },
    )

length-servfail : (q : Bytes) → length (servfail q) ≡ length q
unfolding servfail
length-servfail [] = refl
length-servfail (a ∷ []) = refl
length-servfail (a ∷ b ∷ []) = refl
length-servfail (a ∷ b ∷ c ∷ []) = refl
length-servfail (a ∷ b ∷ c ∷ d ∷ q) = refl

length-take : (n : ℕ) (b : Bytes) → length (take n b) ≤ n
length-take zero b = omega arith
length-take (suc n) [] = omega arith
length-take (suc n) (c ∷ b) = omega (arith, length-take n b)

read_limited_bounds :
    (n : ℕ) (res : HttpAnswer) (body : Bytes) → read_limited n res ≡ ok body → length body ≤ n
unfolding read_limited
read_limited_bounds n res body h = elim (Bool-cases (ltb (length res.body) n)) [
  | inl p ↦ elim (Option-cases res.broken) [
    | inl e ↦ ground (arith, p, e)
    | inr (m, e) ↦ absurd (ground (arith, p, e))
  ]
  | inr p ↦ ground (arith, p, length-take n res.body)
]

module _ (post : Bytes → Bytes → Result HttpAnswer) where
  exchange_within_bounds :
      (limit : ℕ) (f : Forwarder) (q resp : Bytes)
      → exchange_within limit post f q ≡ ok resp
      → (12 ≤ length resp) × (length resp ≤ limit)
  unfolding exchange_within
  exchange_within_bounds limit f q resp h = elim (Result-cases (post f.provider.url q)) [
    | inr (e, p) ↦ absurd (ground (arith, p))
    | inl (res, p) ↦ elim (Result-cases (read_limited limit res)) [
      | inr (e, r) ↦ absurd (ground (arith, p, r))
      | inl (body, r) ↦ ground (arith, p, r, read_limited_bounds limit res body r)
    ]
  ]

  exchange_bounds :
      (f : Forwarder) (q resp : Bytes)
      → exchange post f q ≡ ok resp
      → (12 ≤ length resp) × (length resp ≤ 65535)
  unfolding exchange
  exchange_bounds f q resp h = exchange_within_bounds 65535 f q resp h

  -- Every query that is as long as a DNS header, and fits in a TCP message, gets an answer, whatever
  -- the upstream does, and that answer is at least as long as a header and fits in one as well.
  pub handle_bounds :
      (now : ℕ) (f : Forwarder) (q : Bytes)
      → 12 ≤ length q
      → length q ≤ 65535
      → (resp : Bytes) × ((handle post now f q).0 ≡ some resp)
        × (12 ≤ length resp)
        × (length resp ≤ 65535)
  unfolding handle
  handle_bounds now f q lo hi =
      let g = record f { queries = add_one f.queries } in
      elim (Result-cases (exchange post g q)) [
        | inl (resp, e) ↦ (
          resp,
          ground (arith, e),
          (exchange_bounds g q resp e).0,
          (exchange_bounds g q resp e).1,
        )
        | inr (m, e) ↦ (
          servfail q,
          ground (arith, e),
          ground (arith, length-servfail q),
          ground (arith, length-servfail q),
        )
      ]

find_provider-IsListed :
    (host : Bytes) (p : Provider) → provider_by_hostname host ≡ some p → IsListed p
unfolding provider_by_hostname find_provider
find_provider-IsListed host p h = ground arith

dial_each-Mem :
    {C : Type 0} (dial : Bytes → Result C) (ips : List Bytes) (last : String) (x : C)
    → dial_each dial ips last ≡ ok x
    → (ip : Bytes) × Mem ip ips × (dial ip ≡ ok x)
unfolding dial_each
dial_each-Mem dial [] last x h = absurd (ground arith)
dial_each-Mem dial (ip ∷ ips) last x h = elim (Result-cases (dial ip)) [
  | inl (y, e) ↦ (ip, mem-cons_self, e ∙ ground (arith, e))
  | inr (m, e) ↦
      let (other, found, k) = dial_each-Mem dial ips m x (ground (arith, e)) in
      (other, mem-cons_of_mem ip found, k)
]

-- A connection that dialPinned returns goes to an address of the deny list of the kill switch,
-- whatever host it is asked for.
pub dial_pinned-Mem :
    {C : Type 0} (dial : Bytes → Result C) (host : Option Bytes) (x : C)
    → dial_pinned dial host ≡ ok x
    → (ip : Bytes) × Mem ip all_resolver_ips × (dial ip ≡ ok x)
unfolding dial_pinned
dial_pinned-Mem dial none x h = absurd (ground arith)
dial_pinned-Mem dial (some host) x h = elim (Option-cases (provider_by_hostname host)) [
  | inl e ↦ absurd (ground (arith, e))
  | inr (p, e) ↦
      let (ip, found, k) = dial_each-Mem dial p.ips "" x (ground (arith, e)) in
      (ip, ips_listed p ip (find_provider-IsListed host p e) found, k)
]
