-- ===== src/Dns/Forwarder/Counters.antt =====
-- internal/dns/forwarder.go: the counters over a run of datagrams and provider switches.
use mist_ui.Dns.{Provider, provider_by_key}
use mist_ui.Dns.Forwarder.{
  Forwarder, HttpAnswer, add_one, max_msg, new_forwarder, set_provider, exchange, handle,
  serve_datagram,
}
use mist_ui.Base.{
  ℕ, zero, suc, ◌+◌, ◌%◌, ◌≤◌, String, ◌≡◌, refl, sym, subst, ◌∙◌, inl, inr, Bool, true, false, not,
  ◌&&◌, none, some, List, [], ◌∷◌, arith, ltb, Bytes, Bool-cases, Result, ok, err, Result-cases,
  Option-cases, length, take,
}
use mist_ui.Base.{◌^◌}

-- A datagram with what the network and the clock give while it is served, or a change of the provider.
pub data Event : Type 0 where
  datagram : (Bytes → Bytes → Result HttpAnswer) → ℕ → Bytes → Event
  switch : Bytes → Event

unfoldable pub step : Event → Forwarder → Forwarder
step (datagram post now d) f = (serve_datagram post now f d).1
step (switch key) f = (set_provider key f).1

unfoldable pub run_events : List Event → Forwarder → Forwarder
run_events [] f = f
run_events (e ∷ es) f = run_events es (step e f)

abbrev pub count_if : Bool → ℕ → ℕ
count_if true n = suc n
count_if false n = n

-- A datagram that is as long as a DNS header.
unfoldable pub is_query : Bytes → Bool
is_query d = not (ltb (length d) 12)

abbrev pub is_err : {A : Type 0} → Result A → Bool
is_err (ok x) = false
is_err (err m) = true

-- One whose exchange, with the provider of the moment, fails.
unfoldable pub is_failed : (Bytes → Bytes → Result HttpAnswer) → Forwarder → Bytes → Bool
is_failed post f d = is_query d && is_err (exchange post f (take max_msg d))

unfoldable pub served : List Event → ℕ
served [] = 0
served (datagram post now d ∷ es) = count_if (is_query d) (served es)
served (switch key ∷ es) = served es

unfoldable pub failed : List Event → Forwarder → ℕ
failed [] f = 0
failed (datagram post now d ∷ es) f =
    count_if (is_failed post f d) (failed es (serve_datagram post now f d).1)
failed (switch key ∷ es) f = failed es (set_provider key f).1

count_if-add : (b : Bool) (n k : ℕ) → count_if b n + k ≡ n + count_if b k
count_if-add true n k = omega arith
count_if-add false n k = refl

take_keeps : (k n : ℕ) (d : Bytes) → k ≤ n → k ≤ length d → k ≤ length (take n d)
take_keeps zero n d h l = omega arith
take_keeps (suc k) zero d h l = absurd (omega arith)
take_keeps (suc k) (suc n) [] h l = absurd (omega arith)
take_keeps (suc k) (suc n) (c ∷ d) h l = omega (arith, take_keeps k n d (omega arith) (omega arith))

take_shortens : (n : ℕ) (d : Bytes) → length (take n d) ≤ length d
take_shortens zero d = omega arith
take_shortens (suc n) [] = omega arith
take_shortens (suc n) (c ∷ d) = omega (arith, take_shortens n d)

cut_short :
    (limit : ℕ) (d : Bytes) → 12 ≤ limit → ltb (length (take limit d)) 12 ≡ ltb (length d) 12
cut_short limit d h = elim (Bool-cases (ltb (length d) 12)) [
  | inl p ↦ ground (arith, p, take_shortens limit d)
  | inr p ↦ ground (arith, p, take_keeps 12 limit d h)
]

-- What the counters of `f` say after `n` queries, `m` of which failed.
pub record AreCounted (n m : ℕ) (f : Forwarder) : Type 0 where
  pub queries : f.queries ≡ n % 2 ^ 64
  pub failures : f.failures ≡ m % 2 ^ 64
  pub in_bounds : m ≤ n
  pub no_error : m ≡ 0 → f.last_err ≡ none
  pub has_error : f.last_err ≡ none → m ≡ 0

add_one-mod : (x n : ℕ) → x ≡ n % 2 ^ 64 → add_one x ≡ suc n % 2 ^ 64
unfolding add_one
add_one-mod x n h = omega (arith, h)

handle_short :
    (post : Bytes → Bytes → Result HttpAnswer) (now : ℕ) (f : Forwarder) (q : Bytes)
    → ltb (length q) 12 ≡ true
    → (handle post now f q).1 ≡ f
unfolding handle
handle_short post now f q h = ground (arith, h)

handle_fails :
    (post : Bytes → Bytes → Result HttpAnswer) (now : ℕ) (f : Forwarder) (q : Bytes) (m : String)
    → ltb (length q) 12 ≡ false
    → exchange post f q ≡ err m
    → (handle post now f q).1
      ≡ record f { queries = add_one f.queries; failures = add_one f.failures; last_err = some m }
unfolding handle exchange
handle_fails post now f q m h e = ground (arith, h, e)

handle_succeeds :
    (post : Bytes → Bytes → Result HttpAnswer) (now : ℕ) (f : Forwarder) (q resp : Bytes)
    → ltb (length q) 12 ≡ false
    → exchange post f q ≡ ok resp
    → (handle post now f q).1 ≡ record f { queries = add_one f.queries; last_ok = now }
unfolding handle exchange
handle_succeeds post now f q resp h e = ground (arith, h, e)

counted_as :
    (n n' m m' : ℕ) (f f' : Forwarder)
    → n ≡ n'
    → m ≡ m'
    → f ≡ f'
    → AreCounted n m f
    → AreCounted n' m' f'
counted_as n n' m m' f f' hn hm hf c =
    subst (λ k. AreCounted k m' f') hn
      (subst (λ k. AreCounted n k f') hm (subst (λ g. AreCounted n m g) hf c))

set_provider_only :
    (key : Bytes) (f : Forwarder)
    → (p : Provider) × (record f { provider = p } ≡ (set_provider key f).1)
unfolding set_provider
set_provider_only key f = elim (Option-cases (provider_by_key key)) [
  | inl e ↦ (f.provider, ground (arith, e))
  | inr (p, e) ↦ (p, ground (arith, e))
]

counted-switch :
    (n m : ℕ) (f : Forwarder) (key : Bytes)
    → AreCounted n m f
    → AreCounted n m (set_provider key f).1
counted-switch n m f key c =
    let (p, e) = set_provider_only key f in
    counted_as n n m m (record f { provider = p }) (set_provider key f).1 refl refl e
      (record {
        queries = c.queries;
        failures = c.failures;
        in_bounds = c.in_bounds;
        no_error = c.no_error;
        has_error = c.has_error;
      })

counted_failure :
    (n m : ℕ) (f : Forwarder) (e : String)
    → AreCounted n m f
    → AreCounted
        (suc n)
        (suc m)
        (record f { queries = add_one f.queries; failures = add_one f.failures; last_err = some e })
counted_failure n m f e c = record {
  queries = add_one-mod f.queries n c.queries;
  failures = add_one-mod f.failures m c.failures;
  in_bounds = omega (arith, c.in_bounds);
  no_error = λ z. absurd (omega (arith, z));
  has_error = λ z. absurd (ground (arith, z));
}

counted_success :
    (n m : ℕ) (f : Forwarder) (now : ℕ)
    → AreCounted n m f
    → AreCounted (suc n) m (record f { queries = add_one f.queries; last_ok = now })
counted_success n m f now c = record {
  queries = add_one-mod f.queries n c.queries;
  failures = c.failures;
  in_bounds = omega (arith, c.in_bounds);
  no_error = c.no_error;
  has_error = c.has_error;
}

counted-datagram :
    (post : Bytes → Bytes → Result HttpAnswer) (now : ℕ) (d : Bytes) (n m : ℕ) (f : Forwarder)
    → AreCounted n m f
    → AreCounted
        (count_if (is_query d) n)
        (count_if (is_failed post f d) m)
        (serve_datagram post now f d).1
unfolding is_failed is_query serve_datagram
counted-datagram post now d n m f c =
    let q = take max_msg d in
    let same : ltb (length q) 12 ≡ ltb (length d) 12 = cut_short max_msg d (omega arith) in
    elim (Bool-cases (ltb (length d) 12)) [
      | inl p ↦
          counted_as n _ m _ f _ (ground (arith, p)) (ground (arith, p))
            (sym (handle_short post now f q (same ∙ p))) c
      | inr p ↦ elim (Result-cases (exchange post f q)) [
        | inl (resp, e) ↦
            counted_as (suc n) _ m _ _ _ (ground (arith, p)) (ground (arith, p, e))
              (sym (handle_succeeds post now f q resp (same ∙ p) e)) (counted_success n m f now c)
        | inr (x, e) ↦
            counted_as (suc n) _ (suc m) _ _ _ (ground (arith, p)) (ground (arith, p, e))
              (sym (handle_fails post now f q x (same ∙ p) e)) (counted_failure n m f x c)
      ]
    ]

counted-run_events :
    (es : List Event) (n m : ℕ) (f : Forwarder)
    → AreCounted n m f
    → AreCounted (n + served es) (m + failed es f) (run_events es f)
unfolding run_events served failed step
counted-run_events [] n m f c = counted_as n _ m _ f f (omega arith) (omega arith) refl c
counted-run_events (switch key ∷ es) n m f c =
    counted-run_events es n m (set_provider key f).1 (counted-switch n m f key c)
counted-run_events (datagram post now d ∷ es) n m f c =
    let g = (serve_datagram post now f d).1 in
    let k = counted-run_events es _ _ g (counted-datagram post now d n m f c) in
    counted_as _ _ _ _ _ _ (count_if-add (is_query d) n (served es))
      (count_if-add (is_failed post f d) m (failed es g)) refl k

-- From start-up, the forwarder counts its queries and its failures modulo 2^64, shows no more
-- failures than queries until a counter wraps, and shows an error exactly if a query has failed.
pub counted-new_forwarder :
    (es : List Event)
    → AreCounted (served es) (failed es new_forwarder) (run_events es new_forwarder)
unfolding new_forwarder
counted-new_forwarder es = counted_as _ _ _ _ _ _ (omega arith) (omega arith) refl (
    counted-run_events es 0 0 new_forwarder (record {
      queries = refl;
      failures = refl;
      in_bounds = omega arith;
      no_error = λ _. refl;
      has_error = λ _. refl;
    }))
