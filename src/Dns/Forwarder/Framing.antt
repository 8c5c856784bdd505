-- ===== src/Dns/Forwarder/Framing.antt =====
-- internal/dns/forwarder.go: serveConn on a stream of framed messages.
use mist_ui.Dns.Forwarder.Answers.{handle_bounds}
use mist_ui.Dns.Forwarder.{
  Forwarder, HttpAnswer, max_msg, read_full, frame, next_query, handle, serve_conn,
}
use mist_ui.Base.{
  ℕ, zero, suc, ◌+◌, ◌-◌, ◌*◌, ◌/◌, ◌%◌, ◌≤◌, ◌<◌, ◌≡◌, inl, inr, ◌||◌, none, some, List, [], ◌∷◌,
  ◌++◌, map, arith, ltb, nat_eq, Bytes, Bool-cases, Result, Option-cases, length, get_or, take,
  drop, length-append, take-append, drop-append,
}

read_full-append : (a b : Bytes) → read_full (length a) (a ++ b) ≡ some (a, b)
unfolding read_full
read_full-append a b = ground (arith, length-append a b, take-append a b, drop-append a b)

length-drop : (n : ℕ) (b : Bytes) → length (drop n b) ≡ length b - n
length-drop zero b = omega arith
length-drop (suc n) [] = omega arith
length-drop (suc n) (c ∷ b) = omega (arith, length-drop n b)

read_full_shorter :
    (n : ℕ) (input l rest : Bytes)
    → read_full n input ≡ some (l, rest)
    → (l ≡ take n input) × (length rest + n ≡ length input)
unfolding read_full
read_full_shorter n input l rest h = elim (Bool-cases (ltb (length input) n)) [
  | inl p ↦ absurd (ground (arith, p))
  | inr p ↦ ground (arith, p, length-drop n input)
]

-- A message whose length fits is read back from its frame, and what follows is left.
next_query-frame :
    (q rest : Bytes)
    → 1 ≤ length q
    → length q ≤ max_msg
    → next_query (frame q ++ rest) ≡ some (q, rest)
unfolding next_query frame read_full
next_query-frame q rest lo hi =
    let n : length q / 256 % 256 * 256 + length q % 256 ≡ length q = omega arith in
    ground (arith, n, read_full-append q rest)

next_query_shorter :
    (input q after : Bytes) → next_query input ≡ some (q, after) → length after < length input
unfolding next_query
next_query_shorter input q after h = elim (Option-cases (read_full 2 input)) [
  | inl e ↦ absurd (ground (arith, e))
  | inr ((l, rest), e) ↦
      let n = get_or l 0 0 * 256 + get_or l 1 0 in
      elim (Bool-cases (nat_eq n 0 || ltb max_msg n)) [
        | inl p ↦ absurd (ground (arith, e, p))
        | inr p ↦
            let k : read_full n rest ≡ some (q, after) = ground (arith, e, p) in
            omega (
              arith,
              (read_full_shorter 2 input l rest e).1,
              (read_full_shorter n rest q after k).1,
            )
      ]
]

unfoldable pub AreQueries : List Bytes → Type 0
AreQueries [] = Unit
AreQueries (q ∷ qs) = ((12 ≤ length q) × (length q ≤ max_msg)) × AreQueries qs

-- The messages, each in its frame, and what comes after them.
unfoldable pub stream : List Bytes → Bytes → Bytes
stream [] tail = tail
stream (q ∷ qs) tail = frame q ++ stream qs tail

module _ (post : Bytes → Bytes → Result HttpAnswer) where
  -- The loop ends on whatever a client sends, within a round for each byte and one more.
  pub serve_conn_terminates :
      (fuel now : ℕ) (f : Forwarder) (input : Bytes)
      → length input < fuel
      → (r : List Bytes × Forwarder) × (serve_conn post fuel now f input ≡ some r)
  unfolding serve_conn
  serve_conn_terminates zero now f input lt = absurd (omega arith)
  serve_conn_terminates (suc fuel) now f input lt = elim (Option-cases (next_query input)) [
    | inl e ↦ (([], f), ground (arith, e))
    | inr ((q, after), e) ↦
        let g = (handle post now f q).1 in
        let shorter : length after < length input = next_query_shorter input q after e in
        let (r, k) = serve_conn_terminates fuel now g after (omega (arith, shorter)) in
        elim (Option-cases (handle post now f q).0) [
          | inl p ↦ (([], g), ground (arith, e, p))
          | inr (resp, p) ↦ elim (Bool-cases (ltb 65535 (length resp))) [
            | inl big ↦ (([], g), ground (arith, e, p, big))
            | inr fits ↦ ((frame resp ∷ r.0, r.1), ground (arith, e, p, fits, k))
          ]
        ]
  ]

  -- The answers to a list of queries, one after the other.
  unfoldable pub answer_all : ℕ → Forwarder → List Bytes → List Bytes × Forwarder
  answer_all now f [] = ([], f)
  answer_all now f (q ∷ qs) =
      let (answer, g) = handle post now f q in
      let (more, h) = answer_all now g qs in
      (elim answer [ none ↦ more | some resp ↦ resp ∷ more ], h)

  -- A client that sends queries, each of 12 to 4096 bytes, in their frames, and then nothing that is
  -- a whole message, reads their answers in the order of the queries, each in its frame.
  pub serve_conn-answer_all :
      (now : ℕ) (f : Forwarder) (qs : List Bytes) (tail : Bytes) (fuel : ℕ)
      → AreQueries qs
      → next_query tail ≡ none
      → length qs < fuel
      → serve_conn post fuel now f (stream qs tail)
        ≡ some (map frame (answer_all now f qs).0, (answer_all now f qs).1)
  unfolding serve_conn stream answer_all AreQueries
  serve_conn-answer_all now f qs tail zero hq ht lt = absurd (omega arith)
  serve_conn-answer_all now f [] tail (suc fuel) hq ht lt = ground (arith, ht)
  serve_conn-answer_all now f (q ∷ qs) tail (suc fuel) ((lo, hi), hq) ht lt =
      let g = (handle post now f q).1 in
      let e : next_query (frame q ++ stream qs tail) ≡ some (q, stream qs tail) =
        next_query-frame q (stream qs tail) (omega arith) hi in
      let (resp, p, long, fits) = handle_bounds post now f q lo (omega arith) in
      let k = serve_conn-answer_all now g qs tail fuel hq ht (omega arith) in
      ground (arith, e, p, fits, k)
