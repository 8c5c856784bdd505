-- ===== src/Tests/Resolvers.antt =====
-- Runs of the theorems on the DNS forwarder.
use mathlib.Core.List.{Mem}
use mist_ui.Dns.{all_resolver_ips, provider_by_hostname}
use mist_ui.Dns.Forwarder.{
  Forwarder, HttpAnswer, new_forwarder, servfail, handle, frame, next_query, serve_conn,
  dial_pinned,
}
use mist_ui.Dns.Forwarder.Answers.{IsServfail, servfail_header, handle_bounds, dial_pinned-Mem}
use mist_ui.Dns.Forwarder.Framing.{
  serve_conn_terminates, answer_all, stream, AreQueries, serve_conn-answer_all,
}
use mist_ui.Dns.Forwarder.Counters.{
  Event, datagram, switch, run_events, served, failed, AreCounted, counted-new_forwarder,
}
use mist_ui.Base.{
  ℕ, ◌≤◌, ◌≡◌, refl, none, some, List, [], ◌∷◌, map, arith, if◌then◌else◌, Bytes, str, bytes_eq,
  Result, ok, err, length, drop,
}

abbrev query : Bytes
query = 7 ∷ 7 ∷ 1 ∷ 0 ∷ 0 ∷ 1 ∷ 0 ∷ 0 ∷ 0 ∷ 0 ∷ 0 ∷ 0 ∷ []

abbrev short : Bytes
short = 7 ∷ 7 ∷ []

-- An upstream that echoes, and one that is down.
abbrev echo : Bytes → Bytes → Result HttpAnswer
echo url q = ok (record { status = 200; body = q; broken = none })

abbrev down : Bytes → Bytes → Result HttpAnswer
down url q = err "connection refused"

servfail_header_example :
    (hi : ℕ) × (lo : ℕ) × (servfail query ≡ 7 ∷ 7 ∷ hi ∷ lo ∷ drop 4 query) × IsServfail 1 0 hi lo
servfail_header_example = servfail_header 7 7 1 0 (drop 4 query) (omega arith) (omega arith)

handle_bounds_example :
    (resp : Bytes) × ((handle down 5 new_forwarder query).0 ≡ some resp)
    × (12 ≤ length resp)
    × (length resp ≤ 65535)
handle_bounds_example = handle_bounds down 5 new_forwarder query (omega arith) (omega arith)

serve_conn_terminates_example :
    (r : List Bytes × Forwarder) × (serve_conn echo 40 5 new_forwarder (frame query) ≡ some r)
unfolding frame
serve_conn_terminates_example =
    serve_conn_terminates echo 40 5 new_forwarder (frame query) (omega arith)

serve_conn-answer_all_example :
    serve_conn echo 3 5 new_forwarder (stream (query ∷ query ∷ []) [])
    ≡ some (
      map frame (answer_all echo 5 new_forwarder (query ∷ query ∷ [])).0,
      (answer_all echo 5 new_forwarder (query ∷ query ∷ [])).1,
    )
unfolding AreQueries next_query
serve_conn-answer_all_example =
    serve_conn-answer_all echo 5 new_forwarder (query ∷ query ∷ []) [] 3
      ((omega arith, omega arith), ((omega arith, omega arith), tt)) refl (omega arith)

abbrev day : List Event
day =
    datagram echo 1 query
    ∷ datagram down 2 short
    ∷ switch (str "mullvad")
    ∷ datagram down 3 query
    ∷ []

counted-new_forwarder_example :
    AreCounted (served day) (failed day new_forwarder) (run_events day new_forwarder)
counted-new_forwarder_example = counted-new_forwarder day

-- A dialler that reaches one address alone.
abbrev dial : Bytes → Result Bytes
dial ip = if bytes_eq ip (str "1.0.0.1") then ok ip else err "timeout"

dialled : dial_pinned dial (some (str "cloudflare-dns.com")) ≡ ok (str "1.0.0.1")
unfolding dial_pinned str bytes_eq provider_by_hostname
dialled = refl

dial_pinned-Mem_example : (ip : Bytes) × Mem ip all_resolver_ips × (dial ip ≡ ok (str "1.0.0.1"))
dial_pinned-Mem_example =
    dial_pinned-Mem dial (some (str "cloudflare-dns.com")) (str "1.0.0.1") dialled
