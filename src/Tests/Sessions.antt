-- ===== src/Tests/Sessions.antt =====
-- Runs of the theorems on the life of a session.
use mist_ui.Tests.Fixtures.{device, token, entries, at_second, Switches, always_open}
use mist_ui.Store.Memory.{
  memory_bolt, memory_bolt-IsLawful, unary_times, unary_times-IsRfc3339, put, lookup, ones, Entries,
}
use mist_ui.Store.Database.{second, to_second}
use mist_ui.Store.{put_session, session, read_record, bytes_cut, delete_session}
use mist_ui.HttpApi.Server.{Server, Request, Outcome, Cookie, session_token}
use mist_ui.HttpApi.Session.{session_idle, issue_session, session_valid, logout}
use mist_ui.HttpApi.Session.Policy.{
  visit_all, session_valid-issue_session, logout_revokes, session_cap, session_idle_polling,
}
use mist_ui.Base.{
  ◌+◌, ◌*◌, ◌≡◌, refl, Bool, true, false, none, some, List, [], ◌∷◌, arith, leb, Bytes, bytes_eq,
  ok,
}

abbrev other : Bytes
other = 8 ∷ []

abbrev issued : Outcome Cookie × Server Entries Switches
issued = issue_session memory_bolt unary_times (ok other) (at_second 20 none) device

session_valid-issue_session_example :
    (session_valid memory_bolt unary_times issued.1 (at_second 900 (some other)) true).0
    ≡ leb (900 * second) (to_second (20 * second) + session_idle)
unfolding issue_session put_session put session_token
session_valid-issue_session_example =
    session_valid-issue_session memory_bolt memory_bolt-IsLawful unary_times unary_times-IsRfc3339
      always_open other (at_second 20 none) (at_second 900 (some other)) device issued.1 _ true refl
      (λ q. cc) (omega arith) refl

abbrev left : Server Entries Switches
left = (logout memory_bolt unary_times (at_second 20 (some token)) device).1

logout_revokes_example :
    session_valid memory_bolt unary_times left (at_second 21 (some token)) true ≡ (false, left)
unfolding delete_session session_token
logout_revokes_example =
    logout_revokes memory_bolt memory_bolt-IsLawful unary_times unary_times-IsRfc3339 always_open
      (at_second 20 (some token)) (at_second 21 (some token)) device _ true refl (λ q. cc) refl

found : session memory_bolt unary_times entries token ≡ ok (some (10 * second, 10 * second))
unfolding session read_record lookup bytes_cut ones bytes_eq
found = refl

abbrev busy : List (Request × Bool)
busy = (at_second 500 (some token), true) ∷ (at_second 1000 (some token), true) ∷ []

session_cap_example :
    (session_valid memory_bolt unary_times
      (visit_all memory_bolt unary_times busy device)
      (at_second 43_211 (some token))
      true).0
    ≡ false
unfolding session_token
session_cap_example =
    session_cap memory_bolt memory_bolt-IsLawful unary_times unary_times-IsRfc3339 always_open token
      (10 * second) (10 * second) busy device (at_second 43_211 (some token)) true found
      (omega arith, (omega arith, tt)) refl (omega arith)

abbrev polls : List (Request × Bool)
polls = (at_second 500 (some token), false) ∷ (at_second 900 (some token), false) ∷ []

session_idle_polling_example :
    (session_valid memory_bolt unary_times
      (visit_all memory_bolt unary_times polls device)
      (at_second 911 (some token))
      true).0
    ≡ false
unfolding session_token
session_idle_polling_example =
    session_idle_polling memory_bolt memory_bolt-IsLawful unary_times unary_times-IsRfc3339
      always_open token (10 * second) (10 * second) polls device (at_second 911 (some token)) true
      found (omega arith, (omega arith, tt)) (refl, (refl, tt)) refl (omega arith)
