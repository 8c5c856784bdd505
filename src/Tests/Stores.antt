-- ===== src/Tests/Stores.antt =====
-- Runs of the theorems on the store and on the sets of single-use keys.
use mist_ui.Tests.Fixtures.{entries, token}
use mist_ui.Store.Memory.{memory_bolt, unary_times, lookup, ones, Entries}
use mist_ui.Store.Database.{second}
use mist_ui.Store.{put_session, session, read_record, bump_session, bytes_cut, delete_session}
use mist_ui.HttpApi.TtlSet.{consume, Event, granted, consumed, replay, worth, consume-replay}
use mist_ui.Base.{◌*◌, ◌≡◌, refl, some, List, [], ◌∷◌, arith, Bytes, bytes_eq, ok, result_or}

abbrev other : Bytes
other = 8 ∷ []

abbrev stored : Entries
stored =
    result_or (put_session memory_bolt unary_times entries other (30 * second) (31 * second)) []

abbrev bumped : Entries
bumped = result_or (bump_session memory_bolt unary_times entries token (50 * second)) []

found : session memory_bolt unary_times entries token ≡ ok (some (10 * second, 10 * second))
unfolding session read_record lookup bytes_cut ones bytes_eq
found = refl

abbrev deleted : Entries
deleted = result_or (delete_session memory_bolt entries token) []

abbrev history : List Event
history =
    granted (1 ∷ []) 50 ∷ consumed (1 ∷ []) 30 ∷ granted (2 ∷ []) 20 ∷ granted (1 ∷ []) 10 ∷ []

consume-replay_example :
    (consume (2 ∷ []) 60 (replay 100 history)).0 ≡ worth 100 history (2 ∷ []) 60
consume-replay_example =
    consume-replay 100 history (2 ∷ []) 60
      (omega arith, (omega arith, (omega arith, (omega arith, tt))))
