-- ===== src/Tests/SpaceAccounting.antt =====
-- Three details of two hours, with a dump between them.
use nimbus_io.Prelude.{ℕ, ◌+◌, ◌-◌, ◌≡◌, refl, List, [], ◌∷◌, ◌++◌, codes, All, Text}
use nimbus_io.Prelude.Exec.{ok}
use nimbus_io.Tools.Timestamp.{Timestamp, parse_timestamp_repr}
use nimbus_io.SpaceAccountingServer.{
  Calendar, Detail, Request, Usage, State, Step, detail, request, clean, run_all, new_state,
  next_run,
}
use nimbus_io.SpaceAccountingServer.Conservation.{IsDated, reported_usage, request-reported_usage}

abbrev within_a_day : Calendar
within_a_day = record {
  hour_before = λ t. record t { hour = t.hour - 1 };
  hour_after = λ t. record t { hour = t.hour + 1 };
}

abbrev noon : Text
noon = codes "datetime.datetime(2012, 3, 1, 12, 30, 0, 5)"

abbrev later : Text
later = codes "datetime.datetime(2012, 3, 1, 13, 1, 0, 5)"

abbrev dump_time : Timestamp
dump_time = record {
  year = 2012;
  month = 3;
  day = 1;
  hour = 13;
  minute = 5;
  second = 0;
  microsecond = 7;
}

abbrev added : Text → ℕ → Detail
added repr n = record {
  timestamp_repr = repr;
  collection_id = 7;
  event = codes "bytes_added";
  value = n;
}

abbrev question : Request
question = record { router_ident = codes "r"; message_id = codes "1"; collection_id = 7 }

abbrev events : List (Step within_a_day)
events =
    detail (added noon 10) ∷ detail (added later 5) ∷ clean dump_time ∷ detail (added later 1) ∷ []

events-AreDated : All IsDated events
unfolding parse_timestamp_repr
events-AreDated = ((_, refl), ((_, refl), (tt, ((_, refl), tt))))

request-reported_usage_example :
    (s : State) × (earlier : List (Request × Usage)) × (run_all within_a_day
        (events ++ request question ∷ [])
        new_state
      ≡ (ok tt, s))
    × (s.replies ≡ earlier ++ (question, reported_usage within_a_day 7 events) ∷ [])
request-reported_usage_example = request-reported_usage within_a_day events question events-AreDated

after_the_dump : next_run within_a_day dump_time ≡ record dump_time { hour = 14; microsecond = 0 }
unfolding next_run
after_the_dump = refl
