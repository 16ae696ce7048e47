-- ===== src/SpaceAccountingServer.antt =====
-- space_accounting_server/: the counters in memory by hour, collection and event
-- (space_accounting_server_main.py), their dump (state_cleaner.py, util.py) and the table
-- (space_accounting_database.py).
pub mod Conservation
use nimbus_io.Prelude.{
  ℕ, ◌+◌, ◌-◌, Bool, true, false, ◌&&◌, Option, none, some, List, [], ◌∷◌, ◌++◌, ltb, leb, ◌==◌,
  if◌then◌else◌, Text, text_eq, codes, map,
}
use nimbus_io.Prelude.Exec.{Exec, ok, modify, or_raise, pure, ◌>>=◌, ◌>>◌, value_error}
use nimbus_io.Prelude.Dicts.{lookup, alter, remove, value_at, sum_of}
use nimbus_io.Tools.Timestamp.{Timestamp, parse_timestamp_repr}

abbrev pub Events : Type 0
Events = List (Text × ℕ)

abbrev pub Collections : Type 0
Collections = List (ℕ × Events)

abbrev pub Hours : Type 0
Hours = List (Timestamp × Collections)

-- equality of the keys of `data`
abbrev pub hour_eq : Timestamp → Timestamp → Bool
hour_eq s t =
    (s.year == t.year)
    && (s.month == t.month)
    && (s.day == t.day)
    && (s.hour == t.hour)
    && (s.minute == t.minute)
    && (s.second == t.second)
    && (s.microsecond == t.microsecond)

abbrev pub collection_eq : ℕ → ℕ → Bool
collection_eq a b = a == b

-- a row of nimbusio_central.space_accounting
pub record Row : Type 0 where
  pub collection_id : ℕ
  pub timestamp : Timestamp
  pub bytes_added : ℕ
  pub bytes_removed : ℕ
  pub bytes_retrieved : ℕ

pub record Usage : Type 0 where
  pub bytes_added : ℕ
  pub bytes_removed : ℕ
  pub bytes_retrieved : ℕ

pub record Detail : Type 0 where
  pub timestamp_repr : Text
  pub collection_id : ℕ
  pub event : Text
  pub value : ℕ

-- the identity and the message id of a request stand for what a reply copies
pub record Request : Type 0 where
  pub router_ident : Text
  pub message_id : Text
  pub collection_id : ℕ

pub record State : Type 0 where
  pub contents : Hours
  pub rows : List Row
  pub replies : List (Request × Usage)

abbrev pub new_state : State
new_state = record { contents = []; rows = []; replies = [] }

abbrev pub floor_hour : Timestamp → Timestamp
floor_hour t = record t { minute = 0; second = 0; microsecond = 0 }

-- `events.get(name, 0)`
abbrev pub count_of : Text → Events → ℕ
count_of name events = value_at text_eq (λ n. n) name events

abbrev pub count_in_collection : Text → ℕ → Collections → ℕ
count_in_collection name collection_id collections =
    value_at collection_eq (count_of name) collection_id collections

-- the sum over the hours in memory
abbrev pub held : Text → ℕ → Hours → ℕ
held name collection_id hours = sum_of hour_eq (count_in_collection name collection_id) hours

abbrev pub bump : Detail → Events → Events
bump m events = alter text_eq m.event 0 (λ n. n + m.value) events

abbrev pub bump_collection : Detail → Collections → Collections
bump_collection m collections = alter collection_eq m.collection_id [] (bump m) collections

abbrev pub bump_hour : Detail → Timestamp → Hours → Hours
bump_hour m t hours = alter hour_eq (floor_hour t) [] (bump_collection m) hours

unfoldable pub handle_space_accounting_detail : Detail → Exec State (Unit {0})
handle_space_accounting_detail m = do
  t ← or_raise (parse_timestamp_repr m.timestamp_repr) value_error
  modify (λ s. record s { contents = bump_hour m t s.contents })

-- `coalesce(sum(column), 0)` over the rows of a collection
unfoldable pub column_sum : (Row → ℕ) → ℕ → List Row → ℕ
column_sum column collection_id [] = 0
column_sum column collection_id (row ∷ rows) =
    let rest = column_sum column collection_id rows in
    if row.collection_id == collection_id then column row + rest else rest

abbrev pub retrieve_collection_stats : ℕ → List Row → Usage
retrieve_collection_stats collection_id rows = record {
  bytes_added = column_sum (λ r. r.bytes_added) collection_id rows;
  bytes_removed = column_sum (λ r. r.bytes_removed) collection_id rows;
  bytes_retrieved = column_sum (λ r. r.bytes_retrieved) collection_id rows;
}

-- the sums of the database and of the memory
abbrev pub usage : ℕ → State → Usage
usage collection_id s =
    let stats = retrieve_collection_stats collection_id s.rows in
    record {
      bytes_added = stats.bytes_added + held (codes "bytes_added") collection_id s.contents;
      bytes_removed = stats.bytes_removed + held (codes "bytes_removed") collection_id s.contents;
      bytes_retrieved =
          stats.bytes_retrieved + held (codes "bytes_retrieved") collection_id s.contents;
    }

unfoldable pub handle_space_usage_request : Request → Exec State (Unit {0})
handle_space_usage_request m =
    modify (λ s. record s { replies = s.replies ++ (m, usage m.collection_id s) ∷ [] })

abbrev pub stats_row : Timestamp → ℕ × Events → Row
stats_row hour (collection_id, events) = record {
  collection_id = collection_id;
  timestamp = hour;
  bytes_added = count_of (codes "bytes_added") events;
  bytes_removed = count_of (codes "bytes_removed") events;
  bytes_retrieved = count_of (codes "bytes_retrieved") events;
}

-- one `insert` for each collection, and then the commit
unfoldable pub flush_to_database : Timestamp → Exec State (Unit {0})
flush_to_database hour s = elim (lookup hour_eq hour s.contents) [
  | none ↦ (ok tt, s)
  | some collections ↦ (
    ok tt,
    record s {
      rows = s.rows ++ map (stats_row hour) collections;
      contents = remove hour_eq hour s.contents;
    },
  )
]

-- `datetime`'s arithmetic, an hour back and an hour on
pub record Calendar : Type 0 where
  pub hour_before : Timestamp → Timestamp
  pub hour_after : Timestamp → Timestamp

module _ (calendar : Calendar) where
  unfoldable pub next_run : Timestamp → Timestamp
  next_run current_time =
      let next_time : Timestamp = record current_time { minute = 5; second = 0; microsecond = 0 } in
      if leb 5 current_time.minute then calendar.hour_after next_time else next_time

  -- `StateCleaner.run` at a time: the dump, and the time of the next one
  unfoldable pub run_cleaner : Timestamp → Exec State Timestamp
  run_cleaner current_time = do
    flush_to_database (calendar.hour_before (floor_hour current_time))
    pure (next_run current_time)

  pub data Step : Type 0 where
    detail : Detail → Step
    request : Request → Step
    clean : Timestamp → Step

  -- what the time queue calls
  unfoldable pub step : Step → Exec State (Unit {0})
  step (detail m) = handle_space_accounting_detail m
  step (request m) = handle_space_usage_request m
  step (clean now) = do run_cleaner now; pure tt

  unfoldable pub run_all : List Step → Exec State (Unit {0})
  run_all [] = pure tt
  run_all (x ∷ steps) = do step x; run_all steps
