-- ===== src/SpaceAccountingServer/Conservation.antt =====
-- No byte that was reported is lost or counted twice, whatever is dumped in between.
use nimbus_io.Prelude.{
  ℕ, ◌+◌, ◌≡◌, refl, sym, ap, ◌∙◌, true, none, some, List, [], ◌∷◌, ◌++◌, ◌==◌, if◌then◌else◌, Text,
  text_eq, text_eq→eq, codes, map, arith, All, Bool-cases, Option-cases, inl, inr,
}
use nimbus_io.Prelude.Exec.{Exec, ok, continue}
use nimbus_io.Prelude.Dicts.{
  lookup, remove, value_at, sum_of, HasDistinctKeys, sum_of-alter, sum_of-remove, value_at-alter,
  value_at-cons, alter-HasDistinctKeys, All-alter, All-remove, All-lookup,
}
use nimbus_io.Tools.Timestamp.{Timestamp, parse_timestamp_repr}
use nimbus_io.SpaceAccountingServer.{
  Events, Collections, Hours, hour_eq, collection_eq, Row, Usage, Detail, Request, State,
  floor_hour, count_of, count_in_collection, held, bump, bump_collection, bump_hour,
  handle_space_accounting_detail, column_sum, usage, handle_space_usage_request, stats_row,
  flush_to_database, Calendar, run_cleaner, new_state, Step, detail, request, clean, step, run_all,
}

-- what a detail adds to a count of a collection
abbrev pub amount : Text → ℕ → Detail → ℕ
amount name collection_id m =
    if m.collection_id == collection_id then (if text_eq m.event name then m.value else 0) else 0

collection_eq_sound : (j k : ℕ) → collection_eq j k ≡ true → j ≡ k
collection_eq_sound j k h = ground arith

collection_eq_swap : (j k : ℕ) → collection_eq j k ≡ collection_eq k j
collection_eq_swap j k = ground arith

count_of-bump :
    (name : Text) (m : Detail) (events : Events)
    → count_of name (bump m events)
      ≡ count_of name events + (if text_eq m.event name then m.value else 0)
count_of-bump name m events =
    value_at-alter text_eq (λ n. n) 0 (λ n. n + m.value) m.value (λ n. refl) refl text_eq→eq name
      m.event events

count_of-nil : (name : Text) → count_of name [] ≡ 0
unfolding value_at lookup
count_of-nil name = refl

count-bump_collection :
    (name : Text) (collection_id : ℕ) (m : Detail) (collections : Collections)
    → count_in_collection name collection_id (bump_collection m collections)
      ≡ count_in_collection name collection_id collections + amount name collection_id m
count-bump_collection name collection_id m collections =
    value_at-alter collection_eq (count_of name) [] (bump m)
      (if text_eq m.event name then m.value else 0) (count_of-bump name m) (count_of-nil name)
      collection_eq_sound collection_id m.collection_id collections

count-nil : (name : Text) (collection_id : ℕ) → count_in_collection name collection_id [] ≡ 0
unfolding value_at lookup
count-nil name collection_id = refl

held-bump_hour :
    (name : Text) (collection_id : ℕ) (m : Detail) (t : Timestamp) (hours : Hours)
    → held name collection_id (bump_hour m t hours)
      ≡ held name collection_id hours + amount name collection_id m
held-bump_hour name collection_id m t hours =
    sum_of-alter hour_eq (count_in_collection name collection_id) [] (bump_collection m)
      (amount name collection_id m) (count-bump_collection name collection_id m)
      (count-nil name collection_id) (floor_hour t) hours

column_sum-append :
    (column : Row → ℕ) (c : ℕ) (rows more : List Row)
    → column_sum column c (rows ++ more) ≡ column_sum column c rows + column_sum column c more
unfolding column_sum
column_sum-append column c [] more = omega arith
column_sum-append column c (row ∷ rows) more = ground (arith, column_sum-append column c rows more)

module _ (name : Text) (column : Row → ℕ) (hour : Timestamp)
    (kept : (e : ℕ × Events) → column (stats_row hour e) ≡ count_of name e.1) where
  column_sum-absent :
      (c : ℕ) (collections : Collections)
      → lookup collection_eq c collections ≡ none
      → column_sum column c (map (stats_row hour) collections) ≡ 0
  unfolding column_sum lookup
  column_sum-absent c [] h = refl
  column_sum-absent c ((j, events) ∷ collections) h =
      ground (arith, column_sum-absent c collections, h)

  -- The rows of an hour hold its counts.
  column_sum-stats_row :
      (c : ℕ) (collections : Collections)
      → HasDistinctKeys collection_eq collections
      → column_sum column c (map (stats_row hour) collections)
        ≡ count_in_collection name c collections
  unfolding column_sum
  column_sum-stats_row c [] h = sym (count-nil name c)
  column_sum-stats_row c ((j, events) ∷ collections) (new, h) = elim (Bool-cases (j == c)) [
    | inl e ↦
        let absent : column_sum column c (map (stats_row hour) collections) ≡ 0 =
          column_sum-absent c collections (
            ap (λ x. lookup collection_eq x collections) (sym (collection_eq_sound j c e)) ∙ new) in
        let added : column (stats_row hour (j, events))
              + column_sum column c (map (stats_row hour) collections)
            ≡ count_of name events =
          omega (arith, kept (j, events), absent) in
        rw e (
          added
          ∙ sym (value_at-cons collection_eq (count_of name) c j events collections ∙ rw e refl))
    | inr e ↦ rw e (
        column_sum-stats_row c collections h
        ∙ sym (value_at-cons collection_eq (count_of name) c j events collections ∙ rw e refl))
  ]

-- Within an hour, a collection has one dict.
pub record IsValid (s : State) : Type 0 where
  pub collections : All (λ e. HasDistinctKeys collection_eq e.1) s.contents

-- what is known of one event of a collection, in the database and in memory
abbrev known : Text → (Row → ℕ) → ℕ → State → ℕ
known name column c s = column_sum column c s.rows + held name c s.contents

detail-IsValid :
    (m : Detail) (t : Timestamp) (s : State)
    → IsValid s
    → IsValid (record s { contents = bump_hour m t s.contents })
detail-IsValid m t s v = record {
  collections =
      All-alter hour_eq [] (bump_collection m) (HasDistinctKeys collection_eq) (keep [] tt) keep
        (floor_hour t) s.contents v.collections;
}
  where
    keep :
        (collections : Collections)
        → HasDistinctKeys collection_eq collections
        → HasDistinctKeys collection_eq (bump_collection m collections)
    keep collections h =
        alter-HasDistinctKeys collection_eq [] (bump m) collection_eq_sound collection_eq_swap
          m.collection_id collections h

-- What a flush does to a valid state: it returns, and what is known stays.
abbrev Keeps : State → Exec State (Unit {0}) → Type 0
Keeps s m =
    (s' : State) × (m s ≡ (ok tt, s'))
    × IsValid s'
    × ((name : Text) (column : Row → ℕ)
        → ((hour : Timestamp) (e : ℕ × Events) → column (stats_row hour e) ≡ count_of name e.1)
        → (c : ℕ) → known name column c s' ≡ known name column c s)

abbrev flushed : Timestamp → Collections → State → State
flushed hour collections s = record s {
  rows = s.rows ++ map (stats_row hour) collections;
  contents = remove hour_eq hour s.contents;
}

flush-missing :
    (hour : Timestamp) (s : State)
    → lookup hour_eq hour s.contents ≡ none
    → flush_to_database hour s ≡ (ok tt, s)
unfolding flush_to_database
flush-missing hour s missing = rw (missing, flush_to_database) refl

flush-found :
    (hour : Timestamp) (collections : Collections) (s : State)
    → lookup hour_eq hour s.contents ≡ some collections
    → flush_to_database hour s ≡ (ok tt, flushed hour collections s)
unfolding flush_to_database
flush-found hour collections s found = rw (found, flush_to_database) refl

flush-Keeps : (hour : Timestamp) (s : State) → IsValid s → Keeps s (flush_to_database hour)
flush-Keeps hour s v = elim (Option-cases (lookup hour_eq hour s.contents)) [
  | inl missing ↦ (s, flush-missing hour s missing, v, λ name column kept c. refl)
  | inr (collections, found) ↦ (
    flushed hour collections s,
    flush-found hour collections s found,
    record {
      collections =
          All-remove hour_eq (HasDistinctKeys collection_eq) hour s.contents v.collections;
    },
    λ name column kept c. omega (
      arith,
      column_sum-append column c s.rows (map (stats_row hour) collections),
      column_sum-stats_row name column hour (kept hour) c collections (
          All-lookup hour_eq (HasDistinctKeys collection_eq) hour collections s.contents
            v.collections found),
      sum_of-remove hour_eq (count_in_collection name c) hour collections s.contents found,
    ),
  )
]

-- the hour of a detail can be read
abbrev pub IsDated : {calendar : Calendar} → Step calendar → Type 0
IsDated (detail m) = (t : Timestamp) × (parse_timestamp_repr m.timestamp_repr ≡ some t)
IsDated (request m) = Unit
IsDated (clean now) = Unit

module _ (calendar : Calendar) where
  abbrev reported_by : Text → ℕ → Step calendar → ℕ
  reported_by name c (detail m) = amount name c m
  reported_by name c (request m) = 0
  reported_by name c (clean now) = 0

  -- the specification: what was reported of one event of a collection
  unfoldable pub reported : Text → ℕ → List (Step calendar) → ℕ
  reported name c [] = 0
  reported name c (x ∷ steps) = reported_by name c x + reported name c steps

  abbrev Reports : State → (Text → ℕ → ℕ) → State → Type 0
  Reports s added s' =
      IsValid s'
      × ((name : Text) (column : Row → ℕ)
          → ((hour : Timestamp) (e : ℕ × Events) → column (stats_row hour e) ≡ count_of name e.1)
          → (c : ℕ) → known name column c s' ≡ known name column c s + added name c)

  step-Reports :
      (x : Step calendar) (s : State)
      → IsDated x
      → IsValid s
      → (s' : State) × (step calendar x s ≡ (ok tt, s'))
        × Reports s (λ name c. reported_by name c x) s'
  unfolding step handle_space_accounting_detail handle_space_usage_request run_cleaner
  step-Reports (detail m) s (t, dated) v = (
    record s { contents = bump_hour m t s.contents },
    rw dated refl,
    (
      detail-IsValid m t s v,
      λ name column kept c. omega (arith, held-bump_hour name c m t s.contents),
    ),
  )
  step-Reports (request m) s dated v = (
    record s { replies = s.replies ++ (m, usage m.collection_id s) ∷ [] },
    refl,
    (record { collections = v.collections }, λ name column kept c. omega arith),
  )
  step-Reports (clean now) s dated v =
      let (s', flushed, v', same) = flush-Keeps (calendar.hour_before (floor_hour now)) s v in
      (s', rw flushed refl, (v', λ name column kept c. omega (arith, same name column kept c)))

  run_all-cons :
      (x : Step calendar) (steps : List (Step calendar)) (s s' : State)
      → step calendar x s ≡ (ok tt, s')
      → run_all calendar (x ∷ steps) s ≡ run_all calendar steps s'
  unfolding run_all
  run_all-cons x steps s s' e = ap (λ p. continue p.0 (λ u. run_all calendar steps) p.1) e

  run_all-Reports :
      (steps more : List (Step calendar)) (s : State)
      → All IsDated steps
      → IsValid s
      → (s' : State) × (run_all calendar (steps ++ more) s ≡ run_all calendar more s')
        × Reports s (λ name c. reported name c steps) s'
  unfolding reported
  run_all-Reports [] more s dated v = (s, refl, (v, λ name column kept c. omega arith))
  run_all-Reports (x ∷ steps) more s (hx, dated) v =
      let (s₁, ran, (v₁, known₁)) = step-Reports x s hx v in
      let (s₂, rest, (v₂, known₂)) = run_all-Reports steps more s₁ dated v₁ in
      (
        s₂,
        run_all-cons x (steps ++ more) s s₁ ran ∙ rest,
        (
          v₂,
          λ name column kept c. omega (arith, known₁ name column kept c, known₂ name column kept c),
        ),
      )

  abbrev pub reported_usage : ℕ → List (Step calendar) → Usage
  reported_usage c steps = record {
    bytes_added = reported (codes "bytes_added") c steps;
    bytes_removed = reported (codes "bytes_removed") c steps;
    bytes_retrieved = reported (codes "bytes_retrieved") c steps;
  }

  -- From the empty state, a request after any run of details whose hours can be read, other requests
  -- and dumps is answered with what the details reported of its collection.
  pub request-reported_usage :
      (steps : List (Step calendar)) (m : Request)
      → All IsDated steps
      → (s : State) × (earlier : List (Request × Usage)) × (run_all calendar
            (steps ++ request m ∷ [])
            new_state
          ≡ (ok tt, s))
        × (s.replies ≡ earlier ++ (m, reported_usage m.collection_id steps) ∷ [])
  unfolding run_all step handle_space_usage_request column_sum sum_of
  request-reported_usage steps m dated =
      let (s, ran, (v, total)) =
        run_all-Reports steps (request m ∷ []) new_state dated (record { collections = tt }) in
      let same : (name : Text) (column : Row → ℕ)
          → ((hour : Timestamp) (e : ℕ × Events) → column (stats_row hour e) ≡ count_of name e.1)
          → known name column m.collection_id s ≡ reported name m.collection_id steps =
        λ name column kept. omega (arith, total name column kept m.collection_id) in
      (
        record s { replies = s.replies ++ (m, usage m.collection_id s) ∷ [] },
        s.replies,
        ran,
        λ i.
            s.replies
            ++ (
              m,
              record {
                bytes_added = same (codes "bytes_added") (λ r. r.bytes_added) (λ h e. refl) i;
                bytes_removed = same (codes "bytes_removed") (λ r. r.bytes_removed) (λ h e. refl) i;
                bytes_retrieved =
                    same (codes "bytes_retrieved") (λ r. r.bytes_retrieved) (λ h e. refl) i;
              },
            )
              ∷ [],
      )
