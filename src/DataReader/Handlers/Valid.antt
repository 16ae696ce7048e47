-- ===== src/DataReader/Handlers/Valid.antt =====
-- The table of active retrievals: one entry for a request, each with what is left of its rows.
use nimbus_io.Prelude.{
  ℕ, suc, ◌+◌, ◌<◌, ◌≡◌, refl, subst, Bool, false, Option, none, some, List, [], ◌∷◌, ltb, ◌==◌,
  Bytes, Text, text_eq, length, arith, Bool-cases, Option-cases, inl, inr, All,
}
use mathlib.Core.Option.{some_inj}
use nimbus_io.Prelude.Tables.{delete_where, All-delete_where}
use nimbus_io.Prelude.Exec.{Result, ok, err, continue}
use nimbus_io.Database.{SequenceRow, Tables}
use nimbus_io.Repository.{Disk}
use nimbus_io.DataReader.Reader.{read_sequence}
use nimbus_io.DataReader.Handlers.{
  Message, StateKey, state_key, key_eq, RetrieveState, Requests, State, find_request, send_reply,
  refused, exception, remove_request, next_sequence, rest_of, answer_sequence, start_with,
  handle_retrieve_key_start, handle_retrieve_key_next, clean_state,
}

abbrev pub AreDistinct : Requests → Type 0
AreDistinct [] = Unit
AreDistinct ((k, entry) ∷ requests) = (find_request k requests ≡ none) × AreDistinct requests

-- At least one row was read, and at least one is left.
abbrev pub IsUnderWay : RetrieveState → Type 0
IsUnderWay entry =
    (0 < entry.sequence_read_count)
    × (0 < length entry.generator)
    × (entry.sequence_read_count + length entry.generator ≡ entry.sequence_row_count)

pub record IsValid (requests : Requests) : Type 0 where
  pub distinct : AreDistinct requests
  pub under_way : All (λ e. IsUnderWay e.1) requests

find-delete_where :
    (k : StateKey) (p : StateKey × RetrieveState → Bool) (requests : Requests)
    → find_request k requests ≡ none
    → find_request k (delete_where p requests) ≡ none
unfolding find_request delete_where
find-delete_where k p [] h = refl
find-delete_where k p ((j, entry) ∷ requests) h = ground (arith, h, find-delete_where k p requests)

delete_where-AreDistinct :
    (p : StateKey × RetrieveState → Bool) (requests : Requests)
    → AreDistinct requests
    → AreDistinct (delete_where p requests)
unfolding delete_where
delete_where-AreDistinct p [] h = tt
delete_where-AreDistinct p ((k, entry) ∷ requests) (new, h) = elim (Bool-cases (p (k, entry))) [
  | inl e ↦ rw e (delete_where-AreDistinct p requests h)
  | inr e ↦ rw e (find-delete_where k p requests new, delete_where-AreDistinct p requests h)
]

delete_where-IsValid :
    (p : StateKey × RetrieveState → Bool) (requests : Requests)
    → IsValid requests
    → IsValid (delete_where p requests)
delete_where-IsValid p requests v = record {
  distinct = delete_where-AreDistinct p requests v.distinct;
  under_way = All-delete_where (λ e. IsUnderWay e.1) p requests v.under_way;
}

find-remove_request :
    (k : StateKey) (requests : Requests) → find_request k (remove_request k requests) ≡ none
unfolding find_request delete_where
find-remove_request k [] = refl
find-remove_request k ((j, entry) ∷ requests) = ground (arith, find-remove_request k requests)

suc_not_zero : (n : ℕ) → (suc n == 0) ≡ false
suc_not_zero n = ground arith

length-rest_of :
    (rows : List SequenceRow) → 0 < length rows → 1 + length (rest_of rows) ≡ length rows
length-rest_of [] h = absurd (omega arith)
length-rest_of (q ∷ rows) h = omega arith

find-IsUnderWay :
    (k : StateKey) (entry : RetrieveState) (requests : Requests)
    → find_request k requests ≡ some entry
    → All (λ e. IsUnderWay e.1) requests
    → IsUnderWay entry
unfolding find_request
find-IsUnderWay k entry [] e all = absurd (ground arith)
find-IsUnderWay k entry ((j, found) ∷ requests) e (h, all) = elim (Bool-cases (key_eq j k)) [
  | inl same ↦ let e' : some found ≡ some entry = rw same at e in subst IsUnderWay (some_inj.0 e') h
  | inr other ↦
      let e' : find_request k requests ≡ some entry = rw other at e in
      find-IsUnderWay k entry requests e' all
]

-- What a call leaves: it succeeds or raises, and the table is valid.
abbrev KeepsValid : Result (Unit {0}) × State → Type 0
KeepsValid (r, s') = IsValid s'.active_requests

module _ (md5 : Bytes → Bytes) (b64encode : Bytes → Text) where
  answer_sequence-KeepsValid :
      (m : Message) (q : SequenceRow) (c : Bytes) (entry : RetrieveState) (s : State)
      → IsValid s.active_requests
      → find_request (state_key m) s.active_requests ≡ none
      → 0 < entry.sequence_read_count
      → entry.sequence_read_count + length entry.generator ≡ entry.sequence_row_count
      → KeepsValid (answer_sequence md5 b64encode m q c entry s)
  unfolding answer_sequence
  answer_sequence-KeepsValid m q c entry s v absent pos all =
      elim (Bool-cases (text_eq (md5 c) q.hash)) [
        | inr wrong ↦ rw wrong v
        | inl right ↦ elim (Bool-cases (entry.sequence_read_count == entry.sequence_row_count)) [
          | inl last ↦ rw (right, last) v
          | inr more ↦
              rw (right, more)
                (record {
                  distinct = (absent, v.distinct);
                  under_way = ((pos, ground arith, all), v.under_way);
                })
        ]
      ]

  start_with-KeepsValid :
      (now : ℕ) (m : Message) (rows : List SequenceRow) (s : State)
      → IsValid s.active_requests
      → find_request (state_key m) s.active_requests ≡ none
      → KeepsValid (start_with md5 b64encode now m rows s)
  unfolding start_with
  start_with-KeepsValid now m [] s v absent = v
  start_with-KeepsValid now m (q ∷ rows) s v absent = elim (Option-cases (read_sequence s.disk q)) [
    | inl e ↦ rw (e, suc_not_zero (length rows)) v
    | inr (c, e) ↦
        rw (e, suc_not_zero (length rows))
          (answer_sequence-KeepsValid m q c _ s v absent (omega arith) (omega arith))
  ]

  query-KeepsValid :
      (now : ℕ) (m : Message) (rows : Result (List SequenceRow)) (s : State)
      → IsValid s.active_requests
      → find_request (state_key m) s.active_requests ≡ none
      → KeepsValid (continue rows (start_with md5 b64encode now m) s)
  query-KeepsValid now m (ok rows) s v absent = start_with-KeepsValid now m rows s v absent
  query-KeepsValid now m (err e) s v absent = v

  next-KeepsValid :
      (m : Message) (entry : RetrieveState) (s : State)
      → IsValid s.active_requests
      → find_request (state_key m) s.active_requests ≡ none
      → IsUnderWay entry
      → (o : Option (SequenceRow × Bytes))
      → KeepsValid (elim o as (λ _. Result (Unit {0}) × State) [
        | none ↦ send_reply m (refused exception) s
        | some (q, content) ↦
            answer_sequence md5 b64encode m q content
              (record entry {
                generator = rest_of entry.generator;
                sequence_read_count = entry.sequence_read_count + 1;
              })
              s
      ])
  next-KeepsValid m entry s v absent (pos, left, all) none = v
  next-KeepsValid m entry s v absent (pos, left, all) (some (q, c)) =
      answer_sequence-KeepsValid m q c _ s v absent (omega arith)
        (omega (arith, length-rest_of entry.generator left))

  handle_retrieve_key_start-KeepsValid :
      (now : ℕ) (m : Message) (s : State)
      → IsValid s.active_requests
      → KeepsValid (handle_retrieve_key_start md5 b64encode now m s)
  unfolding handle_retrieve_key_start
  handle_retrieve_key_start-KeepsValid now m s v =
      elim (Option-cases (find_request (state_key m) s.active_requests)) [
        | inr (entry, e) ↦ rw (e, handle_retrieve_key_start) v
        | inl absent ↦ rw (absent, handle_retrieve_key_start) (query-KeepsValid now m _ s v absent)
      ]

  handle_retrieve_key_next-KeepsValid :
      (m : Message) (s : State)
      → IsValid s.active_requests
      → KeepsValid (handle_retrieve_key_next md5 b64encode m s)
  unfolding handle_retrieve_key_next
  handle_retrieve_key_next-KeepsValid m s v =
      elim (Option-cases (find_request (state_key m) s.active_requests)) [
        | inl absent ↦ rw (absent, handle_retrieve_key_next) v
        | inr (entry, e) ↦
            rw (e, handle_retrieve_key_next)
              (next-KeepsValid m entry
                (record s { active_requests = remove_request (state_key m) s.active_requests })
                (delete_where-IsValid (λ e. key_eq e.0 (state_key m)) s.active_requests v)
                (find-remove_request (state_key m) s.active_requests)
                (find-IsUnderWay (state_key m) entry s.active_requests e v.under_way)
                (next_sequence s.disk entry.generator))
      ]

  -- The states of a reader's process: it starts without requests, and then messages are handled, the
  -- state is cleaned, and the data writer changes the tables and the files.
  pub data Reachable : State → Type 0 where
    started : (s : State) → s.active_requests ≡ [] → Reachable s
    written :
        (tables : Tables) (disk : Disk) (s : State)
        → Reachable s
        → Reachable (record s { tables = tables; disk = disk })
    asked_start :
        (now : ℕ) (m : Message) (s : State)
        → Reachable s
        → Reachable (handle_retrieve_key_start md5 b64encode now m s).1
    asked_next :
        (m : Message) (s : State)
        → Reachable s
        → Reachable (handle_retrieve_key_next md5 b64encode m s).1
    cleaned : (now : ℕ) (s : State) → Reachable s → Reachable (clean_state now s).1

  -- In every state that the process can reach, there is one entry for a request at most, at least
  -- one of its rows was read, and at least one is left, as many as the count tells.
  pub Reachable-IsValid : (s : State) → Reachable s → IsValid s.active_requests
  unfolding clean_state
  Reachable-IsValid s (started _ none_yet) = rw none_yet (record { distinct = tt; under_way = tt })
  Reachable-IsValid _ (written tables disk s r) = Reachable-IsValid s r
  Reachable-IsValid _ (asked_start now m s r) =
      handle_retrieve_key_start-KeepsValid now m s (Reachable-IsValid s r)
  Reachable-IsValid _ (asked_next m s r) =
      handle_retrieve_key_next-KeepsValid m s (Reachable-IsValid s r)
  Reachable-IsValid _ (cleaned now s r) =
      delete_where-IsValid (λ e. ltb e.1.timeout now) s.active_requests (Reachable-IsValid s r)
