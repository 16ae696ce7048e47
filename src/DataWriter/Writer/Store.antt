-- ===== src/DataWriter/Writer/Store.antt =====
-- What `store_sequence` stores can be read back, and nothing that was stored is lost.
use nimbus_io.Prelude.{
  ℕ, ◌∙◌, ◌≡◌, refl, ap, Bool, Option, none, some, List, [], ◌∷◌, ◌++◌, map, ◌==◌, if◌then◌else◌,
  Bytes, length, arith, All, All-imp, All-append, Bool-cases, inl, inr,
}
use mathlib.Core.List.{map-append}
use nimbus_io.Prelude.Tables.{select_where, select_where-append}
use nimbus_io.Prelude.Exec.{Result, ok, err, key_error}
use nimbus_io.Tools.Timestamp.{Timestamp}
use nimbus_io.Database.{ℤ, SequenceRow, Tables, Connection, commit, hash_check}
use nimbus_io.Repository.{Disk}
use nimbus_io.DataReader.Reader.{read_sequence}
use nimbus_io.DataWriter.Sql.{insert_segment_sequence_row}
use nimbus_io.DataWriter.Writer.{
  SegmentKey, Writer, Env, find_segment, write_data, roll_over, sequence_row, store_sequence,
}
use nimbus_io.DataWriter.Writer.Sound.{
  IsPlaced, IsSound, roll_over_total, roll_over-keeps, roll_over-IsSound, read-roll_over,
  IsPlaced-roll_over, write_data-keeps, write_data-IsSound, read-write_data, read-written,
  IsPlaced-written,
}

-- A row's sequence number, and its bytes in the value files.
abbrev pub numbered : Disk → SequenceRow → ℕ × Option Bytes
numbered disk q = (q.sequence_num, read_sequence disk q)

-- The sequences of a segment, in the order of insertion.
abbrev pub stored : Writer → ℕ → List (ℕ × Option Bytes)
stored w id =
    map (numbered w.storage.disk)
      (select_where (λ q. q.segment_id == id) w.storage.connection.current.segment_sequence)

map-select_where :
    (f g : SequenceRow → ℕ × Option Bytes) (p : SequenceRow → Bool) (rows : List SequenceRow)
    → All (λ q. f q ≡ g q) rows
    → map f (select_where p rows) ≡ map g (select_where p rows)
unfolding select_where
map-select_where f g p [] h = refl
map-select_where f g p (q ∷ rows) h = elim (Bool-cases (p q)) [
  | inl e ↦ rw (e, h.0, map-select_where f g p rows h.1)
  | inr e ↦ rw (e, map-select_where f g p rows h.1)
]

module _ (env : Env) (now : Timestamp) (collection_id : ℕ) (k : SegmentKey)
    (segment_size zfec_padding_size : ℕ) (digest : Bytes) (segment_adler32 : ℤ) (sequence_num : ℕ)
    (content : Bytes) (w : Writer) (id : ℕ) where
  abbrev rolled : Writer
  rolled = (roll_over env now segment_size w).1

  abbrev written : Writer
  written = (write_data collection_id id content rolled).1

  -- the row that the call inserts
  abbrev pub new_row : SequenceRow
  new_row =
      sequence_row rolled.value_file collection_id id segment_size zfec_padding_size digest
        segment_adler32 sequence_num

  abbrev inserted : Tables
  inserted = record (written.storage.connection.current) {
    segment_sequence = written.storage.connection.current.segment_sequence ++ new_row ∷ [];
  }

  abbrev pub after : Result (Unit {0}) × Writer
  after =
      store_sequence env now collection_id k.unified_id k.conjoined_part k.segment_num segment_size
        zfec_padding_size digest segment_adler32 sequence_num content w

  abbrev reached : Writer
  reached = record written {
    storage = record (written.storage) {
      connection = record (written.storage.connection) { current = inserted; durable = inserted };
    };
  }

  -- When the segment is active and the digest has its length, every step succeeds.
  after_lem :
      find_segment k w.active_segments ≡ some id → length digest ≡ 16 → after ≡ (ok tt, reached)
  unfolding store_sequence insert_segment_sequence_row hash_check commit
  after_lem found sixteen = rw (
    found,
    roll_over_total env now segment_size w,
    (write_data-keeps collection_id id content rolled).0,
    sixteen,
  )

  module _ (s : IsSound w) where
    rolled-IsSound : IsSound rolled
    rolled-IsSound = roll_over-IsSound env now segment_size w s

    reached-IsSound : segment_size ≡ length content → IsSound reached
    reached-IsSound whole =
        let u : IsSound written =
          write_data-IsSound collection_id id content rolled rolled-IsSound in
        record {
          opened = u.opened;
          sized = u.sized;
          known = u.known;
          fresh = u.fresh;
          rows =
              All-append (IsPlaced written.storage.disk written.value_file)
                written.storage.connection.current.segment_sequence (new_row ∷ []) u.rows
                (
                  IsPlaced-written collection_id id content rolled rolled-IsSound new_row refl refl
                      whole,
                  tt,
                );
        }

    -- the rows before the call
    same_rows :
        written.storage.connection.current.segment_sequence
        ≡ w.storage.connection.current.segment_sequence
    same_rows =
        ap (λ (c : Connection). c.current.segment_sequence)
          (write_data-keeps collection_id id content rolled).1
        ∙ (roll_over-keeps env now segment_size w).0

    -- They are read as before.
    same_reads :
        All
          (λ q. numbered written.storage.disk q ≡ numbered w.storage.disk q)
          w.storage.connection.current.segment_sequence
    same_reads =
        All-imp (IsPlaced w.storage.disk w.value_file)
          (λ q. numbered written.storage.disk q ≡ numbered w.storage.disk q)
          (λ q p.
            ap (λ (b : Option Bytes). (q.sequence_num, b))
              (read-write_data collection_id id content rolled rolled-IsSound q
                  (IsPlaced-roll_over env now segment_size w s q p)
                ∙ read-roll_over env now segment_size w s q p))
          w.storage.connection.current.segment_sequence s.rows

    stored-new_row :
        segment_size ≡ length content
        → (j : ℕ)
        → map (numbered written.storage.disk) (select_where (λ q. q.segment_id == j) (new_row ∷ []))
          ≡ (if id == j then (sequence_num, some content) ∷ [] else [])
    unfolding select_where
    stored-new_row whole j =
        ground (
          arith,
          read-written collection_id id content rolled rolled-IsSound new_row refl refl whole,
        )

    stored-reached :
        segment_size ≡ length content
        → (j : ℕ)
        → stored reached j
          ≡ stored w j ++ (if id == j then (sequence_num, some content) ∷ [] else [])
    stored-reached whole j =
        rw
          (
            same_rows,
            select_where-append (λ q. q.segment_id == j)
                w.storage.connection.current.segment_sequence (new_row ∷ []),
            map-append,
            map-select_where (numbered written.storage.disk) (numbered w.storage.disk)
                (λ q. q.segment_id == j) w.storage.connection.current.segment_sequence same_reads,
          )
          (ap (λ l. stored w j ++ l) (stored-new_row whole j))

-- What `store_sequence` does for an active segment, with a digest of 16 bytes and the size of the
-- content: it succeeds, keeps the invariant, adds the sequence to the segment and to no other,
-- loses no byte that was stored before, leaves the table of segments and the active segments, and
-- leaves nothing uncommitted.
pub store_sequence-stores :
    (env : Env) (now : Timestamp) (collection_id : ℕ) (k : SegmentKey)
    (segment_size zfec_padding_size : ℕ) (digest : Bytes) (segment_adler32 : ℤ) (sequence_num : ℕ)
    (content : Bytes) (w : Writer) (id : ℕ)
    → IsSound w
    → find_segment k w.active_segments ≡ some id
    → length digest ≡ 16
    → segment_size ≡ length content
    → let (r, w') =
        store_sequence env now collection_id k.unified_id k.conjoined_part k.segment_num
          segment_size zfec_padding_size digest segment_adler32 sequence_num content w in
      (r ≡ ok tt)
      × IsSound w'
      × ((j : ℕ)
          → stored w' j ≡ stored w j ++ (if id == j then (sequence_num, some content) ∷ [] else []))
      × (w'.active_segments ≡ w.active_segments)
      × (w'.storage.connection.current.segment ≡ w.storage.connection.current.segment)
      × (w'.storage.connection.durable ≡ w'.storage.connection.current)
store_sequence-stores env now c k size pad digest adler n content w id s found sixteen whole =
    rw (after_lem env now c k size pad digest adler n content w id found sixteen) (
      refl,
      reached-IsSound env now c k size pad digest adler n content w id s whole,
      stored-reached env now c k size pad digest adler n content w id s whole,
      (write_data-keeps c id content (roll_over env now size w).1).2
          ∙ (roll_over-keeps env now size w).2,
      ap (λ (t : Connection). t.current.segment)
            (write_data-keeps c id content (roll_over env now size w).1).1
          ∙ (roll_over-keeps env now size w).1,
      refl,
    )

-- A sequence of a segment that is not active raises KeyError, and nothing is written.
pub store_sequence-inactive :
    (env : Env) (now : Timestamp) (collection_id : ℕ) (k : SegmentKey)
    (segment_size zfec_padding_size : ℕ) (digest : Bytes) (segment_adler32 : ℤ) (sequence_num : ℕ)
    (content : Bytes) (w : Writer)
    → find_segment k w.active_segments ≡ none
    → store_sequence env now collection_id k.unified_id k.conjoined_part k.segment_num segment_size
        zfec_padding_size digest segment_adler32 sequence_num content w
      ≡ (err key_error, w)
unfolding store_sequence
store_sequence-inactive env now c k size pad digest adler n content w missing = rw missing
