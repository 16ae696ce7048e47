-- ===== src/DataWriter/Handlers/Open.antt =====
-- A segment that is being archived: what its messages carry, and what the node has stored of it.
use nimbus_io.Prelude.{
  ℕ, ◌<◌, ◌≡◌, refl, Bool, true, false, Option, none, some, List, [], ◌∷◌, map, ◌==◌, Bytes, length,
  All, Bool-cases, inl, inr,
}
use nimbus_io.Prelude.Tables.{select_where, update_where}
use nimbus_io.DataReader.Reader.{is_segment}
use nimbus_io.Prelude.Exec.{ok}
use nimbus_io.Tools.Timestamp.{Timestamp, parse_timestamp_repr}
use nimbus_io.Database.{SegmentRow, final}
use nimbus_io.DataWriter.Message.{Message}
use nimbus_io.DataWriter.Writer.{SegmentKey, Writer, Env, find_segment}
use nimbus_io.DataWriter.Writer.Sound.{IsSound}
use nimbus_io.DataWriter.Writer.Store.{stored}
use nimbus_io.DataWriter.Writer.Segments.{rows_with}
use nimbus_io.DataWriter.Writer.Segments.Start.{IsNumbered, started_row}
use nimbus_io.DataWriter.Handlers.{State, find_node, handoff_id}

abbrev pub segment_key : Message → SegmentKey
segment_key m = record {
  unified_id = m.unified_id;
  conjoined_part = m.conjoined_part;
  segment_num = m.segment_num;
}

-- The message tells the size and the digest of its content.
pub record IsIntact (env : Env) (m : Message) (content : Bytes) : Type 0 where
  pub size : m.segment_size ≡ length content
  pub digest : env.b64decode m.segment_md5_digest ≡ some (env.md5 content)
  pub sixteen : length (env.md5 content) ≡ 16

-- The segment `k` is active with the row `row`, and `acc` is what it has stored.
pub record IsOpen (k : SegmentKey) (id : ℕ) (row : SegmentRow) (acc : List (ℕ × Option Bytes))
    (w : Writer) : Type 0 where
  pub sound : IsSound w
  pub found : find_segment k w.active_segments ≡ some id
  pub row_of : rows_with w id ≡ row ∷ []
  pub sequences : stored w id ≡ acc
  pub unread :
      All
        (λ r. is_segment k.unified_id k.conjoined_part k.segment_num r ≡ false)
        w.storage.connection.current.segment
  pub keyed :
      is_segment k.unified_id k.conjoined_part k.segment_num (record row { status = final }) ≡ true

-- The rows that the data reader finds for a segment.
abbrev pub found_by_reader : SegmentKey → Writer → List SegmentRow
found_by_reader k w =
    select_where (is_segment k.unified_id k.conjoined_part k.segment_num)
      w.storage.connection.current.segment

-- A row that an update makes final is the one that the reader finds, where it found none before.
pub select-final :
    (p : SegmentRow → Bool) (i : ℕ) (g : SegmentRow → SegmentRow) (rows : List SegmentRow)
    → All (λ r. p r ≡ false) rows
    → All (λ r. p (g r) ≡ true) (select_where (λ r. r.id == i) rows)
    → select_where p (update_where (λ r. r.id == i) g rows)
      ≡ map g (select_where (λ r. r.id == i) rows)
unfolding select_where update_where
select-final p i g [] h l = refl
select-final p i g (r ∷ rows) h l = elim (Bool-cases (r.id == i)) [
  | inl e ↦
      let l' : (p (g r) ≡ true) × All (λ x. p (g x) ≡ true) (select_where (λ x. x.id == i) rows) =
        rw e at l in
      rw (e, l'.0, select-final p i g rows h.1 l'.1)
  | inr e ↦
      let l' : All (λ x. p (g x) ≡ true) (select_where (λ x. x.id == i) rows) = rw e at l in
      rw (e, h.0, select-final p i g rows h.1 l')
]

-- What the last message carries beside its content: the size and the digest of the file.
pub record IsFinal (env : Env) (m : Message) (hash : Bytes) : Type 0 where
  pub timestamp : Timestamp
  pub parsed : parse_timestamp_repr m.timestamp_repr ≡ some timestamp
  pub positive : 0 < m.file_size
  pub decoded : env.b64decode m.file_hash ≡ some hash
  pub sixteen : length hash ≡ 16

-- A segment that can be started: the nodes that the message names are known, its timestamp can
-- be read, and the segment is not active.
pub record IsFirst (m : Message) (s : State) (timestamp : Timestamp) (source : ℕ)
    (handoff : Option ℕ) : Type 0 where
  pub sound : IsSound s.writer
  pub numbered : IsNumbered s.writer
  pub unknown : find_segment (segment_key m) s.writer.active_segments ≡ none
  pub unread :
      All
        (λ r. is_segment m.unified_id m.conjoined_part m.segment_num r ≡ false)
        s.writer.storage.connection.current.segment
  pub parsed : parse_timestamp_repr m.timestamp_repr ≡ some timestamp
  pub sender : find_node m.source_node_name s.node_id_dict ≡ some source
  pub receiver : handoff_id m.handoff_node_name s ≡ (ok handoff, s)

abbrev pub next_id : State → ℕ
next_id s = s.writer.storage.connection.segment_id_seq

abbrev pub first_row : Message → State → Timestamp → ℕ → Option ℕ → SegmentRow
first_row m s timestamp source handoff =
    started_row (next_id s) m.collection_id m.key (segment_key m) timestamp source handoff
