-- ===== src/DataReader/Reader.antt =====
-- data_reader/reader.py. The generator of the sequences is the list of the rows that are left to
-- read; each is read from the value files when it is asked for.
use nimbus_io.Prelude.{
  ℕ, Bool, true, false, ◌&&◌, Option, none, some, List, [], ◌∷◌, leb, ◌==◌, if◌then◌else◌, Text,
  Bytes, text_eq,
}
use nimbus_io.Prelude.Tables.{select_where}
use nimbus_io.Prelude.Exec.{Result, ok, err, cardinality_violation}
use nimbus_io.Tools.Timestamp.{before}
use nimbus_io.Database.{is_final, SegmentRow, SequenceRow, Tables}
use nimbus_io.Repository.{Disk, read_at}

-- order by timestamp desc, segment_num asc
comes_first : SegmentRow → SegmentRow → Bool
comes_first a b =
    if before b.timestamp a.timestamp
    then true
    else if before a.timestamp b.timestamp
    then false
    else leb a.segment_num b.segment_num

insert_segment : SegmentRow → List SegmentRow → List SegmentRow
insert_segment r [] = r ∷ []
insert_segment r (s ∷ rows) = if comes_first r s then r ∷ s ∷ rows else s ∷ insert_segment r rows

order_segments : List SegmentRow → List SegmentRow
order_segments [] = []
order_segments (r ∷ rows) = insert_segment r (order_segments rows)

unfoldable pub all_segment_rows_for_key : Tables → ℕ → Text → List SegmentRow
unfolding comes_first insert_segment order_segments
all_segment_rows_for_key t collection_id key =
    order_segments
      (select_where (λ r. (r.collection_id == collection_id) && text_eq r.key key) t.segment)

-- order by sequence_num asc
unfoldable pub insert_sequence : SequenceRow → List SequenceRow → List SequenceRow
insert_sequence q [] = q ∷ []
insert_sequence q (p ∷ rows) =
    if leb q.sequence_num p.sequence_num then q ∷ p ∷ rows else p ∷ insert_sequence q rows

unfoldable pub order_sequences : List SequenceRow → List SequenceRow
order_sequences [] = []
order_sequences (q ∷ rows) = insert_sequence q (order_sequences rows)

-- the condition of the subquery
abbrev pub is_segment : ℕ → ℕ → ℕ → SegmentRow → Bool
is_segment unified_id conjoined_part segment_num r =
    (r.unified_id == unified_id)
    && (r.conjoined_part == conjoined_part)
    && (r.segment_num == segment_num)
    && is_final r.status

-- the rows of the segment whose row is found, by the scalar subquery
unfoldable pub sequences_of : Tables → List SegmentRow → Result (List SequenceRow)
sequences_of t [] = ok []
sequences_of t (r ∷ []) =
    ok (order_sequences (select_where (λ q. q.segment_id == r.id) t.segment_sequence))
sequences_of t (r ∷ s ∷ rows) = err cardinality_violation

unfoldable pub all_sequence_rows_for_segment : Tables → ℕ → ℕ → ℕ → Result (List SequenceRow)
all_sequence_rows_for_segment t unified_id conjoined_part segment_num =
    sequences_of t (select_where (is_segment unified_id conjoined_part segment_num) t.segment)

-- One step of `generate_all_sequence_rows`: `open` fails where there is no file.
unfoldable pub read_sequence : Disk → SequenceRow → Option Bytes
read_sequence disk q = elim (disk q.value_file_id) [
  | none ↦ none
  | some content ↦ some (read_at q.value_file_offset q.size content)
]
