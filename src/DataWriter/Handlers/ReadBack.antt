-- ===== src/DataWriter/Handlers/ReadBack.antt =====
-- What the data writer has archived is what the data reader reads.
use nimbus_io.Prelude.{
  ℕ, ◌≤◌, ◌≡◌, refl, Option, some, List, [], ◌∷◌, ◌++◌, map, ◌==◌, Bytes, arith, All,
}
use nimbus_io.Prelude.Tables.{select_where}
use nimbus_io.Prelude.Exec.{ok}
use nimbus_io.Tools.Timestamp.{Timestamp}
use nimbus_io.Database.{SequenceRow, SegmentRow}
use nimbus_io.DataReader.Reader.{
  insert_sequence, order_sequences, sequences_of, all_sequence_rows_for_segment, is_segment,
}
use nimbus_io.DataWriter.Message.{Message}
use nimbus_io.DataWriter.Writer.{Env, Writer}
use nimbus_io.DataWriter.Writer.Store.{numbered, stored}
use nimbus_io.DataWriter.Handlers.{State, archive_key_start, archive_key_final, dispatch_all}
use nimbus_io.DataWriter.Handlers.Archive.{
  sequences_of as contents_of, AreNexts, nexts, archive-stores,
}
use nimbus_io.DataWriter.Handlers.Open.{segment_key, IsIntact, IsFirst, IsFinal}

abbrev pub IsAscending : List ℕ → Type 0
IsAscending [] = Unit
IsAscending (n ∷ ns) = All (λ m. n ≤ m) ns × IsAscending ns

abbrev pub numbers : List (ℕ × Option Bytes) → List ℕ
numbers [] = []
numbers ((n, _) ∷ l) = n ∷ numbers l

insert_sequence-first :
    (disk : ℕ → Option Bytes) (q : SequenceRow) (rows : List SequenceRow)
    → All (λ m. q.sequence_num ≤ m) (numbers (map (numbered disk) rows))
    → insert_sequence q rows ≡ q ∷ rows
unfolding insert_sequence
insert_sequence-first disk q [] h = refl
insert_sequence-first disk q (p ∷ rows) h = ground (arith, h.0)

-- Rows whose numbers ascend are in order.
order_sequences-IsAscending :
    (disk : ℕ → Option Bytes) (rows : List SequenceRow)
    → IsAscending (numbers (map (numbered disk) rows))
    → order_sequences rows ≡ rows
unfolding order_sequences
order_sequences-IsAscending disk [] h = refl
order_sequences-IsAscending disk (q ∷ rows) h =
    rw (order_sequences-IsAscending disk rows h.1) (insert_sequence-first disk q rows h.0)

-- The reader's query, where it finds one row and the numbers of the segment ascend.
read_back :
    (w : Writer) (unified_id conjoined_part segment_num : ℕ) (row : SegmentRow)
    (content : List (ℕ × Option Bytes))
    → select_where
        (is_segment unified_id conjoined_part segment_num)
        w.storage.connection.current.segment
      ≡ row ∷ []
    → stored w row.id ≡ content
    → IsAscending (numbers content)
    → (rows : List SequenceRow) × (all_sequence_rows_for_segment w.storage.connection.current
          unified_id conjoined_part segment_num
        ≡ ok rows)
      × (map (numbered w.storage.disk) rows ≡ content)
unfolding all_sequence_rows_for_segment sequences_of
read_back w unified_id conjoined_part segment_num row content found holds ascending =
    let rows : List SequenceRow =
      select_where (λ q. q.segment_id == row.id) w.storage.connection.current.segment_sequence in
    (rows, rw (found, order_sequences-IsAscending w.storage.disk rows (rw holds ascending)), holds)

-- The end to end property of a node. Under the conditions of `archive-stores`, and if the numbers
-- of the sequences ascend, the reader's query on the committed tables gives, once the archive is
-- finished, one row for each message, and its bytes in the value files are the message's content.
pub archive-read_back :
    (env : Env) (now : Timestamp) (first final_message : Message) (ms : List (Message × Bytes))
    (first_content final_content hash : Bytes) (s : State) (timestamp : Timestamp) (source : ℕ)
    (handoff : Option ℕ)
    → IsFirst first s timestamp source handoff
    → IsIntact env first first_content
    → AreNexts env (segment_key first) ms
    → segment_key final_message ≡ segment_key first
    → IsIntact env final_message final_content
    → IsFinal env final_message hash
    → let content =
        (first.sequence_num, some first_content)
        ∷ (contents_of ms ++ (final_message.sequence_num, some final_content) ∷ []) in
      IsAscending (numbers content)
      → let w =
          (dispatch_all env now
            ((archive_key_start, first, first_content)
              ∷ (nexts ms ++ (archive_key_final, final_message, final_content) ∷ []))
            s).1.writer in
        (rows : List SequenceRow) × (all_sequence_rows_for_segment w.storage.connection.durable
            first.unified_id first.conjoined_part first.segment_num
          ≡ ok rows)
        × (map (numbered w.storage.disk) rows ≡ content)
archive-read_back env now first final_message ms first_content final_content hash s timestamp source
      handoff can_start intact h same intact' f ascending =
    let (_, _, _, _, holds, durable, found) =
      archive-stores env now first final_message ms first_content final_content hash s timestamp
        source handoff can_start intact h same intact' f in
    rw durable (
      read_back
        (dispatch_all env now
          ((archive_key_start, first, first_content)
            ∷ (nexts ms ++ (archive_key_final, final_message, final_content) ∷ []))
          s).1.writer
        first.unified_id first.conjoined_part first.segment_num _ _ found holds ascending)
