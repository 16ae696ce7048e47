-- ===== src/DataWriter/Handlers/Archive.antt =====
-- The protocol of an archive: start, any number of next, final. What the messages carry is what the
-- node has stored.
use nimbus_io.Prelude.{
  ℕ, ◌∙◌, ◌≡◌, refl, sym, subst, Option, none, some, List, [], ◌∷◌, ◌++◌, Bytes, All, append_assoc,
}
use nimbus_io.Prelude.Exec.{ok}
use nimbus_io.Tools.Timestamp.{Timestamp}
use nimbus_io.Database.{SegmentRow}
use nimbus_io.DataWriter.Sql.{finalized}
use nimbus_io.DataWriter.Message.{Message}
use nimbus_io.DataWriter.Writer.{SegmentKey, Env, find_segment}
use nimbus_io.DataWriter.Writer.Sound.{IsSound}
use nimbus_io.DataWriter.Writer.Store.{stored}
use nimbus_io.DataWriter.Writer.Segments.{rows_with}
use nimbus_io.DataWriter.Handlers.{
  State, handle_archive_key_start, handle_archive_key_next, MessageType, archive_key_start,
  archive_key_next, archive_key_final, handle, dispatch_all,
}
use nimbus_io.DataWriter.Handlers.Open.{
  segment_key, IsIntact, IsOpen, found_by_reader, IsFinal, IsFirst, next_id, first_row,
}
use nimbus_io.DataWriter.Handlers.OneMessage.{next-IsOpen, final-closes, start-IsOpen}

-- Messages `next` and their sequences.
abbrev pub nexts : List (Message × Bytes) → List (MessageType × Message × Bytes)
nexts [] = []
nexts ((m, content) ∷ ms) = (archive_key_next, m, content) ∷ nexts ms

abbrev pub sequences_of : List (Message × Bytes) → List (ℕ × Option Bytes)
sequences_of [] = []
sequences_of ((m, content) ∷ ms) = (m.sequence_num, some content) ∷ sequences_of ms

-- Every message is intact and of the segment `k`.
abbrev pub AreNexts : Env → SegmentKey → List (Message × Bytes) → Type 0
AreNexts env k ms = All (λ e. (segment_key e.0 ≡ k) × IsIntact env e.0 e.1) ms

module _ (env : Env) (now : Timestamp) (final_message : Message) (final_content hash : Bytes)
    (intact : IsIntact env final_message final_content) (f : IsFinal env final_message hash)
    (id : ℕ) (row : SegmentRow) where
  rest-closes :
      (ms : List (Message × Bytes)) (s : State) (acc : List (ℕ × Option Bytes))
      → IsOpen (segment_key final_message) id row acc s.writer
      → AreNexts env (segment_key final_message) ms
      → let (r, s') =
          dispatch_all env now
            (nexts ms ++ (archive_key_final, final_message, final_content) ∷ [])
            s in
        (r ≡ ok tt)
        × IsSound s'.writer
        × (find_segment (segment_key final_message) s'.writer.active_segments ≡ none)
        × (rows_with s'.writer id
            ≡ finalized final_message.file_size final_message.file_adler32 hash row ∷ [])
        × (stored s'.writer id
            ≡ acc ++ (sequences_of ms ++ (final_message.sequence_num, some final_content) ∷ []))
        × (s'.writer.storage.connection.durable ≡ s'.writer.storage.connection.current)
        × (found_by_reader (segment_key final_message) s'.writer
            ≡ finalized final_message.file_size final_message.file_adler32 hash row ∷ [])
  unfolding dispatch_all handle
  rest-closes [] s acc o h =
      let (r, sound, gone, rows, sequences, durable, _, visible) =
        final-closes env now final_message s id row acc final_content hash o intact f in
      rw r (refl, sound, gone, rows, sequences, durable, visible)
  rest-closes ((m, content) ∷ ms) s acc o h =
      let o' : IsOpen (segment_key m) id row acc s.writer =
        subst (λ k. IsOpen k id row acc s.writer) (sym h.0.0) o in
      let (r, opened, _) = next-IsOpen env now m s id row acc content o' h.0.1 in
      let s' = (handle_archive_key_next env now m content s).1 in
      let acc' = acc ++ (m.sequence_num, some content) ∷ [] in
      let rest =
        rest-closes ms s' acc' (subst (λ k. IsOpen k id row acc' s'.writer) h.0.0 opened) h.1 in
      rw r (
        rest.0,
        rest.1,
        rest.2,
        rest.3,
        rest.4
            ∙ append_assoc acc ((m.sequence_num, some content) ∷ [])
                (sequences_of ms ++ (final_message.sequence_num, some final_content) ∷ []),
        rest.5,
        rest.6,
      )

-- A whole archive. If the segment can be started, and every message is intact and of this segment,
-- and the last one tells a positive file size and a file hash of 16 bytes, then every message is
-- handled without an exception; the segment is not active any more; its row is final, with the
-- size and the checksums of the file; the contents of the messages are what the value files hold
-- for it, in the order of the messages; and all of it is committed.
pub archive-stores :
    (env : Env) (now : Timestamp) (first final_message : Message) (ms : List (Message × Bytes))
    (first_content final_content hash : Bytes) (s : State) (timestamp : Timestamp) (source : ℕ)
    (handoff : Option ℕ)
    → IsFirst first s timestamp source handoff
    → IsIntact env first first_content
    → AreNexts env (segment_key first) ms
    → segment_key final_message ≡ segment_key first
    → IsIntact env final_message final_content
    → IsFinal env final_message hash
    → let (r, s') =
        dispatch_all env now
          ((archive_key_start, first, first_content)
            ∷ (nexts ms ++ (archive_key_final, final_message, final_content) ∷ []))
          s in
      (r ≡ ok tt)
      × IsSound s'.writer
      × (find_segment (segment_key first) s'.writer.active_segments ≡ none)
      × (rows_with s'.writer (next_id s)
          ≡ finalized final_message.file_size final_message.file_adler32 hash
              (first_row first s timestamp source handoff)
            ∷ [])
      × (stored s'.writer (next_id s)
          ≡ (first.sequence_num, some first_content)
            ∷ (sequences_of ms ++ (final_message.sequence_num, some final_content) ∷ []))
      × (s'.writer.storage.connection.durable ≡ s'.writer.storage.connection.current)
      × (found_by_reader (segment_key first) s'.writer
          ≡ finalized final_message.file_size final_message.file_adler32 hash
              (first_row first s timestamp source handoff)
            ∷ [])
unfolding dispatch_all handle
archive-stores env now first final_message ms first_content final_content hash s timestamp source
      handoff can_start intact h same intact' f =
    let (r, o, _) =
      start-IsOpen env now first s timestamp source handoff can_start first_content intact in
    let s' = (handle_archive_key_start env now first first_content s).1 in
    let row = first_row first s timestamp source handoff in
    let acc : List (ℕ × Option Bytes) = (first.sequence_num, some first_content) ∷ [] in
    let rest =
      rest-closes env now final_message final_content hash intact' f (next_id s) row ms s' acc
        (subst (λ k. IsOpen k (next_id s) row acc s'.writer) (sym same) o)
        (subst (λ k. AreNexts env k ms) (sym same) h) in
    rw r (
      rest.0,
      rest.1,
      subst
          (λ k.
            find_segment k
              (dispatch_all env now
                (nexts ms ++ (archive_key_final, final_message, final_content) ∷ [])
                s').1.writer.active_segments
            ≡ none)
          same rest.2,
      rest.3,
      rest.4,
      rest.5,
      subst
          (λ k.
            found_by_reader k
              (dispatch_all env now
                (nexts ms ++ (archive_key_final, final_message, final_content) ∷ []) s').1.writer
            ≡ finalized final_message.file_size final_message.file_adler32 hash row ∷ [])
          same rest.6,
    )
