-- ===== src/DataWriter/Handlers/OneMessage.antt =====
-- What each message of an archive does to a segment that is open.
use nimbus_io.Prelude.{
  ℕ, ◌∙◌, ◌≡◌, refl, ap, false, Option, none, some, List, [], ◌∷◌, ◌++◌, ◌==◌, Bytes, length,
  text_eq_refl, arith, All, All-append, ==-refl,
}
use nimbus_io.Prelude.Tables.{select_where, update_where}
use nimbus_io.DataReader.Reader.{is_segment}
use nimbus_io.Prelude.Exec.{ok}
use nimbus_io.Tools.Timestamp.{Timestamp}
use nimbus_io.Database.{SegmentRow}
use nimbus_io.DataWriter.Sql.{finalized}
use nimbus_io.DataWriter.Message.{
  Message, ReplyType, success, archive_key_start_reply, archive_key_next_reply,
  archive_key_final_reply, extract_meta,
}
use nimbus_io.DataWriter.Writer.{Env, find_segment}
use nimbus_io.DataWriter.Writer.Sound.{IsSound}
use nimbus_io.DataWriter.Writer.Store.{stored, store_sequence-stores}
use nimbus_io.DataWriter.Writer.Segments.{rows_with, key_eq_refl}
use nimbus_io.DataWriter.Writer.Segments.Start.{start_new_segment-starts}
use nimbus_io.DataWriter.Writer.Segments.Finish.{finish_new_segment-finishes}
use nimbus_io.DataWriter.Handlers.{
  State, reply_to, send_reply, node_id, check_segment, start_segment, store_segment, finish_segment,
  handle_archive_key_start, handle_archive_key_next, handle_archive_key_final,
}
use nimbus_io.DataWriter.Handlers.Open.{
  segment_key, IsIntact, IsOpen, found_by_reader, select-final, IsFinal, IsFirst, next_id,
  first_row,
}

module _ (env : Env) (now : Timestamp) where
  pub check_segment-IsIntact :
      (t : ReplyType) (m : Message) (content : Bytes) (s : State)
      → IsIntact env m content
      → check_segment env now t m content s ≡ (ok (some (env.md5 content)), s)
  unfolding check_segment
  check_segment-IsIntact t m content s h =
      rw (h.size, ==-refl (length content), h.digest, text_eq_refl (env.md5 content))

  module _ (m : Message) (sequence_num : ℕ) (content : Bytes) (s : State) (id : ℕ)
      (row : SegmentRow) (acc : List (ℕ × Option Bytes)) where
    -- One sequence more is stored.
    pub store_segment-IsOpen :
        IsOpen (segment_key m) id row acc s.writer
        → IsIntact env m content
        → let (r, s') = store_segment env now m (env.md5 content) sequence_num content s in
          (r ≡ ok tt)
          × IsOpen (segment_key m) id row (acc ++ (sequence_num, some content) ∷ []) s'.writer
          × (s'.writer.storage.connection.durable ≡ s'.writer.storage.connection.current)
          × (s'.replies ≡ s.replies)
    unfolding store_segment
    store_segment-IsOpen o h =
        let (r, sound, sequences, actives, segments, durable) =
          store_sequence-stores env now m.collection_id (segment_key m) m.segment_size
            m.zfec_padding_size (env.md5 content) m.segment_adler32 sequence_num content s.writer id
            o.sound o.found h.sixteen h.size in
        (
          r,
          record {
            sound = sound;
            found = rw actives o.found;
            row_of = rw segments o.row_of;
            sequences = sequences id ∙ (rw (o.sequences, ==-refl id));
            unread = rw segments o.unread;
            keyed = o.keyed;
          },
          durable,
          refl,
        )

  module _ (m : Message) (s : State) (id : ℕ) (row : SegmentRow)
      (acc : List (ℕ × Option Bytes)) where
    -- What the reader finds once the row is final.
    found-finished :
        (hash : Bytes)
        → IsOpen (segment_key m) id row acc s.writer
        → select_where (is_segment m.unified_id m.conjoined_part m.segment_num) (
            update_where
              (λ r. r.id == id)
              (finalized m.file_size m.file_adler32 hash)
              s.writer.storage.connection.current.segment)
          ≡ finalized m.file_size m.file_adler32 hash row ∷ []
    found-finished hash o =
        select-final (is_segment m.unified_id m.conjoined_part m.segment_num) id
          (finalized m.file_size m.file_adler32 hash) s.writer.storage.connection.current.segment
          o.unread (rw o.row_of (o.keyed, tt))
        ∙ (rw o.row_of)

    finish_segment-final :
        (hash : Bytes)
        → IsOpen (segment_key m) id row acc s.writer
        → IsFinal env m hash
        → let (r, s') = finish_segment env now m s in
          (r ≡ ok tt)
          × IsSound s'.writer
          × (find_segment (segment_key m) s'.writer.active_segments ≡ none)
          × (rows_with s'.writer id ≡ finalized m.file_size m.file_adler32 hash row ∷ [])
          × (stored s'.writer id ≡ acc)
          × (s'.writer.storage.connection.durable ≡ s'.writer.storage.connection.current)
          × (s'.replies ≡ s.replies)
          × (found_by_reader (segment_key m) s'.writer
              ≡ finalized m.file_size m.file_adler32 hash row ∷ [])
    unfolding finish_segment
    finish_segment-final hash o f =
        let (r, sound, finds, rows, sequences, _, durable, segments, _) =
          finish_new_segment-finishes m.collection_id (segment_key m) m.timestamp_repr m.file_size
            m.file_adler32 hash (extract_meta m.entries) s.writer id f.timestamp o.sound o.found
            f.parsed f.positive f.sixteen in
        rw f.decoded (
          r,
          sound,
          finds (segment_key m) ∙ (rw (key_eq_refl (segment_key m))),
          rows id ∙ (rw (==-refl id, o.row_of)),
          sequences id ∙ o.sequences,
          durable,
          refl,
          rw segments (found-finished hash o),
        )

    -- What `archive-key-next` does for an open segment and an intact message: one sequence more is
    -- stored, and a reply tells the success.
    pub next-IsOpen :
        (content : Bytes)
        → IsOpen (segment_key m) id row acc s.writer
        → IsIntact env m content
        → let (r, s') = handle_archive_key_next env now m content s in
          (r ≡ ok tt)
          × IsOpen (segment_key m) id row (acc ++ (m.sequence_num, some content) ∷ []) s'.writer
          × (s'.replies ≡ s.replies ++ reply_to archive_key_next_reply m success ∷ [])
    unfolding handle_archive_key_next send_reply
    next-IsOpen content o h =
        let (r, o', _, replies) = store_segment-IsOpen m m.sequence_num content s id row acc o h in
        rw (check_segment-IsIntact archive_key_next_reply m content s h, r, replies)
          (refl, o', refl)

  -- `archive-key-final` stores its sequence and finishes the segment.
  pub final-closes :
      (m : Message) (s : State) (id : ℕ) (row : SegmentRow) (acc : List (ℕ × Option Bytes))
      (content hash : Bytes)
      → IsOpen (segment_key m) id row acc s.writer
      → IsIntact env m content
      → IsFinal env m hash
      → let (r, s') = handle_archive_key_final env now m content s in
        (r ≡ ok tt)
        × IsSound s'.writer
        × (find_segment (segment_key m) s'.writer.active_segments ≡ none)
        × (rows_with s'.writer id ≡ finalized m.file_size m.file_adler32 hash row ∷ [])
        × (stored s'.writer id ≡ acc ++ (m.sequence_num, some content) ∷ [])
        × (s'.writer.storage.connection.durable ≡ s'.writer.storage.connection.current)
        × (s'.replies ≡ s.replies ++ reply_to archive_key_final_reply m success ∷ [])
        × (found_by_reader (segment_key m) s'.writer
            ≡ finalized m.file_size m.file_adler32 hash row ∷ [])
  unfolding handle_archive_key_final send_reply
  final-closes m s id row acc content hash o h f =
      let (r, o', _, replies) = store_segment-IsOpen m m.sequence_num content s id row acc o h in
      let (r', sound, gone, rows, sequences, durable, replies', visible) =
        finish_segment-final m
          (store_segment env now m (env.md5 content) m.sequence_num content s).1 id row
          (acc ++ (m.sequence_num, some content) ∷ []) hash o' f in
      rw (check_segment-IsIntact archive_key_final_reply m content s h, r, r')
        (
          refl,
          sound,
          gone,
          rows,
          sequences,
          durable,
          ap (λ l. l ++ reply_to archive_key_final_reply m success ∷ []) (replies' ∙ replies),
          visible,
        )

  module _ (m : Message) (s : State) (timestamp : Timestamp) (source : ℕ) (handoff : Option ℕ)
      (f : IsFirst m s timestamp source handoff) where
    unread-started :
        All
          (λ r. is_segment m.unified_id m.conjoined_part m.segment_num r ≡ false)
          (s.writer.storage.connection.current.segment
            ++ first_row m s timestamp source handoff ∷ [])
    unread-started =
        All-append (λ r. is_segment m.unified_id m.conjoined_part m.segment_num r ≡ false)
          s.writer.storage.connection.current.segment (first_row m s timestamp source handoff ∷ [])
          f.unread (ground arith, tt)

    start_segment-IsOpen :
        let (r, s') = start_segment m s in
        (r ≡ ok tt)
        × IsOpen (segment_key m) (next_id s) (first_row m s timestamp source handoff) [] s'.writer
        × (s'.replies ≡ s.replies)
    unfolding start_segment node_id
    start_segment-IsOpen =
        let (r, sound, _, found, rows, _, sequences, segments) =
          start_new_segment-starts m.collection_id m.key (segment_key m) m.timestamp_repr source
            handoff s.writer timestamp f.sound f.numbered f.unknown f.parsed in
        rw (f.sender, f.receiver)
          (
            r,
            record {
              sound = sound;
              found = found;
              row_of = rows;
              sequences = sequences;
              unread = rw segments unread-started;
              keyed = rw (==-refl m.unified_id, ==-refl m.conjoined_part, ==-refl m.segment_num);
            },
            refl,
          )

    pub start-IsOpen :
        (content : Bytes)
        → IsIntact env m content
        → let (r, s') = handle_archive_key_start env now m content s in
          (r ≡ ok tt)
          × IsOpen
              (segment_key m)
              (next_id s)
              (first_row m s timestamp source handoff)
              ((m.sequence_num, some content) ∷ [])
              s'.writer
          × (s'.replies ≡ s.replies ++ reply_to archive_key_start_reply m success ∷ [])
    unfolding handle_archive_key_start send_reply
    start-IsOpen content h =
        let (r, o, replies) = start_segment-IsOpen in
        let (r', o', _, replies') =
          store_segment-IsOpen m m.sequence_num content (start_segment m s).1 (next_id s)
            (first_row m s timestamp source handoff) [] o h in
        rw (check_segment-IsIntact archive_key_start_reply m content s h, r, r')
          (
            refl,
            o',
            ap (λ l. l ++ reply_to archive_key_start_reply m success ∷ []) (replies' ∙ replies),
          )
