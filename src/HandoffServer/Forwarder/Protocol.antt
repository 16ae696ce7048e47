-- ===== src/HandoffServer/Forwarder/Protocol.antt =====
-- What the forwarder sends to the destination of a segment of two sequences or more.
use nimbus_io.Prelude.{
  ℕ, ◌+◌, ◌≡◌, ap, ◌∙◌, Bool, true, false, Text, none, some, List, [], ◌∷◌, ◌++◌, append_assoc,
  append-nil,
}
use nimbus_io.Prelude.Exec.{ok, continue}
use nimbus_io.DataWriter.Message.{Message}
use nimbus_io.DataWriter.Handlers.{archive_key_start, archive_key_next, archive_key_final}
use nimbus_io.HandoffServer.Forwarder.{
  Segment, Reply, Outgoing, retrieve_start, retrieve_next, archive, Phase, archiving_first, reading,
  archiving, finished, Forwarder, new_forwarder, build, build_last, next_message, first_message,
  assert_success, queue, queue_built, resume, resume_all,
}

-- the replies of the reader, each with the reply of the writer to what is sent then
abbrev pub with_writer : Reply → List Reply → List Reply
with_writer done [] = []
with_writer done (reply ∷ replies) = reply ∷ done ∷ with_writer done replies

-- Every reply is a success, and the last one only is completed.
abbrev pub AreInTurn : Reply → List Reply → Type 0
AreInTurn reply [] = (reply.success ≡ true) × (reply.completed ≡ true)
AreInTurn reply (next ∷ replies) =
    (reply.success ≡ true) × (reply.completed ≡ false) × AreInTurn next replies

-- An archive message, with what the row and a reply of the reader tell. The last one has the size and
-- the hash of the file.
abbrev pub message_of : Segment → Text → ℕ → Reply → Message
message_of row name n reply = record {
  client_tag = [];
  message_id = [];
  collection_id = row.collection_id;
  key = row.key;
  unified_id = row.unified_id;
  unified_id_to_delete = none;
  timestamp_repr = row.timestamp_repr;
  conjoined_part = row.conjoined_part;
  segment_num = row.segment_num;
  segment_size = reply.segment_size;
  zfec_padding_size = reply.zfec_padding_size;
  segment_md5_digest = reply.segment_md5_digest;
  segment_adler32 = reply.segment_adler32;
  sequence_num = n;
  file_size = 0;
  file_adler32 = row.file_adler32;
  file_hash = [];
  source_node_name = name;
  handoff_node_name = none;
  handoff_node_id = 0;
  entries = [];
}

abbrev pub final_of : Segment → Text → Text → ℕ → Reply → Message
final_of row hash name n reply = record (message_of row name n reply) {
  file_size = row.file_size;
  file_hash = hash;
}

module _ (row : Segment) (hash name : Text) where
  -- what is sent from the sequence `n` on
  abbrev pub sent_from : ℕ → Reply → List Reply → List Outgoing
  sent_from n reply [] =
      archive archive_key_final (final_of row hash name n reply) reply.content ∷ []
  sent_from n reply (next ∷ replies) =
      archive archive_key_next (message_of row name n reply) reply.content
      ∷ retrieve_next
      ∷ sent_from (n + 1) next replies

abbrev pub at : Phase → List Outgoing → Forwarder
at phase outgoing = record { phase = phase; outgoing = outgoing }

module _ (row : Segment) (hash name : Text) (hashed : row.file_hash ≡ some hash)
    (named : row.source_node_name ≡ some name) (done : Reply)
    (succeeded : done.success ≡ true) where
  -- the message after a reply of the reader
  abbrev pub next_of : Bool → ℕ → Reply → Outgoing
  next_of true n reply = archive archive_key_final (final_of row hash name n reply) reply.content
  next_of false n reply = archive archive_key_next (message_of row name n reply) reply.content

  next_message-built :
      (completed : Bool) (n : ℕ) (reply : Reply)
      → next_message row completed n reply row.file_hash row.source_node_name
        ≡ ok (next_of completed n reply)
  next_message-built true n reply =
      λ i. build_last row archive_key_final n reply (hashed i) (named i)
  next_message-built false n reply = λ i. build row archive_key_next n reply (named i)

  resume_all-cons :
      (reply : Reply) (replies : List Reply) (f f' : Forwarder)
      → resume row reply f ≡ (ok tt, f')
      → resume_all row (reply ∷ replies) f ≡ resume_all row replies f'
  unfolding resume_all
  resume_all-cons reply replies f f' e = ap (λ r. continue r.0 (λ x. resume_all row replies) r.1) e

  pub resume-reading :
      (n : ℕ) (completed : Bool) (reply : Reply) (sent : List Outgoing)
      → reply.success ≡ true
      → reply.completed ≡ completed
      → resume row reply (at (reading n) sent)
        ≡ (ok tt, at (archiving n completed) (sent ++ next_of completed n reply ∷ []))
  unfolding resume
  resume-reading n completed reply sent s c =
      (λ i.
        assert_success row (s i)
          (queue_built row (archiving n (c i))
            (next_message row (c i) n reply row.file_hash row.source_node_name))
          (at (reading n) sent))
      ∙ ap (λ m. queue_built row (archiving n completed) m (at (reading n) sent))
          (next_message-built completed n reply)

  pub resume-archiving :
      (n : ℕ) (sent : List Outgoing)
      → resume row done (at (archiving n false) sent)
        ≡ (ok tt, at (reading (n + 1)) (sent ++ retrieve_next ∷ []))
  unfolding resume
  resume-archiving n sent = λ i.
      assert_success row (succeeded i) (queue row (reading (n + 1)) (retrieve_next ∷ []))
        (at (archiving n false) sent)

  pub resume-last :
      (n : ℕ) (sent : List Outgoing)
      → resume row done (at (archiving n true) sent) ≡ (ok tt, at finished (sent ++ []))
  unfolding resume
  resume-last n sent =
      λ i. assert_success row (succeeded i) (queue row finished []) (at (archiving n true) sent)

  resume_all-reading :
      (n : ℕ) (reply : Reply) (replies : List Reply) (sent : List Outgoing)
      → AreInTurn reply replies
      → resume_all row (with_writer done (reply ∷ replies)) (at (reading n) sent)
        ≡ (ok tt, at finished (sent ++ sent_from row hash name n reply replies))
  unfolding resume_all
  resume_all-reading n reply [] sent (s, c) =
      resume_all-cons reply (done ∷ []) (at (reading n) sent)
        (at (archiving n true) (sent ++ next_of true n reply ∷ []))
        (resume-reading n true reply sent s c)
      ∙ resume_all-cons done [] (at (archiving n true) (sent ++ next_of true n reply ∷ []))
          (at finished ((sent ++ next_of true n reply ∷ []) ++ []))
          (resume-last n (sent ++ next_of true n reply ∷ []))
      ∙ ap (λ l. (ok tt, at finished l)) (append-nil (sent ++ next_of true n reply ∷ []))
  resume_all-reading n reply (next ∷ replies) sent (s, c, h) =
      let sent' = sent ++ next_of false n reply ∷ [] in
      resume_all-cons reply (done ∷ with_writer done (next ∷ replies)) (at (reading n) sent)
        (at (archiving n false) sent') (resume-reading n false reply sent s c)
      ∙ resume_all-cons done (with_writer done (next ∷ replies)) (at (archiving n false) sent')
          (at (reading (n + 1)) (sent' ++ retrieve_next ∷ [])) (resume-archiving n sent')
      ∙ resume_all-reading (n + 1) next replies (sent' ++ retrieve_next ∷ []) h
      ∙ ap (λ l. (ok tt, at finished l))
          (append_assoc sent' (retrieve_next ∷ []) (sent_from row hash name (n + 1) next replies)
            ∙ append_assoc sent (next_of false n reply ∷ [])
                (retrieve_next ∷ sent_from row hash name (n + 1) next replies))

  pub resume-first :
      (first : Reply)
      → first.success ≡ true
      → first.completed ≡ false
      → resume row first new_forwarder ≡ (
        ok tt,
        at (archiving_first false) (
            retrieve_start
            ∷ archive archive_key_start (message_of row name 1 first) first.content
            ∷ []),
      )
  unfolding resume
  resume-first first s c =
      (λ i.
        assert_success row (s i)
          (queue_built row (archiving_first (c i))
            (first_message row (c i) first row.file_hash row.source_node_name))
          new_forwarder)
      ∙ (λ i.
          queue_built row (archiving_first false) (build row archive_key_start 1 first (named i))
            new_forwarder)

  pub resume-started :
      (sent : List Outgoing)
      → resume row done (at (archiving_first false) sent)
        ≡ (ok tt, at (reading 2) (sent ++ retrieve_next ∷ []))
  unfolding resume
  resume-started sent = λ i.
      assert_success row (succeeded i) (queue row (reading 2) (retrieve_next ∷ []))
        (at (archiving_first false) sent)

  -- When the hash of the row is not null and its source node is known, the reader gives the segment in
  -- two sequences or more, and it and the writer always succeed, the forwarder finishes without an
  -- exception, and has sent the writer a start, a next for each sequence but the first and the last
  -- one, and a final, each with the fields of the row and the content, the size, the padding and the
  -- checksums that were read, numbered from 1 in the order of the reading; the final has the size and
  -- the hash of the file too.
  pub forwarder-protocol :
      (first second : Reply) (replies : List Reply)
      → first.success ≡ true
      → first.completed ≡ false
      → AreInTurn second replies
      → resume_all row (with_writer done (first ∷ second ∷ replies)) new_forwarder ≡ (
        ok tt,
        at finished (
            retrieve_start
            ∷ archive archive_key_start (message_of row name 1 first) first.content
            ∷ retrieve_next
            ∷ sent_from row hash name 2 second replies),
      )
  unfolding resume
  forwarder-protocol first second replies s c h =
      let start = archive archive_key_start (message_of row name 1 first) first.content in
      resume_all-cons first (done ∷ with_writer done (second ∷ replies)) new_forwarder
        (at (archiving_first false) (retrieve_start ∷ start ∷ [])) (resume-first first s c)
      ∙ resume_all-cons done (with_writer done (second ∷ replies))
          (at (archiving_first false) (retrieve_start ∷ start ∷ []))
          (at (reading 2) (retrieve_start ∷ start ∷ retrieve_next ∷ []))
          (resume-started (retrieve_start ∷ start ∷ []))
      ∙ resume_all-reading 2 second replies (retrieve_start ∷ start ∷ retrieve_next ∷ []) h
