-- ===== src/DataWriter/Sql.antt =====
-- The SQL statements of data_writer/writer.py, each with its commit where the source has one. In a
-- statement that is refused the exception ends the process, so what it leaves in `current` is
-- never committed.
use nimbus_io.Prelude.{
  ℕ, ◌+◌, Bool, ◌&&◌, ◌||◌, not, Option, none, some, List, [], ◌∷◌, ◌++◌, ltb, ◌==◌, Text, Bytes,
  text_eq, is_none, opt_eq,
}
use nimbus_io.Prelude.Tables.{select_where, delete_where, update_where, all_where, any_where}
use nimbus_io.Prelude.Exec.{
  Exec, pure, raise, raise_if, gets, modify, integrity_error, cardinality_violation, ◌>>=◌, ◌>>◌,
}
use nimbus_io.Tools.Timestamp.{Timestamp, before}
use nimbus_io.Database.{
  ℤ, active, cancelled, final, tombstone, is_active, SegmentRow, SequenceRow, ConjoinedRow, MetaRow,
  hash_check, segment_check, Tables, Connection, commit,
}

-- A change of the tables inside the open transaction.
abbrev alter : (Tables → Tables) → Exec Connection (Unit {0})
alter f = modify (λ c. record c { current = f c.current })

unfoldable pub insert_conjoined_row : ℕ → Text → ℕ → Timestamp → Exec Connection (Unit {0})
insert_conjoined_row collection_id key unified_id create_timestamp = do
  c ← gets (λ c. c)
  -- conjoined_unified_id_idx is unique
  raise_if (any_where (λ r. r.unified_id == unified_id) c.current.conjoined) integrity_error
  modify (λ c. record c {
    conjoined_id_seq = c.conjoined_id_seq + 1;
    current = record (c.current) {
      conjoined =
          c.current.conjoined
          ++ record {
            id = c.conjoined_id_seq;
            collection_id = collection_id;
            key = key;
            unified_id = unified_id;
            create_timestamp = create_timestamp;
            abort_timestamp = none;
            complete_timestamp = none;
            delete_timestamp = none;
          }
            ∷ [];
    };
  })
  commit

-- where collection_id, key and unified_id are those given
abbrev is_conjoined : ℕ → Text → ℕ → ConjoinedRow → Bool
is_conjoined collection_id key unified_id r =
    (r.collection_id == collection_id) && text_eq r.key key && (r.unified_id == unified_id)

unfoldable pub set_conjoined_abort_timestamp : ℕ → Text → ℕ → Timestamp → Exec Connection (Unit {0})
set_conjoined_abort_timestamp collection_id key unified_id abort_timestamp = do
  alter (λ t. record t {
    conjoined =
        update_where (is_conjoined collection_id key unified_id)
          (λ r. record r { abort_timestamp = some abort_timestamp }) t.conjoined;
  })
  commit

unfoldable pub set_conjoined_complete_timestamp :
    ℕ → Text → ℕ → Timestamp → Exec Connection (Unit {0})
set_conjoined_complete_timestamp collection_id key unified_id complete_timestamp = do
  alter (λ t. record t {
    conjoined =
        update_where (is_conjoined collection_id key unified_id)
          (λ r. record r { complete_timestamp = some complete_timestamp }) t.conjoined;
  })
  commit

-- The new row, active, is not committed here. The constraints on `segment` hold of an active row.
unfoldable pub insert_new_segment_row :
    ℕ → ℕ → Text → Timestamp → ℕ → ℕ → ℕ → Option ℕ → Exec Connection ℕ
insert_new_segment_row collection_id unified_id key timestamp conjoined_part segment_num
      source_node_id handoff_node_id =
    do
      id ← gets (λ c. c.segment_id_seq)
      modify (λ c. record c {
        segment_id_seq = c.segment_id_seq + 1;
        current = record (c.current) {
          segment =
              c.current.segment
              ++ record {
                id = id;
                collection_id = collection_id;
                key = key;
                status = active;
                unified_id = unified_id;
                timestamp = timestamp;
                segment_num = segment_num;
                conjoined_part = conjoined_part;
                file_size = 0;
                file_adler32 = none;
                file_hash = none;
                file_tombstone_unified_id = none;
                source_node_id = source_node_id;
                handoff_node_id = handoff_node_id;
              }
                ∷ [];
        };
      })
      pure id

-- what the update in `_finalize_segment_row` makes of a row
abbrev pub finalized : ℕ → ℤ → Bytes → SegmentRow → SegmentRow
finalized file_size file_adler32 file_hash r = record r {
  status = final;
  file_size = file_size;
  file_adler32 = some file_adler32;
  file_hash = some file_hash;
}

unfoldable pub finalize_segment_row : ℕ → ℕ → ℤ → Bytes → List MetaRow → Exec Connection (Unit {0})
finalize_segment_row segment_id file_size file_adler32 file_hash meta_rows = do
  c ← gets (λ c. c)
  raise_if
      (not (
        all_where
          (λ r.
            not (r.id == segment_id)
            || segment_check (finalized file_size file_adler32 file_hash r))
          c.current.segment))
      integrity_error
  alter (λ t. record t {
    segment =
        update_where (λ r. r.id == segment_id) (finalized file_size file_adler32 file_hash)
          t.segment;
    meta = t.meta ++ meta_rows;
  })
  commit

-- The conjoined archives of the key that a tombstone deletes: the one that it names, or all that
-- are older.
abbrev is_deleted_by : ℕ → Text → ℕ → Option ℕ → ConjoinedRow → Bool
is_deleted_by collection_id key unified_id unified_id_to_delete r =
    (r.collection_id == collection_id)
    && text_eq r.key key
    && (opt_eq unified_id_to_delete (some r.unified_id)
        || (is_none unified_id_to_delete && ltb r.unified_id unified_id))

unfoldable pub insert_segment_tombstone_row :
    ℕ → Text → ℕ → Timestamp → ℕ → Option ℕ → ℕ → Option ℕ → Exec Connection (Unit {0})
insert_segment_tombstone_row collection_id key unified_id timestamp segment_num unified_id_to_delete
      source_node_id handoff_node_id =
    do
      modify (λ c. record c {
        segment_id_seq = c.segment_id_seq + 1;
        current = record (c.current) {
          segment =
              c.current.segment
              ++ record {
                id = c.segment_id_seq;
                collection_id = collection_id;
                key = key;
                status = tombstone;
                unified_id = unified_id;
                timestamp = timestamp;
                segment_num = segment_num;
                conjoined_part = 0;
                file_size = 0;
                file_adler32 = none;
                file_hash = none;
                file_tombstone_unified_id = unified_id_to_delete;
                source_node_id = source_node_id;
                handoff_node_id = handoff_node_id;
              }
                ∷ [];
        };
      })
      alter (λ t. record t {
        conjoined =
            update_where (is_deleted_by collection_id key unified_id unified_id_to_delete)
              (λ r. record r { delete_timestamp = some timestamp }) t.conjoined;
      })
      commit

abbrev pub cancel : SegmentRow → SegmentRow
cancel r = record r { status = cancelled }

unfoldable pub cancel_segment_rows : ℕ → Timestamp → Exec Connection (Unit {0})
cancel_segment_rows source_node_id timestamp = do
  alter (λ t. record t {
    segment =
        update_where
          (λ r.
            (r.source_node_id == source_node_id)
            && is_active r.status
            && before r.timestamp timestamp)
          cancel t.segment;
  })
  commit

unfoldable pub cancel_segment_row : ℕ → Exec Connection (Unit {0})
cancel_segment_row segment_id = do
  alter (λ t. record t {
    segment = update_where (λ r. (r.id == segment_id) && is_active r.status) cancel t.segment;
  })
  commit

unfoldable pub insert_segment_sequence_row : SequenceRow → Exec Connection (Unit {0})
insert_segment_sequence_row row = do
  raise_if (not (hash_check (some row.hash))) integrity_error
  alter (λ t. record t { segment_sequence = t.segment_sequence ++ row ∷ [] })
  commit

-- where collection_id, unified_id and handoff_node_id are those given
abbrev is_handoff : ℕ → ℕ → ℕ → SegmentRow → Bool
is_handoff collection_id unified_id handoff_node_id r =
    (r.collection_id == collection_id)
    && (r.unified_id == unified_id)
    && opt_eq r.handoff_node_id (some handoff_node_id)

-- The scalar subquery: no row is null, and no row of `segment_sequence` has a null id; more than
-- one row is an error.
unfoldable pub delete_sequences_of : List SegmentRow → Exec Connection (Unit {0})
delete_sequences_of [] = pure tt
delete_sequences_of (r ∷ []) = alter (λ t. record t {
  segment_sequence = delete_where (λ q. q.segment_id == r.id) t.segment_sequence;
})
delete_sequences_of (r ∷ s ∷ rows) = raise cardinality_violation

unfoldable pub purge_handoff_source : ℕ → ℕ → ℕ → Exec Connection (Unit {0})
purge_handoff_source collection_id unified_id handoff_node_id = do
  c ← gets (λ c. c)
  delete_sequences_of
      (select_where (is_handoff collection_id unified_id handoff_node_id) c.current.segment)
  alter (λ t. record t {
    segment = delete_where (is_handoff collection_id unified_id handoff_node_id) t.segment;
  })
  commit
