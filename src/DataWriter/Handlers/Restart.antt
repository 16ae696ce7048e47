-- ===== src/DataWriter/Handlers/Restart.antt =====
-- `web-server-start`: a web server that starts again cancels what it had under way.
use nimbus_io.Prelude.{ℕ, ◌≡◌, refl, Bool, not, ◌&&◌, some, List, [], ◌∷◌, map, ◌==◌, arith}
use nimbus_io.Prelude.Tables.{select_where, update_where}
use nimbus_io.Prelude.Exec.{ok}
use nimbus_io.Tools.Timestamp.{Timestamp, parse_timestamp_repr, before}
use nimbus_io.Database.{cancelled, is_active, is_cancelled, SegmentRow, commit}
use nimbus_io.DataWriter.Message.{Message}
use nimbus_io.DataWriter.Sql.{cancel, cancel_segment_rows}
use nimbus_io.DataWriter.Writer.{cancel_active_archives_from_node}
use nimbus_io.DataWriter.Writer.Store.{stored}
use nimbus_io.DataWriter.Handlers.{State, find_node, node_id, handle_web_server_start}

-- an upload from the node that was under way before a time
abbrev pub is_abandoned : ℕ → Timestamp → SegmentRow → Bool
is_abandoned source timestamp r =
    (r.source_node_id == source) && is_active r.status && before r.timestamp timestamp

abbrev segment_rows : State → List SegmentRow
segment_rows s = s.writer.storage.connection.current.segment

select-cancelled :
    (p : SegmentRow → Bool) (rows : List SegmentRow)
    → select_where (λ r. not (is_cancelled r.status)) (update_where p cancel rows)
      ≡ select_where (λ r. not (is_cancelled r.status) && not (p r)) rows
unfolding select_where update_where
select-cancelled p [] = refl
select-cancelled p (r ∷ rows) = ground (arith, select-cancelled p rows)

ids-update :
    (p : SegmentRow → Bool) (rows : List SegmentRow)
    → map (λ (r : SegmentRow). r.id) (update_where p cancel rows)
      ≡ map (λ (r : SegmentRow). r.id) rows
unfolding update_where
ids-update p [] = refl
ids-update p (r ∷ rows) = ground (arith, ids-update p rows)

-- If the node is known and the timestamp can be read, the rows that are not cancelled afterwards are
-- those of before that were not cancelled and were no active upload from this node before the
-- time, and these are cancelled and keep their other columns; no row is added or removed; what the segments
-- have stored stays; all is committed, and nothing is replied. Nothing else changes: the other
-- tables, the active segments, the disk, the value file and the events.
pub handle_web_server_start-cancels :
    (m : Message) (s : State) (source : ℕ) (timestamp : Timestamp)
    → find_node m.source_node_name s.node_id_dict ≡ some source
    → parse_timestamp_repr m.timestamp_repr ≡ some timestamp
    → let (r, s') = handle_web_server_start m s in
      (r ≡ ok tt)
      × (select_where (λ r. not (is_cancelled r.status)) (segment_rows s')
          ≡ select_where
              (λ r. not (is_cancelled r.status) && not (is_abandoned source timestamp r))
              (segment_rows s))
      × (segment_rows s'
          ≡ update_where
              (is_abandoned source timestamp)
              (λ r. record r { status = cancelled })
              (segment_rows s))
      × (map (λ (r : SegmentRow). r.id) (segment_rows s')
          ≡ map (λ (r : SegmentRow). r.id) (segment_rows s))
      × ((j : ℕ) → stored s'.writer j ≡ stored s.writer j)
      × (s'.writer.storage.connection.durable ≡ s'.writer.storage.connection.current)
      × (s'.replies ≡ s.replies)
      × (s' ≡ record s {
        writer = record (s.writer) {
          storage = record (s.writer.storage) {
            connection = record (s.writer.storage.connection) {
              current = record (s.writer.storage.connection.current) { segment = segment_rows s' };
              durable = s'.writer.storage.connection.durable;
            };
          };
        };
      })
unfolding handle_web_server_start node_id cancel_active_archives_from_node cancel_segment_rows
    commit
handle_web_server_start-cancels m s source timestamp known parsed =
    rw (known, parsed)
      (
        refl,
        select-cancelled (is_abandoned source timestamp) (segment_rows s),
        refl,
        ids-update (is_abandoned source timestamp) (segment_rows s),
        λ j. refl,
        refl,
        refl,
        refl,
      )
