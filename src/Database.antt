-- ===== src/Database.antt =====
-- The tables of a node's database (sql/nimbusio_node.sql) and its connection
-- (tools/database_connection.py). A table is the list of its rows in the order of insertion.
-- `current` is what the open transaction sees, and `durable` what the last commit has made
-- permanent. A sequence is not rolled back.
pub mod Rows
unfoldable pub use Rows.*
use nimbus_io.Prelude.{ℕ, List}
use nimbus_io.Prelude.Exec.{Exec, modify}

pub record Tables : Type 0 where
  pub segment : List SegmentRow
  pub segment_sequence : List SequenceRow
  pub value_file : List ValueFileRow
  pub conjoined : List ConjoinedRow
  pub meta : List MetaRow

pub record Connection : Type 0 where
  pub current : Tables
  pub durable : Tables
  pub segment_id_seq : ℕ
  pub value_file_id_seq : ℕ
  pub conjoined_id_seq : ℕ

unfoldable pub commit : Exec Connection (Unit {0})
commit = modify (λ c. record c { durable = c.current })

unfoldable pub rollback : Exec Connection (Unit {0})
rollback = modify (λ c. record c { current = c.durable })
