-- ===== src/Tests/GarbageCollector.antt =====
-- Partitions of the garbage collector.
use nimbus_io.Prelude.{
  ℕ, ◌≡◌, refl, true, false, Option, none, some, List, [], ◌∷◌, codes, arith, text_eq, map, ◌==◌,
  if◌then◌else◌,
}
use nimbus_io.Prelude.Tables.{any_where, select_where, delete_where}
use nimbus_io.Prelude.Exec.{Result, Error, ok, err, integrity_error}
use nimbus_io.Database.{Status, active, cancelled, final, tombstone, SegmentRow}
use nimbus_io.GarbageCollector.Evaluate.{PartitionEntry, evaluate_partition}
use nimbus_io.GarbageCollector.Evaluate.Rules.{
  collectable, collected, count, later_version, evaluate_partition-collectable,
}
use nimbus_io.GarbageCollector.Archiver.{
  Tables, Connection, archive_where, delete_segment_sequences, execute_all,
  archive_collectable_segment_rows, archive_collectable_segment_rows-moves,
  archive_collectable_segment_rows-rollback,
}
use nimbus_io.GarbageCollector.Partitions.{
  test_partition, generate_from, generate_candidate_partitions, flat, ArePartitions,
  generate_candidate_partitions-whole,
}

abbrev entry : ℕ → ℕ → Status → Option ℕ → PartitionEntry
entry n id status named = record {
  segment_id = n;
  collection_id = 1;
  key = codes "k";
  status = status;
  unified_id = id;
  file_tombstone_unified_id = named;
  key_row_number = n;
  key_row_count = 5;
}

-- Two versions, the newer one deleted by name, an upload in progress and one that was cancelled.
abbrev oldest : PartitionEntry
oldest = entry 1 10 final none

abbrev others : List PartitionEntry
others =
    entry 2 20 final none
    ∷ entry 3 30 tombstone (some 20)
    ∷ entry 4 40 cancelled none
    ∷ entry 5 50 active none
    ∷ []

evaluate_partition_sample : collectable false (oldest ∷ others) ≡ 4 ∷ 2 ∷ []
unfolding collectable any_where later_version
evaluate_partition_sample = refl

evaluate_partition-collectable_example :
    evaluate_partition (oldest ∷ others) false
    ≡ ok (collected false (oldest ∷ others), count false (oldest ∷ others))
evaluate_partition-collectable_example =
    evaluate_partition-collectable oldest others false (omega arith)

-- An active row is collected where a tombstone names it.
active_row_is_collected :
    collected true (entry 1 10 active none ∷ entry 2 20 tombstone (some 10) ∷ []) ≡ 1 ∷ []
unfolding collected any_where later_version
active_row_is_collected = refl

generate_candidate_partitions-whole_example :
    (flat ((oldest ∷ others) ∷ []) ≡ oldest ∷ others) × ArePartitions ((oldest ∷ others) ∷ [])
unfolding generate_candidate_partitions generate_from test_partition text_eq
generate_candidate_partitions-whole_example =
    generate_candidate_partitions-whole (oldest ∷ others) ((oldest ∷ others) ∷ []) refl

abbrev segment_row : ℕ → Status → ℕ → SegmentRow
segment_row n status id = record {
  id = n;
  collection_id = 1;
  key = codes "k";
  status = status;
  unified_id = id;
  timestamp = record {
    year = 2012;
    month = 3;
    day = 1;
    hour = 9;
    minute = 0;
    second = 0;
    microsecond = 0;
  };
  segment_num = 1;
  conjoined_part = 0;
  file_size = 5;
  file_adler32 = none;
  file_hash = none;
  file_tombstone_unified_id = none;
  source_node_id = 1;
  handoff_node_id = none;
}

abbrev database : Tables
database = record {
  segment = segment_row 1 final 10 ∷ segment_row 2 final 20 ∷ segment_row 3 tombstone 30 ∷ [];
  segment_sequence = [];
  segment_archived = [];
}

abbrev connection : Connection
connection = record { current = database; durable = database }

archived_sample :
    map
      (λ (r : SegmentRow). r.id)
      (archive_collectable_segment_rows
        (1 ∷ [])
        (λ _. true)
        (λ _. ok tt)
        connection).1.durable.segment_archived
    ≡ 1 ∷ 3 ∷ []
unfolding archive_collectable_segment_rows execute_all archive_where delete_segment_sequences
    select_where delete_where any_where
archived_sample = refl

archive_collectable_segment_rows-moves_example :
    (archive_collectable_segment_rows (1 ∷ []) (λ _. true) (λ _. ok tt) connection).0 ≡ ok tt
archive_collectable_segment_rows-moves_example =
    (archive_collectable_segment_rows-moves (1 ∷ []) (λ _. true) (λ _. ok tt) connection
      (λ _. refl)).0

-- the fifth statement fails
abbrev faults : ℕ → Result (Unit {0})
faults n = if n == 4 then err integrity_error else ok tt

archive_collectable_segment_rows-rollback_example :
    let (r, c') = archive_collectable_segment_rows (1 ∷ []) (λ _. true) faults connection in
    ((raised : Error) × (r ≡ err raised))
    × (c'.current ≡ connection.durable)
    × (c'.durable ≡ connection.durable)
archive_collectable_segment_rows-rollback_example =
    archive_collectable_segment_rows-rollback (1 ∷ []) (λ _. true) faults 4 integrity_error
      connection (omega arith) refl
