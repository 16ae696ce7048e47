-- ===== src/GarbageCollector/Evaluate.antt =====
-- `_evaluate_partition` of garbage_collector/garbage_collector_main.py. The ids that it writes to
-- the StringIO, one to a line, are a list.
pub mod Rules
use nimbus_io.Prelude.{
  ℕ, ◌+◌, Bool, true, false, not, ◌&&◌, ◌||◌, Option, none, some, List, [], ◌∷◌, ◌++◌, ltb, ◌==◌,
  if◌then◌else◌, Text, is_none,
}
use mathlib.Core.List.{reverse}
use nimbus_io.Prelude.Exec.{Result, ok, err, index_error}
use nimbus_io.Database.{Status, is_active, is_cancelled, is_final, is_tombstone}

-- `_partition_entry` of candidate_partition_generator.py
pub record PartitionEntry : Type 0 where
  pub segment_id : ℕ
  pub collection_id : ℕ
  pub key : Text
  pub status : Status
  pub unified_id : ℕ
  pub file_tombstone_unified_id : Option ℕ
  pub key_row_number : ℕ
  pub key_row_count : ℕ

-- the local variables of the loop, and what has been written
pub record Evaluation : Type 0 where
  pub collectable_segment_ids : List ℕ
  pub collectable_count : ℕ
  pub collect_the_rest : Bool
  pub collect_unified_ids : List ℕ
  pub latest_version_unified_id : Option ℕ

abbrev pub never_collectable : Status → Bool
never_collectable status = is_active status || is_tombstone status

-- `unified_id in collect_unified_ids`
unfoldable pub contains : List ℕ → ℕ → Bool
contains [] a = false
contains (b ∷ ids) a = let rest = contains ids a in if a == b then true else rest

abbrev write : PartitionEntry → Evaluation → Evaluation
write entry v = record v {
  collectable_segment_ids = v.collectable_segment_ids ++ entry.segment_id ∷ [];
}

abbrev write_and_count : PartitionEntry → Evaluation → Evaluation
write_and_count entry v = record v {
  collectable_segment_ids = v.collectable_segment_ids ++ entry.segment_id ∷ [];
  collectable_count = v.collectable_count + 1;
}

-- The last test of the loop's body: an older version, where there is no versioning.
unfoldable pub evaluate_version : Bool → PartitionEntry → Evaluation → Evaluation
evaluate_version versioned_collection entry v =
    if not versioned_collection && is_final entry.status
    then elim v.latest_version_unified_id [
      | none ↦ record v { latest_version_unified_id = some entry.unified_id }
      | some latest ↦ if ltb entry.unified_id latest then write_and_count entry v else v
    ]
    else v

-- The loop's body, one branch for each `continue`.
unfoldable pub evaluate_entry : Bool → PartitionEntry → Evaluation → Evaluation
evaluate_entry versioned_collection entry v =
    if v.collect_the_rest
    then (if not (never_collectable entry.status) then write_and_count entry v else v)
    else if is_tombstone entry.status && is_none entry.file_tombstone_unified_id
    then record v { collect_the_rest = true }
    else if is_tombstone entry.status
    then record v {
      collect_unified_ids = elim entry.file_tombstone_unified_id [
        | none ↦ v.collect_unified_ids
        | some id ↦ id ∷ v.collect_unified_ids
      ];
    }
    else if contains v.collect_unified_ids entry.unified_id
    then write_and_count entry v
    else if is_cancelled entry.status
    then write entry v
    else if never_collectable entry.status
    then v
    else evaluate_version versioned_collection entry v

unfoldable pub evaluate_entries : Bool → List PartitionEntry → Evaluation → Evaluation
evaluate_entries versioned_collection [] v = v
evaluate_entries versioned_collection (entry ∷ entries) v =
    evaluate_entries versioned_collection entries (evaluate_entry versioned_collection entry v)

abbrev pub start : Evaluation
start = record {
  collectable_segment_ids = [];
  collectable_count = 0;
  collect_the_rest = false;
  collect_unified_ids = [];
  latest_version_unified_id = none;
}

-- The ids written, and the count returned. The log line reads the first entry of the partition.
unfoldable pub evaluate_partition : List PartitionEntry → Bool → Result (List ℕ × ℕ)
evaluate_partition [] versioned_collection = err index_error
evaluate_partition (entry ∷ entries) versioned_collection =
    let v = evaluate_entries versioned_collection (reverse (entry ∷ entries)) start in
    ok (v.collectable_segment_ids, v.collectable_count)
