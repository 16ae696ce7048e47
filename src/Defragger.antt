-- ===== src/Defragger.antt =====
-- defragger/: a pass of the defragger (defragger_main.py) and the files that it reads and removes
-- (input_value_file.py). The generator of the work and the loop that takes from it are one loop over the
-- references. The order of keys is the database's collation, an argument.
pub mod Rows
pub mod Output
pub mod Work
pub mod References
pub mod Removal
pub mod Reads
use nimbus_io.Prelude.{
  ℕ, ◌+◌, Bool, true, false, not, ◌&&◌, ◌||◌, Option, none, some, List, [], ◌∷◌, ◌++◌, ltb, ◌==◌,
  if◌then◌else◌, Text, Bytes, text_eq, is_none, opt_eq, map,
}
use nimbus_io.Prelude.Tables.{select_where, delete_where, update_where, any_where, order_by}
use nimbus_io.Prelude.Exec.{
  Exec, Result, ok, err, assertion_error, attribute_error, io_error, key_error, pure, gets, modify,
  raise, raise_if, zoom, ◌>>=◌, ◌>>◌,
}
use nimbus_io.Tools.Timestamp.{Timestamp, before}
use nimbus_io.Tools.OutputValueFile.{new_output, close_output_file}
use nimbus_io.Repository.{Disk, update_file, read_at}
use nimbus_io.Database.{
  SegmentRow, SequenceRow, ValueFileRow, Tables, Connection, commit, rollback, ℤ,
}
use nimbus_io.DataWriter.ValueFile.{
  OutputValueFile, Storage, on_connection, write_data_for_one_sequence,
}

pub record Reference : Type 0 where
  pub segment_id : ℕ
  pub handoff_node_id : Option ℕ
  pub collection_id : ℕ
  pub key : Text
  pub timestamp : Timestamp
  pub sequence_num : ℕ
  pub value_file_id : ℕ
  pub value_file_offset : ℕ
  pub sequence_size : ℕ
  pub sequence_hash : Bytes
  pub sequence_adler32 : ℤ

-- The settings, the md5 of the library, the order of keys, and the time of the pass.
pub record Env : Type 0 where
  pub min_bytes_for_defrag_pass : ℕ
  pub max_bytes_for_defrag_pass : ℕ
  pub max_value_file_size : ℕ
  pub md5 : Bytes → Bytes
  pub key_before : Text → Text → Bool
  pub now : Timestamp

abbrev pub is_mixed : Option ℕ → Bool
is_mixed none = true
is_mixed (some n) = ltb 1 n

unfoldable pub query_value_file_candidate_rows : Tables → List ValueFileRow
query_value_file_candidate_rows t =
    order_by (λ a b. before a.creation_time b.creation_time)
      (select_where (λ r. not (is_none r.close_time) && is_mixed r.distinct_collection_count)
        t.value_file)

abbrev pub counted_size : Option ℕ → ℕ
counted_size none = 0
counted_size (some n) = n

-- whether the candidates end before a row
abbrev pub is_too_much : Env → ℕ → Option ℕ → Bool
is_too_much env bytes none = false
is_too_much env bytes (some size) =
    ltb env.min_bytes_for_defrag_pass bytes && ltb env.max_bytes_for_defrag_pass (bytes + size)

unfoldable pub gather : Env → ℕ → List ValueFileRow → ℕ × List ValueFileRow
gather env bytes [] = (bytes, [])
gather env bytes (row ∷ rows) =
    let (total, rest) = gather env (bytes + counted_size row.size) rows in
    if is_too_much env bytes row.size then (bytes, []) else (total, row ∷ rest)

unfoldable pub identify_defrag_candidates : Env → Tables → ℕ × List ValueFileRow
identify_defrag_candidates env t =
    let (bytes, rows) = gather env 0 (query_value_file_candidate_rows t) in
    if ltb bytes env.min_bytes_for_defrag_pass then (0, []) else (bytes, rows)

abbrev pub reference_of : SegmentRow → SequenceRow → Reference
reference_of r q = record {
  segment_id = r.id;
  handoff_node_id = r.handoff_node_id;
  collection_id = r.collection_id;
  key = r.key;
  timestamp = r.timestamp;
  sequence_num = q.sequence_num;
  value_file_id = q.value_file_id;
  value_file_offset = q.value_file_offset;
  sequence_size = q.size;
  sequence_hash = q.hash;
  sequence_adler32 = q.adler32;
}

-- a null comes last
abbrev pub handoff_before : Option ℕ → Option ℕ → Bool
handoff_before none b = false
handoff_before (some a) none = true
handoff_before (some a) (some b) = ltb a b

abbrev pub reference_before : Env → Reference → Reference → Bool
reference_before env a b =
    handoff_before a.handoff_node_id b.handoff_node_id
    || (opt_eq a.handoff_node_id b.handoff_node_id
        && (ltb a.collection_id b.collection_id
            || ((a.collection_id == b.collection_id)
                && (env.key_before a.key b.key
                    || (text_eq a.key b.key
                        && (before a.timestamp b.timestamp
                            || (not (before b.timestamp a.timestamp)
                                && ltb a.sequence_num b.sequence_num)))))))

unfoldable pub references_to : SegmentRow → List SequenceRow → List Reference
references_to r [] = []
references_to r (q ∷ sequences) =
    let rest = references_to r sequences in
    if r.id == q.segment_id then reference_of r q ∷ rest else rest

-- the inner join
unfoldable pub join_references : List SegmentRow → List SequenceRow → List Reference
join_references [] sequences = []
join_references (r ∷ segments) sequences =
    references_to r sequences ++ join_references segments sequences

abbrev pub is_among : List ℕ → ℕ → Bool
is_among ids n = any_where (λ i. i == n) ids

unfoldable pub query_value_file_references : Env → List ℕ → Tables → List Reference
query_value_file_references env ids t = order_by (reference_before env) (
    join_references t.segment (select_where (λ q. is_among ids q.value_file_id) t.segment_sequence))

-- The storage, and the variables of `_generate_work` and `_defrag_pass`.
pub record Pass : Type 0 where
  pub storage : Storage
  pub prev_handoff_node_id : Option ℕ
  pub prev_collection_id : Option ℕ
  pub output_value_file : Option OutputValueFile
  pub bytes_defragged : ℕ

abbrev pub new_pass : Storage → Pass
new_pass s = record {
  storage = s;
  prev_handoff_node_id = none;
  prev_collection_id = none;
  output_value_file = none;
  bytes_defragged = 0;
}

-- the condition of the update
abbrev pub is_row_of : Reference → SequenceRow → Bool
is_row_of reference q =
    (q.collection_id == reference.collection_id)
    && (q.segment_id == reference.segment_id)
    && (q.sequence_num == reference.sequence_num)

abbrev pub when_true : Bool → Exec Pass (Unit {0}) → Exec Pass (Unit {0})
when_true true m p = m p
when_true false m p = (ok tt, p)

abbrev pub open_of : Result OutputValueFile × Storage → Exec Pass (Unit {0})
open_of (ok f, s) p = (ok tt, record p { storage = s; output_value_file = some f })
open_of (err e, s) p = (err e, record p { storage = s })

abbrev pub set_handoff : Option ℕ → Exec Pass (Unit {0})
set_handoff h p = (ok tt, record p { prev_handoff_node_id = h })

abbrev pub set_collection : Option ℕ → Exec Pass (Unit {0})
set_collection c p = (ok tt, record p { prev_collection_id = c })

-- the update of the row
abbrev pub moved_row : ℕ → ℕ → SequenceRow → SequenceRow
moved_row id offset q = record q { value_file_id = id; value_file_offset = offset }

abbrev pub update_sequence : Reference → ℕ → ℕ → Storage → Storage
update_sequence reference id offset s = record s {
  connection = record (s.connection) {
    current = record (s.connection.current) {
      segment_sequence =
          update_where (is_row_of reference) (moved_row id offset)
            s.connection.current.segment_sequence;
    };
  };
}

abbrev pub written_of :
    Reference → OutputValueFile → Result OutputValueFile × Storage → Exec Pass (Unit {0})
written_of reference f (ok f', s) p = (
  ok tt,
  record p {
    storage = update_sequence reference f.value_file_id f.size s;
    output_value_file = some f';
    bytes_defragged = p.bytes_defragged + reference.sequence_size;
  },
)
written_of reference f (err e, s) p = (err e, record p { storage = s })

abbrev pub read_from : Reference → Option Bytes → Option Bytes
read_from reference none = none
read_from reference (some content) =
    some (read_at reference.value_file_offset reference.sequence_size content)

-- An input file is open from the start of the pass.
abbrev pub read_input : Disk → Reference → Option Bytes
read_input disk reference = read_from reference (disk reference.value_file_id)

-- `InputValueFile.close` of each: its file and its row are removed
abbrev pub remove_input : ℕ → Storage → Storage
remove_input id s = record s {
  connection = record (s.connection) {
    current = record (s.connection.current) {
      value_file = delete_where (λ r. r.id == id) s.connection.current.value_file;
    };
  };
  disk = update_file s.disk id none;
}

unfoldable pub remove_inputs : List ℕ → Storage → Storage
remove_inputs [] s = s
remove_inputs (id ∷ ids) s = remove_inputs ids (remove_input id s)

-- whether all the files can be opened
unfoldable pub are_there : Disk → List ℕ → Bool
are_there disk [] = true
are_there disk (id ∷ ids) = not (is_none (disk id)) && are_there disk ids

abbrev pub ids_of : List ValueFileRow → List ℕ
ids_of rows = map (λ r. r.id) rows

module _ (env : Env) where
  -- `output_value_file.close()`
  abbrev pub close_of : Option OutputValueFile → Exec Pass (Unit {0})
  close_of none p = (err attribute_error, p)
  close_of (some f) p =
      (ok tt, record p { storage = (close_output_file env.md5 env.now f p.storage).1 })

  -- with the assertion before it, and None after it
  abbrev pub close_current : Option OutputValueFile → Exec Pass (Unit {0})
  close_current none p = (err assertion_error, p)
  close_current (some f) p = (
    ok tt,
    record p {
      storage = (close_output_file env.md5 env.now f p.storage).1;
      output_value_file = none;
    },
  )

  abbrev pub close_output : Exec Pass (Unit {0})
  close_output p = close_current p.output_value_file p

  abbrev pub open_output : Exec Pass (Unit {0})
  open_output p =
      if is_none p.output_value_file
      then open_of (new_output env.now p.storage) p
      else (err assertion_error, p)

  -- at least one value file for a handoff node
  abbrev pub start_handoff : ℕ → Exec Pass (Unit {0})
  start_handoff h p =
      (when_true (not (is_none p.prev_handoff_node_id)) close_output
          >> open_output
          >> set_handoff (some h))
        p

  -- at least one value file for a collection
  abbrev pub start_collection : ℕ → Exec Pass (Unit {0})
  start_collection c p =
      (when_true (not (is_none p.prev_handoff_node_id)) (close_output >> set_handoff none)
          >> when_true (not (is_none p.prev_collection_id)) close_output
          >> open_output
          >> set_collection (some c))
        p

  unfoldable pub choose_output : Option ℕ → ℕ → Exec Pass (Unit {0})
  choose_output (some h) c p =
      when_true (not (opt_eq (some h) p.prev_handoff_node_id)) (start_handoff h) p
  choose_output none c p =
      when_true (not (opt_eq (some c) p.prev_collection_id)) (start_collection c) p

  abbrev pub replace_output : OutputValueFile → Exec Pass (Unit {0})
  replace_output f p = (close_of (some f) >> λ p'. open_of (new_output env.now p'.storage) p') p

  -- a new file where the write would exceed the limit
  abbrev pub make_room : ℕ → Option OutputValueFile → Exec Pass (Unit {0})
  make_room size none = raise assertion_error
  make_room size (some f) =
      when_true (ltb env.max_value_file_size (f.size + size)) (replace_output f)

  unfoldable pub ensure_room : ℕ → Exec Pass (Unit {0})
  ensure_room size p = make_room size p.output_value_file p

  -- the body of the loop, from what is read and the file to write
  abbrev pub move_content : Reference → Option Bytes → Option OutputValueFile → Exec Pass (Unit {0})
  move_content reference none output p = (err key_error, p)
  move_content reference (some content) none p = (err attribute_error, p)
  move_content reference (some content) (some f) p =
      if text_eq (env.md5 content) reference.sequence_hash
      then written_of reference f
          (write_data_for_one_sequence f reference.collection_id reference.segment_id content
            p.storage)
          p
      else (ok tt, p)

  unfoldable pub move_sequence : Reference → Exec Pass (Unit {0})
  move_sequence reference p =
      move_content reference (read_input p.storage.disk reference) p.output_value_file p

  unfoldable pub run_work : List Reference → Exec Pass (Unit {0})
  run_work [] = pure tt
  run_work (reference ∷ references) =
      choose_output reference.handoff_node_id reference.collection_id
      >> ensure_room reference.sequence_size
      >> move_sequence reference
      >> run_work references

  -- `output_value_file.close()` after the loop
  abbrev pub end_work : Exec Pass (Unit {0})
  end_work p = close_of p.output_value_file p

  unfoldable pub defrag_files : List ℕ → Exec Pass (Unit {0})
  defrag_files ids =
      (λ p. (if are_there p.storage.disk ids then ok tt else err io_error, p))
      >> (λ p. run_work (query_value_file_references env ids p.storage.connection.current) p)
      >> end_work
      >> modify (λ p. record p { storage = remove_inputs ids p.storage })

  unfoldable pub defrag_pass : Exec Pass (Unit {0})
  defrag_pass p =
      let (bytes, rows) = identify_defrag_candidates env p.storage.connection.current in
      if bytes == 0 then (ok tt, p) else defrag_files (ids_of rows) p

  -- A transaction of `main`: it is committed, or rolled back after an exception. The disk is not.
  abbrev pub end_pass : Result (Unit {0}) × Pass → Pass
  end_pass (ok _, p) = record p { storage = (on_connection commit p.storage).1 }
  end_pass (err e, p) = record p { storage = (on_connection rollback p.storage).1 }

  abbrev pub defrag : Storage → Pass
  defrag s = end_pass (defrag_pass (new_pass s))
