-- ===== src/DataWriter/ValueFile.antt =====
-- data_writer/output_value_file.py: a value file while it is being written.
use nimbus_io.Prelude.{
  ℕ, ◌+◌, min, max, Option, none, some, List, [], ◌∷◌, ◌++◌, leb, ◌==◌, if◌then◌else◌, Bytes,
  length, is_none,
}
use nimbus_io.Prelude.Tables.{update_where}
use nimbus_io.Prelude.Exec.{Exec, ok, pure, gets, modify, zoom, ◌>>=◌, ◌>>◌}
use nimbus_io.Tools.Timestamp.{Timestamp}
use nimbus_io.Repository.{Disk, update_file, write_at}
use nimbus_io.Database.{ValueFileRow, Connection, commit}

-- `md5_input` is what the hashlib object has been fed, and `size` is also the position of the
-- file descriptor.
pub record OutputValueFile : Type 0 where
  pub value_file_id : ℕ
  pub creation_time : Timestamp
  pub size : ℕ
  pub md5_input : Bytes
  pub segment_sequence_count : ℕ
  pub min_segment_id : Option ℕ
  pub max_segment_id : Option ℕ
  pub collection_ids : List ℕ

-- A connection and the disk.
pub record Storage : Type 0 where
  pub connection : Connection
  pub disk : Disk

abbrev pub on_connection : {A : Type 0} → Exec Connection A → Exec Storage A
on_connection = zoom (λ s. s.connection) (λ c s. record s { connection = c })

unfoldable pub insert_value_file_default_row : Timestamp → Exec Connection ℕ
insert_value_file_default_row now = do
  id ← gets (λ c. c.value_file_id_seq)
  modify (λ c. record c {
    value_file_id_seq = c.value_file_id_seq + 1;
    current = record (c.current) {
      value_file =
          c.current.value_file
          ++ record {
            id = id;
            creation_time = now;
            close_time = none;
            size = none;
            hash = none;
            segment_sequence_count = none;
            min_segment_id = none;
            max_segment_id = none;
            distinct_collection_count = none;
            collection_ids = none;
          }
            ∷ [];
    };
  })
  commit
  pure id

-- O_WRONLY and O_CREAT: a file that exists keeps its content.
unfoldable pub open_value_file : ℕ → Exec Storage (Unit {0})
open_value_file id = do
  old ← gets (λ s. s.disk id)
  modify (λ s. record s {
    disk = update_file s.disk id (elim old [ none ↦ some [] | some content ↦ some content ]);
  })

-- `OutputValueFile(connection, repository_path)`
unfoldable pub new_value_file : Timestamp → Exec Storage OutputValueFile
new_value_file now = do
  id ← on_connection (insert_value_file_default_row now)
  open_value_file id
  pure (record {
    value_file_id = id;
    creation_time = now;
    size = 0;
    md5_input = [];
    segment_sequence_count = 0;
    min_segment_id = none;
    max_segment_id = none;
    collection_ids = [];
  })

-- `set.add`, where the set is a list with no repetition
unfoldable pub add_id : ℕ → List ℕ → List ℕ
add_id a [] = a ∷ []
add_id a (b ∷ ids) = if a == b then b ∷ ids else b ∷ add_id a ids

abbrev pub least : Option ℕ → ℕ → ℕ
least none a = a
least (some b) a = min b a

abbrev pub greatest : Option ℕ → ℕ → ℕ
greatest none a = a
greatest (some b) a = max b a

unfoldable pub write_data_for_one_sequence :
    OutputValueFile → ℕ → ℕ → Bytes → Exec Storage OutputValueFile
write_data_for_one_sequence f collection_id segment_id content = do
  old ← gets (λ s. s.disk f.value_file_id)
  modify (λ s. record s {
    disk =
        update_file s.disk f.value_file_id
          (elim old [ none ↦ none | some bytes ↦ some (write_at f.size content bytes) ]);
  })
  pure (record f {
    size = f.size + length content;
    md5_input = f.md5_input ++ content;
    segment_sequence_count = f.segment_sequence_count + 1;
    min_segment_id = some (least f.min_segment_id segment_id);
    max_segment_id = some (greatest f.max_segment_id segment_id);
    collection_ids = add_id collection_id f.collection_ids;
  })

unfoldable pub insert_sorted : ℕ → List ℕ → List ℕ
insert_sorted a [] = a ∷ []
insert_sorted a (b ∷ ids) = if leb a b then a ∷ b ∷ ids else b ∷ insert_sorted a ids

-- `sorted(list(collection_ids))`
unfoldable pub sorted : List ℕ → List ℕ
sorted [] = []
sorted (a ∷ ids) = insert_sorted a (sorted ids)

-- the columns that `_update_value_file_row` sets
abbrev pub closed_row : (Bytes → Bytes) → Timestamp → OutputValueFile → ValueFileRow → ValueFileRow
closed_row md5 now f r = record r {
  creation_time = f.creation_time;
  close_time = some now;
  size = some f.size;
  hash = some (md5 f.md5_input);
  segment_sequence_count = some f.segment_sequence_count;
  min_segment_id = f.min_segment_id;
  max_segment_id = f.max_segment_id;
  distinct_collection_count = some (length f.collection_ids);
  collection_ids = some (sorted f.collection_ids);
}

unfoldable pub update_value_file_row :
    (Bytes → Bytes) → Timestamp → OutputValueFile → Exec Connection (Unit {0})
update_value_file_row md5 now f = do
  modify (λ c. record c {
    current = record (c.current) {
      value_file =
          update_where (λ r. r.id == f.value_file_id) (closed_row md5 now f) c.current.value_file;
    };
  })
  commit

-- `mark_value_files_as_closed`
unfoldable pub mark_value_files_as_closed : Timestamp → Exec Connection (Unit {0})
mark_value_files_as_closed now = do
  modify (λ c. record c {
    current = record (c.current) {
      value_file =
          update_where (λ r. is_none r.close_time) (λ r. record r { close_time = some now })
            c.current.value_file;
    };
  })
  commit

-- `OutputValueFile.close`; an empty file is removed, and its row stays as it was inserted.
unfoldable pub close : (Bytes → Bytes) → Timestamp → OutputValueFile → Exec Storage (Unit {0})
close md5 now f s =
    if f.segment_sequence_count == 0
    then (ok tt, record s { disk = update_file s.disk f.value_file_id none })
    else on_connection (update_value_file_row md5 now f) s
