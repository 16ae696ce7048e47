-- ===== src/DataWriter/Writer/Sound.antt =====
-- The invariant that ties the writer's rows to the bytes of its value files.
use nimbus_io.Prelude.{
  ℕ, ◌+◌, ◌∙◌, ◌≤◌, ◌<◌, ◌≡◌, ◌≢◌, refl, ap, none, some, [], ◌++◌, ◌==◌, if◌then◌else◌, Bytes,
  length, take, drop, arith, All, All-imp, length-append, append-nil, take-append_le,
  drop-append_le, length-drop, drop-length, take-length,
}
use nimbus_io.Prelude.Exec.{ok}
use nimbus_io.Tools.Timestamp.{Timestamp}
use nimbus_io.Database.{SequenceRow, commit}
use nimbus_io.Repository.{Disk, write_at_end}
use nimbus_io.DataReader.Reader.{read_sequence}
use nimbus_io.DataWriter.ValueFile.{
  OutputValueFile, insert_value_file_default_row, open_value_file, new_value_file,
  write_data_for_one_sequence, close, update_value_file_row,
}
use nimbus_io.DataWriter.Writer.{Writer, Env, write_data, roll_over}

-- The row points into its file, and the open file has counted it.
pub record IsPlaced (disk : Disk) (f : OutputValueFile) (q : SequenceRow) : Type 0 where
  pub content : Bytes
  pub stored : disk q.value_file_id ≡ some content
  pub within : q.value_file_offset + q.size ≤ length content
  pub counted : q.value_file_id ≡ f.value_file_id → 0 < f.segment_sequence_count

pub record IsSound (w : Writer) : Type 0 where
  pub opened : w.storage.disk w.value_file.value_file_id ≡ some w.value_file.md5_input
  pub sized : length w.value_file.md5_input ≡ w.value_file.size
  pub known : w.value_file.value_file_id < w.storage.connection.value_file_id_seq
  pub fresh : (i : ℕ) → w.storage.connection.value_file_id_seq ≤ i → w.storage.disk i ≡ none
  pub rows :
      All (IsPlaced w.storage.disk w.value_file) w.storage.connection.current.segment_sequence

-- All that a rollover opens.
rolling : Unit {0}
unfolding roll_over close new_value_file open_value_file insert_value_file_default_row
    update_value_file_row commit
rolling = tt

module _ (env : Env) (now : Timestamp) (size : ℕ) (w : Writer) where
  abbrev rolled : Writer
  rolled = (roll_over env now size w).1

  pub roll_over_total : (roll_over env now size w).0 ≡ ok tt
  unfolding rolling
  roll_over_total = ground arith

  pub roll_over-keeps :
      (rolled.storage.connection.current.segment_sequence
        ≡ w.storage.connection.current.segment_sequence)
      × (rolled.storage.connection.current.segment ≡ w.storage.connection.current.segment)
      × (rolled.active_segments ≡ w.active_segments)
  unfolding rolling
  roll_over-keeps = ground arith

  -- The file of a placed row is kept.
  disk-roll_over :
      (s : IsSound w) (q : SequenceRow)
      → IsPlaced w.storage.disk w.value_file q
      → rolled.storage.disk q.value_file_id ≡ w.storage.disk q.value_file_id
  unfolding rolling
  disk-roll_over s q p = ground (arith, s.fresh w.storage.connection.value_file_id_seq)

  opened-roll_over :
      IsSound w
      → rolled.storage.disk rolled.value_file.value_file_id ≡ some rolled.value_file.md5_input
  unfolding rolling
  opened-roll_over s = ground (arith, s.fresh w.storage.connection.value_file_id_seq)

  sized-roll_over : IsSound w → length rolled.value_file.md5_input ≡ rolled.value_file.size
  unfolding rolling
  sized-roll_over s = ground arith

  known-roll_over :
      IsSound w → rolled.value_file.value_file_id < rolled.storage.connection.value_file_id_seq
  unfolding rolling
  known-roll_over s = ground arith

  fresh-roll_over :
      IsSound w
      → (i : ℕ) → rolled.storage.connection.value_file_id_seq ≤ i
      → rolled.storage.disk i ≡ none
  unfolding rolling
  fresh-roll_over s i h = ground (arith, s.fresh i)

  counted-roll_over :
      (s : IsSound w) (q : SequenceRow)
      → IsPlaced w.storage.disk w.value_file q
      → q.value_file_id ≡ rolled.value_file.value_file_id
      → 0 < rolled.value_file.segment_sequence_count
  unfolding rolling
  counted-roll_over s q p =
      ground (arith, s.fresh w.storage.connection.value_file_id_seq, p.counted)

  pub IsPlaced-roll_over :
      (s : IsSound w) (q : SequenceRow)
      → IsPlaced w.storage.disk w.value_file q
      → IsPlaced rolled.storage.disk rolled.value_file q
  IsPlaced-roll_over s q p = record {
    content = p.content;
    stored = disk-roll_over s q p ∙ p.stored;
    within = p.within;
    counted = counted-roll_over s q p;
  }

  -- A rollover keeps the invariant.
  pub roll_over-IsSound : IsSound w → IsSound rolled
  roll_over-IsSound s = record {
    opened = opened-roll_over s;
    sized = sized-roll_over s;
    known = known-roll_over s;
    fresh = fresh-roll_over s;
    rows = rw roll_over-keeps.0 (
        All-imp (IsPlaced w.storage.disk w.value_file)
          (IsPlaced rolled.storage.disk rolled.value_file) (IsPlaced-roll_over s)
          w.storage.connection.current.segment_sequence s.rows);
  }

  -- A rollover changes no byte that a row points to.
  pub read-roll_over :
      (s : IsSound w) (q : SequenceRow)
      → IsPlaced w.storage.disk w.value_file q
      → read_sequence rolled.storage.disk q ≡ read_sequence w.storage.disk q
  unfolding read_sequence
  read-roll_over s q p = ground (arith, disk-roll_over s q p)

-- The bytes within the first part of a file are not moved by what is appended.
read_at-append :
    (offset size : ℕ) (old new : Bytes)
    → offset + size ≤ length old
    → take size (drop offset (old ++ new)) ≡ take size (drop offset old)
read_at-append offset size old new h =
    rw (drop-append_le offset old new (omega arith))
      (take-append_le size (drop offset old) new (omega (arith, length-drop offset old)))

-- What was appended is read back at the old end.
read_at-end : (old new : Bytes) → take (length new) (drop (length old) (old ++ new)) ≡ new
read_at-end old new = rw (drop-length old new) (take-length new)

-- The state between the write to the value file and the insertion of its row.
module _ (collection_id segment_id : ℕ) (content : Bytes) (w : Writer) where
  abbrev written : Writer
  written = (write_data collection_id segment_id content w).1

  pub write_data-keeps :
      (write_data collection_id segment_id content w).0 ≡ ok tt
      × (written.storage.connection ≡ w.storage.connection)
      × (written.active_segments ≡ w.active_segments)
      × (written.value_file.value_file_id ≡ w.value_file.value_file_id)
  unfolding write_data write_data_for_one_sequence
  write_data-keeps = (refl, refl, refl, refl)

  file-write_data :
      IsSound w
      → written.storage.disk w.value_file.value_file_id ≡ some (w.value_file.md5_input ++ content)
  unfolding write_data write_data_for_one_sequence
  file-write_data s =
      ground
        (arith, s.opened, write_at_end w.value_file.size content w.value_file.md5_input s.sized)

  other-write_data :
      (i : ℕ) → i ≢ w.value_file.value_file_id → written.storage.disk i ≡ w.storage.disk i
  unfolding write_data write_data_for_one_sequence
  other-write_data i h = ground arith

  -- The file of a placed row is the old one with something appended.
  abbrev appended : SequenceRow → Bytes
  appended q = if q.value_file_id == w.value_file.value_file_id then content else []

  file_of_row :
      (s : IsSound w) (q : SequenceRow) (p : IsPlaced w.storage.disk w.value_file q)
      → written.storage.disk q.value_file_id ≡ some (p.content ++ appended q)
  file_of_row s q p = ground (
    arith,
    s.opened,
    p.stored,
    file-write_data s,
    other-write_data q.value_file_id,
    append-nil p.content,
  )

  -- A placed row is read as before.
  pub read-write_data :
      (s : IsSound w) (q : SequenceRow)
      → IsPlaced w.storage.disk w.value_file q
      → read_sequence written.storage.disk q ≡ read_sequence w.storage.disk q
  unfolding read_sequence
  read-write_data s q p =
      rw (file_of_row s q p, p.stored, read_sequence)
        (ap some (read_at-append q.value_file_offset q.size p.content (appended q) p.within))

  counted-write_data : 0 < written.value_file.segment_sequence_count
  unfolding write_data write_data_for_one_sequence
  counted-write_data = omega arith

  IsPlaced-write_data :
      (s : IsSound w) (q : SequenceRow)
      → IsPlaced w.storage.disk w.value_file q
      → IsPlaced written.storage.disk written.value_file q
  IsPlaced-write_data s q p = record {
    content = p.content ++ appended q;
    stored = file_of_row s q p;
    within = omega (arith, p.within, length-append {0} p.content (appended q));
    counted = λ e. counted-write_data;
  }

  pub write_data-IsSound : IsSound w → IsSound written
  unfolding write_data write_data_for_one_sequence
  write_data-IsSound s = record {
    opened = file-write_data s;
    sized = omega (arith, s.sized, length-append {0} w.value_file.md5_input content);
    known = s.known;
    fresh = λ i h. other-write_data i (omega (arith, s.known)) ∙ s.fresh i h;
    rows =
        All-imp (IsPlaced w.storage.disk w.value_file)
          (IsPlaced written.storage.disk written.value_file) (IsPlaced-write_data s)
          w.storage.connection.current.segment_sequence s.rows;
  }

  -- What was written is read back by a row that points to it.
  pub read-written :
      (s : IsSound w) (q : SequenceRow)
      → q.value_file_id ≡ w.value_file.value_file_id
      → q.value_file_offset ≡ w.value_file.size
      → q.size ≡ length content
      → read_sequence written.storage.disk q ≡ some content
  unfolding read_sequence
  read-written s q same_file at_end whole =
      rw (same_file, file-write_data s, read_sequence)
        (rw (at_end, whole, ← s.sized) (ap some (read_at-end w.value_file.md5_input content)))

  pub IsPlaced-written :
      (s : IsSound w) (q : SequenceRow)
      → q.value_file_id ≡ w.value_file.value_file_id
      → q.value_file_offset ≡ w.value_file.size
      → q.size ≡ length content
      → IsPlaced written.storage.disk written.value_file q
  IsPlaced-written s q same_file at_end whole = record {
    content = w.value_file.md5_input ++ content;
    stored = rw same_file (file-write_data s);
    within = omega (arith, s.sized, length-append {0} w.value_file.md5_input content);
    counted = λ e. counted-write_data;
  }
