-- ===== src/Defragger/Rows.antt =====
-- The rows of sequences during a pass: each still reads what it read before.
use nimbus_io.Prelude.{
  ℕ, ◌+◌, ◌≤◌, ◌≡◌, refl, sym, ap, ◌∙◌, true, false, ◌&&◌, inl, inr, some, List, ◌∷◌, ◌++◌, ◌==◌,
  if◌then◌else◌, Bytes, length, take, drop, arith, Bool-cases, length-append, length-take,
  length-drop, drop_exact, take_all, drop-append_le, take-append_le,
}
use mathlib.Core.Option.{some_inj}
use nimbus_io.Prelude.Tables.{any_where}
use nimbus_io.Repository.{Disk, read_at}
use nimbus_io.Database.{SequenceRow}
use nimbus_io.DataReader.Reader.{read_sequence}
use nimbus_io.Defragger.{Reference, is_among, is_row_of, moved_row}

-- A disk with the files of another one, to which bytes may be added.
abbrev pub Extends : Disk → Disk → Type 0
Extends disk disk' =
    (i : ℕ) (content : Bytes)
    → disk i ≡ some content
    → (more : Bytes) × (disk' i ≡ some (content ++ more))

-- A row of now against the row of before with its key: it reads the same, the whole of which is in
-- the file; and if it lies in an input file, its reference is one of those to come.
pub record IsKept (disk_before disk : Disk) (ids : List ℕ) (references : List Reference)
    (old new : SequenceRow) : Type 0 where
  pub collection : new.collection_id ≡ old.collection_id
  pub segment : new.segment_id ≡ old.segment_id
  pub sequence : new.sequence_num ≡ old.sequence_num
  pub size : new.size ≡ old.size
  pub content : Bytes
  pub stored : disk new.value_file_id ≡ some content
  pub within : new.value_file_offset + new.size ≤ length content
  pub reads : read_sequence disk new ≡ read_sequence disk_before old
  pub pending :
      is_among ids new.value_file_id ≡ true → any_where (λ r. is_row_of r old) references ≡ true

read_at-append :
    (offset size : ℕ) (content more : Bytes)
    → offset + size ≤ length content
    → read_at offset size (content ++ more) ≡ read_at offset size content
read_at-append offset size content more h =
    ap (take size) (drop-append_le offset content more (omega arith))
    ∙ take-append_le size (drop offset content) more (omega (arith, length-drop offset content, h))

pub read_sequence-stored :
    (disk : Disk) (q : SequenceRow) (content : Bytes)
    → disk q.value_file_id ≡ some content
    → read_sequence disk q ≡ some (read_at q.value_file_offset q.size content)
unfolding read_sequence
read_sequence-stored disk q content e = rw (e, read_sequence) refl

module _ (disk_before disk : Disk) (ids : List ℕ) (references : List Reference)
    (old new : SequenceRow) (k : IsKept disk_before disk ids references old new) where
  pub extended-IsKept :
      (disk' : Disk) → Extends disk disk' → IsKept disk_before disk' ids references old new
  extended-IsKept disk' extends =
      let (more, e) = extends new.value_file_id k.content k.stored in
      record {
        collection = k.collection;
        segment = k.segment;
        sequence = k.sequence;
        size = k.size;
        content = k.content ++ more;
        stored = e;
        within = omega (arith, k.within, length-append k.content more);
        reads =
            read_sequence-stored disk' new (k.content ++ more) e
            ∙ ap some (read_at-append new.value_file_offset new.size k.content more k.within)
            ∙ sym (read_sequence-stored disk new k.content k.stored)
            ∙ k.reads;
        pending = k.pending;
      }

  -- what the row reads has its size
  read-size : (bytes : Bytes) → read_sequence disk_before old ≡ some bytes → length bytes ≡ new.size
  read-size bytes e =
      let same : read_at new.value_file_offset new.size k.content ≡ bytes =
        some_inj.0 (sym (read_sequence-stored disk new k.content k.stored) ∙ k.reads ∙ e) in
      ap length (sym same)
      ∙ length-take new.size (drop new.value_file_offset k.content)
      ∙ omega (arith, length-drop new.value_file_offset k.content, k.within)

module _ (disk_before disk disk' : Disk) (ids : List ℕ) (reference : Reference)
    (references : List Reference) (output : ℕ) (written bytes : Bytes)
    (extends : Extends disk disk') (appended : disk' output ≡ some (written ++ bytes))
    (not_input : is_among ids output ≡ false) where
  same_row :
      (old new : SequenceRow)
      → IsKept disk_before disk ids (reference ∷ references) old new
      → is_row_of reference new ≡ is_row_of reference old
  same_row old new k = λ i.
      (k.collection i == reference.collection_id)
      && (k.segment i == reference.segment_id)
      && (k.sequence i == reference.sequence_num)

  -- A row after the move of a reference.
  pub move-IsKept :
      (old new : SequenceRow)
      → (is_row_of reference old ≡ true → read_sequence disk_before old ≡ some bytes)
      → IsKept disk_before disk ids (reference ∷ references) old new
      → IsKept disk_before disk' ids references old
          (if is_row_of reference new then moved_row output (length written) new else new)
  unfolding any_where
  move-IsKept old new described k = elim (Bool-cases (is_row_of reference old)) [
    | inr other ↦
        let e =
          extended-IsKept disk_before disk ids (reference ∷ references) old new k disk' extends in
        rw (same_row old new k, other)
          (record {
            collection = e.collection;
            segment = e.segment;
            sequence = e.sequence;
            size = e.size;
            content = e.content;
            stored = e.stored;
            within = e.within;
            reads = e.reads;
            pending = λ h. (rw other at (e.pending h));
          })
    | inl same ↦
        let size =
          read-size disk_before disk ids (reference ∷ references) old new k bytes
            (described same) in
        rw (same_row old new k, same)
          (record {
            collection = k.collection;
            segment = k.segment;
            sequence = k.sequence;
            size = k.size;
            content = written ++ bytes;
            stored = appended;
            within = omega (arith, length-append written bytes, size);
            reads =
                read_sequence-stored disk' (moved_row output (length written) new)
                  (written ++ bytes) appended
                ∙ ap some (
                    ap (take new.size) (drop_exact (length written) written bytes refl)
                    ∙ take_all new.size bytes (omega (arith, size)))
                ∙ sym (described same);
            pending = λ h. absurd (ground (arith, not_input, h));
          })
  ]
