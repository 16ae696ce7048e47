-- ===== src/Defragger/Output.antt =====
-- The files that a pass writes, and what its operations on them keep.
use nimbus_io.Prelude.{
  ℕ, ◌+◌, ◌≤◌, ◌<◌, ◌≡◌, refl, sym, ap, ◌∙◌, true, false, inl, inr, Option, none, some, List, [],
  ◌∷◌, ◌++◌, ◌==◌, Bytes, length, arith, ==-refl, Bool-cases, append-nil, length-append, All,
}
use mathlib.Core.Option.{some_inj}
use nimbus_io.Prelude.Tables.{update_where}
use nimbus_io.Prelude.Exec.{ok}
use nimbus_io.Tools.Timestamp.{Timestamp}
use nimbus_io.Tools.OutputValueFile.{empty_output, new_output, close_output_file}
use nimbus_io.Repository.{Disk, update_file, write_at_end}
use nimbus_io.Database.{SequenceRow}
use nimbus_io.DataReader.Reader.{read_sequence}
use nimbus_io.DataWriter.ValueFile.{
  OutputValueFile, Storage, write_data_for_one_sequence, least, greatest, add_id,
}
use nimbus_io.Defragger.{Reference, is_among, is_row_of, moved_row, update_sequence}
use nimbus_io.Defragger.Rows.{Extends, IsKept, extended-IsKept, move-IsKept}

abbrev pub sequence_rows : Storage → List SequenceRow
sequence_rows s = s.connection.current.segment_sequence

abbrev pub next_id : Storage → ℕ
next_id s = s.connection.value_file_id_seq

abbrev pub AreKept :
    Disk → Disk → List ℕ → List Reference → List SequenceRow → List SequenceRow → Type 0
AreKept disk_before disk ids references [] [] = Unit
AreKept disk_before disk ids references [] (new ∷ news) = ⊥
AreKept disk_before disk ids references (old ∷ olds) [] = ⊥
AreKept disk_before disk ids references (old ∷ olds) (new ∷ news) =
    IsKept disk_before disk ids references old new
    × AreKept disk_before disk ids references olds news

-- The storage during a pass, against the disk and the rows before it.
pub record IsFine (disk_before : Disk) (olds : List SequenceRow) (ids : List ℕ)
    (references : List Reference) (s : Storage) : Type 0 where
  pub kept : AreKept disk_before s.disk ids references olds (sequence_rows s)
  pub fresh : (i : ℕ) → next_id s ≤ i → s.disk i ≡ none
  pub inputs : (i : ℕ) → is_among ids i ≡ true → s.disk i ≡ disk_before i
  pub known : (i : ℕ) → is_among ids i ≡ true → i < next_id s

-- A file that is open for writing: it is none of the inputs.
pub record IsOpen (ids : List ℕ) (s : Storage) (f : OutputValueFile) : Type 0 where
  pub written : s.disk f.value_file_id ≡ some f.md5_input
  pub sized : length f.md5_input ≡ f.size
  pub below : f.value_file_id < next_id s
  pub not_input : is_among ids f.value_file_id ≡ false

extended-AreKept :
    (disk_before disk disk' : Disk) (ids : List ℕ) (references : List Reference)
    (olds news : List SequenceRow)
    → Extends disk disk'
    → AreKept disk_before disk ids references olds news
    → AreKept disk_before disk' ids references olds news
extended-AreKept disk_before disk disk' ids references [] [] e h = tt
extended-AreKept disk_before disk disk' ids references [] (new ∷ news) e h = h
extended-AreKept disk_before disk disk' ids references (old ∷ olds) [] e h = h
extended-AreKept disk_before disk disk' ids references (old ∷ olds) (new ∷ news) e (k, h) = (
  extended-IsKept disk_before disk ids references old new k disk' e,
  extended-AreKept disk_before disk disk' ids references olds news e h,
)

-- an id that no input has
above_inputs :
    (ids : List ℕ) (n : ℕ) → ((i : ℕ) → is_among ids i ≡ true → i < n) → is_among ids n ≡ false
above_inputs ids n known = elim (Bool-cases (is_among ids n)) [
  | inr other ↦ other
  | inl among ↦ absurd (omega (arith, known n among))
]

update_here : (disk : Disk) (i : ℕ) (c : Option Bytes) → update_file disk i c i ≡ c
update_here disk i c = rw (==-refl i) refl

update_there :
    (disk : Disk) (i j : ℕ) (c : Option Bytes) → (i == j) ≡ false → update_file disk i c j ≡ disk j
update_there disk i j c e = rw e refl

-- Files stay as they are, but one to which bytes are added, or which is new.
update-Extends :
    (disk : Disk) (i : ℕ) (content more : Bytes)
    → disk i ≡ some content
    → Extends disk (update_file disk i (some (content ++ more)))
update-Extends disk i content more e j there h = elim (Bool-cases (i == j)) [
  | inl same ↦
      let number : i ≡ j = ground (arith, same) in
      let content_there : content ≡ there = some_inj.0 (sym e ∙ ap disk number ∙ h) in
      (more, rw same (λ k. some (content_there k ++ more)))
  | inr other ↦ ([], update_there disk i j _ other ∙ h ∙ ap some (sym (append-nil there)))
]

new-Extends : (disk : Disk) (i : ℕ) → disk i ≡ none → Extends disk (update_file disk i (some []))
new-Extends disk i e j there h = elim (Bool-cases (i == j)) [
  | inl same ↦
      let number : i ≡ j = ground (arith, same) in
      let absent : disk j ≡ none = sym (ap disk number) ∙ e in absurd (ground (arith, absent, h))
  | inr other ↦ ([], update_there disk i j _ other ∙ h ∙ ap some (sym (append-nil there)))
]

module _ (disk_before : Disk) (olds : List SequenceRow) (ids : List ℕ) where
  -- A new file.
  pub new_output-IsFine :
      (references : List Reference) (now : Timestamp) (s : Storage)
      → IsFine disk_before olds ids references s
      → let (r, s') = new_output now s in
        (r ≡ ok (empty_output (next_id s) now))
        × IsFine disk_before olds ids references s'
        × IsOpen ids s' (empty_output (next_id s) now)
  unfolding new_output
  new_output-IsFine references now s fine = rw (fine.fresh (next_id s) (omega arith)) (
    refl,
    record {
      kept =
          extended-AreKept disk_before s.disk (update_file s.disk (next_id s) (some [])) ids
            references olds (sequence_rows s)
            (new-Extends s.disk (next_id s) (fine.fresh (next_id s) (omega arith))) fine.kept;
      fresh = λ i h.
          update_there s.disk (next_id s) i (some []) (ground (arith, h))
          ∙ fine.fresh i (omega (arith, h));
      inputs = λ i h.
          update_there s.disk (next_id s) i (some []) (ground (arith, fine.known i h))
          ∙ fine.inputs i h;
      known = λ i h. omega (arith, fine.known i h);
    },
    record {
      written = update_here s.disk (next_id s) (some []);
      sized = refl;
      below = omega arith;
      not_input = above_inputs ids (next_id s) fine.known;
    },
  )

  pub close_output-IsFine :
      (references : List Reference) (md5 : Bytes → Bytes) (now : Timestamp) (f : OutputValueFile)
      (s : Storage)
      → IsFine disk_before olds ids references s
      → IsFine disk_before olds ids references (close_output_file md5 now f s).1
  unfolding close_output_file
  close_output-IsFine references md5 now f s fine = record {
    kept = fine.kept;
    fresh = fine.fresh;
    inputs = fine.inputs;
    known = fine.known;
  }

-- the file after a write
abbrev pub grown : OutputValueFile → ℕ → ℕ → Bytes → OutputValueFile
grown f collection_id segment_id bytes = record f {
  size = f.size + length bytes;
  md5_input = f.md5_input ++ bytes;
  segment_sequence_count = f.segment_sequence_count + 1;
  min_segment_id = some (least f.min_segment_id segment_id);
  max_segment_id = some (greatest f.max_segment_id segment_id);
  collection_ids = add_id collection_id f.collection_ids;
}

abbrev pub with_content : Storage → ℕ → Bytes → Storage
with_content s id content = record s { disk = update_file s.disk id (some content) }

pub write-appends :
    (ids : List ℕ) (s : Storage) (f : OutputValueFile) (collection_id segment_id : ℕ)
    (bytes : Bytes)
    → IsOpen ids s f
    → write_data_for_one_sequence f collection_id segment_id bytes s ≡ (
      ok (grown f collection_id segment_id bytes),
      with_content s f.value_file_id (f.md5_input ++ bytes),
    )
unfolding write_data_for_one_sequence
write-appends ids s f collection_id segment_id bytes opened =
    rw (opened.written, write_at_end f.size bytes f.md5_input opened.sized) refl

module _ (disk_before : Disk) (ids : List ℕ) (reference : Reference) (references : List Reference)
    (bytes : Bytes) where
  move-AreKept :
      (disk disk' : Disk) (output : ℕ) (written : Bytes) (olds news : List SequenceRow)
      → Extends disk disk'
      → disk' output ≡ some (written ++ bytes)
      → is_among ids output ≡ false
      → All (λ q. is_row_of reference q ≡ true → read_sequence disk_before q ≡ some bytes) olds
      → AreKept disk_before disk ids (reference ∷ references) olds news
      → AreKept disk_before disk' ids references olds
          (update_where (is_row_of reference) (moved_row output (length written)) news)
  unfolding update_where
  move-AreKept disk disk' output written [] [] e there other described h = tt
  move-AreKept disk disk' output written [] (new ∷ news) e there other described h = h
  move-AreKept disk disk' output written (old ∷ olds) [] e there other described h = h
  move-AreKept disk disk' output written (old ∷ olds) (new ∷ news) e there other (described, rest)
        (k, h) =
      (
        move-IsKept disk_before disk disk' ids reference references output written bytes e there
            other old new described k,
        move-AreKept disk disk' output written olds news e there other rest h,
      )

  -- The write of what a reference reads, and the update of its row.
  pub moved-IsFine :
      (olds : List SequenceRow) (s : Storage) (f : OutputValueFile)
      → IsOpen ids s f
      → All (λ q. is_row_of reference q ≡ true → read_sequence disk_before q ≡ some bytes) olds
      → IsFine disk_before olds ids (reference ∷ references) s
      → let s' =
          update_sequence reference f.value_file_id f.size
            (with_content s f.value_file_id (f.md5_input ++ bytes)) in
        IsFine disk_before olds ids references s'
        × IsOpen ids s' (grown f reference.collection_id reference.segment_id bytes)
  moved-IsFine olds s f opened described fine = (
    record {
      kept = rw (sym (opened.sized)) (
          move-AreKept s.disk (update_file s.disk f.value_file_id (some (f.md5_input ++ bytes)))
            f.value_file_id f.md5_input olds (sequence_rows s)
            (update-Extends s.disk f.value_file_id f.md5_input bytes opened.written)
            (update_here s.disk f.value_file_id (some (f.md5_input ++ bytes))) opened.not_input
            described fine.kept);
      fresh = λ i h.
          update_there s.disk f.value_file_id i _ (ground (arith, h, opened.below))
          ∙ fine.fresh i h;
      inputs = λ i h. update_there s.disk f.value_file_id i _ (other i h) ∙ fine.inputs i h;
      known = fine.known;
    },
    record {
      written = update_here s.disk f.value_file_id (some (f.md5_input ++ bytes));
      sized = length-append f.md5_input bytes ∙ ap (λ n. n + length bytes) opened.sized;
      below = opened.below;
      not_input = opened.not_input;
    },
  )
    where
      other : (i : ℕ) → is_among ids i ≡ true → (f.value_file_id == i) ≡ false
      other i h = elim (Bool-cases (f.value_file_id == i)) [
        | inr apart ↦ apart
        | inl equal ↦
            let same : f.value_file_id ≡ i = ground (arith, equal) in
            let among : is_among ids i ≡ false = sym (ap (is_among ids) same) ∙ opened.not_input in
            absurd (ground (arith, among, h))
      ]
