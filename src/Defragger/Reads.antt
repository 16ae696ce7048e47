-- ===== src/Defragger/Reads.antt =====
-- A whole pass: what the rows of the sequences read before and after it.
use nimbus_io.Prelude.{
  ℕ, ◌+◌, ◌≤◌, ◌<◌, ◌≡◌, refl, sym, ap, ◌∙◌, subst, true, false, inl, inr, none, some, List, [],
  ◌∷◌, ◌==◌, if◌then◌else◌, Bytes, length, arith,
}
use nimbus_io.Prelude.Exec.{Result, ok, continue, modify}
use nimbus_io.Repository.{Disk, read_at}
use nimbus_io.Database.{SegmentRow, SequenceRow, ValueFileRow, commit}
use nimbus_io.DataReader.Reader.{read_sequence}
use nimbus_io.DataWriter.ValueFile.{Storage}
use nimbus_io.Tools.OutputValueFile.{close_output_file}
use nimbus_io.Defragger.{
  Reference, Env, Pass, is_among, is_row_of, reference_of, identify_defrag_candidates,
  query_value_file_references, new_pass, read_from, remove_inputs, are_there, ids_of, end_work,
  defrag_files, defrag_pass, end_pass, defrag,
}
use nimbus_io.Defragger.Rows.{IsKept, read_sequence-stored}
use nimbus_io.Defragger.Output.{sequence_rows, next_id, AreKept, IsFine, close_output-IsFine}
use nimbus_io.Defragger.Work.{pass_of, IsSoundReference, whole_work-IsReady}
use nimbus_io.Prelude.Members.{IsIn, All-IsIn}
use nimbus_io.Defragger.References.{any_where-query, All-query, query-AreOrdered}
use nimbus_io.Defragger.Removal.{
  AreRead, remove_inputs-gone, remove_inputs-stays, remove_inputs-rows, are_there-known,
  kept-AreRead,
}

-- A row before a pass: its value file holds the whole of it, with the md5 of its hash if it is an input,
-- and its segment has a row, of the same collection.
pub record IsSoundRow (env : Env) (disk : Disk) (segments : List SegmentRow) (ids : List ℕ)
    (q : SequenceRow) : Type 0 where
  pub content : Bytes
  pub stored : disk q.value_file_id ≡ some content
  pub within : q.value_file_offset + q.size ≤ length content
  pub whole :
      is_among ids q.value_file_id ≡ true
      → env.md5 (read_at q.value_file_offset q.size content) ≡ q.hash
  pub row : SegmentRow
  pub found : IsIn row segments
  pub id_of : row.id ≡ q.segment_id
  pub collection_of : row.collection_id ≡ q.collection_id

-- A row has its segment and its number for itself.
abbrev pub AreUnique : List SequenceRow → Type 0
AreUnique rows =
    (q x : SequenceRow)
    → IsIn q rows
    → IsIn x rows
    → q.segment_id ≡ x.segment_id
    → q.sequence_num ≡ x.sequence_num
    → q ≡ x

module _ (env : Env) (s : Storage) (ids : List ℕ)
    (sound : (q : SequenceRow)
      → IsIn q (sequence_rows s)
      → IsSoundRow env s.disk s.connection.current.segment ids q)
    (unique : AreUnique (sequence_rows s)) (fresh : (i : ℕ) → next_id s ≤ i → s.disk i ≡ none)
    (there : are_there s.disk ids ≡ true) where
  abbrev references : List Reference
  references = query_value_file_references env ids s.connection.current

  -- what a row reads
  abbrev bytes_of : (q : SequenceRow) → IsIn q (sequence_rows s) → Bytes
  bytes_of q i = read_at q.value_file_offset q.size (sound q i).content

  reads_of :
      (q : SequenceRow) (i : IsIn q (sequence_rows s))
      → read_sequence s.disk q ≡ some (bytes_of q i)
  reads_of q i = read_sequence-stored s.disk q (sound q i).content (sound q i).stored

  -- A row before the pass: its reference is found if it lies in an input file.
  row-IsKept :
      (q : SequenceRow) → IsIn q (sequence_rows s) → IsKept s.disk s.disk ids references q q
  row-IsKept q i =
      let h = sound q i in
      record {
        collection = refl;
        segment = refl;
        sequence = refl;
        size = refl;
        content = h.content;
        stored = h.stored;
        within = h.within;
        reads = refl;
        pending = λ among.
            any_where-query (λ r. is_row_of r q) env ids s.connection.current h.row q h.found i
              among h.id_of (ground (arith, h.id_of, h.collection_of));
      }

  rows-AreKept :
      (rows : List SequenceRow)
      → ((q : SequenceRow) → IsIn q rows → IsIn q (sequence_rows s))
      → AreKept s.disk s.disk ids references rows rows
  rows-AreKept [] within = tt
  rows-AreKept (q ∷ rows) within =
      (row-IsKept q (within q (inl refl)), rows-AreKept rows (λ x i. within x (inr i)))

  start-IsFine : IsFine s.disk (sequence_rows s) ids references s
  start-IsFine = record {
    kept = rows-AreKept (sequence_rows s) (λ q i. i);
    fresh = fresh;
    inputs = λ i h. refl;
    known = λ i among. are_there-known s.disk ids (next_id s) i there fresh among;
  }

  reference-IsSoundReference :
      (r : SegmentRow) (q : SequenceRow)
      → IsIn q (sequence_rows s)
      → is_among ids q.value_file_id ≡ true
      → r.id ≡ q.segment_id
      → IsSoundReference env s.disk (sequence_rows s) ids (reference_of r q)
  reference-IsSoundReference r q i among e = record {
    bytes = bytes_of q i;
    among = among;
    reads = ap (read_from (reference_of r q)) (sound q i).stored;
    whole = (sound q i).whole among;
    described =
        All-IsIn
          (λ x.
            is_row_of (reference_of r q) x ≡ true → read_sequence s.disk x ≡ some (bytes_of q i))
          (sequence_rows s)
          (λ x j h.
            ap (read_sequence s.disk) (unique x q j i (ground (arith, h, e)) (ground (arith, h)))
            ∙ reads_of q i);
  }

  abbrev Keeps : Result (Unit {0}) × Pass → Type 0
  Keeps left =
      (p : Pass) × (left ≡ (ok tt, p))
      × AreRead s.disk p.storage.disk (sequence_rows s) (sequence_rows p.storage)
      × ((i : ℕ) → is_among ids i ≡ true → p.storage.disk i ≡ none)

  files-keep_reads :
      (q : SequenceRow)
      → IsIn q (sequence_rows s)
      → is_among ids q.value_file_id ≡ true
      → Keeps (defrag_files env ids (new_pass s))
  unfolding defrag_files
  files-keep_reads q i among =
      let row = sound q i in
      let (s1, h, c, f, n, ran, fine, opened, phase) =
        whole_work-IsReady env s.disk (sequence_rows s) ids references s
          (any_where-query (λ r. true) env ids s.connection.current row.row q row.found i among
            row.id_of refl)
          (All-query (IsSoundReference env s.disk (sequence_rows s) ids) env ids
            s.connection.current reference-IsSoundReference)
          (query-AreOrdered env ids s.connection.current) start-IsFine in
      let closed = (close_output_file env.md5 env.now f s1).1 in
      let fine' = close_output-IsFine s.disk (sequence_rows s) ids [] env.md5 env.now f s1 fine in
      (
        record (pass_of s1 h c (some f) n) { storage = remove_inputs ids closed },
        rw there (
            ap
              (λ l.
                let (r, p) = continue l.0 (λ _. end_work env) l.1 in
                continue r (λ _. modify (λ p. record p { storage = remove_inputs ids p.storage }))
                  p)
              ran),
        rw (remove_inputs-rows ids closed) (
            kept-AreRead s.disk closed.disk (remove_inputs ids closed).disk ids
              (remove_inputs-stays ids closed) (sequence_rows s) (sequence_rows closed)
              (All-IsIn (λ q. (bytes : Bytes) × (read_sequence s.disk q ≡ some bytes))
                (sequence_rows s) (λ q i. (bytes_of q i, reads_of q i)))
              fine'.kept),
        λ i h. remove_inputs-gone ids closed i (inl h),
      )

-- A transaction of the defragger. If it has candidates with some bytes, their files are there, one of
-- them is referred to, no file has an id that is not given out yet, every row of a sequence has its
-- segment and number for itself and lies within its value file, with the md5 of its hash if that is
-- a candidate, and its segment has a row of the same collection: the pass succeeds and is committed; every
-- row of before has a row with its key after it, in the same place of the table, that reads the same
-- bytes; and the files of the candidates are removed.
pub defrag-keeps_reads :
    (env : Env) (s : Storage) (bytes : ℕ) (files : List ValueFileRow) (q : SequenceRow)
    → identify_defrag_candidates env s.connection.current ≡ (bytes, files)
    → 0 < bytes
    → ((x : SequenceRow)
        → IsIn x (sequence_rows s)
        → IsSoundRow env s.disk s.connection.current.segment (ids_of files) x)
    → AreUnique (sequence_rows s)
    → ((i : ℕ) → next_id s ≤ i → s.disk i ≡ none)
    → are_there s.disk (ids_of files) ≡ true
    → IsIn q (sequence_rows s)
    → is_among (ids_of files) q.value_file_id ≡ true
    → let after = (defrag env s).storage in
      AreRead s.disk after.disk (sequence_rows s) after.connection.durable.segment_sequence
      × ((i : ℕ) → is_among (ids_of files) i ≡ true → after.disk i ≡ none)
unfolding defrag_pass commit
defrag-keeps_reads env s bytes files q candidates some_bytes sound unique fresh there i among =
    let (p, ran, reads, gone) =
      files-keep_reads env s (ids_of files) sound unique fresh there q i among in
    let ran_pass : defrag_pass env (new_pass s) ≡ (ok tt, p) =
      ap
        (λ (c : ℕ × List ValueFileRow).
          if c.0 == 0 then (ok tt, new_pass s) else defrag_files env (ids_of c.1) (new_pass s))
        candidates
      ∙ rw (some_candidates) ran in
    subst
      (λ p'.
        AreRead s.disk p'.storage.disk (sequence_rows s)
          p'.storage.connection.durable.segment_sequence
        × ((i : ℕ) → is_among (ids_of files) i ≡ true → p'.storage.disk i ≡ none))
      (sym (ap (end_pass env) ran_pass)) (reads, gone)
  where
    some_candidates : (bytes == 0) ≡ false
    some_candidates = ground (arith, some_bytes)
