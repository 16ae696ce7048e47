-- ===== src/Defragger/Work.antt =====
-- The loop over the references: it raises nothing, and what the rows read stays as it was.
use nimbus_io.Prelude.{
  ℕ, ◌+◌, ◌≡◌, refl, ap, ◌∙◌, true, inl, inr, Option, none, some, List, [], ◌∷◌, ◌++◌, ◌==◌, ltb,
  Bytes, arith, Bool-cases, All, text_eq_refl,
}
use nimbus_io.Prelude.Tables.{any_where}
use nimbus_io.Prelude.Exec.{Result, ok, continue, ◌>>◌}
use nimbus_io.Tools.OutputValueFile.{empty_output, new_output, close_output_file}
use nimbus_io.Repository.{Disk}
use nimbus_io.Database.{SequenceRow}
use nimbus_io.DataReader.Reader.{read_sequence}
use nimbus_io.DataWriter.ValueFile.{OutputValueFile, Storage}
use nimbus_io.Defragger.{
  Reference, Env, Pass, new_pass, is_among, is_row_of, choose_output, ensure_room, read_input,
  move_content, written_of, update_sequence, read_from, move_sequence, run_work,
}
use nimbus_io.Defragger.Output.{
  next_id, grown, with_content, IsFine, IsOpen, new_output-IsFine, close_output-IsFine,
  write-appends, moved-IsFine,
}

-- no reference of a handoff
abbrev pub IsOwn : Reference → Type 0
IsOwn reference = reference.handoff_node_id ≡ none

-- The references of handoffs come first.
abbrev pub AreOrdered : List Reference → Type 0
AreOrdered [] = Unit
AreOrdered (reference ∷ references) =
    (reference.handoff_node_id ≡ none → All IsOwn references) × AreOrdered references

-- What is open: nothing yet, a file of a handoff node, or, when no handoff is left, one of a collection.
abbrev pub IsPhase : Option OutputValueFile → Option ℕ → Option ℕ → List Reference → Type 0
IsPhase none none none references = Unit
IsPhase (some f) (some h) none references = Unit
IsPhase (some f) none (some c) references = All IsOwn references
IsPhase none (some h) c references = ⊥
IsPhase none none (some c) references = ⊥
IsPhase (some f) none none references = ⊥
IsPhase (some f) (some h) (some c) references = ⊥

-- A reference of a row in an input file, which holds what the hash of the row tells.
pub record IsSoundReference (env : Env) (disk_before : Disk) (olds : List SequenceRow)
    (ids : List ℕ) (reference : Reference) : Type 0 where
  pub bytes : Bytes
  pub among : is_among ids reference.value_file_id ≡ true
  pub reads : read_input disk_before reference ≡ some bytes
  pub whole : env.md5 bytes ≡ reference.sequence_hash
  pub described :
      All (λ q. is_row_of reference q ≡ true → read_sequence disk_before q ≡ some bytes) olds

abbrev pub pass_of : Storage → Option ℕ → Option ℕ → Option OutputValueFile → ℕ → Pass
pass_of s h c o n = record {
  storage = s;
  prev_handoff_node_id = h;
  prev_collection_id = c;
  output_value_file = o;
  bytes_defragged = n;
}

module _ (env : Env) (disk_before : Disk) (olds : List SequenceRow) (ids : List ℕ) where
  abbrev pub Fine : List Reference → Storage → Type 0
  Fine references s = IsFine disk_before olds ids references s

  abbrev pub OpenIfAny : Storage → Option OutputValueFile → Type 0
  OpenIfAny s none = Unit
  OpenIfAny s (some f) = IsOpen ids s f

  abbrev closed : OutputValueFile → Storage → Storage
  closed f s = (close_output_file env.md5 env.now f s).1

  closed-Fine :
      (references : List Reference) (f : OutputValueFile) (s : Storage)
      → Fine references s
      → Fine references (closed f s)
  closed-Fine references f s fine =
      close_output-IsFine disk_before olds ids references env.md5 env.now f s fine

  other_file :
      (f g : OutputValueFile) (h c : Option ℕ) (references : List Reference)
      → IsPhase (some f) h c references
      → IsPhase (some g) h c references
  other_file f g none none references phase = phase
  other_file f g none (some c) references phase = phase
  other_file f g (some h) none references phase = phase
  other_file f g (some h) (some c) references phase = phase

  -- A pass that has succeeded with a file open.
  abbrev pub IsReady : List Reference → List Reference → Result (Unit {0}) × Pass → Type 0
  IsReady references later left =
      (s : Storage) × (h : Option ℕ) × (c : Option ℕ) × (f : OutputValueFile) × (n : ℕ) × (left
        ≡ (ok tt, pass_of s h c (some f) n))
      × Fine references s
      × IsOpen ids s f
      × IsPhase (some f) h c later

  -- A new file for a handoff node or for a collection.
  opened-IsReady :
      (references later : List Reference) (s : Storage) (h c : Option ℕ) (n : ℕ)
      → Fine references s
      → IsPhase (some (empty_output (next_id s) env.now)) h c later
      → let (r, s') = new_output env.now s in
        IsReady references later (ok tt, pass_of s' h c (some (empty_output (next_id s) env.now)) n)
  opened-IsReady references later s h c n fine phase =
      let (r, fine', opened) = new_output-IsFine disk_before olds ids references env.now s fine in
      (
        (new_output env.now s).1,
        h,
        c,
        empty_output (next_id s) env.now,
        n,
        refl,
        fine',
        opened,
        phase,
      )

  choose-IsReady :
      (references later : List Reference) (s : Storage) (h c : Option ℕ)
      (o : Option OutputValueFile) (n : ℕ) (handoff : Option ℕ) (collection : ℕ)
      → Fine references s
      → OpenIfAny s o
      → IsPhase o h c later
      → (handoff ≡ none → All IsOwn later)
      → ((k : ℕ) → c ≡ some k → handoff ≡ none)
      → IsReady references later (choose_output env handoff collection (pass_of s h c o n))
  unfolding choose_output new_output
  choose-IsReady references later s (some h) c none n handoff collection fine opened phase own
        back =
      elim phase [ ]
  choose-IsReady references later s none (some c) none n handoff collection fine opened phase own
        back =
      elim phase [ ]
  choose-IsReady references later s none none (some f) n handoff collection fine opened phase own
        back =
      elim phase [ ]
  choose-IsReady references later s (some h) (some c) (some f) n handoff collection fine opened
        phase own back =
      elim phase [ ]
  choose-IsReady references later s none none none n (some k) collection fine opened phase own
        back =
      opened-IsReady references later s (some k) none n fine tt
  choose-IsReady references later s none none none n none collection fine opened phase own back =
      opened-IsReady references later s none (some collection) n fine (own refl)
  choose-IsReady references later s (some h) none (some f) n (some k) collection fine opened phase
        own back =
      elim (Bool-cases (k == h)) [
        | inl same ↦ rw same (s, some h, none, f, n, refl, fine, opened, tt)
        | inr other ↦ rw other (
            opened-IsReady references later (closed f s) (some k) none n
              (closed-Fine references f s fine) tt)
      ]
  choose-IsReady references later s (some h) none (some f) n none collection fine opened phase own
        back =
      opened-IsReady references later (closed f s) none (some collection) n
        (closed-Fine references f s fine) (own refl)
  choose-IsReady references later s none (some c) (some f) n (some k) collection fine opened phase
        own back =
      absurd (ground (arith, back c refl))
  choose-IsReady references later s none (some c) (some f) n none collection fine opened phase own
        back =
      elim (Bool-cases (collection == c)) [
        | inl same ↦ rw same (s, none, some c, f, n, refl, fine, opened, phase)
        | inr other ↦ rw other (
            opened-IsReady references later (closed f s) none (some collection) n
              (closed-Fine references f s fine) phase)
      ]

  room-IsReady :
      (references later : List Reference) (size : ℕ) (s : Storage) (h c : Option ℕ)
      (f : OutputValueFile) (n : ℕ)
      → Fine references s
      → IsOpen ids s f
      → IsPhase (some f) h c later
      → IsReady references later (ensure_room env size (pass_of s h c (some f) n))
  unfolding ensure_room new_output
  room-IsReady references later size s h c f n fine opened phase =
      elim (Bool-cases (ltb env.max_value_file_size (f.size + size))) [
        | inr fits ↦ rw fits (s, h, c, f, n, refl, fine, opened, phase)
        | inl full ↦ rw full (
            opened-IsReady references later (closed f s) h c n (closed-Fine references f s fine)
              (other_file f (empty_output (next_id (closed f s)) env.now) h c later phase))
      ]

  move-IsReady :
      (reference : Reference) (references later : List Reference) (s : Storage) (h c : Option ℕ)
      (f : OutputValueFile) (n : ℕ)
      → IsSoundReference env disk_before olds ids reference
      → Fine (reference ∷ references) s
      → IsOpen ids s f
      → IsPhase (some f) h c later
      → IsReady references later (move_sequence env reference (pass_of s h c (some f) n))
  unfolding move_sequence
  move-IsReady reference references later s h c f n sound fine opened phase =
      let (fine', opened') =
        moved-IsFine disk_before ids reference references sound.bytes olds s f opened
          sound.described fine in
      (
        moved,
        h,
        c,
        grown f reference.collection_id reference.segment_id sound.bytes,
        n + reference.sequence_size,
        ap (λ o. move_content env reference o (some f) start)
              (ap (read_from reference) (fine.inputs reference.value_file_id sound.among)
                ∙ sound.reads)
            ∙ rw (sound.whole, text_eq_refl reference.sequence_hash)
                (ap (λ l. written_of reference f l start)
                  (write-appends ids s f reference.collection_id reference.segment_id sound.bytes
                    opened)),
        fine',
        opened',
        other_file f (grown f reference.collection_id reference.segment_id sound.bytes) h c later
            phase,
      )
    where
      start : Pass
      start = pass_of s h c (some f) n

      moved : Storage
      moved =
          update_sequence reference f.value_file_id f.size
            (with_content s f.value_file_id (f.md5_input ++ sound.bytes))

  -- A round of the loop.
  step-IsReady :
      (reference : Reference) (references : List Reference) (s : Storage) (h c : Option ℕ)
      (o : Option OutputValueFile) (n : ℕ)
      → IsSoundReference env disk_before olds ids reference
      → Fine (reference ∷ references) s
      → OpenIfAny s o
      → IsPhase o h c (reference ∷ references)
      → AreOrdered (reference ∷ references)
      → IsReady references references (
          (choose_output env reference.handoff_node_id reference.collection_id
              >> ensure_room env reference.sequence_size
              >> move_sequence env reference)
            (pass_of s h c o n))
  step-IsReady reference references s h c o n sound fine opened phase ordered =
      let (s1, h1, c1, f1, n1, ran1, fine1, opened1, phase1) =
        choose-IsReady (reference ∷ references) references s h c o n reference.handoff_node_id
          reference.collection_id fine opened (later_phase o h c phase) ordered.0
          (own_collection o h c phase) in
      let (s2, h2, c2, f2, n2, ran2, fine2, opened2, phase2) =
        room-IsReady (reference ∷ references) references reference.sequence_size s1 h1 c1 f1 n1
          fine1 opened1 phase1 in
      let (s3, h3, c3, f3, n3, ran3, fine3, opened3, phase3) =
        move-IsReady reference references references s2 h2 c2 f2 n2 sound fine2 opened2 phase2 in
      (
        s3,
        h3,
        c3,
        f3,
        n3,
        ap
              (λ l.
                let (r, p) = continue l.0 (λ _. ensure_room env reference.sequence_size) l.1 in
                continue r (λ _. move_sequence env reference) p)
              ran1
            ∙ ap (λ l. continue l.0 (λ _. move_sequence env reference) l.1) ran2
            ∙ ran3,
        fine3,
        opened3,
        phase3,
      )
    where
      later_phase :
          (o : Option OutputValueFile) (h c : Option ℕ)
          → IsPhase o h c (reference ∷ references)
          → IsPhase o h c references
      later_phase none none none phase = tt
      later_phase (some f) (some h) none phase = tt
      later_phase (some f) none (some c) phase = phase.1
      later_phase none (some h) c phase = elim phase [ ]
      later_phase none none (some c) phase = elim phase [ ]
      later_phase (some f) none none phase = elim phase [ ]
      later_phase (some f) (some h) (some c) phase = elim phase [ ]

      own_collection :
          (o : Option OutputValueFile) (h c : Option ℕ)
          → IsPhase o h c (reference ∷ references)
          → (k : ℕ) → c ≡ some k
          → reference.handoff_node_id ≡ none
      own_collection o h none phase k e = absurd (ground (arith, e))
      own_collection (some f) none (some c) phase k e = phase.0
      own_collection none (some h) (some c) phase k e = elim phase [ ]
      own_collection none none (some c) phase k e = elim phase [ ]
      own_collection (some f) (some h) (some c) phase k e = elim phase [ ]

  run_work-IsReady :
      (references : List Reference) (s : Storage) (h c : Option ℕ) (f : OutputValueFile) (n : ℕ)
      → All (IsSoundReference env disk_before olds ids) references
      → Fine references s
      → IsOpen ids s f
      → IsPhase (some f) h c references
      → AreOrdered references
      → IsReady [] [] (run_work env references (pass_of s h c (some f) n))
  unfolding run_work
  run_work-IsReady [] s h c f n sound fine opened phase ordered =
      (s, h, c, f, n, refl, fine, opened, phase)
  run_work-IsReady (reference ∷ references) s h c f n (sound, rest) fine opened phase ordered =
      let (s1, h1, c1, f1, n1, ran1, fine1, opened1, phase1) =
        step-IsReady reference references s h c (some f) n sound fine opened phase ordered in
      let (s2, h2, c2, f2, n2, ran2, fine2, opened2, phase2) =
        run_work-IsReady references s1 h1 c1 f1 n1 rest fine1 opened1 phase1 ordered.1 in
      (
        s2,
        h2,
        c2,
        f2,
        n2,
        ap (λ l. continue l.0 (λ _. run_work env references) l.1) ran1 ∙ ran2,
        fine2,
        opened2,
        phase2,
      )

  -- The whole loop, which opens a file if there is a reference.
  pub whole_work-IsReady :
      (references : List Reference) (s : Storage)
      → any_where (λ r. true) references ≡ true
      → All (IsSoundReference env disk_before olds ids) references
      → AreOrdered references
      → Fine references s
      → IsReady [] [] (run_work env references (new_pass s))
  unfolding run_work any_where
  whole_work-IsReady [] s some_reference sound ordered fine =
      absurd (ground (arith, some_reference))
  whole_work-IsReady (reference ∷ references) s some_reference (sound, rest) ordered fine =
      let (s1, h1, c1, f1, n1, ran1, fine1, opened1, phase1) =
        step-IsReady reference references s none none none 0 sound fine tt tt ordered in
      let (s2, h2, c2, f2, n2, ran2, fine2, opened2, phase2) =
        run_work-IsReady references s1 h1 c1 f1 n1 rest fine1 opened1 phase1 ordered.1 in
      (
        s2,
        h2,
        c2,
        f2,
        n2,
        ap (λ l. continue l.0 (λ _. run_work env references) l.1) ran1 ∙ ran2,
        fine2,
        opened2,
        phase2,
      )
