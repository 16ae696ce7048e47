-- ===== src/Tests/Defragger.antt =====
-- A pass of the defragger over one value file with sequences of two segments.
use nimbus_io.Prelude.{
  ℕ, ◌≤◌, ◌≡◌, refl, sym, ap, ◌∙◌, subst, true, false, Option, none, some, List, [], ◌∷◌, codes,
  arith, ◌==◌, if◌then◌else◌, length, inl, inr,
}
use nimbus_io.Prelude.Tables.{any_where, select_where, insert_by, order_by}
use nimbus_io.Database.{final, pos, SegmentRow, SequenceRow, ValueFileRow, Tables}
use nimbus_io.Repository.{Disk}
use nimbus_io.DataWriter.ValueFile.{Storage}
use nimbus_io.Defragger.{
  Env, is_among, gather, query_value_file_candidate_rows, identify_defrag_candidates, are_there,
  defrag,
}
use nimbus_io.Prelude.Members.{IsIn}
use nimbus_io.Defragger.Output.{sequence_rows}
use nimbus_io.Defragger.Removal.{AreRead}
use nimbus_io.Defragger.Reads.{IsSoundRow, AreUnique, defrag-keeps_reads}
use nimbus_io.Tests.DataWriter.{now}

abbrev env : Env
env = record {
  min_bytes_for_defrag_pass = 3;
  max_bytes_for_defrag_pass = 100;
  max_value_file_size = 4;
  md5 = λ content. content;
  key_before = λ a b. false;
  now = now;
}

abbrev segment : ℕ → ℕ → Option ℕ → SegmentRow
segment id collection_id handoff = record {
  id = id;
  collection_id = collection_id;
  key = codes "k";
  status = final;
  unified_id = id;
  timestamp = now;
  segment_num = 1;
  conjoined_part = 0;
  file_size = 5;
  file_adler32 = none;
  file_hash = none;
  file_tombstone_unified_id = none;
  source_node_id = 1;
  handoff_node_id = handoff;
}

abbrev own : SegmentRow
own = segment 1 5 none

abbrev handed_off : SegmentRow
handed_off = segment 2 6 (some 9)

abbrev sequence : ℕ → ℕ → ℕ → ℕ → ℕ → List ℕ → SequenceRow
sequence collection_id segment_id sequence_num value_file_id offset content = record {
  collection_id = collection_id;
  segment_id = segment_id;
  zfec_padding_size = 0;
  value_file_id = value_file_id;
  sequence_num = sequence_num;
  value_file_offset = offset;
  size = length content;
  hash = content;
  adler32 = pos 1;
}

abbrev first : SequenceRow
first = sequence 5 1 0 1 0 (10 ∷ 11 ∷ [])

abbrev handoff : SequenceRow
handoff = sequence 6 2 0 1 2 (12 ∷ 13 ∷ 14 ∷ [])

abbrev second : SequenceRow
second = sequence 5 1 1 2 0 (15 ∷ [])

abbrev mixed_file : ValueFileRow
mixed_file = record {
  id = 1;
  creation_time = now;
  close_time = some now;
  size = some 5;
  hash = none;
  segment_sequence_count = some 2;
  min_segment_id = some 1;
  max_segment_id = some 2;
  distinct_collection_count = some 2;
  collection_ids = some (5 ∷ 6 ∷ []);
}

abbrev tables : Tables
tables = record {
  segment = own ∷ handed_off ∷ [];
  segment_sequence = first ∷ handoff ∷ second ∷ [];
  value_file = mixed_file ∷ [];
  conjoined = [];
  meta = [];
}

abbrev files : Disk
files i =
    if i == 1 then some (10 ∷ 11 ∷ 12 ∷ 13 ∷ 14 ∷ []) else if i == 2 then some (15 ∷ []) else none

abbrev storage : Storage
storage = record {
  connection = record {
    current = tables;
    durable = tables;
    segment_id_seq = 3;
    value_file_id_seq = 3;
    conjoined_id_seq = 1;
  };
  disk = files;
}

sound :
    (q : SequenceRow)
    → IsIn q (sequence_rows storage)
    → IsSoundRow env files (own ∷ handed_off ∷ []) (1 ∷ []) q
sound q (inl e) = subst (IsSoundRow env files (own ∷ handed_off ∷ []) (1 ∷ [])) e (record {
  content = 10 ∷ 11 ∷ 12 ∷ 13 ∷ 14 ∷ [];
  stored = refl;
  within = omega arith;
  whole = λ h. refl;
  row = own;
  found = inl refl;
  id_of = refl;
  collection_of = refl;
})
sound q (inr (inl e)) = subst (IsSoundRow env files (own ∷ handed_off ∷ []) (1 ∷ [])) e (record {
  content = 10 ∷ 11 ∷ 12 ∷ 13 ∷ 14 ∷ [];
  stored = refl;
  within = omega arith;
  whole = λ h. refl;
  row = handed_off;
  found = inr (inl refl);
  id_of = refl;
  collection_of = refl;
})
sound q (inr (inr (inl e))) =
    subst (IsSoundRow env files (own ∷ handed_off ∷ []) (1 ∷ [])) e (record {
      content = 15 ∷ [];
      stored = refl;
      within = omega arith;
      whole = λ h. refl;
      row = own;
      found = inl refl;
      id_of = refl;
      collection_of = refl;
    })
sound q (inr (inr (inr i))) = elim i [ ]

segment_at : (q x : SequenceRow) → q ≡ x → q.segment_id ≡ x.segment_id
segment_at q x e = ap (λ r. r.segment_id) e

number_at : (q x : SequenceRow) → q ≡ x → q.sequence_num ≡ x.sequence_num
number_at q x e = ap (λ r. r.sequence_num) e

unique : AreUnique (sequence_rows storage)
unique q x (inl e) (inl f) s n = sym e ∙ f
unique q x (inr (inl e)) (inr (inl f)) s n = sym e ∙ f
unique q x (inr (inr (inl e))) (inr (inr (inl f))) s n = sym e ∙ f
unique q x (inl e) (inr (inl f)) s n =
    absurd (omega (arith, segment_at first q e, segment_at handoff x f, s))
unique q x (inl e) (inr (inr (inl f))) s n =
    absurd (omega (arith, number_at first q e, number_at second x f, n))
unique q x (inr (inl e)) (inl f) s n =
    absurd (omega (arith, segment_at handoff q e, segment_at first x f, s))
unique q x (inr (inl e)) (inr (inr (inl f))) s n =
    absurd (omega (arith, segment_at handoff q e, segment_at second x f, s))
unique q x (inr (inr (inl e))) (inl f) s n =
    absurd (omega (arith, number_at second q e, number_at first x f, n))
unique q x (inr (inr (inl e))) (inr (inl f)) s n =
    absurd (omega (arith, segment_at second q e, segment_at handoff x f, s))
unique q x (inr (inr (inr i))) j s n = elim i [ ]
unique q x i (inr (inr (inr j))) s n = elim j [ ]

fresh : (i : ℕ) → 3 ≤ i → files i ≡ none
fresh i h = ground (arith, h)

candidates : identify_defrag_candidates env tables ≡ (5, mixed_file ∷ [])
unfolding identify_defrag_candidates gather query_value_file_candidate_rows select_where order_by
    insert_by
candidates = refl

there : are_there files (1 ∷ []) ≡ true
unfolding are_there
there = refl

among : is_among (1 ∷ []) 1 ≡ true
unfolding any_where
among = refl

-- The handoff goes to one new file, the first sequence of the other segment to another; the second one
-- stays in its file.
defrag-keeps_reads_example :
    let after = (defrag env storage).storage in
    AreRead files after.disk
      (first ∷ handoff ∷ second ∷ [])
      after.connection.durable.segment_sequence
    × ((i : ℕ) → is_among (1 ∷ []) i ≡ true → after.disk i ≡ none)
defrag-keeps_reads_example =
    defrag-keeps_reads env storage 5 (mixed_file ∷ []) first candidates (omega arith) sound unique
      fresh there (inl refl) among
