-- ===== src/Tests/Retriever.antt =====
-- Concrete runs of WebServer/Retriever, with the code of the tests of the segmenter.
use nimbus_io.Prelude.{
  ℕ, suc, ◌-◌, ◌≡◌, refl, ap, ◌∙◌, true, false, inl, inr, Bool, none, some, List, [], ◌∷◌, ◌==◌,
  leb, if◌then◌else◌, Bytes, length, arith, ==-refl, All, Bool-cases,
}
use nimbus_io.Prelude.Dicts.{lookup}
use nimbus_io.Database.{final}
use nimbus_io.WebServer.LocalDatabaseUtil.{StatusRow}
use nimbus_io.WebServer.ZfecSegmenter.{encode, padding_size}
use nimbus_io.WebServer.ZfecSegmenter.Shares.{nth}
use nimbus_io.WebServer.ZfecSegmenter.RoundTrip.{eight_of}
use nimbus_io.WebServer.Retriever.{
  returned, Wait, got, empty, Segments, Retriever, same_number, retrieve, delivered, answer_of,
}
use nimbus_io.WebServer.Retriever.Decoding.{IsKeys}
use nimbus_io.WebServer.Retriever.Delivery.{IsRound}
use nimbus_io.WebServer.Retriever.Waits.{answers, ends_of}
use nimbus_io.WebServer.Retriever.Answers.{Part, retrieve-answers, rows_of, part_waits}
use nimbus_io.Tests.ZfecSegmenter.{striped, striped-IsSound, sample}
use nimbus_io.Tests.DataWriter.{now}

abbrev insert : ℕ → List ℕ → List ℕ
insert n [] = n ∷ []
insert n (k ∷ numbers) =
    let rest = insert n numbers in if leb n k then n ∷ k ∷ numbers else k ∷ rest

-- the keys of a dictionary in their order
abbrev sorted_keys : Segments → List ℕ
sorted_keys [] = []
sorted_keys ((n, v) ∷ segments) = insert n (sorted_keys segments)

length-insert : (n : ℕ) (numbers : List ℕ) → length (insert n numbers) ≡ suc (length numbers)
length-insert n [] = refl
length-insert n (k ∷ numbers) = elim (Bool-cases (leb n k)) [
  | inl e ↦ rw e refl
  | inr e ↦ rw e (ap suc (length-insert n numbers))
]

All-insert :
    (P : ℕ → Type 0) (n : ℕ) (numbers : List ℕ) → P n → All P numbers → All P (insert n numbers)
All-insert P n [] h all = (h, tt)
All-insert P n (k ∷ numbers) h (hk, all) = elim (Bool-cases (leb n k)) [
  | inl e ↦ rw e (h, (hk, all))
  | inr e ↦ rw e (hk, All-insert P n numbers h all)
]

abbrev IsFound : Segments → ℕ → Type 0
IsFound segments n = (v : Bytes × ℕ) × (lookup same_number n segments ≡ some v)

IsFound-later :
    (n : ℕ) (v : Bytes × ℕ) (segments : Segments) (numbers : List ℕ)
    → All (IsFound segments) numbers
    → All (IsFound ((n, v) ∷ segments)) numbers
unfolding lookup
IsFound-later n v segments [] h = tt
IsFound-later n v segments (k ∷ numbers) ((w, e), h) = elim (Bool-cases (n == k)) [
  | inl same ↦ ((v, rw same refl), IsFound-later n v segments numbers h)
  | inr other ↦ ((w, rw other e), IsFound-later n v segments numbers h)
]

sorted_keys-IsKeys : IsKeys sorted_keys
unfolding lookup
sorted_keys-IsKeys [] h = (refl, tt)
sorted_keys-IsKeys ((n, v) ∷ segments) (new, h) =
    let (size, found) = sorted_keys-IsKeys segments h in
    (
      length-insert n (sorted_keys segments) ∙ ap suc size,
      All-insert (IsFound ((n, v) ∷ segments)) n (sorted_keys segments) (v, rw (same n) refl)
          (IsFound-later n v segments (sorted_keys segments) found),
    )
  where
    same : (k : ℕ) → (k == k) ≡ true
    same k = ground arith

abbrev row : StatusRow
row = record {
  con_create_timestamp = none;
  con_complete_timestamp = none;
  seg_id = 1;
  seg_status = final;
  seg_unified_id = 7;
  seg_conjoined_part = 0;
  seg_timestamp = now;
  seg_file_size = 9;
  seg_file_hash = none;
}

-- The task for a segment of the sample succeeds.
abbrev success_of : ℕ → ℕ → Bool → Wait
success_of sequence n completed = got (record {
  sequence = sequence;
  segment_number = n;
  outcome = returned (
      some (
        nth (encode striped (eight_of 10) sample) (n - 1),
        padding_size (eight_of 10) sample,
        completed,
      ));
})

abbrev failure_of : ℕ → ℕ → Wait
failure_of sequence n =
    got (record { sequence = sequence; segment_number = n; outcome = returned none })

abbrev waits : ℕ → Bool → List Wait
waits s c =
    failure_of s 9
    ∷ success_of s 3 c
    ∷ success_of s 1 c
    ∷ empty 60
    ∷ success_of s 2 c
    ∷ success_of s 8 c
    ∷ success_of s 7 c
    ∷ success_of s 4 c
    ∷ success_of s 5 c
    ∷ success_of s 6 c
    ∷ failure_of s 10
    ∷ []

abbrev retriever : Retriever
retriever = record { reader_count = 11; segments_needed = 8 }

waits-IsRound :
    (s : ℕ) (completed : Bool)
    → IsRound retriever 100 (λ _. []) striped 10 sorted_keys s sample completed (waits s completed)
unfolding answers ends_of lookup
waits-IsRound s completed = record {
  fair = (
    inr (refl, tt),
    (
      inr (refl, (omega arith, omega arith, refl, refl, refl)),
      (
        inr (refl, (omega arith, omega arith, refl, refl, refl)),
        (
          omega arith,
          (
            inr (refl, (omega arith, omega arith, refl, refl, refl)),
            (
              inr (refl, (omega arith, omega arith, refl, refl, refl)),
              (
                inr (refl, (omega arith, omega arith, refl, refl, refl)),
                (
                  inr (refl, (omega arith, omega arith, refl, refl, refl)),
                  (
                    inr (refl, (omega arith, omega arith, refl, refl, refl)),
                    (
                      inr (refl, (omega arith, omega arith, refl, refl, refl)),
                      (inr (refl, tt), tt),
                    ),
                  ),
                ),
              ),
            ),
          ),
        ),
      ),
    ),
  );
  distinct = rw (==-refl s) (refl, (refl, (refl, (refl, (refl, (refl, (refl, (refl, tt))))))));
  enough = rw (==-refl s) (omega arith);
  bounded = rw (==-refl s) (omega arith);
  usable = rw (==-refl s) striped-IsSound;
  some_bytes = omega arith;
}

abbrev parts : List Part
parts = (row, (sample, waits 1 false), (sample, waits 2 true) ∷ []) ∷ []

-- Two slices, the tasks of which end out of order: two of ten fail, and a wait is empty.
retrieve-answers_example :
    answer_of striped
      (eight_of 10)
      sorted_keys
      (retrieve retriever 100 (λ _. []) (rows_of parts) (part_waits parts))
    ≡ delivered (sample ∷ sample ∷ []) 18
retrieve-answers_example =
    retrieve-answers retriever 100 (λ _. []) striped 10 sorted_keys refl sorted_keys-IsKeys row
      (sample, waits 1 false) ((sample, waits 2 true) ∷ []) [] refl
      ((waits-IsRound 1 false, waits-IsRound 2 true), tt)
