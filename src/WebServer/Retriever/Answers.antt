-- ===== src/WebServer/Retriever/Answers.antt =====
-- What a request is answered: the rounds of all the rows.
use nimbus_io.Prelude.{
  ℕ, suc, ◌+◌, ◌≤◌, ◌<◌, ◌≡◌, refl, sym, ap, ◌∙◌, subst, Bool, true, inl, inr, Option, none, some,
  List, [], ◌∷◌, ◌++◌, ◌==◌, Bytes, length, arith, Bool-cases, Option-cases, All, append_assoc,
  append-nil, length-append,
}
use mathlib.Core.Option.{some_inj}
use nimbus_io.WebServer.LocalDatabaseUtil.{StatusRow}
use nimbus_io.WebServer.Pieces.{concat}
use nimbus_io.WebServer.ZfecSegmenter.{Zfec}
use nimbus_io.WebServer.ZfecSegmenter.RoundTrip.{eight_of}
use nimbus_io.WebServer.Retriever.{
  Request, Wait, got, empty, Segments, Retriever, Run, exhausted, is_available,
  process_finished_task, retrieve_row, then_rows, retrieve_rows, retrieve, decode_segments,
  decode_all, delivered, answer_of,
}
use nimbus_io.WebServer.Retriever.Waits.{answers}
use nimbus_io.WebServer.Retriever.Decoding.{IsKeys}
use nimbus_io.WebServer.Retriever.Delivery.{
  Round, waits_of, slices_of, run_of, IsOld, AreRounds, retrieve_row-delivers,
}

-- A row of the status query and the rounds for it, the first one apart.
abbrev pub Part : Type 0
Part = StatusRow × Round × List Round

abbrev pub rows_of : List Part → List StatusRow
rows_of [] = []
rows_of ((row, first, rounds) ∷ parts) = row ∷ rows_of parts

abbrev pub part_waits : List Part → List Wait
part_waits [] = []
part_waits ((row, first, rounds) ∷ parts) = waits_of (first ∷ rounds) ++ part_waits parts

abbrev pub part_slices : List Part → List Bytes
part_slices [] = []
part_slices ((row, first, rounds) ∷ parts) = slices_of (first ∷ rounds) ++ part_slices parts

length-answers_le : (s : ℕ) (waits : List Wait) → length (answers s waits) ≤ length waits
unfolding answers
length-answers_le s [] = omega arith
length-answers_le s (empty elapsed ∷ waits) = omega (arith, length-answers_le s waits)
length-answers_le s (got task ∷ waits) =
    let rest = length-answers_le s waits in
    elim (Bool-cases (task.sequence == s)) [
      | inr other ↦ rw other (omega (arith, rest))
      | inl same ↦ elim (Option-cases (process_finished_task task)) [
        | inl e ↦ rw (same, e) (omega (arith, rest))
        | inr (v, e) ↦ rw (same, e) (omega (arith, rest))
      ]
    ]

module _ (r : Retriever) (timeout : ℕ) (connected : ℕ → List Bool) (zfec : Zfec) (m : ℕ)
    (keys : Segments → List ℕ) where
  decode_all-append :
      (a b : List Segments) (xs ys : List Bytes)
      → decode_all zfec (eight_of m) keys a ≡ some xs
      → decode_all zfec (eight_of m) keys b ≡ some ys
      → decode_all zfec (eight_of m) keys (a ++ b) ≡ some (xs ++ ys)
  unfolding decode_all
  decode_all-append [] b xs ys h k = k ∙ ap (λ l. some (l ++ ys)) (some_inj.0 h)
  decode_all-append (d ∷ a) b xs ys h k =
      elim (Option-cases (decode_segments zfec (eight_of m) keys d)) [
        | inl e ↦ absurd (no_slices (rw e at h))
        | inr (slice, e) ↦ elim (Option-cases (decode_all zfec (eight_of m) keys a)) [
          | inl f ↦ absurd (no_slices (rw (e, f) at h))
          | inr (slices, f) ↦
              let all : some (slice ∷ slices) ≡ some xs = rw (e, f) at h in
              rw (e, decode_all-append a b slices ys f k)
                (ap (λ l. some (l ++ ys)) (some_inj.0 all))
        ]
      ]
    where
      no_slices : Path (Option (List Bytes)) none (some xs) → ⊥
      no_slices e = ground (arith, e)

  answer_of-delivered :
      (run : Run) (yielded : List Segments) (slice : Bytes) (slices : List Bytes)
      → run.yielded ≡ yielded
      → decode_all zfec (eight_of m) keys yielded ≡ some (slice ∷ slices)
      → answer_of zfec (eight_of m) keys (exhausted, run)
        ≡ delivered (slice ∷ slices) (length (concat (slice ∷ slices)))
  unfolding answer_of decode_all
  answer_of-delivered run [] slice slices e h = absurd (ground (arith, h))
  answer_of-delivered run (segments ∷ rest) slice slices e h = rw (e, answer_of, h) refl

  abbrev pub AreParts : ℕ → List Part → Type 0
  AreParts s [] = Unit
  AreParts s ((row, first, rounds) ∷ parts) =
      AreRounds r timeout connected zfec m keys s first rounds
      × AreParts (s + suc (length rounds)) parts

  rounds_take_waits :
      (s : ℕ) (first : Round) (rounds : List Round)
      → AreRounds r timeout connected zfec m keys s first rounds
      → length rounds < length (waits_of (first ∷ rounds))
  rounds_take_waits s (slice, waits) [] round =
      omega (arith, round.enough, length-answers_le (s + 1) waits, length-append waits [])
  rounds_take_waits s (slice, waits) (next ∷ rounds) (round, right) = omega (
    arith,
    round.enough,
    length-answers_le (s + 1) waits,
    length-append waits (waits_of (next ∷ rounds)),
    rounds_take_waits (s + 1) next rounds right,
  )

  module _ (eight : r.segments_needed ≡ 8) (ordered : IsKeys keys) where
    retrieve_rows-delivers :
        (fuel s : ℕ) (parts : List Part) (old : List Wait) (requests : List Request)
        (yielded : List Segments)
        → All (IsOld timeout s) old
        → AreParts s parts
        → length (part_waits parts) ≤ fuel
        → (run : Run) × (segments : List Segments) × (retrieve_rows r timeout connected fuel
              (rows_of parts)
              (run_of s (old ++ part_waits parts) requests yielded)
            ≡ (exhausted, run))
          × (run.yielded ≡ yielded ++ segments)
          × (decode_all zfec (eight_of m) keys segments ≡ some (part_slices parts))
    unfolding retrieve_rows decode_all
    retrieve_rows-delivers fuel s [] old requests yielded past right enough =
        (run_of s (old ++ []) requests yielded, [], refl, sym (append-nil yielded), refl)
    retrieve_rows-delivers fuel s ((row, first, rounds) ∷ parts) old requests yielded past
          (right, rest_right) enough =
        let long = length-append (waits_of (first ∷ rounds)) (part_waits parts) in
        let (s', rest, requests', segments, ran, count, left, decoded) =
          retrieve_row-delivers r timeout connected zfec m keys eight ordered fuel s true row first
            rounds old (part_waits parts) requests yielded past right
            (omega (arith, long, rounds_take_waits s first rounds right, enough)) in
        let (run, later, ran', same, decoded') =
          retrieve_rows-delivers fuel s' parts rest requests' (yielded ++ segments) left
            (subst (λ n. AreParts n parts) (sym count) rest_right) (omega (arith, long, enough)) in
        (
          run,
          segments ++ later,
          ap
                (λ l.
                  then_rows r timeout connected
                    (retrieve_rows r timeout connected fuel (rows_of parts))
                    (retrieve_row r timeout connected fuel true row (run_of s l requests yielded)))
                (sym (append_assoc old (waits_of (first ∷ rounds)) (part_waits parts)))
              ∙ ap
                  (then_rows r timeout connected
                    (retrieve_rows r timeout connected fuel (rows_of parts)))
                  ran
              ∙ ran',
          same ∙ append_assoc yielded segments later,
          decode_all-append segments later (slices_of (first ∷ rounds)) (part_slices parts) decoded
              decoded',
        )

    -- A retrieval that the data readers answer. If eight segments are needed, the keys of a dictionary
    -- are listed without loss, the first row of the status query is available, and in each round, for
    -- the slices of the parts in turn, the data readers give in any order, stale tasks and failures
    -- between them, eight shares or more of the slice that the archive made, agree on whether it is
    -- the last slice of its part, and zfec can decode from the first eight: the request is answered
    -- by the slices in turn, and the space accounting is told the number of their bytes.
    pub retrieve-answers :
        (row : StatusRow) (first : Round) (rounds : List Round) (parts : List Part)
        → is_available row ≡ true
        → AreParts 0 ((row, first, rounds) ∷ parts)
        → let all = (row, first, rounds) ∷ parts in
          answer_of zfec
            (eight_of m)
            keys
            (retrieve r timeout connected (rows_of all) (part_waits all))
          ≡ delivered (part_slices all) (length (concat (part_slices all)))
    unfolding retrieve answer_of
    retrieve-answers row first rounds parts available right =
        let (run, segments, ran, yielded, decoded) =
          retrieve_rows-delivers (suc (length (part_waits all))) 0 all [] [] [] tt right
            (omega arith) in
        rw available (
          ap (answer_of zfec (eight_of m) keys) ran
          ∙ answer_of-delivered run segments (first.0) (slices_of rounds ++ part_slices parts)
              yielded decoded)
      where
        all : List Part
        all = (row, first, rounds) ∷ parts
