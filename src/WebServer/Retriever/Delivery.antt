-- ===== src/WebServer/Retriever/Delivery.antt =====
-- The rounds for a row of the status query, which yield the slices that the archive was sent.
use nimbus_io.Prelude.{
  ℕ, zero, suc, ◌+◌, ◌≤◌, ◌<◌, ◌≡◌, refl, sym, ap, ◌∙◌, Bool, true, false, inl, inr, none, some,
  List, [], ◌∷◌, ◌++◌, ◌==◌, Bytes, length, take, arith, All, All-append, append_assoc, length-take,
}
use nimbus_io.Prelude.Dicts.{lookup, HasDistinctKeys}
use nimbus_io.WebServer.LocalDatabaseUtil.{StatusRow}
use nimbus_io.WebServer.ZfecSegmenter.{Zfec, encode, padding_size}
use nimbus_io.WebServer.ZfecSegmenter.Shares.{nth, IsSound}
use nimbus_io.WebServer.ZfecSegmenter.RoundTrip.{eight_of}
use nimbus_io.WebServer.Retriever.{
  after_replies, Request, requests_of, Wait, got, empty, Segments, Retriever, no_replies, Ended,
  replied, same_number, process_node_replies, Run, Finish, exhausted, ask, replies_of, retrieve_row,
  decode_segments, decode_all,
}
use nimbus_io.WebServer.Retriever.Waits.{answers, ends_of, IsFair}
use nimbus_io.WebServer.Retriever.Rounds.{process-replied}
use nimbus_io.WebServer.Retriever.Decoding.{
  IsKeys, picks_of, IsRightItem, answers-right, decode_segments-slice,
}

lookup-take :
    (k n : ℕ) (segments : Segments)
    → lookup same_number k segments ≡ none
    → lookup same_number k (take n segments) ≡ none
unfolding lookup
lookup-take k zero segments h = refl
lookup-take k (suc n) [] h = refl
lookup-take k (suc n) ((j, w) ∷ segments) h = ground (arith, h, lookup-take k n segments)

take-HasDistinctKeys :
    (n : ℕ) (segments : Segments)
    → HasDistinctKeys same_number segments
    → HasDistinctKeys same_number (take n segments)
take-HasDistinctKeys zero segments h = tt
take-HasDistinctKeys (suc n) [] h = tt
take-HasDistinctKeys (suc n) ((k, v) ∷ segments) (new, h) =
    (lookup-take k n segments new, take-HasDistinctKeys n segments h)

take-All :
    (P : ℕ × (Bytes × ℕ) → Type 0) (n : ℕ) (segments : Segments)
    → All P segments
    → All P (take n segments)
take-All P zero segments h = tt
take-All P (suc n) [] h = tt
take-All P (suc n) (item ∷ segments) (hi, h) = (hi, take-All P n segments h)

-- A slice and the waits of its round.
abbrev pub Round : Type 0
Round = Bytes × List Wait

abbrev pub waits_of : List Round → List Wait
waits_of [] = []
waits_of ((slice, waits) ∷ rounds) = waits ++ waits_of rounds

abbrev pub slices_of : List Round → List Bytes
slices_of [] = []
slices_of ((slice, waits) ∷ rounds) = slice ∷ slices_of rounds

abbrev pub run_of : ℕ → List Wait → List Request → List Segments → Run
run_of s waits requests yielded = record {
  sequence = s;
  waits = waits;
  requests = requests;
  yielded = yielded;
}

module _ (timeout : ℕ) where
  -- a wait that a round has left: a task of a sequence so far
  abbrev pub IsOld : ℕ → Wait → Type 0
  IsOld s (empty elapsed) = elapsed ≤ timeout
  IsOld s (got task) = task.sequence ≤ s

  fair-IsOld :
      (s : ℕ) (share : ℕ → Bytes) (m padding : ℕ) (completed : Bool) (waits : List Wait)
      → All (IsFair timeout s share m padding completed) waits
      → All (IsOld s) waits
  fair-IsOld s share m padding completed [] h = tt
  fair-IsOld s share m padding completed (empty elapsed ∷ waits) (h, fair) =
      (h, fair-IsOld s share m padding completed waits fair)
  fair-IsOld s share m padding completed (got task ∷ waits) (h, fair) = (
    elim h [ inl stale ↦ omega (arith, stale) | inr (same, right) ↦ omega (arith, same) ],
    fair-IsOld s share m padding completed waits fair,
  )

  old-IsFair :
      (s : ℕ) (share : ℕ → Bytes) (m padding : ℕ) (completed : Bool) (waits : List Wait)
      → All (IsOld s) waits
      → All (IsFair timeout (s + 1) share m padding completed) waits
  old-IsFair s share m padding completed [] h = tt
  old-IsFair s share m padding completed (empty elapsed ∷ waits) (h, old) =
      (h, old-IsFair s share m padding completed waits old)
  old-IsFair s share m padding completed (got task ∷ waits) (h, old) =
      (inl (omega (arith, h)), old-IsFair s share m padding completed waits old)

  -- What is left of the rounds before adds nothing to a round.
  old_adds_nothing :
      (s : ℕ) (old waits : List Wait)
      → All (IsOld s) old
      → (answers (s + 1) (old ++ waits) ≡ answers (s + 1) waits)
        × (ends_of (s + 1) (old ++ waits) ≡ ends_of (s + 1) waits)
  unfolding answers ends_of
  old_adds_nothing s [] waits h = (refl, refl)
  old_adds_nothing s (empty elapsed ∷ old) waits (h, rest) = old_adds_nothing s old waits rest
  old_adds_nothing s (got task ∷ old) waits (h, rest) = rw stale (old_adds_nothing s old waits rest)
    where
      stale : (task.sequence == (s + 1)) ≡ false
      stale = ground (arith, h)

module _ (r : Retriever) (timeout : ℕ) (connected : ℕ → List Bool) (zfec : Zfec) (m : ℕ)
    (keys : Segments → List ℕ) where
  -- The round of sequence `s` for a slice. The data readers return the shares of the slice that the
  -- archive sent to them, with its padding, and agree on whether it is the last one; no two of them
  -- return the same segment; eight of them return one; no more tasks end than there are data
  -- readers; and zfec can decode from the first eight.
  pub record IsRound (s : ℕ) (slice : Bytes) (completed : Bool) (waits : List Wait) : Type 0 where
    pub fair :
        All
          (IsFair timeout s
            (nth (encode zfec (eight_of m) slice))
            m
            (padding_size (eight_of m) slice)
            completed)
          waits
    pub distinct : HasDistinctKeys same_number (answers s waits)
    pub enough : 8 ≤ length (answers s waits)
    pub bounded : ends_of s waits ≤ r.reader_count
    pub usable : IsSound zfec m (picks_of (keys (take 8 (answers s waits))))
    pub some_bytes : 0 < length slice

  -- the rounds for a row, after sequence `s`
  abbrev pub AreRounds : ℕ → Round → List Round → Type 0
  AreRounds s (slice, waits) [] = IsRound (s + 1) slice true waits
  AreRounds s (slice, waits) (next ∷ rounds) =
      IsRound (s + 1) slice false waits × AreRounds (s + 1) next rounds

  module _ (eight : r.segments_needed ≡ 8) (ordered : IsKeys keys) where
    round-replied :
        (s : ℕ) (slice : Bytes) (completed : Bool) (old waits after : List Wait)
        → All (IsOld timeout s) old
        → IsRound (s + 1) slice completed waits
        → (segments : Segments) × (rest : List Wait) × (process_node_replies r timeout
              (s + 1)
              no_replies
              ((old ++ waits) ++ after)
            ≡ replied segments completed (rest ++ after))
          × All (IsOld timeout (s + 1)) rest
          × (decode_segments zfec (eight_of m) keys segments ≡ some slice)
    round-replied s slice completed old waits after past round =
        let (same_answers, same_ends) = old_adds_nothing timeout s old waits past in
        let (rest, ended, fair) =
          process-replied r timeout (s + 1) share m padding completed after no_replies
            (old ++ waits)
            (All-append (IsFair timeout (s + 1) share m padding completed) old waits
              (old-IsFair timeout s share m padding completed old past) round.fair)
            (rw (eight, same_answers, same_ends)
              (
                omega arith,
                round.distinct,
                omega (arith, round.enough),
                omega (arith, round.bounded),
                tt,
              )) in
        (
          take 8 (answers (s + 1) waits),
          rest,
          ended ∙ (λ i. replied (take (eight i) (same_answers i)) completed (rest ++ after)),
          fair-IsOld timeout (s + 1) share m padding completed rest fair,
          decode_segments-slice zfec m keys slice (take 8 (answers (s + 1) waits)) ordered
              (take-HasDistinctKeys 8 (answers (s + 1) waits) round.distinct)
              (omega (arith, length-take 8 (answers (s + 1) waits), round.enough))
              (take-All (IsRightItem share m padding) 8 (answers (s + 1) waits)
                (answers-right share m padding timeout (s + 1) completed waits round.fair))
              round.usable round.some_bytes,
        )
      where
        share : ℕ → Bytes
        share = nth (encode zfec (eight_of m) slice)

        padding : ℕ
        padding = padding_size (eight_of m) slice

    -- What a retrieval leaves that yields the slices: the sequence, the waits that are left, and what
    -- it has asked for and yielded.
    abbrev YieldsSlices : ℕ → ℕ → List Wait → List Segments → List Bytes → Finish × Run → Type 0
    YieldsSlices s count after yielded slices left =
        (s' : ℕ) × (rest : List Wait) × (requests : List Request) × (segments : List Segments)
        × (left ≡ (exhausted, run_of s' (rest ++ after) requests (yielded ++ segments)))
        × (s' ≡ s + count)
        × All (IsOld timeout s') rest
        × (decode_all zfec (eight_of m) keys segments ≡ some slices)

    -- A round of which the replies are known.
    step :
        (s : ℕ) (start : Bool) (row : StatusRow) (requests : List Request) (yielded : List Segments)
        (old waits more after : List Wait) (go_on : Run → Finish × Run) (ended : Ended)
        → process_node_replies r timeout (s + 1) no_replies ((old ++ waits) ++ (more ++ after))
          ≡ ended
        → let asked =
            ask r timeout connected start row
              (run_of s ((old ++ (waits ++ more)) ++ after) requests yielded) in
          after_replies r timeout connected go_on asked (replies_of r timeout connected asked)
          ≡ after_replies r timeout connected go_on asked ended
    step s start row requests yielded old waits more after go_on ended e =
        ap
          (after_replies r timeout connected go_on (
            ask r timeout connected start row
              (run_of s ((old ++ (waits ++ more)) ++ after) requests yielded)))
          (ap (process_node_replies r timeout (s + 1) no_replies) shift ∙ e)
      where
        shift : (old ++ (waits ++ more)) ++ after ≡ (old ++ waits) ++ (more ++ after)
        shift =
            ap (λ l. l ++ after) (sym (append_assoc old waits more))
            ∙ append_assoc (old ++ waits) more after

    pub retrieve_row-delivers :
        (fuel s : ℕ) (start : Bool) (row : StatusRow) (first : Round) (rounds : List Round)
        (old after : List Wait) (requests : List Request) (yielded : List Segments)
        → All (IsOld timeout s) old
        → AreRounds s first rounds
        → length rounds < fuel
        → YieldsSlices s (suc (length rounds)) after yielded (slices_of (first ∷ rounds)) (
            retrieve_row r timeout connected fuel start row
              (run_of s ((old ++ waits_of (first ∷ rounds)) ++ after) requests yielded))
    unfolding retrieve_row decode_all
    retrieve_row-delivers zero s start row first rounds old after requests yielded past right fuel =
        absurd (omega arith)
    retrieve_row-delivers (suc fuel) s start row (slice, waits) [] old after requests yielded past
          right enough =
        let (segments, rest, ended, left, decoded) =
          round-replied s slice true old waits after past right in
        (
          s + 1,
          rest,
          requests ++ requests_of start row 0 (connected (s + 1)),
          segments ∷ [],
          step s start row requests yielded old waits [] after
              (retrieve_row r timeout connected fuel false row)
              (replied segments true (rest ++ after)) ended,
          omega arith,
          left,
          rw decoded refl,
        )
    retrieve_row-delivers (suc fuel) s start row (slice, waits) (next ∷ rounds) old after requests
          yielded past (round, right) enough =
        let (segments, rest, ended, left, decoded) =
          round-replied s slice false old waits (waits_of (next ∷ rounds) ++ after) past round in
        let (s', rest', requests', later, ran, count, left', decoded') =
          retrieve_row-delivers fuel (s + 1) false row next rounds rest after
            (requests ++ requests_of start row 0 (connected (s + 1))) (yielded ++ segments ∷ [])
            left right (omega arith) in
        (
          s',
          rest',
          requests',
          segments ∷ later,
          step s start row requests yielded old waits (waits_of (next ∷ rounds)) after
                (retrieve_row r timeout connected fuel false row)
                (replied segments false (rest ++ (waits_of (next ∷ rounds) ++ after))) ended
              ∙ ap
                  (λ l. retrieve_row r timeout connected fuel false row (
                    run_of (s + 1) l (requests ++ requests_of start row 0 (connected (s + 1)))
                      (yielded ++ segments ∷ [])))
                  (sym (append_assoc rest (waits_of (next ∷ rounds)) after))
              ∙ ran
              ∙ ap (λ l. (exhausted, run_of s' (rest' ++ after) requests' l))
                  (append_assoc yielded (segments ∷ []) later),
          omega (arith, count),
          left',
          rw (decoded, decoded') refl,
        )
