-- ===== src/WebServer/Retriever/Decoding.antt =====
-- What the loop of `app_iterator` makes of right shares.
use nimbus_io.Prelude.{
  ℕ, suc, ◌-◌, ◌≤◌, ◌<◌, ◌≡◌, refl, sym, ap, ◌∙◌, subst, Bool, true, false, inl, inr, Option, none,
  some, List, [], ◌∷◌, ◌==◌, Bytes, length, map, arith, Bool-cases, All,
}
use mathlib.Core.Option.{some_inj}
use nimbus_io.Prelude.Dicts.{lookup, HasDistinctKeys}
use nimbus_io.WebServer.ZfecSegmenter.{Zfec, encode, decode, padding_size}
use nimbus_io.WebServer.ZfecSegmenter.Shares.{nth, IsSound, map-map}
use nimbus_io.WebServer.ZfecSegmenter.RoundTrip.{eight_of, decode-encode}
use nimbus_io.WebServer.Retriever.{
  Wait, got, empty, Segments, same_number, join_segment, process_finished_task, encoded_segments,
  decode_segments,
}
use nimbus_io.WebServer.Retriever.Waits.{answers, add_answer, IsRight, IsFair}

-- What is asked of the order of the keys of a dictionary: it lists as many keys as there are items,
-- all of them keys of the dictionary.
abbrev pub IsKeys : (Segments → List ℕ) → Type 0
IsKeys keys =
    (segments : Segments)
    → HasDistinctKeys same_number segments
    → (length (keys segments) ≡ length segments)
      × All (λ n. (v : Bytes × ℕ) × (lookup same_number n segments ≡ some v)) (keys segments)

-- the segment numbers as zfec counts them
abbrev pub picks_of : List ℕ → List ℕ
picks_of numbers = map (λ n. n - 1) numbers

module _ (share : ℕ → Bytes) (m padding : ℕ) where
  abbrev pub IsRightItem : ℕ × (Bytes × ℕ) → Type 0
  IsRightItem (n, (content, p)) = (0 < n) × (n ≤ m) × (content ≡ share (n - 1)) × (p ≡ padding)

  lookup-right :
      (n : ℕ) (v : Bytes × ℕ) (segments : Segments)
      → All IsRightItem segments
      → lookup same_number n segments ≡ some v
      → IsRightItem (n, v)
  unfolding lookup
  lookup-right n v [] h e = absurd (ground (arith, e))
  lookup-right n v ((k, w) ∷ segments) (hw, h) found = elim (Bool-cases (k == n)) [
    | inl e ↦
        let value : some w ≡ some v = rw e at found in
        subst IsRightItem (λ i. (number e i, some_inj.0 value i)) hw
    | inr e ↦ lookup-right n v segments h (rw e at found)
  ]
    where
      number : (k == n) ≡ true → k ≡ n
      number e = ground (arith, e)

  -- the padding of the last of the segments, if there is one
  abbrev pub joined : List ℕ → Option (List Bytes × ℕ)
  joined [] = some ([], 0)
  joined (n ∷ numbers) = some (map (λ n. share (n - 1)) (n ∷ numbers), padding)

  encoded_segments-joined :
      (segments : Segments) (numbers : List ℕ)
      → All IsRightItem segments
      → All (λ n. (v : Bytes × ℕ) × (lookup same_number n segments ≡ some v)) numbers
      → encoded_segments segments numbers ≡ joined numbers
  unfolding encoded_segments
  encoded_segments-joined segments [] right found = refl
  encoded_segments-joined segments (n ∷ []) right (((content, p), e), found) =
      let (low, high, here, padded) = lookup-right n (content, p) segments right e in
      rw e (λ i. some (here i ∷ [], padded i))
  encoded_segments-joined segments (n ∷ next ∷ numbers) right (((content, p), e), found) =
      let (low, high, here, padded) = lookup-right n (content, p) segments right e in
      ap (λ o. join_segment o (encoded_segments segments (next ∷ numbers))) e
      ∙ ap (λ o. join_segment (some (content, p)) o)
          (encoded_segments-joined segments (next ∷ numbers) right found)
      ∙ ap (λ c. some (c ∷ map (λ n. share (n - 1)) (next ∷ numbers), padding)) here

  add_answer-right :
      (completed : Bool) (n : ℕ) (value : Option (Bytes × ℕ × Bool)) (rest : Segments)
      → IsRight share m padding completed n value
      → All IsRightItem rest
      → All IsRightItem (add_answer n value rest)
  add_answer-right completed n none rest right h = h
  add_answer-right completed n (some (content, p, c)) rest (low, high, here, padded, flag) h =
      ((low, high, here, padded), h)

  -- The answers of a fair round are right.
  pub answers-right :
      (timeout s : ℕ) (completed : Bool) (waits : List Wait)
      → All (IsFair timeout s share m padding completed) waits
      → All IsRightItem (answers s waits)
  unfolding answers
  answers-right timeout s completed [] h = tt
  answers-right timeout s completed (empty elapsed ∷ waits) (h, fair) =
      answers-right timeout s completed waits fair
  answers-right timeout s completed (got task ∷ waits) (h, fair) =
      let rest = answers-right timeout s completed waits fair in
      elim h [
        | inl stale ↦ rw (other stale) rest
        | inr (same, right) ↦ rw (current same) (
            add_answer-right completed task.segment_number (process_finished_task task)
              (answers s waits) right rest)
      ]
    where
      current : task.sequence ≡ s → (task.sequence == s) ≡ true
      current same = ground (arith, same)

      other : task.sequence < s → (task.sequence == s) ≡ false
      other stale = ground (arith, stale)

suc_picks :
    (m : ℕ) (numbers : List ℕ)
    → All (λ n. (0 < n) × (n ≤ m)) numbers
    → map suc (picks_of numbers) ≡ numbers
suc_picks m [] h = refl
suc_picks m (n ∷ numbers) ((low, high), h) = λ i. same i ∷ suc_picks m numbers h i
  where
    same : suc (n - 1) ≡ n
    same = omega (arith, low)

picks_below :
    (m : ℕ) (numbers : List ℕ)
    → All (λ n. (0 < n) × (n ≤ m)) numbers
    → All (λ i. i < m) (picks_of numbers)
picks_below m [] h = tt
picks_below m (n ∷ numbers) ((low, high), h) = (omega (arith, low, high), picks_below m numbers h)

-- Right segments of a slice, as many as zfec can decode, are decoded to the slice.
pub decode_segments-slice :
    (zfec : Zfec) (m : ℕ) (keys : Segments → List ℕ) (slice : Bytes) (segments : Segments)
    → IsKeys keys
    → HasDistinctKeys same_number segments
    → 0 < length segments
    → All
        (IsRightItem (nth (encode zfec (eight_of m) slice)) m (padding_size (eight_of m) slice))
        segments
    → IsSound zfec m (picks_of (keys segments))
    → 0 < length slice
    → decode_segments zfec (eight_of m) keys segments ≡ some slice
unfolding decode_segments
decode_segments-slice zfec m keys slice segments ordered distinct several right sound some_bytes =
    decoded (keys segments) (ordered segments distinct).0 (ordered segments distinct).1 sound
  where
    share : ℕ → Bytes
    share = nth (encode zfec (eight_of m) slice)

    in_range :
        (numbers : List ℕ)
        → All (λ n. (v : Bytes × ℕ) × (lookup same_number n segments ≡ some v)) numbers
        → All (λ n. (0 < n) × (n ≤ m)) numbers
    in_range [] h = tt
    in_range (n ∷ numbers) ((v, e), h) =
        let (low, high, here, padded) =
          lookup-right share m (padding_size (eight_of m) slice) n v segments right e in
        ((low, high), in_range numbers h)

    decoded :
        (numbers : List ℕ)
        → length numbers ≡ length segments
        → All (λ n. (v : Bytes × ℕ) × (lookup same_number n segments ≡ some v)) numbers
        → IsSound zfec m (picks_of numbers)
        → (elim (encoded_segments segments numbers) as (λ _. Option Bytes) [
          | none ↦ none
          | some (contents, padding) ↦ decode zfec (eight_of m) contents numbers padding
        ])
          ≡ some slice
    decoded [] size found sound = absurd (omega arith)
    decoded (n ∷ numbers) size found sound =
        let low = in_range (n ∷ numbers) found in
        rw
          (encoded_segments-joined share m (padding_size (eight_of m) slice) segments (n ∷ numbers)
            right found)
          ((λ i.
              decode zfec (eight_of m) (sym (map-map (λ n. n - 1) share (n ∷ numbers)) i)
                (sym (suc_picks m (n ∷ numbers) low) i) (padding_size (eight_of m) slice))
            ∙ decode-encode zfec m (n - 1) (picks_of numbers) sound
                (picks_below m (n ∷ numbers) low) slice some_bytes)
