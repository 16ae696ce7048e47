-- ===== src/WebServer/DataSlicer/Slices.antt =====
-- The slices of an upload are the pieces of its content.
use nimbus_io.Prelude.{
  ℕ, zero, suc, ◌<◌, ◌≡◌, refl, sym, ap, ◌∙◌, true, false, Option, none, some, [], ◌∷◌, ◌++◌, ltb,
  leb, ◌==◌, Bytes, length, take, drop, All, arith, Bool-cases, inl, inr, length-append,
  length-drop, length-take, take-append-drop, take-append_le, drop-append_le, append-nil,
  append_assoc, take_all, drop_all,
}
use nimbus_io.WebServer.Pieces.{concat, pieces, pieces_within, pieces-cons}
use nimbus_io.WebServer.DataSlicer.{
  File, read, DataSlicer, read_more, fill, next, iterate, new_slicer,
}

abbrev pub AreFilled : File → Type 0
AreFilled file = All (λ chunk. 0 < length chunk) file

-- A read takes bytes from the front of what is still to come, at least one while there is one.
read-front :
    (n : ℕ) (chunk : Bytes) (file : File)
    → 0 < n
    → 0 < length chunk
    → AreFilled file
    → let (more, file') = read n (chunk ∷ file) in
      (0 < length more) × (more ++ concat file' ≡ chunk ++ concat file) × AreFilled file'
unfolding read
read-front n chunk file pos h filled = elim (Bool-cases (leb (length chunk) n)) [
  | inl all ↦ rw all (h, refl, filled)
  | inr part ↦ rw part (
    omega (arith, length-take n chunk),
    sym (append_assoc (take n chunk) (drop n chunk) (concat file))
        ∙ ap (λ l. l ++ concat file) (take-append-drop n chunk),
    (cut part, filled),
  )
]
  where
    cut : leb (length chunk) n ≡ false → 0 < length (drop n chunk)
    cut part = ground (arith, length-drop n chunk)

pub iterate-some :
    (fuel count : ℕ) (s s' : DataSlicer) (slice : Bytes)
    → next fuel s ≡ (some slice, s')
    → iterate fuel (suc count) s ≡ slice ∷ iterate fuel count s'
unfolding iterate
iterate-some fuel count s s' slice got =
    rw (got, iterate) (ap (λ p. slice ∷ iterate fuel count p.1) got)

pub iterate-none :
    (fuel count : ℕ) (s s' : DataSlicer)
    → next fuel s ≡ (none, s')
    → iterate fuel (suc count) s ≡ []
unfolding iterate
iterate-none fuel count s s' got = rw (got, iterate) refl

module _ (size : ℕ) (positive : 0 < size) where
  abbrev slicer : File → Bytes → DataSlicer
  slicer file buf = record { file_obj = file; slice_size = size; remaining = none; buf = buf }

  -- What a round of `next` does: it takes the first piece of what is left.
  abbrev Takes : Bytes → Option Bytes × DataSlicer → Type 0
  Takes all (slice, s') =
      (file' : File) × (buf' : Bytes) × (slice ≡ some (take size all))
      × (s' ≡ slicer file' buf')
      × AreFilled file'
      × (buf' ++ concat file' ≡ drop size all)

  fill-full :
      (fuel : ℕ) (file : File) (buf : Bytes)
      → ltb (length buf) size ≡ false
      → fill (suc fuel) (slicer file buf) ≡ (some (take size buf), slicer file (drop size buf))
  unfolding fill
  fill-full fuel file buf full = rw (full, fill) refl

  fill-end :
      (fuel : ℕ) (b : ℕ) (buf : Bytes)
      → ltb (length (b ∷ buf)) size ≡ true
      → fill (suc fuel) (slicer [] (b ∷ buf)) ≡ (some (b ∷ buf), slicer [] [])
  unfolding fill read_more read
  fill-end fuel b buf short = rw (short, fill) refl

  fill-more :
      (fuel : ℕ) (file : File) (buf more : Bytes)
      → ltb (length buf) size ≡ true
      → (read size file).0 ≡ more
      → 0 < length more
      → fill (suc fuel) (slicer file buf) ≡ fill fuel (slicer (read size file).1 (buf ++ more))
  unfolding fill read_more
  fill-more fuel file buf [] short got h = absurd (omega arith)
  fill-more fuel file buf (b ∷ more) short got h = rw (short, fill, got) refl

  short_buffer :
      (fuel : ℕ)
      → ((file : File) (buf : Bytes)
          → AreFilled file
          → length (concat file) < fuel
          → 0 < length (buf ++ concat file)
          → Takes (buf ++ concat file) (fill fuel (slicer file buf)))
      → (file : File) (buf : Bytes) → AreFilled file
      → length (concat file) < suc fuel
      → 0 < length (buf ++ concat file)
      → ltb (length buf) size ≡ true
      → Takes (buf ++ concat file) (fill (suc fuel) (slicer file buf))
  short_buffer fuel go_on [] [] filled enough some_left short = absurd (omega arith)
  short_buffer fuel go_on [] (b ∷ buf) filled enough some_left short =
      rw (append-nil buf, fill-end fuel b buf short)
        (
          [],
          [],
          ap some (sym (take_all size (b ∷ buf) (ground arith))),
          refl,
          tt,
          sym (drop_all size (b ∷ buf) (ground arith)),
        )
  short_buffer fuel go_on (chunk ∷ file) buf (h, filled) enough some_left short =
      let (got, front, filled') = read-front size chunk file positive h filled in
      let more = (read size (chunk ∷ file)).0 in
      let file' = (read size (chunk ∷ file)).1 in
      rw
        (
          fill-more fuel (chunk ∷ file) buf more short refl got,
          ← front,
          ← append_assoc buf more (concat file'),
        )
        (go_on file' (buf ++ more) filled'
          (omega (arith, ap length front, enough, length-append more (concat file'), got))
          (omega (arith, length-append (buf ++ more) (concat file'), length-append buf more, got)))

  fill-Takes :
      (fuel : ℕ) (file : File) (buf : Bytes)
      → AreFilled file
      → length (concat file) < fuel
      → 0 < length (buf ++ concat file)
      → Takes (buf ++ concat file) (fill fuel (slicer file buf))
  fill-Takes zero file buf filled enough some_left = absurd (omega arith)
  fill-Takes (suc fuel) file buf filled enough some_left =
      elim (Bool-cases (ltb (length buf) size)) [
        | inr full ↦ rw (fill-full fuel file buf full) (
          file,
          drop size buf,
          ap some (sym (take-append_le size buf (concat file) (ground arith))),
          refl,
          filled,
          sym (drop-append_le size buf (concat file) (ground arith)),
        )
        | inl short ↦ short_buffer fuel (fill-Takes fuel) file buf filled enough some_left short
      ]

  fill_empty : (fuel : ℕ) → fill (suc fuel) (slicer [] []) ≡ (none, slicer [] [])
  unfolding fill read_more read
  fill_empty fuel = rw (short, fill) refl
    where
      short : ltb 0 size ≡ true
      short = ground arith

  next-fill :
      (fuel : ℕ) (file : File) (buf : Bytes)
      → next fuel (slicer file buf) ≡ fill fuel (slicer file buf)
  unfolding next
  next-fill fuel file buf = refl

  nothing_left :
      (fuel count : ℕ) (file : File) (buf : Bytes)
      → AreFilled file
      → 0 < fuel
      → length (buf ++ concat file) ≡ 0
      → iterate fuel (suc count) (slicer file buf) ≡ pieces size (buf ++ concat file)
  unfolding pieces_within
  nothing_left zero count file buf filled h nothing = absurd (omega arith)
  nothing_left (suc fuel) count [] [] filled h nothing =
      iterate-none (suc fuel) count (slicer [] []) (slicer [] [])
        (next-fill (suc fuel) [] [] ∙ fill_empty fuel)
  nothing_left (suc fuel) count file (b ∷ buf) filled h nothing = absurd (omega arith)
  nothing_left (suc fuel) count ([] ∷ file) [] filled h nothing = absurd (omega (arith, filled.0))
  nothing_left (suc fuel) count ((b ∷ chunk) ∷ file) [] filled h nothing = absurd (omega arith)

  iterate-pieces :
      (fuel count : ℕ) (file : File) (buf : Bytes)
      → AreFilled file
      → length (buf ++ concat file) < fuel
      → length (buf ++ concat file) < count
      → iterate fuel count (slicer file buf) ≡ pieces size (buf ++ concat file)
  iterate-pieces fuel zero file buf filled enough h = absurd (omega arith)
  iterate-pieces fuel (suc count) file buf filled enough h =
      elim (Bool-cases (length (buf ++ concat file) == 0)) [
        | inl nothing ↦ nothing_left fuel count file buf filled (omega arith) (ground arith)
        | inr something ↦
            let some_left : 0 < length (buf ++ concat file) = ground arith in
            let (file', buf', got, s', filled', rest) =
              fill-Takes fuel file buf filled (omega (arith, length-append buf (concat file)))
                some_left in
            iterate-some fuel count (slicer file buf) (slicer file' buf')
              (take size (buf ++ concat file)) (next-fill fuel file buf ∙ (λ i. (got i, s' i)))
            ∙ ap (λ l. take size (buf ++ concat file) ∷ l)
                (iterate-pieces fuel count file' buf' filled'
                    (omega (arith, ap length rest, length-drop size (buf ++ concat file)))
                    (omega (arith, ap length rest, length-drop size (buf ++ concat file)))
                  ∙ ap (pieces size) rest)
            ∙ sym (pieces-cons size positive (buf ++ concat file) some_left)
      ]

  -- When no total size is given, the slicer yields the pieces of the file's content and stops,
  -- however the reads cut it.
  pub new_slicer-pieces :
      (fuel count : ℕ) (file : File)
      → AreFilled file
      → length (concat file) < fuel
      → length (concat file) < count
      → iterate fuel count (new_slicer file size none) ≡ pieces size (concat file)
  new_slicer-pieces fuel count file filled enough h =
      iterate-pieces fuel count file [] filled enough h
