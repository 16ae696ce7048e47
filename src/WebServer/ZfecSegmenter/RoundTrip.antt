-- ===== src/WebServer/ZfecSegmenter/RoundTrip.antt =====
-- What is encoded is decoded from any of the segments that the decoder can use.
use nimbus_io.Prelude.{
  ℕ, suc, ◌-◌, ◌<◌, ◌≡◌, refl, sym, ap, ◌∙◌, some, List, [], ◌∷◌, ◌++◌, Bytes, length, arith, map,
  All, append-nil, append_assoc, length-append,
}
use nimbus_io.WebServer.Pieces.{concat, pieces, concat-pieces}
use nimbus_io.WebServer.ZfecSegmenter.{
  block_size, encoded_block_slice_size, slice_count, slice_generator, Zfec, ZfecSegmenter,
  padding_size, append_shares, empty_segments, next_blocks, encode_slices, encode, decode_blocks,
  decode,
}
use nimbus_io.WebServer.ZfecSegmenter.Slices.{
  slice_generator-pieces, AreCut, pieces-concat, pieces_within-AreCut, slice_count-pieces_within,
}
use nimbus_io.WebServer.ZfecSegmenter.Shares.{
  nth, padding_of, IsSound, nth-empty, length-empty, nth-append_shares, length-append_shares,
  map-cong, map-map, length-map, map-suc, AreBlocks,
}

abbrev pub eight_of : ℕ → ZfecSegmenter
eight_of m = record { min_segments = 8; num_segments = m }

module _ (zfec : Zfec) (m : ℕ) (picks : List ℕ) (sound : IsSound zfec m picks) where
  abbrev share : ℕ → Bytes → Bytes
  share i block = nth (zfec.encode_block 8 m block) i

  -- A segment is made of its share of each slice.
  nth-encode_slices :
      (slices segments : List Bytes) (i : ℕ)
      → AreBlocks slices
      → length segments ≡ m
      → nth (encode_slices zfec (eight_of m) segments slices) i
        ≡ nth segments i ++ concat (map (share i) slices)
  unfolding encode_slices
  nth-encode_slices [] segments i h k = sym (append-nil (nth segments i))
  nth-encode_slices (block ∷ slices) segments i (hb, h) k =
      nth-encode_slices slices (append_shares segments (zfec.encode_block 8 m block)) i h
        (length-append_shares segments (zfec.encode_block 8 m block) ∙ k)
      ∙ ap (λ l. l ++ concat (map (share i) slices))
          (nth-append_shares segments (zfec.encode_block 8 m block) i
            (k ∙ sym (sound.shares block hb)))
      ∙ append_assoc (nth segments i) (share i block) (concat (map (share i) slices))

  abbrev generators : List Bytes → List ℕ → List (List Bytes)
  generators slices = map (λ i. map (share i) slices)

  next_blocks-generators :
      (block : Bytes) (slices : List Bytes) (numbers : List ℕ)
      → next_blocks (generators (block ∷ slices) numbers)
        ≡ some (map (nth (zfec.encode_block 8 m block)) numbers, generators slices numbers)
  unfolding next_blocks
  next_blocks-generators block slices [] = refl
  next_blocks-generators block slices (i ∷ numbers) =
      rw (next_blocks-generators block slices numbers) refl

  -- the padding of the last slice
  abbrev last_padding : List Bytes → ℕ
  last_padding [] = 0
  last_padding (block ∷ []) = padding_of (length block)
  last_padding (block ∷ next ∷ slices) = last_padding (next ∷ slices)

  decode_blocks-concat :
      (block : Bytes) (slices : List Bytes)
      → AreBlocks (block ∷ slices)
      → AreCut block_size (block ∷ slices)
      → decode_blocks zfec
          (eight_of m)
          picks
          (last_padding (block ∷ slices))
          (length slices)
          (generators (block ∷ slices) picks)
        ≡ some (concat (block ∷ slices))
  unfolding decode_blocks
  decode_blocks-concat block [] (hb, h) cut =
      rw
        (
          next_blocks-generators block [] picks,
          decode_blocks,
          sound.decodes block hb,
          append-nil block,
        )
        refl
  decode_blocks-concat block (next ∷ slices) (hb, h) (full, cut) =
      rw
        (
          next_blocks-generators block (next ∷ slices) picks,
          decode_blocks,
          decode_blocks-concat next slices h cut,
          ap (λ p. zfec.decode_block 8 m (map (nth (zfec.encode_block 8 m block)) picks) picks p)
              no_padding,
          sound.decodes block hb,
        )
        refl
    where
      no_padding : 0 ≡ padding_of (length block)
      no_padding = ground (arith, full)

  AreCut-AreBlocks : (slices : List Bytes) → AreCut block_size slices → AreBlocks slices
  AreCut-AreBlocks [] h = tt
  AreCut-AreBlocks (block ∷ []) (h, k) = (h, tt)
  AreCut-AreBlocks (block ∷ next ∷ slices) (h, k) =
      (omega (arith, h), AreCut-AreBlocks (next ∷ slices) k)

  -- The shares of full blocks are full.
  AreCut-share :
      (i : ℕ)
      → i < m
      → (slices : List Bytes) → AreCut block_size slices
      → AreCut encoded_block_slice_size (map (share i) slices)
  AreCut-share i lt [] h = tt
  AreCut-share i lt (block ∷ []) (h, k) = (
    omega (arith, sound.share_size block i h lt, h),
    omega (arith, sound.share_size block i h lt, k),
  )
  AreCut-share i lt (block ∷ next ∷ slices) (h, k) = (
    omega (arith, sound.share_size block i (omega (arith, h)) lt, h),
    AreCut-share i lt (next ∷ slices) k,
  )

  last_padding-concat :
      (slices : List Bytes)
      → AreCut block_size slices
      → last_padding slices ≡ padding_of (length (concat slices))
  last_padding-concat [] h = refl
  last_padding-concat (block ∷ []) h = ap (λ b. padding_of (length b)) (sym (append-nil block))
  last_padding-concat (block ∷ next ∷ slices) (full, h) =
      last_padding-concat (next ∷ slices) h
      ∙ ground (arith, full, length-append block (concat (next ∷ slices)))

  slices-AreCut : (content : Bytes) → AreCut block_size (pieces block_size content)
  slices-AreCut content =
      pieces_within-AreCut block_size (omega arith) (length content) content (omega arith)

  segment :
      (content : Bytes) (i : ℕ)
      → nth (encode zfec (eight_of m) content) i
        ≡ concat (map (share i) (pieces block_size content))
  unfolding encode
  segment content i =
      ap (λ l. nth (encode_slices zfec (eight_of m) (empty_segments m) l) i)
        (slice_generator-pieces block_size content)
      ∙ nth-encode_slices (pieces block_size content) (empty_segments m) i
          (AreCut-AreBlocks (pieces block_size content) (slices-AreCut content)) (length-empty m)
      ∙ ap (λ l. l ++ concat (map (share i) (pieces block_size content))) (nth-empty m i)

  segment-slices :
      (content : Bytes) (i : ℕ)
      → i < m
      → slice_generator (nth (encode zfec (eight_of m) content) i) encoded_block_slice_size
        ≡ map (share i) (pieces block_size content)
  segment-slices content i lt =
      slice_generator-pieces encoded_block_slice_size (nth (encode zfec (eight_of m) content) i)
      ∙ ap (pieces encoded_block_slice_size) (segment content i)
      ∙ pieces-concat encoded_block_slice_size (omega arith)
          (map (share i) (pieces block_size content))
          (AreCut-share i lt (pieces block_size content) (slices-AreCut content))

  segment-count :
      (content : Bytes) (i : ℕ)
      → i < m
      → slice_count (length (nth (encode zfec (eight_of m) content) i)) encoded_block_slice_size
        ≡ length (pieces block_size content)
  segment-count content i lt =
      slice_count-pieces_within (length (nth (encode zfec (eight_of m) content) i))
        (nth (encode zfec (eight_of m) content) i) (omega arith)
      ∙ ap length (
          sym (
            slice_generator-pieces encoded_block_slice_size
              (nth (encode zfec (eight_of m) content) i))
          ∙ segment-slices content i lt)
      ∙ length-map (share i) (pieces block_size content)

  segment_generators :
      (content : Bytes) (numbers : List ℕ)
      → All (λ i. i < m) numbers
      → map
          (λ l. slice_generator l encoded_block_slice_size)
          (map (nth (encode zfec (eight_of m) content)) numbers)
        ≡ generators (pieces block_size content) numbers
  segment_generators content numbers below =
      map-map (nth (encode zfec (eight_of m) content))
        (λ l. slice_generator l encoded_block_slice_size) numbers
      ∙ map-cong
          (λ i. slice_generator (nth (encode zfec (eight_of m) content) i) encoded_block_slice_size)
          (λ i. map (share i) (pieces block_size content)) (λ i. i < m) (segment-slices content)
          numbers below

  decode_slices :
      (slices : List Bytes)
      → AreCut block_size slices
      → 0 < length (concat slices)
      → decode_blocks zfec
          (eight_of m)
          picks
          (last_padding slices)
          (length slices - 1)
          (generators slices picks)
        ≡ some (concat slices)
  decode_slices [] cut h = absurd (omega arith)
  decode_slices (block ∷ slices) cut h =
      ap
        (λ n.
          decode_blocks zfec (eight_of m) picks (last_padding (block ∷ slices)) n
            (generators (block ∷ slices) picks))
        (omega arith)
      ∙ decode_blocks-concat block slices (AreCut-AreBlocks (block ∷ slices) cut) cut

-- The segments of `numbers` are decoded.
pub decode-encode :
    (zfec : Zfec) (m first : ℕ) (others : List ℕ)
    → IsSound zfec m (first ∷ others)
    → All (λ i. i < m) (first ∷ others)
    → (content : Bytes) → 0 < length content
    → decode zfec
        (eight_of m)
        (map (nth (encode zfec (eight_of m) content)) (first ∷ others))
        (map suc (first ∷ others))
        (padding_size (eight_of m) content)
      ≡ some content
unfolding decode padding_size
decode-encode zfec m first others sound below content h =
    (λ i.
      decode_blocks zfec (eight_of m) (map-suc (first ∷ others) i) (padding i) (count i - 1)
        (segment_generators zfec m (first ∷ others) sound content (first ∷ others) below i))
    ∙ decode_slices zfec m (first ∷ others) sound slices cut (omega (arith, ap length whole, h))
    ∙ ap some whole
  where
    slices : List Bytes
    slices = pieces block_size content

    whole : concat slices ≡ content
    whole = concat-pieces block_size (omega arith) content

    cut : AreCut block_size slices
    cut = slices-AreCut zfec m (first ∷ others) sound content

    padding : padding_size (eight_of m) content ≡ last_padding zfec m (first ∷ others) sound slices
    padding =
        ap (λ l. padding_of (length l)) (sym whole)
        ∙ sym (last_padding-concat zfec m (first ∷ others) sound slices cut)

    count :
        slice_count (length (nth (encode zfec (eight_of m) content) first)) encoded_block_slice_size
        ≡ length slices
    count = segment-count zfec m (first ∷ others) sound content first below.0
