-- ===== src/WebServer/ZfecSegmenter/Slices.antt =====
-- The slices of a segment are the pieces of it, and `_slice_count` counts them.
use nimbus_io.Prelude.{
  ℕ, zero, suc, ◌+◌, ◌-◌, ◌≤◌, ◌<◌, ◌≡◌, refl, sym, ap, ◌∙◌, List, [], ◌∷◌, ltb, Bytes, length,
  take, drop, arith, Bool-cases, inl, inr, length-drop, length-take, length-append, append-nil,
  take_all, drop_all, take_exact, drop_exact,
}
use nimbus_io.WebServer.Pieces.{concat, pieces, pieces_within, pieces-cons}
use nimbus_io.WebServer.ZfecSegmenter.{
  slices_from, slice_generator, slice_count, encoded_block_slice_size,
}

drop-take :
    (n m k : ℕ) (content : Bytes) → k ≡ n + m → drop n (take k content) ≡ take m (drop n content)
drop-take zero m k content h = ap (λ j. take j content) (omega arith)
drop-take (suc n) m zero content h = absurd (omega arith)
drop-take (suc n) m (suc k) [] h = sym (take_all m [] (omega arith))
drop-take (suc n) m (suc k) (b ∷ content) h = drop-take n m k content (omega arith)

drop-drop : (n m k : ℕ) (content : Bytes) → k ≡ n + m → drop m (drop n content) ≡ drop k content
drop-drop zero m k content h = ap (λ j. drop j content) (omega arith)
drop-drop (suc n) m zero content h = absurd (omega arith)
drop-drop (suc n) m (suc k) [] h = drop_all m [] (omega arith)
drop-drop (suc n) m (suc k) (b ∷ content) h = drop-drop n m k content (omega arith)

module _ (size : ℕ) where
  pieces_step :
      (fuel : ℕ) (content : Bytes)
      → 0 < length content
      → pieces_within (suc fuel) size content
        ≡ take size content ∷ pieces_within fuel size (drop size content)
  unfolding pieces_within
  pieces_step fuel [] h = absurd (omega arith)
  pieces_step fuel (b ∷ content) h = refl

  pieces_end :
      (fuel : ℕ) (content : Bytes) → length content ≡ 0 → pieces_within fuel size content ≡ []
  unfolding pieces_within
  pieces_end zero [] h = refl
  pieces_end (suc fuel) [] h = refl
  pieces_end fuel (b ∷ content) h = absurd (omega arith)

  slices_from-pieces :
      (fuel start : ℕ) (content : Bytes)
      → slices_from fuel content size start (start + size)
        ≡ pieces_within fuel size (drop start content)
  unfolding slices_from pieces_within
  slices_from-pieces zero start content = refl
  slices_from-pieces (suc fuel) start content = elim (Bool-cases (ltb start (length content))) [
    | inl more ↦
        rw (more, slices_from)
          ((λ i.
              (drop-take start size (start + size) content refl i)
              ∷ slices_from-pieces fuel (start + size) content i)
            ∙ ap (λ d. take size (drop start content) ∷ pieces_within fuel size d)
                (sym (drop-drop start size (start + size) content refl))
            ∙ sym
                (pieces_step fuel (drop start content) (ground (arith, length-drop start content))))
    | inr ended ↦
        rw (ended, slices_from)
          (sym (
            pieces_end (suc fuel) (drop start content) (ground (arith, length-drop start content))))
  ]

  -- The slices of the generator are the pieces of its data.
  pub slice_generator-pieces :
      (content : Bytes) → slice_generator content size ≡ pieces size content
  slice_generator-pieces content =
      ap (slices_from (length content) content size 0) (omega arith)
      ∙ slices_from-pieces (length content) 0 content

-- Blocks that a cut at `size` gives back: all are full but the last one, which is not empty.
abbrev pub AreCut : ℕ → List Bytes → Type 0
AreCut size [] = Unit
AreCut size (block ∷ []) = (0 < length block) × (length block ≤ size)
AreCut size (block ∷ next ∷ blocks) = (length block ≡ size) × AreCut size (next ∷ blocks)

module _ (size : ℕ) (positive : 0 < size) where
  pub pieces-concat :
      (blocks : List Bytes) → AreCut size blocks → pieces size (concat blocks) ≡ blocks
  unfolding pieces_within
  pieces-concat [] h = refl
  pieces-concat (block ∷ []) (h, k) =
      rw
        (
          append-nil block,
          pieces-cons size positive block h,
          take_all size block k,
          drop_all size block k,
        )
        refl
  pieces-concat (block ∷ next ∷ blocks) (full, h) =
      pieces-cons size positive (concat (block ∷ next ∷ blocks))
        (omega (arith, length-append block (concat (next ∷ blocks)), full))
      ∙ (λ i.
          (take_exact size block (concat (next ∷ blocks)) full i)
          ∷ pieces size (drop_exact size block (concat (next ∷ blocks)) full i))
      ∙ ap (λ l. block ∷ l) (pieces-concat (next ∷ blocks) h)

  AreCut-full :
      (block : Bytes) (blocks : List Bytes)
      → length block ≡ size
      → AreCut size blocks
      → AreCut size (block ∷ blocks)
  AreCut-full block [] full h = (omega (arith, full, positive), omega (arith, full))
  AreCut-full block (next ∷ blocks) full h = (full, h)

  pub pieces_within-AreCut :
      (n : ℕ) (content : Bytes) → length content ≤ n → AreCut size (pieces_within n size content)
  unfolding pieces_within
  pieces_within-AreCut zero content h = tt
  pieces_within-AreCut (suc n) [] h = tt
  pieces_within-AreCut (suc n) (b ∷ content) h =
      elim (Bool-cases (ltb size (length (b ∷ content)))) [
        | inl more ↦
            AreCut-full (take size (b ∷ content)) (pieces_within n size (drop size (b ∷ content)))
              (ground (arith, length-take size (b ∷ content)))
              (pieces_within-AreCut n (drop size (b ∷ content))
                (omega (arith, length-drop size (b ∷ content), positive)))
        | inr last ↦
            rw
              (pieces_end size n (drop size (b ∷ content))
                (ground (arith, length-drop size (b ∷ content))))
              (
                omega (arith, length-take size (b ∷ content), positive),
                omega (arith, length-take size (b ∷ content)),
              )
      ]

slice_count-step :
    (n : ℕ)
    → 0 < n
    → slice_count n encoded_block_slice_size
      ≡ suc (slice_count (n - encoded_block_slice_size) encoded_block_slice_size)
unfolding slice_count
slice_count-step n h = ground arith

-- The count is the number of the slices.
pub slice_count-pieces_within :
    (n : ℕ) (content : Bytes)
    → length content ≤ n
    → slice_count (length content) encoded_block_slice_size
      ≡ length (pieces_within n encoded_block_slice_size content)
unfolding slice_count pieces_within
slice_count-pieces_within zero [] h = refl
slice_count-pieces_within zero (b ∷ content) h = absurd (omega arith)
slice_count-pieces_within (suc n) [] h = refl
slice_count-pieces_within (suc n) (b ∷ content) h =
    slice_count-step (length (b ∷ content)) (omega arith)
    ∙ ap (λ m. suc (slice_count m encoded_block_slice_size))
        (sym (length-drop encoded_block_slice_size (b ∷ content)))
    ∙ ap suc (
        slice_count-pieces_within n (drop encoded_block_slice_size (b ∷ content))
          (omega (arith, length-drop encoded_block_slice_size (b ∷ content))))
