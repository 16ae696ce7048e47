-- ===== src/WebServer/Pieces.antt =====
-- Bytes cut into pieces of one size, the last of which may be shorter: what the slices of
-- web_server/data_slicer.py and the blocks of web_server/zfec_segmenter.py are.
use nimbus_io.Prelude.{
  ℕ, zero, suc, ◌≤◌, ◌<◌, ◌≡◌, refl, ap, ◌∙◌, List, [], ◌∷◌, ◌++◌, Bytes, length, take, drop, arith,
  length-drop, take-append-drop,
}

abbrev pub concat : List Bytes → Bytes
concat [] = []
concat (piece ∷ pieces) = piece ++ concat pieces

-- The pieces of `size` bytes, at most `n` of them.
unfoldable pub pieces_within : ℕ → ℕ → Bytes → List Bytes
pieces_within zero size content = []
pieces_within (suc n) size [] = []
pieces_within (suc n) size (b ∷ content) =
    take size (b ∷ content) ∷ pieces_within n size (drop size (b ∷ content))

-- No more pieces than bytes are needed.
abbrev pub pieces : ℕ → Bytes → List Bytes
pieces size content = pieces_within (length content) size content

module _ (size : ℕ) (positive : 0 < size) where
  pub pieces_within-enough :
      (n m : ℕ) (content : Bytes)
      → length content ≤ n
      → length content ≤ m
      → pieces_within n size content ≡ pieces_within m size content
  unfolding pieces_within
  pieces_within-enough zero zero content h k = refl
  pieces_within-enough zero (suc m) [] h k = refl
  pieces_within-enough (suc n) zero [] h k = refl
  pieces_within-enough (suc n) (suc m) [] h k = refl
  pieces_within-enough zero m (b ∷ content) h k = absurd (omega arith)
  pieces_within-enough (suc n) zero (b ∷ content) h k = absurd (omega arith)
  pieces_within-enough (suc n) (suc m) (b ∷ content) h k =
      ap (λ l. take size (b ∷ content) ∷ l)
        (pieces_within-enough n m (drop size (b ∷ content))
          (omega (arith, length-drop size (b ∷ content), positive))
          (omega (arith, length-drop size (b ∷ content), positive)))

  pub pieces-cons :
      (content : Bytes)
      → 0 < length content
      → pieces size content ≡ take size content ∷ pieces size (drop size content)
  unfolding pieces_within
  pieces-cons [] h = absurd (omega arith)
  pieces-cons (b ∷ content) h =
      ap (λ l. take size (b ∷ content) ∷ l)
        (pieces_within-enough (length content) (length (drop size (b ∷ content)))
          (drop size (b ∷ content)) (omega (arith, length-drop size (b ∷ content), positive))
          (omega arith))

  concat-pieces_within :
      (n : ℕ) (content : Bytes)
      → length content ≤ n
      → concat (pieces_within n size content) ≡ content
  unfolding pieces_within
  concat-pieces_within zero [] h = refl
  concat-pieces_within zero (b ∷ content) h = absurd (omega arith)
  concat-pieces_within (suc n) [] h = refl
  concat-pieces_within (suc n) (b ∷ content) h =
      ap (λ l. take size (b ∷ content) ++ l)
        (concat-pieces_within n (drop size (b ∷ content))
          (omega (arith, length-drop size (b ∷ content), positive)))
      ∙ take-append-drop size (b ∷ content)

  pub concat-pieces : (content : Bytes) → concat (pieces size content) ≡ content
  concat-pieces content = concat-pieces_within (length content) content (omega arith)
