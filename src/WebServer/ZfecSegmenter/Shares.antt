-- ===== src/WebServer/ZfecSegmenter/Shares.antt =====
-- Shares, the segments that they make up, and what is asked of the zfec library.
use nimbus_io.Prelude.{
  ℕ, zero, suc, ◌+◌, ◌-◌, ◌/◌, ◌%◌, ◌<◌, ◌≡◌, refl, ap, ◌∙◌, List, [], ◌∷◌, ◌++◌, ◌==◌,
  if◌then◌else◌, Bytes, length, arith, map, All,
}
use nimbus_io.WebServer.ZfecSegmenter.{
  block_size, slice_generator, Zfec, ZfecSegmenter, append_shares, empty_segments, encode_slices,
  encode,
}

-- the segment with a number from 0
abbrev pub nth : List Bytes → ℕ → Bytes
nth [] n = []
nth (segment ∷ segments) zero = segment
nth (segment ∷ segments) (suc n) = nth segments n

-- the padding of a block of `n` bytes in eight shares
abbrev pub padding_of : ℕ → ℕ
padding_of n = if (n % 8) == 0 then 0 else 8 - n % 8

-- What the code relies on in zfec, for the segments of some numbers: a block has `m` shares of an
-- eighth of it each, rounded up, and those numbers' shares give the block back.
pub record IsSound (zfec : Zfec) (m : ℕ) (picks : List ℕ) : Type 0 where
  pub shares : (block : Bytes) → 0 < length block → length (zfec.encode_block 8 m block) ≡ m
  pub share_size :
      (block : Bytes) (i : ℕ)
      → 0 < length block
      → i < m
      → length (nth (zfec.encode_block 8 m block) i) ≡ (length block + 7) / 8
  pub decodes :
      (block : Bytes)
      → 0 < length block
      → zfec.decode_block 8 m
          (map (nth (zfec.encode_block 8 m block)) picks)
          picks
          (padding_of (length block))
        ≡ block

pub nth-empty : (m i : ℕ) → nth (empty_segments m) i ≡ []
nth-empty zero i = refl
nth-empty (suc m) zero = refl
nth-empty (suc m) (suc i) = nth-empty m i

pub length-empty : (m : ℕ) → length (empty_segments m) ≡ m
length-empty zero = refl
length-empty (suc m) = ap suc (length-empty m)

pub nth-append_shares :
    (segments shares : List Bytes) (i : ℕ)
    → length segments ≡ length shares
    → nth (append_shares segments shares) i ≡ nth segments i ++ nth shares i
unfolding append_shares
nth-append_shares [] [] i h = refl
nth-append_shares [] (share ∷ shares) i h = absurd (omega arith)
nth-append_shares (segment ∷ segments) [] i h = absurd (omega arith)
nth-append_shares (segment ∷ segments) (share ∷ shares) zero h = refl
nth-append_shares (segment ∷ segments) (share ∷ shares) (suc i) h =
    nth-append_shares segments shares i (omega arith)

pub length-append_shares :
    (segments shares : List Bytes) → length (append_shares segments shares) ≡ length segments
unfolding append_shares
length-append_shares [] shares = refl
length-append_shares (segment ∷ segments) [] = refl
length-append_shares (segment ∷ segments) (share ∷ shares) =
    ap suc (length-append_shares segments shares)

pub length-encode_slices :
    (zfec : Zfec) (s : ZfecSegmenter) (slices segments : List Bytes)
    → length (encode_slices zfec s segments slices) ≡ length segments
unfolding encode_slices
length-encode_slices zfec s [] segments = refl
length-encode_slices zfec s (block ∷ slices) segments =
    length-encode_slices zfec s slices
      (append_shares segments (zfec.encode_block s.min_segments s.num_segments block))
    ∙ length-append_shares segments (zfec.encode_block s.min_segments s.num_segments block)

-- There is a segment for each number, whatever the library does.
pub length-encode :
    (zfec : Zfec) (s : ZfecSegmenter) (content : Bytes)
    → length (encode zfec s content) ≡ s.num_segments
unfolding encode
length-encode zfec s content =
    length-encode_slices zfec s (slice_generator content block_size) (empty_segments s.num_segments)
    ∙ length-empty s.num_segments

pub map-cong :
    {A B : Type 0} (f g : A → B) (P : A → Type 0)
    → ((a : A) → P a → f a ≡ g a)
    → (xs : List A) → All P xs
    → map f xs ≡ map g xs
map-cong f g P same [] h = refl
map-cong f g P same (x ∷ xs) (hx, h) = λ i. (same x hx i) ∷ map-cong f g P same xs h i

pub map-map :
    {A B C : Type 0} (f : A → B) (g : B → C) (xs : List A)
    → map g (map f xs) ≡ map (λ a. g (f a)) xs
map-map f g [] = refl
map-map f g (x ∷ xs) = ap (λ l. g (f x) ∷ l) (map-map f g xs)

pub length-map : {A B : Type 0} (f : A → B) (xs : List A) → length (map f xs) ≡ length xs
length-map f [] = refl
length-map f (x ∷ xs) = ap suc (length-map f xs)

-- Segment numbers start from 1, zfec's from 0.
pub map-suc : (xs : List ℕ) → map (λ n. n - 1) (map suc xs) ≡ xs
map-suc [] = refl
map-suc (x ∷ xs) = λ i. (same i) ∷ map-suc xs i
  where
    same : suc x - 1 ≡ x
    same = omega arith

abbrev pub AreBlocks : List Bytes → Type 0
AreBlocks slices = All (λ block. 0 < length block) slices
