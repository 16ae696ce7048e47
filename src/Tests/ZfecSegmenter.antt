-- ===== src/Tests/ZfecSegmenter.antt =====
-- A code of ten shares, the first eight of which are the bytes of the block in turn.
use nimbus_io.Prelude.{
  ℕ, zero, suc, ◌+◌, ◌-◌, ◌/◌, ◌≤◌, ◌<◌, ◌≡◌, refl, sym, ap, ◌∙◌, some, List, [], ◌∷◌, ◌++◌, Bytes,
  length, take, drop, map, arith, length-append, length-take, length-drop, take-append-drop,
  take_exact, append_assoc, take-append_le, ltb, Bool-cases, inl, inr,
}
use nimbus_io.WebServer.Pieces.{concat}
use nimbus_io.WebServer.ZfecSegmenter.{Zfec, encode, decode, padding_size}
use nimbus_io.WebServer.ZfecSegmenter.Shares.{nth, IsSound, padding_of}
use nimbus_io.WebServer.ZfecSegmenter.RoundTrip.{eight_of, decode-encode}

abbrev zeros : ℕ → Bytes
zeros zero = []
zeros (suc n) = 0 ∷ zeros n

length-zeros : (n : ℕ) → length (zeros n) ≡ n
length-zeros zero = refl
length-zeros (suc n) = ap suc (length-zeros n)

abbrev stripes : ℕ → ℕ → Bytes → List Bytes
stripes zero c block = []
stripes (suc n) c block = take c (block ++ zeros c) ∷ stripes n c (drop c block)

abbrev pub striped : Zfec
striped = record {
  encode_block = λ k m block. stripes m ((length block + (k - 1)) / k) block;
  decode_block =
      λ k m shares numbers padding. take (length (concat shares) - padding) (concat shares);
}

length-stripes : (n c : ℕ) (block : Bytes) → length (stripes n c block) ≡ n
length-stripes zero c block = refl
length-stripes (suc n) c block = ap suc (length-stripes n c (drop c block))

stripe-size : (n c : ℕ) (block : Bytes) (i : ℕ) → i < n → length (nth (stripes n c block) i) ≡ c
stripe-size zero c block i h = absurd (omega arith)
stripe-size (suc n) c block zero h =
    omega (arith, length-take c (block ++ zeros c), length-append block (zeros c), length-zeros c)
stripe-size (suc n) c block (suc i) h = stripe-size n c (drop c block) i (omega arith)

abbrev total : ℕ → ℕ → ℕ
total zero c = 0
total (suc n) c = c + total n c

length-concat : (n c : ℕ) (block : Bytes) → length (concat (stripes n c block)) ≡ total n c
length-concat zero c block = refl
length-concat (suc n) c block = omega (
  arith,
  length-append (take c (block ++ zeros c)) (concat (stripes n c (drop c block))),
  length-take c (block ++ zeros c),
  length-append block (zeros c),
  length-zeros c,
  length-concat n c (drop c block),
)

take-front :
    (c : ℕ) (block rest : Bytes)
    → length block ≤ c
    → (tail : Bytes) × (take c (block ++ rest) ≡ block ++ tail)
take-front c [] rest h = (take c rest, refl)
take-front zero (b ∷ block) rest h = absurd (omega arith)
take-front (suc c) (b ∷ block) rest h =
    let (tail, e) = take-front c block rest (omega arith) in (tail, ap (λ l. b ∷ l) e)

concat-front :
    (n c : ℕ) (block : Bytes)
    → length block ≤ total n c
    → (tail : Bytes) × (concat (stripes n c block) ≡ block ++ tail)
concat-front zero c [] h = ([], refl)
concat-front zero c (b ∷ block) h = absurd (omega arith)
concat-front (suc n) c block h = elim (Bool-cases (ltb (length block) c)) [
  | inl short ↦
      let (tail, e) = take-front c block (zeros c) (ground arith) in
      (
        tail ++ concat (stripes n c (drop c block)),
        ap (λ l. l ++ concat (stripes n c (drop c block))) e
            ∙ append_assoc block tail (concat (stripes n c (drop c block))),
      )
  | inr long ↦
      let (tail, e) = concat-front n c (drop c block) (omega (arith, length-drop c block, h)) in
      (
        tail,
        (λ i. (take-append_le c block (zeros c) (ground arith) i) ++ e i)
            ∙ sym (append_assoc (take c block) (drop c block) tail)
            ∙ ap (λ l. l ++ tail) (take-append-drop c block),
      )
]

abbrev pub eight : List ℕ
eight = 0 ∷ 1 ∷ 2 ∷ 3 ∷ 4 ∷ 5 ∷ 6 ∷ 7 ∷ []

pub striped-IsSound : IsSound striped 10 eight
striped-IsSound = record {
  shares = λ block h. length-stripes 10 ((length block + 7) / 8) block;
  share_size = λ block i h lt. stripe-size 10 ((length block + 7) / 8) block i lt;
  decodes = decodes;
}
  where
    decodes :
        (block : Bytes)
        → 0 < length block
        → take
            (length (concat (stripes 8 ((length block + 7) / 8) block)) - padding_of (length block))
            (concat (stripes 8 ((length block + 7) / 8) block))
          ≡ block
    decodes block h =
        let (tail, e) = concat-front 8 ((length block + 7) / 8) block (omega arith) in
        ap (λ n. take n (concat (stripes 8 ((length block + 7) / 8) block)))
          (ground (arith, length-concat 8 ((length block + 7) / 8) block))
        ∙ ap (take (length block)) e
        ∙ take_exact (length block) block tail refl

abbrev pub sample : Bytes
sample = 1 ∷ 2 ∷ 3 ∷ 4 ∷ 5 ∷ 6 ∷ 7 ∷ 8 ∷ 9 ∷ []

decode-encode_example :
    decode striped
      (eight_of 10)
      (map (nth (encode striped (eight_of 10) sample)) eight)
      (map suc eight)
      (padding_size (eight_of 10) sample)
    ≡ some sample
decode-encode_example =
    decode-encode striped 10 0 (1 ∷ 2 ∷ 3 ∷ 4 ∷ 5 ∷ 6 ∷ 7 ∷ []) striped-IsSound
      (
        ground arith,
        (
          ground arith,
          (
            ground arith,
            (ground arith, (ground arith, (ground arith, (ground arith, (ground arith, tt))))),
          ),
        ),
      )
      sample (omega arith)
