-- ===== src/WebServer/ZfecSegmenter.antt =====
-- web_server/zfec_segmenter.py. The zfec library is a parameter: an encoder that makes the shares of a
-- block, and a decoder that makes a block of some shares, their numbers and the padding.
pub mod Slices
pub mod Shares
pub mod RoundTrip
use nimbus_io.Prelude.{
  ℕ, zero, suc, ◌+◌, ◌-◌, ◌*◌, ◌/◌, ◌%◌, ◌≤◌, ◌<◌, ◌≡◌, List, [], ◌∷◌, ◌++◌, ◌==◌, if◌then◌else◌,
  ltb, Bytes, length, take, drop, map, Option, none, some,
}
use nimbus_io.WebServer.Pieces.{concat}

-- tools/data_definitions.py
abbrev pub block_size : ℕ
block_size = 32 * 1024

abbrev pub encoded_block_slice_size : ℕ
encoded_block_slice_size = block_size / 8

-- Python's slice, `data[start:end]`
abbrev pub subrange : ℕ → ℕ → Bytes → Bytes
subrange start_pos end_pos content = drop start_pos (take end_pos content)

unfoldable pub slice_count : ℕ → ℕ → ℕ
slice_count data_size slice_size =
    if data_size == 0
    then 0
    else if (data_size % slice_size) == 0
    then data_size / slice_size
    else data_size / slice_size + 1

-- the loop of `_slice_generator`, for `fuel` rounds
unfoldable pub slices_from : ℕ → Bytes → ℕ → ℕ → ℕ → List Bytes
slices_from zero content slice_size start_pos end_pos = []
slices_from (suc fuel) content slice_size start_pos end_pos =
    let rest = slices_from fuel content slice_size end_pos (end_pos + slice_size) in
    if ltb start_pos (length content) then subrange start_pos end_pos content ∷ rest else []

-- a round takes a byte at least
abbrev pub slice_generator : Bytes → ℕ → List Bytes
slice_generator content slice_size = slices_from (length content) content slice_size 0 slice_size

pub record Zfec : Type 0 where
  -- `Encoder(k, m).encode(block)`: the m shares
  pub encode_block : ℕ → ℕ → Bytes → List Bytes
  -- `Decoder(k, m).decode(shares, numbers, padding)`
  pub decode_block : ℕ → ℕ → List Bytes → List ℕ → ℕ → Bytes

pub record ZfecSegmenter : Type 0 where
  pub min_segments : ℕ
  pub num_segments : ℕ

unfoldable pub padding_size : ZfecSegmenter → Bytes → ℕ
padding_size s content =
    let modulus = length content % s.min_segments in
    if modulus == 0 then 0 else s.min_segments - modulus

-- `zip` of the segments so far and the shares of a block
unfoldable pub append_shares : List Bytes → List Bytes → List Bytes
append_shares [] shares = []
append_shares (segment ∷ segments) [] = segment ∷ segments
append_shares (segment ∷ segments) (share ∷ shares) =
    (segment ++ share) ∷ append_shares segments shares

abbrev pub empty_segments : ℕ → List Bytes
empty_segments zero = []
empty_segments (suc n) = [] ∷ empty_segments n

-- the first slices of all the generators, and the generators after them, unless one is at its end
unfoldable pub next_blocks : List (List Bytes) → Option (List Bytes × List (List Bytes))
next_blocks [] = some ([], [])
next_blocks ([] ∷ generators) = none
next_blocks ((block ∷ blocks) ∷ generators) =
    let rest = next_blocks generators in
    elim rest [ none ↦ none | some (firsts, others) ↦ some (block ∷ firsts, blocks ∷ others) ]

module _ (zfec : Zfec) where
  -- the loop of `encode` over the slices of the data
  unfoldable pub encode_slices : ZfecSegmenter → List Bytes → List Bytes → List Bytes
  encode_slices s segments [] = segments
  encode_slices s segments (data_slice ∷ slices) =
      encode_slices s
        (append_shares segments (zfec.encode_block s.min_segments s.num_segments data_slice)) slices

  unfoldable pub encode : ZfecSegmenter → Bytes → List Bytes
  encode s content =
      encode_slices s (empty_segments s.num_segments) (slice_generator content block_size)

  -- The loops of `decode`: `n` blocks without padding, and the last one. Nothing stands for the
  -- StopIteration of a generator that is at its end.
  unfoldable pub decode_blocks : ZfecSegmenter → List ℕ → ℕ → ℕ → List (List Bytes) → Option Bytes
  decode_blocks s numbers padding zero generators = elim (next_blocks generators) [
    | none ↦ none
    | some (blocks, others) ↦
        some (zfec.decode_block s.min_segments s.num_segments blocks numbers padding)
  ]
  decode_blocks s numbers padding (suc n) generators = elim (next_blocks generators) [
    | none ↦ none
    | some (blocks, others) ↦ elim (decode_blocks s numbers padding n others) [
      | none ↦ none
      | some rest ↦ some (zfec.decode_block s.min_segments s.num_segments blocks numbers 0 ++ rest)
    ]
  ]

  -- `segments[0]`, and nothing for an IndexError too
  unfoldable pub decode : ZfecSegmenter → List Bytes → List ℕ → ℕ → Option Bytes
  decode s [] segment_numbers padding = none
  decode s (segment ∷ segments) segment_numbers padding =
      decode_blocks s (map (λ n. n - 1) segment_numbers) padding
        (slice_count (length segment) encoded_block_slice_size - 1)
        (map (λ content. slice_generator content encoded_block_slice_size) (segment ∷ segments))
