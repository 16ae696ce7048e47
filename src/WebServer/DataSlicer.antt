-- ===== src/WebServer/DataSlicer.antt =====
-- web_server/data_slicer.py. A file object is the list of the chunks that are still to come: a read
-- gives the start of the first chunk, and nothing at the end of the file.
pub mod Slices
use nimbus_io.Prelude.{
  ℕ, zero, suc, ◌+◌, ◌-◌, ◌≤◌, ◌<◌, ◌≡◌, Bool, true, false, not, Option, none, some, List, [], ◌∷◌,
  ◌++◌, ltb, leb, ◌==◌, if◌then◌else◌, Bytes, length, take, drop, min,
}

abbrev pub File : Type 0
File = List Bytes

-- `file_obj.read(n)`, for chunks that are not empty
unfoldable pub read : ℕ → File → Bytes × File
read n [] = ([], [])
read n (chunk ∷ chunks) =
    if leb (length chunk) n then (chunk, chunks) else (take n chunk, drop n chunk ∷ chunks)

pub record DataSlicer : Type 0 where
  pub file_obj : File
  pub slice_size : ℕ
  pub remaining : Option ℕ
  pub buf : Bytes

abbrev pub new_slicer : File → ℕ → Option ℕ → DataSlicer
new_slicer file_obj slice_size total_size = record {
  file_obj = file_obj;
  slice_size = slice_size;
  remaining = total_size;
  buf = [];
}

-- how much a round of the loop asks for
abbrev pub asks : DataSlicer → ℕ
asks s = elim s.remaining [ none ↦ s.slice_size | some n ↦ min s.slice_size n ]

-- one read of the loop
unfoldable pub read_more : DataSlicer → Bytes × DataSlicer
read_more s =
    let (more, file) = read (asks s) s.file_obj in
    (
      more,
      record s {
        file_obj = file;
        remaining = elim s.remaining [ none ↦ none | some n ↦ some (n - length more) ];
      },
    )

-- The loop of `next`, for `fuel` rounds: a slice, or nothing for StopIteration.
unfoldable pub fill : ℕ → DataSlicer → Option Bytes × DataSlicer
fill zero s = (none, s)
fill (suc fuel) s = elim (ltb (length s.buf) s.slice_size) [
  | false ↦ (some (take s.slice_size s.buf), record s { buf = drop s.slice_size s.buf })
  | true ↦
      let (more, s') = read_more s in
      elim more [
        | [] ↦ elim s.buf [ [] ↦ (none, s') | b ∷ buf ↦ (some (b ∷ buf), record s' { buf = [] }) ]
        | b ∷ rest ↦ fill fuel (record s' { buf = s.buf ++ b ∷ rest })
      ]
]

abbrev pub is_spent : Option ℕ → Bool
is_spent none = false
is_spent (some n) = n == 0

unfoldable pub next : ℕ → DataSlicer → Option Bytes × DataSlicer
next fuel s = if is_spent s.remaining then (none, s) else fill fuel s

-- the iteration, for at most `count` slices
unfoldable pub iterate : ℕ → ℕ → DataSlicer → List Bytes
iterate fuel zero s = []
iterate fuel (suc count) s =
    let (slice, s') = next fuel s in
    elim slice [ none ↦ [] | some content ↦ content ∷ iterate fuel count s' ]
