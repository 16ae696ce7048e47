-- ===== src/Repository.antt =====
-- The value files of a repository. They are a function from the id of a value file, of which
-- `compute_value_file_path` (tools/data_definitions.py) makes the path.
use nimbus_io.Prelude.{
  ℕ, ◌+◌, ◌≡◌, ap, Option, ◌++◌, ◌==◌, if◌then◌else◌, Bytes, arith, length, take, drop, take-length,
  append-nil, drop_all,
}

abbrev pub Disk : Type 0
Disk = ℕ → Option Bytes

abbrev pub update_file : Disk → ℕ → Option Bytes → Disk
update_file disk i content j = if i == j then content else disk j

-- `write` at a position of a file: what is there is overwritten.
unfoldable pub write_at : ℕ → Bytes → Bytes → Bytes
write_at position new content =
    take position content ++ (new ++ drop (position + length new) content)

-- `seek` and `read`: less than `size` bytes at the end of the file
abbrev pub read_at : ℕ → ℕ → Bytes → Bytes
read_at offset size content = take size (drop offset content)

-- A write at the end appends.
pub write_at_end :
    (n : ℕ) (new content : Bytes) → length content ≡ n → write_at n new content ≡ content ++ new
unfolding write_at
write_at_end n new content e =
    rw (← e, take-length content, drop_all (length content + length new) content (omega arith))
      (ap (λ r. content ++ r) (append-nil new))
