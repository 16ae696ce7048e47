-- ===== src/DataWriter/Writer/Segments.antt =====
-- The life of a segment in the writer: the rows of an id, and the dictionary of active segments.
pub mod Start
pub mod Finish
pub mod Cancel
use nimbus_io.Prelude.{
  ℕ, ◌+◌, ◌<◌, ◌≡◌, ◌⊎◌, refl, Bool, true, false, not, ◌&&◌, ◌||◌, Option, none, some, List, [],
  ◌∷◌, ◌++◌, map, ◌==◌, if◌then◌else◌, Text, Bytes, length, arith, All, All-imp, All-append, inl,
  inr, ==-refl,
}
use nimbus_io.Prelude.Tables.{
  select_where, select_where-append, select_where-none, update_where, delete_where, all_where,
}
use nimbus_io.Prelude.Exec.{Result, ok, err, value_error}
use nimbus_io.Tools.Timestamp.{Timestamp, parse_timestamp_repr}
use nimbus_io.Database.{ℤ, active, is_active, SegmentRow, Tables, commit, segment_check}
use nimbus_io.DataWriter.Sql.{
  insert_new_segment_row, finalize_segment_row, finalized, cancel_segment_row, cancel,
}
use nimbus_io.DataWriter.Writer.{
  SegmentKey, key_eq, Actives, Writer, find_segment, forget, meta_row, start_new_segment,
  finish_new_segment, cancel_active_archive,
}
use nimbus_io.DataWriter.Writer.Sound.{IsSound}
use nimbus_io.DataWriter.Writer.Store.{stored}

-- The rows of the table with an id. There is one at most, since ids come from a sequence.
abbrev pub rows_with : Writer → ℕ → List SegmentRow
rows_with w id = select_where (λ r. r.id == id) w.storage.connection.current.segment

pub select-update :
    (i j : ℕ) (f : SegmentRow → SegmentRow) (rows : List SegmentRow)
    → ((r : SegmentRow) → (f r).id ≡ r.id)
    → select_where (λ r. r.id == j) (update_where (λ r. r.id == i) f rows) ≡ (
        if i == j
        then map f (select_where (λ r. r.id == j) rows)
        else select_where (λ r. r.id == j) rows)
unfolding select_where update_where
select-update i j f [] keep = ground arith
select-update i j f (r ∷ rows) keep = ground (arith, keep r, select-update i j f rows keep)

pub select-update_some :
    (i j : ℕ) (g : SegmentRow → Bool) (f : SegmentRow → SegmentRow) (rows : List SegmentRow)
    → ((r : SegmentRow) → (f r).id ≡ r.id)
    → select_where (λ r. r.id == j) (update_where (λ r. (r.id == i) && g r) f rows) ≡ (
        if i == j
        then update_where g f (select_where (λ r. r.id == j) rows)
        else select_where (λ r. r.id == j) rows)
unfolding select_where update_where
select-update_some i j g f [] keep = ground arith
select-update_some i j g f (r ∷ rows) keep =
    ground (arith, keep r, select-update_some i j g f rows keep)

pub find-forget :
    (k j : SegmentKey) (actives : Actives)
    → find_segment j (forget k actives) ≡ (if key_eq k j then none else find_segment j actives)
unfolding find_segment delete_where
find-forget k j [] = ground arith
find-forget k j ((i, id) ∷ actives) = ground (arith, find-forget k j actives)

pub key_eq_refl : (k : SegmentKey) → key_eq k k ≡ true
key_eq_refl k = rw (==-refl k.unified_id, ==-refl k.conjoined_part, ==-refl k.segment_num)
