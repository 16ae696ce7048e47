-- ===== src/GarbageCollector/Archiver.antt =====
-- garbage_collector/archiver.py: the removal of the collected rows in one transaction. `is_old` is
-- the database's test of a tombstone's age against `max_node_offline_time`.
use nimbus_io.Prelude.{
  ℕ, ◌≡◌, refl, Bool, false, ◌&&◌, ◌||◌, not, List, [], ◌∷◌, ◌++◌, ◌==◌, Bool-cases, inl, inr,
  append_assoc, ◌<◌, ◌≤◌, ◌+◌, ◌⊎◌, length, arith,
}
use mathlib.Core.List.Perm
use mathlib.Core.List.{Perm, perm_middle, perm_append_comm}
use nimbus_io.Prelude.Tables.{select_where, delete_where, any_where}
use nimbus_io.Prelude.Exec.{Exec, Result, Error, ok, err, pure, ◌>>◌}
use nimbus_io.Tools.Timestamp.{Timestamp}
use nimbus_io.Database.{is_tombstone, SegmentRow, SequenceRow}

pub record Tables : Type 0 where
  pub segment : List SegmentRow
  pub segment_sequence : List SequenceRow
  pub segment_archived : List SegmentRow

pub record Connection : Type 0 where
  pub current : Tables
  pub durable : Tables

-- where exists (select 1 from nimbusio_collectable_segments ...)
abbrev pub is_listed : List ℕ → ℕ → Bool
is_listed ids id = any_where (λ a. a == id) ids

-- insert into segment_archived select ...; delete from segment ...
unfoldable pub archive_where : (SegmentRow → Bool) → Tables → Tables
archive_where p t = record t {
  segment = delete_where p t.segment;
  segment_archived = t.segment_archived ++ select_where p t.segment;
}

unfoldable pub delete_segment_sequences : List ℕ → Tables → Tables
delete_segment_sequences ids t = record t {
  segment_sequence = delete_where (λ q. is_listed ids q.segment_id) t.segment_sequence;
}

abbrev pub is_old_tombstone : (Timestamp → Bool) → SegmentRow → Bool
is_old_tombstone is_old r = is_tombstone r.status && is_old r.timestamp

-- what the statements leave when all are carried out
abbrev pub archive_rows : List ℕ → (Timestamp → Bool) → Tables → Tables
archive_rows ids is_old t =
    archive_where (is_old_tombstone is_old)
      (delete_segment_sequences ids (archive_where (λ r. is_listed ids r.id) t))

-- One statement of the transaction, which the database carries out or refuses as a whole; `faults`
-- tells the outcome of each.
abbrev pub settle : Result (Unit {0}) → (Tables → Tables) → Exec Connection (Unit {0})
settle (ok _) f c = (ok tt, record c { current = f c.current })
settle (err e) f c = (err e, c)

unfoldable pub execute_all :
    (ℕ → Result (Unit {0})) → ℕ → List (Tables → Tables) → Exec Connection (Unit {0})
execute_all faults n [] = pure tt
execute_all faults n (f ∷ fs) = settle (faults n) f >> execute_all faults (n + 1) fs

-- `_archive_collectable_segment_rows`. The first three statements fill and index a temporary table
-- of the connection, which here is the list of ids.
abbrev pub statements : List ℕ → (Timestamp → Bool) → List (Tables → Tables)
statements ids is_old =
    (λ t. t)
    ∷ (λ t. t)
    ∷ (λ t. t)
    ∷ archive_where (λ r. is_listed ids r.id)
    ∷ delete_segment_sequences ids
    ∷ archive_where (is_old_tombstone is_old)
    ∷ []

-- try, except with rollback and raise, else commit
abbrev pub conclude : Result (Unit {0}) → Exec Connection (Unit {0})
conclude (ok _) c = (ok tt, record c { durable = c.current })
conclude (err e) c = (err e, record c { current = c.durable })

abbrev pub in_transaction : Exec Connection (Unit {0}) → Exec Connection (Unit {0})
in_transaction m c = let (r, c') = m c in conclude r c'

unfoldable pub archive_collectable_segment_rows :
    List ℕ → (Timestamp → Bool) → (ℕ → Result (Unit {0})) → Exec Connection (Unit {0})
archive_collectable_segment_rows ids is_old faults =
    in_transaction (execute_all faults 0 (statements ids is_old))

delete-select-perm :
    (p : SegmentRow → Bool) (rows : List SegmentRow)
    → Perm (delete_where p rows ++ select_where p rows) rows
unfolding delete_where select_where
delete-select-perm p [] = Perm.refl []
delete-select-perm p (r ∷ rows) = elim (Bool-cases (p r)) [
  | inl e ↦ rw e (
      Perm.trans (perm_middle (delete_where p rows) (select_where p rows))
        (Perm.cons r (delete-select-perm p rows)))
  | inr e ↦ rw e (Perm.cons r (delete-select-perm p rows))
]

archive_where-perm :
    (p : SegmentRow → Bool) (t : Tables)
    → Perm
        ((archive_where p t).segment ++ (archive_where p t).segment_archived)
        (t.segment ++ t.segment_archived)
unfolding archive_where
archive_where-perm p t =
    Perm.trans
      (Perm.append_left (delete_where p t.segment)
        (perm_append_comm t.segment_archived (select_where p t.segment)))
      (rw (← append_assoc (delete_where p t.segment) (select_where p t.segment) t.segment_archived)
        (Perm.append_right t.segment_archived (delete-select-perm p t.segment)))

archive_rows-perm :
    (ids : List ℕ) (is_old : Timestamp → Bool) (t : Tables)
    → Perm
        ((archive_rows ids is_old t).segment ++ (archive_rows ids is_old t).segment_archived)
        (t.segment ++ t.segment_archived)
unfolding delete_segment_sequences
archive_rows-perm ids is_old t =
    Perm.trans
      (archive_where-perm (is_old_tombstone is_old)
        (delete_segment_sequences ids (archive_where (λ r. is_listed ids r.id) t)))
      (archive_where-perm (λ r. is_listed ids r.id) t)

-- whether an id is among those that are listed
abbrev pub listed : List ℕ → ℕ → Bool
listed [] id = false
listed (a ∷ ids) id = (a == id) || listed ids id

is_listed-listed : (ids : List ℕ) (id : ℕ) → is_listed ids id ≡ listed ids id
unfolding any_where
is_listed-listed [] id = refl
is_listed-listed (a ∷ ids) id = ground (arith, is_listed-listed ids id)

delete-select :
    (ids : List ℕ) (rows : List SequenceRow)
    → delete_where (λ q. is_listed ids q.segment_id) rows
      ≡ select_where (λ q. not (listed ids q.segment_id)) rows
unfolding delete_where select_where
delete-select ids [] = refl
delete-select ids (q ∷ rows) =
    ground (arith, delete-select ids rows, is_listed-listed ids q.segment_id)

delete-delete-select :
    (ids : List ℕ) (is_old : Timestamp → Bool) (rows : List SegmentRow)
    → delete_where (is_old_tombstone is_old) (delete_where (λ r. is_listed ids r.id) rows)
      ≡ select_where
          (λ r. not (listed ids r.id) && not (is_tombstone r.status && is_old r.timestamp))
          rows
unfolding delete_where select_where
delete-delete-select ids is_old [] = refl
delete-delete-select ids is_old (r ∷ rows) =
    ground (arith, delete-delete-select ids is_old rows, is_listed-listed ids r.id)

archive_rows-segment :
    (ids : List ℕ) (is_old : Timestamp → Bool) (t : Tables)
    → (archive_rows ids is_old t).segment
      ≡ select_where
          (λ r. not (listed ids r.id) && not (is_tombstone r.status && is_old r.timestamp))
          t.segment
unfolding delete_segment_sequences archive_where
archive_rows-segment ids is_old t = delete-delete-select ids is_old t.segment

archive_rows-segment_sequence :
    (ids : List ℕ) (is_old : Timestamp → Bool) (t : Tables)
    → (archive_rows ids is_old t).segment_sequence
      ≡ select_where (λ q. not (listed ids q.segment_id)) t.segment_sequence
unfolding delete_segment_sequences archive_where
archive_rows-segment_sequence ids is_old t = delete-select ids t.segment_sequence

-- the tables after all statements
apply_all : List (Tables → Tables) → Tables → Tables
apply_all [] t = t
apply_all (f ∷ fs) t = apply_all fs (f t)

execute_all-succeeds :
    (faults : ℕ → Result (Unit {0})) (n : ℕ) (fs : List (Tables → Tables)) (c : Connection)
    → ((k : ℕ) → faults k ≡ ok tt)
    → execute_all faults n fs c ≡ (ok tt, record c { current = apply_all fs c.current })
unfolding execute_all apply_all
execute_all-succeeds faults n [] c h = refl
execute_all-succeeds faults n (f ∷ fs) c h =
    rw (h n, execute_all-succeeds faults (n + 1) fs (record c { current = f c.current }) h) refl

-- the outcome of an action: it succeeds, or it raises
Result-cases : (r : Result (Unit {0})) → (r ≡ ok tt) ⊎ ((e : Error) × (r ≡ err e))
Result-cases (ok tt) = inl refl
Result-cases (err e) = inr (e, refl)

succeeded-lt :
    (faults : ℕ → Result (Unit {0})) (n k : ℕ) (e : Error)
    → faults n ≡ ok tt
    → n ≤ k
    → faults k ≡ err e
    → n + 1 ≤ k
succeeded-lt faults n k e done low failed = grind arith

execute_all-fails :
    (faults : ℕ → Result (Unit {0})) (n k : ℕ) (e : Error) (fs : List (Tables → Tables))
    (c : Connection)
    → n ≤ k
    → k < n + length fs
    → faults k ≡ err e
    → let (r, c') = execute_all faults n fs c in
      ((raised : Error) × (r ≡ err raised)) × (c'.durable ≡ c.durable)
unfolding execute_all
execute_all-fails faults n k e [] c low high failed = absurd (omega arith)
execute_all-fails faults n k e (f ∷ fs) c low high failed = elim (Result-cases (faults n)) [
  | inl e' ↦ rw e' (
      execute_all-fails faults (n + 1) k e fs (record c { current = f c.current })
        (succeeded-lt faults n k e e' low failed) (omega arith) failed)
  | inr (raised, e) ↦ rw e ((raised, refl), refl)
]

done_lem :
    (ids : List ℕ) (is_old : Timestamp → Bool) (faults : ℕ → Result (Unit {0})) (c : Connection)
    → ((k : ℕ) → faults k ≡ ok tt)
    → archive_collectable_segment_rows ids is_old faults c ≡ (
      ok tt,
      record c {
        current = archive_rows ids is_old c.current;
        durable = archive_rows ids is_old c.current;
      },
    )
unfolding archive_collectable_segment_rows archive_where apply_all
done_lem ids is_old faults c h = rw (execute_all-succeeds faults 0 (statements ids is_old) c h) refl

-- If every statement succeeds, all is committed. The segment rows that are left are those of before,
-- in their order, without the listed rows and the old tombstones; the sequences that are left are
-- those of before without the ones of listed rows; and the rows of the two tables of segments are
-- together those of before: a row is moved, never lost.
pub archive_collectable_segment_rows-moves :
    (ids : List ℕ) (is_old : Timestamp → Bool) (faults : ℕ → Result (Unit {0})) (c : Connection)
    → ((n : ℕ) → faults n ≡ ok tt)
    → let (r, c') = archive_collectable_segment_rows ids is_old faults c in
      (r ≡ ok tt)
      × (c'.durable ≡ c'.current)
      × (c'.durable.segment
          ≡ select_where
              (λ r. not (listed ids r.id) && not (is_tombstone r.status && is_old r.timestamp))
              c.current.segment)
      × (c'.durable.segment_sequence
          ≡ select_where (λ q. not (listed ids q.segment_id)) c.current.segment_sequence)
      × Perm
          (c'.durable.segment ++ c'.durable.segment_archived)
          (c.current.segment ++ c.current.segment_archived)
archive_collectable_segment_rows-moves ids is_old faults c h = rw (done_lem ids is_old faults c h) (
  refl,
  refl,
  archive_rows-segment ids is_old c.current,
  archive_rows-segment_sequence ids is_old c.current,
  archive_rows-perm ids is_old c.current,
)

-- If any of the six statements fails, an exception is passed on, and nothing of the transaction is
-- left: the tables are those that were committed before.
pub archive_collectable_segment_rows-rollback :
    (ids : List ℕ) (is_old : Timestamp → Bool) (faults : ℕ → Result (Unit {0})) (k : ℕ) (e : Error)
    (c : Connection)
    → k < 6
    → faults k ≡ err e
    → let (r, c') = archive_collectable_segment_rows ids is_old faults c in
      ((raised : Error) × (r ≡ err raised)) × (c'.current ≡ c.durable) × (c'.durable ≡ c.durable)
unfolding archive_collectable_segment_rows
archive_collectable_segment_rows-rollback ids is_old faults k e c h failed =
    let ((raised, eq), kept) =
      execute_all-fails faults 0 k e (statements ids is_old) c (omega arith) h failed in
    rw eq ((raised, refl), kept, kept)
