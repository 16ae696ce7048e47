-- ===== src/Defragger/Removal.antt =====
-- The end of a pass: the input files are removed, and no row is left in them.
use nimbus_io.Prelude.{
  ℕ, ◌≤◌, ◌<◌, ◌≡◌, ◌⊎◌, refl, sym, ap, ◌∙◌, Bool, true, false, not, ◌&&◌, inl, inr, none, some,
  List, [], ◌∷◌, ◌==◌, ltb, ltb→lt, Bytes, arith, Bool-cases, All, is_none,
}
use nimbus_io.Prelude.Tables.{any_where}
use nimbus_io.Repository.{Disk}
use nimbus_io.Database.{SequenceRow}
use nimbus_io.DataReader.Reader.{read_sequence}
use nimbus_io.DataWriter.ValueFile.{Storage}
use nimbus_io.Defragger.{is_among, remove_input, remove_inputs, are_there}
use nimbus_io.Defragger.Rows.{IsKept, read_sequence-stored}
use nimbus_io.Defragger.Output.{sequence_rows, AreKept}

-- the row with the key of a row of before, which reads the same
pub record IsRead (disk_before disk : Disk) (old new : SequenceRow) : Type 0 where
  pub collection : new.collection_id ≡ old.collection_id
  pub segment : new.segment_id ≡ old.segment_id
  pub sequence : new.sequence_num ≡ old.sequence_num
  pub content : Bytes
  pub before : read_sequence disk_before old ≡ some content
  pub after : read_sequence disk new ≡ some content

abbrev pub AreRead : Disk → Disk → List SequenceRow → List SequenceRow → Type 0
AreRead disk_before disk [] [] = Unit
AreRead disk_before disk [] (new ∷ news) = ⊥
AreRead disk_before disk (old ∷ olds) [] = ⊥
AreRead disk_before disk (old ∷ olds) (new ∷ news) =
    IsRead disk_before disk old new × AreRead disk_before disk olds news

pub remove_inputs-gone :
    (ids : List ℕ) (s : Storage) (i : ℕ)
    → (is_among ids i ≡ true) ⊎ (s.disk i ≡ none)
    → (remove_inputs ids s).disk i ≡ none
unfolding remove_inputs any_where
remove_inputs-gone [] s i (inl among) = absurd (ground (arith, among))
remove_inputs-gone [] s i (inr gone) = gone
remove_inputs-gone (id ∷ ids) s i h =
    remove_inputs-gone ids (remove_input id s) i (elim (Bool-cases (id == i)) [
      | inl here ↦ inr (rw here refl)
      | inr there ↦ elim h [ inl among ↦ inl (rw there at among) | inr gone ↦ inr (rw there gone) ]
    ])

pub remove_inputs-stays :
    (ids : List ℕ) (s : Storage) (i : ℕ)
    → is_among ids i ≡ false
    → (remove_inputs ids s).disk i ≡ s.disk i
unfolding remove_inputs any_where
remove_inputs-stays [] s i h = refl
remove_inputs-stays (id ∷ ids) s i h =
    let other : (id == i) ≡ false = ground (arith, h) in
    remove_inputs-stays ids (remove_input id s) i (rw other at h) ∙ rw other refl

pub remove_inputs-rows :
    (ids : List ℕ) (s : Storage) → sequence_rows (remove_inputs ids s) ≡ sequence_rows s
unfolding remove_inputs
remove_inputs-rows [] s = refl
remove_inputs-rows (id ∷ ids) s = remove_inputs-rows ids (remove_input id s)

both_right : (a b : Bool) → (a && b) ≡ true → b ≡ true
both_right true b h = h
both_right false b h = absurd (ground (arith, h))

pub are_there-known :
    (disk : Disk) (ids : List ℕ) (n i : ℕ)
    → are_there disk ids ≡ true
    → ((j : ℕ) → n ≤ j → disk j ≡ none)
    → is_among ids i ≡ true
    → i < n
unfolding are_there any_where
are_there-known disk [] n i there fresh among = absurd (ground (arith, among))
are_there-known disk (id ∷ ids) n i there fresh among = elim (Bool-cases (id == i)) [
  | inr other ↦
      are_there-known disk ids n i (both_right (not (is_none (disk id))) (are_there disk ids) there)
        fresh (rw other at among)
  | inl same ↦ elim (Bool-cases (ltb i n)) [
    | inl below ↦ ltb→lt i n below
    | inr above ↦
        let number : id ≡ i = ground (arith, same) in
        let gone : disk id ≡ none = ap disk number ∙ fresh i (ground (arith, above)) in
        let absent : false ≡ true = (rw gone at there) in absurd (ground (arith, absent))
  ]
]

module _ (disk_before disk disk' : Disk) (ids : List ℕ)
    (stays : (i : ℕ) → is_among ids i ≡ false → disk' i ≡ disk i) where
  kept-IsRead :
      (old new : SequenceRow) (bytes : Bytes)
      → read_sequence disk_before old ≡ some bytes
      → IsKept disk_before disk ids [] old new
      → IsRead disk_before disk' old new
  unfolding any_where
  kept-IsRead old new bytes e k = record {
    collection = k.collection;
    segment = k.segment;
    sequence = k.sequence;
    content = bytes;
    before = e;
    after =
        read_sequence-stored disk' new k.content (stays new.value_file_id not_input ∙ k.stored)
        ∙ sym (read_sequence-stored disk new k.content k.stored)
        ∙ k.reads
        ∙ e;
  }
    where
      not_input : is_among ids new.value_file_id ≡ false
      not_input = elim (Bool-cases (is_among ids new.value_file_id)) [
        | inr other ↦ other
        | inl among ↦ absurd (ground (arith, k.pending among))
      ]

  pub kept-AreRead :
      (olds news : List SequenceRow)
      → All (λ q. (bytes : Bytes) × (read_sequence disk_before q ≡ some bytes)) olds
      → AreKept disk_before disk ids [] olds news
      → AreRead disk_before disk' olds news
  kept-AreRead [] [] there h = tt
  kept-AreRead [] (new ∷ news) there h = h
  kept-AreRead (old ∷ olds) [] there h = h
  kept-AreRead (old ∷ olds) (new ∷ news) ((bytes, e), there) (k, h) =
      (kept-IsRead old new bytes e k, kept-AreRead olds news there h)
