-- ===== src/GarbageCollector/Evaluate/Rules.antt =====
-- The decision rules for a row, stated of the rows that are newer, and the loop's agreement with
-- them.
use nimbus_io.Prelude.{
  ℕ, ◌+◌, ◌≤◌, ◌≡◌, refl, ap, ◌∙◌, Bool, false, not, ◌&&◌, ◌||◌, Option, none, some, List, [], ◌∷◌,
  ◌++◌, ltb, if◌then◌else◌, is_none, opt_eq, arith, All, append-nil, Option-cases, inl, inr,
}
use mathlib.Core.List.{reverse, reverse-append}
use nimbus_io.Prelude.Tables.{any_where}
use nimbus_io.Prelude.Exec.{ok}
use nimbus_io.Database.{
  Status, active, cancelled, final, tombstone, is_active, is_cancelled, is_final, is_tombstone,
}
use nimbus_io.GarbageCollector.Evaluate.{
  PartitionEntry, Evaluation, contains, evaluate_version, evaluate_entry, evaluate_entries,
  evaluate_partition, start,
}

-- a tombstone of every older version
abbrev pub deletes_all : PartitionEntry → Bool
deletes_all e = is_tombstone e.status && is_none e.file_tombstone_unified_id

-- a tombstone of the version `unified_id`
abbrev pub names : ℕ → PartitionEntry → Bool
names unified_id e = is_tombstone e.status && opt_eq e.file_tombstone_unified_id (some unified_id)

-- Among the newer rows, nearest first, a version that no tombstone names and that is later than
-- `unified_id`.
unfoldable pub later_version : List PartitionEntry → ℕ → Bool
later_version [] unified_id = false
later_version (e ∷ newer) unified_id =
    let rest = later_version newer unified_id in
    (is_final e.status && not (any_where (names e.unified_id) newer) && ltb unified_id e.unified_id)
    || rest

-- Collectable for a reason that is counted.
abbrev pub is_counted : Bool → List PartitionEntry → PartitionEntry → Bool
is_counted versioned newer e =
    not (is_tombstone e.status)
    && (if any_where deletes_all newer
        then not (is_active e.status)
        else any_where (names e.unified_id) newer
          || (not versioned && is_final e.status && later_version newer e.unified_id))

-- A row is collectable if it is counted or cancelled.
abbrev pub is_collectable : Bool → List PartitionEntry → PartitionEntry → Bool
is_collectable versioned newer e = is_counted versioned newer e || is_cancelled e.status

-- The collectable ids of a partition, the newest first. The rows behind a row are the newer ones.
unfoldable pub collectable : Bool → List PartitionEntry → List ℕ
collectable versioned [] = []
collectable versioned (e ∷ newer) =
    collectable versioned newer
    ++ (if is_collectable versioned newer e then e.segment_id ∷ [] else [])

unfoldable pub count : Bool → List PartitionEntry → ℕ
count versioned [] = 0
count versioned (e ∷ newer) =
    count versioned newer + (if is_counted versioned newer e then 1 else 0)

-- The version that the loop holds to be the latest.
unfoldable pub latest : List PartitionEntry → Option ℕ
latest [] = none
latest (e ∷ newer) = elim (latest newer) [
  | some l ↦ some l
  | none ↦
      if is_final e.status && not (any_where (names e.unified_id) newer)
      then some e.unified_id
      else none
]

-- Ids from the nearest to the newest.
abbrev pub IsAscending : List PartitionEntry → Type 0
IsAscending [] = Unit
IsAscending (e ∷ newer) = All (λ l. e.unified_id ≤ l.unified_id) newer × IsAscending newer

abbrev after_latest : Option ℕ → ℕ → Bool
after_latest none a = false
after_latest (some l) a = ltb a l

latest-le :
    (a : ℕ) (newer : List PartitionEntry) (l : ℕ)
    → All (λ e. a ≤ e.unified_id) newer
    → latest newer ≡ some l
    → a ≤ l
unfolding latest
latest-le a [] l h e = cc
latest-le a (x ∷ newer) l h e = ground (arith, latest-le a newer l h.1)

-- Since the ids ascend, the latest version decides.
later_version-latest :
    (newer : List PartitionEntry) (a : ℕ)
    → IsAscending newer
    → later_version newer a ≡ after_latest (latest newer) a
unfolding later_version latest
later_version-latest [] a h = refl
later_version-latest (e ∷ newer) a h = elim (Option-cases (latest newer)) [
  | inl no_version ↦ ground (arith, later_version-latest newer a h.1)
  | inr (l, found) ↦
      ground (arith, later_version-latest newer a h.1, latest-le e.unified_id newer l h.0 found)
]

-- What the loop's variables say of the rows that it has passed. They are not kept up after a
-- tombstone of everything, and the latest version not where there is versioning.
record Agrees (versioned : Bool) (newer : List PartitionEntry) (v : Evaluation) : Type 0 where
  rest : v.collect_the_rest ≡ any_where deletes_all newer
  named :
      any_where deletes_all newer ≡ false
      → (a : ℕ) → contains v.collect_unified_ids a ≡ any_where (names a) newer
  version :
      any_where deletes_all newer ≡ false
      → versioned ≡ false
      → v.latest_version_unified_id ≡ latest newer

module _ (versioned : Bool) (newer : List PartitionEntry) (e : PartitionEntry) (v : Evaluation)
    (g : Agrees versioned newer v) where
  abbrev v' : Evaluation
  v' = evaluate_entry versioned e v

  rest-entry : v'.collect_the_rest ≡ any_where deletes_all (e ∷ newer)
  unfolding evaluate_entry evaluate_version any_where
  rest-entry = ground (arith, g.rest)

  named-entry :
      any_where deletes_all (e ∷ newer) ≡ false
      → (a : ℕ) → contains v'.collect_unified_ids a ≡ any_where (names a) (e ∷ newer)
  unfolding evaluate_entry evaluate_version any_where contains
  named-entry h a = ground (arith, g.rest, λ (x : any_where deletes_all newer ≡ false). g.named x a)

  version-entry :
      any_where deletes_all (e ∷ newer) ≡ false
      → versioned ≡ false
      → v'.latest_version_unified_id ≡ latest (e ∷ newer)
  unfolding evaluate_entry evaluate_version any_where latest
  version-entry h u = ground (
    arith,
    g.rest,
    g.version,
    λ (x : any_where deletes_all newer ≡ false). g.named x e.unified_id,
  )

  ids-entry :
      IsAscending (e ∷ newer)
      → v'.collectable_segment_ids
        ≡ v.collectable_segment_ids
          ++ (if is_collectable versioned newer e then e.segment_id ∷ [] else [])
  unfolding evaluate_entry evaluate_version
  ids-entry h = ground (
    arith,
    g.rest,
    g.version,
    λ (x : any_where deletes_all newer ≡ false). g.named x e.unified_id,
    later_version-latest newer e.unified_id h.1,
    append-nil v.collectable_segment_ids,
  )

  count-entry :
      IsAscending (e ∷ newer)
      → v'.collectable_count ≡ v.collectable_count + (if is_counted versioned newer e then 1 else 0)
  unfolding evaluate_entry evaluate_version
  count-entry h = ground (
    arith,
    g.rest,
    g.version,
    λ (x : any_where deletes_all newer ≡ false). g.named x e.unified_id,
    later_version-latest newer e.unified_id h.1,
  )

evaluate_entries-append :
    (versioned : Bool) (xs ys : List PartitionEntry) (v : Evaluation)
    → evaluate_entries versioned (xs ++ ys) v
      ≡ evaluate_entries versioned ys (evaluate_entries versioned xs v)
unfolding evaluate_entries
evaluate_entries-append versioned [] ys v = refl
evaluate_entries-append versioned (x ∷ xs) ys v =
    evaluate_entries-append versioned xs ys (evaluate_entry versioned x v)

abbrev evaluated : Bool → List PartitionEntry → Evaluation
evaluated versioned p = evaluate_entries versioned (reverse p) start

-- The oldest row is evaluated last.
evaluated-cons :
    (versioned : Bool) (e : PartitionEntry) (newer : List PartitionEntry)
    → evaluated versioned (e ∷ newer) ≡ evaluate_entry versioned e (evaluated versioned newer)
unfolding evaluate_entries
evaluated-cons versioned e newer =
    ap (λ l. evaluate_entries versioned l start) (reverse-append (e ∷ []) newer)
    ∙ evaluate_entries-append versioned (reverse newer) (e ∷ []) start

module _ (versioned : Bool) where
  evaluated-Agrees : (p : List PartitionEntry) → Agrees versioned p (evaluated versioned p)
  unfolding evaluate_entries any_where contains latest
  evaluated-Agrees [] = record { rest = refl; named = λ h a. refl; version = λ h u. refl }
  evaluated-Agrees (e ∷ newer) =
      let g : Agrees versioned newer (evaluated versioned newer) = evaluated-Agrees newer in
      rw (evaluated-cons versioned e newer) (record {
        rest = rest-entry versioned newer e (evaluated versioned newer) g;
        named = named-entry versioned newer e (evaluated versioned newer) g;
        version = version-entry versioned newer e (evaluated versioned newer) g;
      })

  ids-evaluated :
      (p : List PartitionEntry)
      → IsAscending p
      → (evaluated versioned p).collectable_segment_ids ≡ collectable versioned p
  unfolding evaluate_entries collectable
  ids-evaluated [] h = refl
  ids-evaluated (e ∷ newer) h = rw (evaluated-cons versioned e newer) (
      ids-entry versioned newer e (evaluated versioned newer) (evaluated-Agrees newer) h
      ∙ (rw (ids-evaluated newer h.1)))

  count-evaluated :
      (p : List PartitionEntry)
      → IsAscending p
      → (evaluated versioned p).collectable_count ≡ count versioned p
  unfolding evaluate_entries count
  count-evaluated [] h = refl
  count-evaluated (e ∷ newer) h = rw (evaluated-cons versioned e newer) (
      count-entry versioned newer e (evaluated versioned newer) (evaluated-Agrees newer) h
      ∙ (rw (count-evaluated newer h.1)))

-- The decision rules of the docstring: a row that is no tombstone and not active, if it is cancelled, or
-- there is a newer tombstone of everything, or one that names it, or it is final, without versioning,
-- and a later version exists, of those that no tombstone names.
abbrev pub is_documented : Bool → List PartitionEntry → PartitionEntry → Bool
is_documented versioned newer e =
    not (is_tombstone e.status)
    && not (is_active e.status)
    && (is_cancelled e.status
        || any_where deletes_all newer
        || any_where (names e.unified_id) newer
        || (not versioned && is_final e.status && later_version newer e.unified_id))

-- What the code collects besides, though the docstring says that active rows are never collectable: an
-- active row that a newer tombstone names, without a newer tombstone of everything.
abbrev pub is_named_active : List PartitionEntry → PartitionEntry → Bool
is_named_active newer e =
    is_active e.status && not (any_where deletes_all newer) && any_where (names e.unified_id) newer

-- the ids of such rows, the newest first
unfoldable pub collected : Bool → List PartitionEntry → List ℕ
collected versioned [] = []
collected versioned (e ∷ newer) =
    collected versioned newer
    ++ (if is_documented versioned newer e || is_named_active newer e
        then e.segment_id ∷ []
        else [])

by_the_rules :
    (status : Status) (deleted named later versioned : Bool)
    → ((not (is_tombstone status)
          && (if deleted
              then not (is_active status)
              else named || (not versioned && is_final status && later)))
        || is_cancelled status)
      ≡ ((not (is_tombstone status)
            && not (is_active status)
            && (is_cancelled status
                || deleted
                || named
                || (not versioned && is_final status && later)))
          || (is_active status && not deleted && named))
by_the_rules active deleted named later versioned = ground arith
by_the_rules cancelled deleted named later versioned = ground arith
by_the_rules final deleted named later versioned = ground arith
by_the_rules tombstone deleted named later versioned = ground arith

collectable-collected :
    (versioned : Bool) (p : List PartitionEntry) → collectable versioned p ≡ collected versioned p
unfolding collectable collected
collectable-collected versioned [] = refl
collectable-collected versioned (e ∷ newer) = λ i.
    collectable-collected versioned newer i
    ++ (if by_the_rules e.status (any_where deletes_all newer)
          (any_where (names e.unified_id) newer) (later_version newer e.unified_id) versioned i
        then e.segment_id ∷ []
        else [])

-- For a partition in the order of its unified ids, `_evaluate_partition` writes the ids of exactly
-- the rows that the decision rules of its docstring name and, which the docstring denies, of the active
-- rows that a newer tombstone names when there is no newer tombstone of everything. It returns how
-- many were written for another reason than their cancellation.
pub evaluate_partition-collectable :
    (entry : PartitionEntry) (entries : List PartitionEntry) (versioned : Bool)
    → IsAscending (entry ∷ entries)
    → evaluate_partition (entry ∷ entries) versioned
      ≡ ok (collected versioned (entry ∷ entries), count versioned (entry ∷ entries))
unfolding evaluate_partition
evaluate_partition-collectable entry entries versioned h = rw (
  ids-evaluated versioned (entry ∷ entries) h,
  count-evaluated versioned (entry ∷ entries) h,
  collectable-collected versioned (entry ∷ entries),
)
