-- ===== src/GarbageCollector/Partitions.antt =====
-- `generate_candidate_partitions` of garbage_collector/candidate_partition_generator.py: the rows of
-- the query, grouped by collection and key. The rows come from the database.
use nimbus_io.Prelude.{
  ℕ, ◌+◌, ◌≡◌, refl, ap, sym, Bool, true, false, ◌&&◌, List, [], ◌∷◌, ◌++◌, ◌==◌, if◌then◌else◌,
  text_eq, length, All, All-append, append_assoc, Bool-cases, inl, inr, text_eq→eq, text_eq_refl,
  subst, ◌∙◌, arith,
}
use nimbus_io.Prelude.Exec.{Result, ok, err, assertion_error}
use nimbus_io.GarbageCollector.Evaluate.{PartitionEntry}

abbrev pub same_key : PartitionEntry → PartitionEntry → Bool
same_key a b = (a.collection_id == b.collection_id) && text_eq a.key b.key

-- the two assertions of `_test_partition`
numbered_from : ℕ → List PartitionEntry → Bool
numbered_from n [] = true
numbered_from n (e ∷ p) = (e.key_row_number == n) && numbered_from (n + 1) p

counted_as : ℕ → List PartitionEntry → Bool
counted_as n [] = true
counted_as n (e ∷ p) = (e.key_row_count == n) && counted_as n p

unfoldable pub test_partition : List PartitionEntry → Bool
unfolding numbered_from counted_as
test_partition p = numbered_from 1 p && counted_as (length p) p

-- The partitions that have been yielded, and whether an assertion has failed since.
abbrev pub Generated : Type 0
Generated = List (List PartitionEntry) × Result (Unit {0})

abbrev yield_first : List PartitionEntry → Generated → Generated
yield_first p (ps, r) = if test_partition p then (p ∷ ps, r) else ([], err assertion_error)

-- The loop, with the partition so far (its first entry, and the others), whose id is that of its
-- first entry.
unfoldable pub generate_from :
    PartitionEntry → List PartitionEntry → List PartitionEntry → Generated
generate_from first others [] = yield_first (first ∷ others) ([], ok tt)
generate_from first others (entry ∷ rows) =
    let continued = generate_from first (others ++ entry ∷ []) rows in
    let next = generate_from entry [] rows in
    if same_key entry first then continued else yield_first (first ∷ others) next

unfoldable pub generate_candidate_partitions : List PartitionEntry → Generated
generate_candidate_partitions [] = ([], ok tt)
generate_candidate_partitions (entry ∷ rows) = generate_from entry [] rows

abbrev pub flat : List (List PartitionEntry) → List PartitionEntry
flat [] = []
flat (p ∷ ps) = p ++ flat ps

-- Partitions that follow one with the key of `e`: each holds the rows of one key, which is not
-- that of the partition before it, and passes the assertions.
abbrev AreNextTested : PartitionEntry → List (List PartitionEntry) → Type 0
AreNextTested e [] = Unit
AreNextTested e ([] ∷ ps) = ⊥
AreNextTested e ((f ∷ p) ∷ ps) =
    (same_key f e ≡ false)
    × All (λ x. same_key x f ≡ true) p
    × (test_partition (f ∷ p) ≡ true)
    × AreNextTested f ps

abbrev AreTested : List (List PartitionEntry) → Type 0
AreTested [] = Unit
AreTested ([] ∷ ps) = ⊥
AreTested ((f ∷ p) ∷ ps) =
    All (λ x. same_key x f ≡ true) p × (test_partition (f ∷ p) ≡ true) × AreNextTested f ps

record Grouped (first : PartitionEntry) (all : List PartitionEntry)
    (ps : List (List PartitionEntry)) : Type 0 where
  members : List PartitionEntry
  others : List (List PartitionEntry)
  shape : ps ≡ (first ∷ members) ∷ others
  same : All (λ x. same_key x first ≡ true) members
  tested : test_partition (first ∷ members) ≡ true
  next : AreNextTested first others
  whole : flat ps ≡ first ∷ all

yield_first-ok :
    (p : List PartitionEntry) (g : Generated) (ps : List (List PartitionEntry))
    → yield_first p g ≡ (ps, ok tt)
    → (test_partition p ≡ true) × (ps ≡ p ∷ g.0) × (g ≡ (g.0, ok tt))
yield_first-ok p (qs, r) ps h = elim (Bool-cases (test_partition p)) [
  | inl e ↦
      let h' : (p ∷ qs, r) ≡ (ps, ok tt) = rw e at h in
      (e, ap (λ (t : Generated). t.0) (sym h'), ap (λ (t : Generated). (qs, t.1)) h')
  | inr e ↦
      let failed : Generated = ([], err assertion_error) in
      let h' : failed ≡ (ps, ok tt) = rw e at h in
      let impossible : failed.1 ≡ ok tt = ap (λ (t : Generated). t.1) h' in cc
]

generate_from-Grouped :
    (first : PartitionEntry) (others rows : List PartitionEntry) (ps : List (List PartitionEntry))
    → generate_from first others rows ≡ (ps, ok tt)
    → All (λ x. same_key x first ≡ true) others
    → Grouped first (others ++ rows) ps
unfolding generate_from
generate_from-Grouped first others [] ps h same =
    let (tested, shape, _) = yield_first-ok (first ∷ others) ([], ok tt) ps h in
    record {
      members = others;
      others = [];
      shape = shape;
      same = same;
      tested = tested;
      next = tt;
      whole = rw shape;
    }
generate_from-Grouped first others (entry ∷ rows) ps h same =
    elim (Bool-cases (same_key entry first)) [
      | inl e ↦ rw (sym (append_assoc others (entry ∷ []) rows)) (
          generate_from-Grouped first (others ++ entry ∷ []) rows ps (rw e at h)
            (All-append (λ x. same_key x first ≡ true) others (entry ∷ []) same (e, tt)))
      | inr e ↦
          let (tested, shape, rest) =
            yield_first-ok (first ∷ others) (generate_from entry [] rows) ps (rw e at h) in
          let g = generate_from-Grouped entry [] rows (generate_from entry [] rows).0 rest tt in
          record {
            members = others;
            others = (generate_from entry [] rows).0;
            shape = shape;
            same = same;
            tested = tested;
            next = rw g.shape (e, g.same, g.tested, g.next);
            whole = rw shape (ap (λ l. first ∷ (others ++ l)) g.whole);
          }
    ]

-- The two rows are of one key of one collection.
abbrev pub SameKey : PartitionEntry → PartitionEntry → Type 0
SameKey a b = (a.collection_id ≡ b.collection_id) × (a.key ≡ b.key)

-- The rows have the numbers from `n` on, and all tell that they are `count`.
abbrev pub AreNumbered : ℕ → ℕ → List PartitionEntry → Type 0
AreNumbered count n [] = Unit
AreNumbered count n (e ∷ p) =
    (e.key_row_number ≡ n) × (e.key_row_count ≡ count) × AreNumbered count (n + 1) p

-- The rows of one key, that of `f`, numbered and counted.
abbrev pub IsPartition : PartitionEntry → List PartitionEntry → Type 0
IsPartition f p = All (λ x. SameKey x f) p × AreNumbered (length (f ∷ p)) 1 (f ∷ p)

-- Partitions that follow one with the key of `e`: each is of another key than the one before it.
abbrev pub AreNext : PartitionEntry → List (List PartitionEntry) → Type 0
AreNext e [] = Unit
AreNext e ([] ∷ ps) = ⊥
AreNext e ((f ∷ p) ∷ ps) = (¬ SameKey f e) × IsPartition f p × AreNext f ps

abbrev pub ArePartitions : List (List PartitionEntry) → Type 0
ArePartitions [] = Unit
ArePartitions ([] ∷ ps) = ⊥
ArePartitions ((f ∷ p) ∷ ps) = IsPartition f p × AreNext f ps

same_key→SameKey : (a b : PartitionEntry) → same_key a b ≡ true → SameKey a b
same_key→SameKey a b h = (ground (arith, h), text_eq→eq a.key b.key (ground (arith, h)))

SameKey→same_key : (a b : PartitionEntry) → SameKey a b → same_key a b ≡ true
SameKey→same_key a b (c, k) =
    let same : text_eq a.key b.key ≡ true =
      subst (λ t. text_eq a.key t ≡ true) k (text_eq_refl a.key) in
    ground (arith, c, same)

all_same :
    (f : PartitionEntry) (p : List PartitionEntry)
    → All (λ x. same_key x f ≡ true) p
    → All (λ x. SameKey x f) p
all_same f [] h = tt
all_same f (x ∷ p) (e, h) = (same_key→SameKey x f e, all_same f p h)

numbered-AreNumbered :
    (count n : ℕ) (p : List PartitionEntry)
    → numbered_from n p ≡ true
    → counted_as count p ≡ true
    → AreNumbered count n p
unfolding numbered_from counted_as
numbered-AreNumbered count n [] h k = tt
numbered-AreNumbered count n (e ∷ p) h k = (
  ground (arith, h),
  ground (arith, k),
  numbered-AreNumbered count (n + 1) p (ground (arith, h)) (ground (arith, k)),
)

tested-IsPartition :
    (f : PartitionEntry) (p : List PartitionEntry)
    → All (λ x. same_key x f ≡ true) p
    → test_partition (f ∷ p) ≡ true
    → IsPartition f p
unfolding test_partition
tested-IsPartition f p same h = (
  all_same f p same,
  numbered-AreNumbered (length (f ∷ p)) 1 (f ∷ p) (ground (arith, h)) (ground (arith, h)),
)

tested-AreNext :
    (e : PartitionEntry) (ps : List (List PartitionEntry)) → AreNextTested e ps → AreNext e ps
tested-AreNext e [] h = tt
tested-AreNext e ([] ∷ ps) h = h
tested-AreNext e ((f ∷ p) ∷ ps) (other, same, tested, next) = (
  (λ s.
      let both : true ≡ false = sym (SameKey→same_key f e s) ∙ other in
      absurd (ground (arith, both))),
  tested-IsPartition f p same tested,
  tested-AreNext f ps next,
)

tested-ArePartitions : (ps : List (List PartitionEntry)) → AreTested ps → ArePartitions ps
tested-ArePartitions [] h = tt
tested-ArePartitions ([] ∷ ps) h = h
tested-ArePartitions ((f ∷ p) ∷ ps) (same, tested, next) =
    (tested-IsPartition f p same tested, tested-AreNext f ps next)

-- When no assertion fails, the partitions are the rows of the query cut into pieces: no row is
-- lost or moved, the rows of a piece have one collection and key, neighbouring pieces have
-- different ones, and the rows of each are numbered from 1 and counted as the query tells.
pub generate_candidate_partitions-whole :
    (rows : List PartitionEntry) (ps : List (List PartitionEntry))
    → generate_candidate_partitions rows ≡ (ps, ok tt)
    → (flat ps ≡ rows) × ArePartitions ps
unfolding generate_candidate_partitions
generate_candidate_partitions-whole [] ps h =
    let e : ps ≡ [] = ap (λ (t : Generated). t.0) (sym h) in rw e (refl, tt)
generate_candidate_partitions-whole (entry ∷ rows) ps h =
    let g = generate_from-Grouped entry [] rows ps h tt in
    (g.whole, tested-ArePartitions ps (rw g.shape (g.same, g.tested, g.next)))
