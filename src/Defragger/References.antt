-- ===== src/Defragger/References.antt =====
-- What the query for the references finds: every row in the input files, and those of handoffs first.
use nimbus_io.Prelude.{
  ℕ, ◌≡◌, refl, ap, ◌∙◌, Bool, true, false, ◌&&◌, ◌||◌, inl, inr, Option, none, some, List, [], ◌∷◌,
  ◌++◌, ◌==◌, if◌then◌else◌, arith, Bool-cases, All, All-append, opt_eq,
}
use nimbus_io.Prelude.Members.{IsIn, IsIn-select_where, select_where-IsIn}
use nimbus_io.Prelude.Tables.{any_where, insert_by, order_by}
use nimbus_io.Database.{SegmentRow, SequenceRow, Tables}
use nimbus_io.Defragger.{
  Reference, Env, is_among, reference_of, handoff_before, reference_before, references_to,
  join_references, query_value_file_references,
}
use nimbus_io.Defragger.Work.{IsOwn, AreOrdered}

module _ {A : Type 0} where
  any_where-append_right :
      (p : A → Bool) (xs ys : List A) → any_where p ys ≡ true → any_where p (xs ++ ys) ≡ true
  unfolding any_where
  any_where-append_right p [] ys h = h
  any_where-append_right p (x ∷ xs) ys h = ground (arith, any_where-append_right p xs ys h)

  any_where-append_left :
      (p : A → Bool) (xs ys : List A) → any_where p xs ≡ true → any_where p (xs ++ ys) ≡ true
  unfolding any_where
  any_where-append_left p [] ys h = absurd (ground (arith, h))
  any_where-append_left p (x ∷ xs) ys h = ground (arith, h, any_where-append_left p xs ys)

  module _ (before : A → A → Bool) where
    any_where-insert_by :
        (p : A → Bool) (x : A) (xs : List A)
        → any_where p (insert_by before x xs) ≡ any_where p (x ∷ xs)
    unfolding any_where insert_by
    any_where-insert_by p x [] = refl
    any_where-insert_by p x (y ∷ ys) = ground (arith, any_where-insert_by p x ys)

    any_where-order_by :
        (p : A → Bool) (xs : List A) → any_where p (order_by before xs) ≡ any_where p xs
    unfolding any_where order_by
    any_where-order_by p [] = refl
    any_where-order_by p (x ∷ xs) =
        any_where-insert_by p x (order_by before xs)
        ∙ ap (λ b. if p x then true else b) (any_where-order_by p xs)

    All-insert_by :
        (P : A → Type 0) (x : A) (xs : List A) → P x → All P xs → All P (insert_by before x xs)
    unfolding insert_by
    All-insert_by P x [] hx h = (hx, tt)
    All-insert_by P x (y ∷ ys) hx (hy, h) = elim (Bool-cases (before y x)) [
      | inl e ↦ rw e (hy, All-insert_by P x ys hx h)
      | inr e ↦ rw e (hx, (hy, h))
    ]

    All-order_by : (P : A → Type 0) (xs : List A) → All P xs → All P (order_by before xs)
    unfolding order_by
    All-order_by P [] h = tt
    All-order_by P (x ∷ xs) (hx, h) =
        All-insert_by P x (order_by before xs) hx (All-order_by P xs h)

insert-AreOrdered :
    (env : Env) (x : Reference) (ys : List Reference)
    → AreOrdered ys
    → AreOrdered (insert_by (reference_before env) x ys)
unfolding insert_by
insert-AreOrdered env x [] h = (λ e. tt, tt)
insert-AreOrdered env x (y ∷ ys) (own, h) = elim (Bool-cases (reference_before env y x)) [
  | inl e ↦ rw e (
    λ y_own.
        All-insert_by (reference_before env) IsOwn x ys
          (first_own y.handoff_node_id x.handoff_node_id _ y_own e) (own y_own),
    insert-AreOrdered env x ys h,
  )
  | inr e ↦ rw e (
    λ x_own.
        let y_own = second_own y.handoff_node_id x.handoff_node_id _ x_own e in (y_own, own y_own),
    (own, h),
  )
]
  where
    first_own :
        (a b : Option ℕ) (rest : Bool)
        → a ≡ none
        → (handoff_before a b || (opt_eq a b && rest)) ≡ true
        → b ≡ none
    first_own none none rest e h = refl
    first_own none (some b) rest e h = absurd (ground (arith, h))
    first_own (some a) b rest e h = absurd (ground (arith, e))

    second_own :
        (a b : Option ℕ) (rest : Bool)
        → b ≡ none
        → (handoff_before a b || (opt_eq a b && rest)) ≡ false
        → a ≡ none
    second_own none b rest e h = refl
    second_own (some a) none rest e h = absurd (ground (arith, h))
    second_own (some a) (some b) rest e h = absurd (ground (arith, e))

order-AreOrdered :
    (env : Env) (xs : List Reference) → AreOrdered (order_by (reference_before env) xs)
unfolding order_by
order-AreOrdered env [] = tt
order-AreOrdered env (x ∷ xs) =
    insert-AreOrdered env x (order_by (reference_before env) xs) (order-AreOrdered env xs)

any_where-references_to :
    (p : Reference → Bool) (r : SegmentRow) (q : SequenceRow) (sequences : List SequenceRow)
    → IsIn q sequences
    → r.id ≡ q.segment_id
    → p (reference_of r q) ≡ true
    → any_where p (references_to r sequences) ≡ true
unfolding any_where references_to
any_where-references_to p r q [] i e h = elim i [ ]
any_where-references_to p r q (x ∷ sequences) (inl same) e h =
    rw (matching, ap (λ q. p (reference_of r q)) same ∙ h) refl
  where
    matching : (r.id == x.segment_id) ≡ true
    matching = ground (arith, e, ap (λ q. q.segment_id) same)
any_where-references_to p r q (x ∷ sequences) (inr later) e h =
    ground (arith, any_where-references_to p r q sequences later e h)

any_where-join_references :
    (p : Reference → Bool) (r : SegmentRow) (q : SequenceRow) (segments : List SegmentRow)
    (sequences : List SequenceRow)
    → IsIn r segments
    → IsIn q sequences
    → r.id ≡ q.segment_id
    → p (reference_of r q) ≡ true
    → any_where p (join_references segments sequences) ≡ true
unfolding join_references
any_where-join_references p r q [] sequences i j e h = elim i [ ]
any_where-join_references p r q (x ∷ segments) sequences (inl same) j e h =
    any_where-append_left p (references_to x sequences) (join_references segments sequences) (
      ap (λ x. any_where p (references_to x sequences)) same
      ∙ any_where-references_to p r q sequences j e h)
any_where-join_references p r q (x ∷ segments) sequences (inr later) j e h =
    any_where-append_right p (references_to x sequences) (join_references segments sequences)
      (any_where-join_references p r q segments sequences later j e h)

-- A row in an input file whose segment has a row is found.
pub any_where-query :
    (p : Reference → Bool) (env : Env) (ids : List ℕ) (t : Tables) (r : SegmentRow)
    (q : SequenceRow)
    → IsIn r t.segment
    → IsIn q t.segment_sequence
    → is_among ids q.value_file_id ≡ true
    → r.id ≡ q.segment_id
    → p (reference_of r q) ≡ true
    → any_where p (query_value_file_references env ids t) ≡ true
unfolding query_value_file_references
any_where-query p env ids t r q i j among e h =
    any_where-order_by (reference_before env) p _
    ∙ any_where-join_references p r q t.segment _ i
        (IsIn-select_where (λ q. is_among ids q.value_file_id) q t.segment_sequence j among) e h

All-references_to :
    (P : Reference → Type 0) (r : SegmentRow) (sequences : List SequenceRow)
    → ((q : SequenceRow) → IsIn q sequences → r.id ≡ q.segment_id → P (reference_of r q))
    → All P (references_to r sequences)
unfolding references_to
All-references_to P r [] h = tt
All-references_to P r (q ∷ sequences) h =
    let rest = All-references_to P r sequences (λ x i. h x (inr i)) in
    elim (Bool-cases (r.id == q.segment_id)) [
      | inl e ↦ rw e (h q (inl refl) (ground (arith, e)), rest)
      | inr e ↦ rw e rest
    ]

All-join_references :
    (P : Reference → Type 0) (segments : List SegmentRow) (sequences : List SequenceRow)
    → ((r : SegmentRow) (q : SequenceRow)
        → IsIn q sequences
        → r.id ≡ q.segment_id
        → P (reference_of r q))
    → All P (join_references segments sequences)
unfolding join_references
All-join_references P [] sequences h = tt
All-join_references P (r ∷ segments) sequences h =
    All-append P (references_to r sequences) (join_references segments sequences)
      (All-references_to P r sequences (h r)) (All-join_references P segments sequences h)

-- What is found are rows in the input files.
pub All-query :
    (P : Reference → Type 0) (env : Env) (ids : List ℕ) (t : Tables)
    → ((r : SegmentRow) (q : SequenceRow)
        → IsIn q t.segment_sequence
        → is_among ids q.value_file_id ≡ true
        → r.id ≡ q.segment_id
        → P (reference_of r q))
    → All P (query_value_file_references env ids t)
unfolding query_value_file_references
All-query P env ids t h = All-order_by (reference_before env) P _ (
    All-join_references P t.segment _ (λ r q i e.
      let (there, among) =
        select_where-IsIn (λ q. is_among ids q.value_file_id) q t.segment_sequence i in
      h r q there among e))

pub query-AreOrdered :
    (env : Env) (ids : List ℕ) (t : Tables) → AreOrdered (query_value_file_references env ids t)
unfolding query_value_file_references
query-AreOrdered env ids t = order-AreOrdered env _
