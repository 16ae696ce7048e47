-- ===== src/Tools/PriorityQueue/Order.antt =====
-- The queue is a first-in-first-out queue for each priority, and gives from the least one that has any.
use nimbus_io.Prelude.{
  ℕ, ◌+◌, ◌≤◌, ◌<◌, ◌≡◌, refl, sym, ap, false, Option, List, [], ◌∷◌, ◌++◌, ◌==◌, if◌then◌else◌,
  arith, All, All-imp, Bool-cases, inl, inr, append-nil,
}
use nimbus_io.Prelude.Tables.{select_where, select_where-none}
use nimbus_io.Tools.PriorityQueue.{Item, Queue, is_before, heappush, priority_or, append}

module _ (M : Type 0) where
  abbrev pub IsSorted : List (Item M) → Type 0
  IsSorted [] = Unit
  IsSorted (a ∷ heap) = All (λ b. a.priority ≤ b.priority) heap × IsSorted heap

  -- The priorities rise, and the counts are below the counter.
  pub record IsValid (q : Queue M) : Type 0 where
    pub sorted : IsSorted q.heap
    pub counted : All (λ a. a.count < q.counter) q.heap

  -- the items of a priority, in turn
  abbrev pub of_priority : ℕ → List (Item M) → List (Item M)
  of_priority p heap = select_where (λ a. a.priority == p) heap

  All-heappush :
      (P : Item M → Type 0) (item : Item M) (heap : List (Item M))
      → P item
      → All P heap
      → All P (heappush M item heap)
  unfolding heappush
  All-heappush P item [] hi h = (hi, tt)
  All-heappush P item (a ∷ heap) hi (ha, h) = elim (Bool-cases (is_before M item a)) [
    | inl e ↦ rw e (hi, (ha, h))
    | inr e ↦ rw e (ha, All-heappush P item heap hi h)
  ]

  heappush-IsSorted :
      (item : Item M) (heap : List (Item M)) → IsSorted heap → IsSorted (heappush M item heap)
  unfolding heappush
  heappush-IsSorted item [] h = (tt, tt)
  heappush-IsSorted item (a ∷ heap) (least, h) = elim (Bool-cases (is_before M item a)) [
    | inl e ↦
        let le : item.priority ≤ a.priority = ground (arith, e) in
        rw e (
          (
            le,
            All-imp (λ b. a.priority ≤ b.priority) (λ b. item.priority ≤ b.priority)
                (λ b k. omega (arith, le, k)) heap least,
          ),
          (least, h),
        )
    | inr e ↦
        let le : a.priority ≤ item.priority = ground (arith, e) in
        rw e (
          All-heappush (λ b. a.priority ≤ b.priority) item heap le least,
          heappush-IsSorted item heap h,
        )
  ]

  -- An item of the highest count comes after those of its priority.
  of_priority-heappush :
      (p : ℕ) (item : Item M) (heap : List (Item M))
      → IsSorted heap
      → All (λ a. a.count < item.count) heap
      → of_priority p (heappush M item heap)
        ≡ of_priority p heap ++ (if item.priority == p then item ∷ [] else [])
  unfolding heappush select_where
  of_priority-heappush p item [] h k = refl
  of_priority-heappush p item (a ∷ heap) (least, h) (ka, k) =
      elim (Bool-cases (is_before M item a)) [
        | inl e ↦ rw e (elim (Bool-cases (item.priority == p)) [
          | inl here ↦
              let lt : p < a.priority = ground (arith, e, here, ka) in
              let not_a : (a.priority == p) ≡ false = ground (arith, lt) in
              let none_left : of_priority p heap ≡ [] =
                select_where-none (λ b. b.priority == p) heap
                  (All-imp (λ b. a.priority ≤ b.priority) (λ b. (b.priority == p) ≡ false)
                    (λ b le. ground (arith, lt, le)) heap least) in
              rw (here, not_a, none_left) refl
          | inr other ↦ rw other (sym (append-nil (of_priority p (a ∷ heap))))
        ])
        | inr e ↦ rw e (elim (Bool-cases (a.priority == p)) [
          | inl here ↦ rw here (ap (λ l. a ∷ l) (of_priority-heappush p item heap h k))
          | inr other ↦ rw other (of_priority-heappush p item heap h k)
        ])
      ]

  -- A message that is appended to a valid queue leaves a valid queue, and is the last one of its
  -- priority, the clock's when it has none; those of the other priorities stay as they are.
  pub append-last :
      (now : ℕ) (priority : Option ℕ) (message : M) (q : Queue M)
      → IsValid q
      → let q' = append M now priority message q in
        IsValid q'
        × ((p : ℕ)
            → of_priority p q'.heap
              ≡ of_priority p q.heap
                ++ (if priority_or M now priority == p
                    then (record {
                      priority = priority_or M now priority;
                      count = q.counter;
                      message = message;
                    })
                      ∷ []
                    else []))
  unfolding append
  append-last now priority message q v =
      let item : Item M = record {
        priority = priority_or M now priority;
        count = q.counter;
        message = message;
      } in
      (
        record {
          sorted = heappush-IsSorted item q.heap v.sorted;
          counted =
              All-heappush (λ a. a.count < q.counter + 1) item q.heap (omega arith)
                (All-imp (λ a. a.count < q.counter) (λ a. a.count < q.counter + 1)
                  (λ a h. omega (arith, h)) q.heap v.counted);
        },
        λ p. of_priority-heappush p item q.heap v.sorted v.counted,
      )
