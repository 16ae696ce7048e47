-- ===== src/Tools/PriorityQueue.antt =====
-- tools/priority_queue.py: the receive queue that gives the messages of the lowest priority first. The
-- heap is the list of its items in order, by the priority and then the count of the item.
pub mod Order
use nimbus_io.Prelude.{
  ℕ, ◌+◌, Bool, ◌&&◌, ◌||◌, Option, none, some, List, [], ◌∷◌, ltb, ◌==◌, if◌then◌else◌,
}
use nimbus_io.Prelude.Exec.{Exec, ok, err, index_error}

module _ (M : Type 0) where
  pub record Item : Type 0 where
    pub priority : ℕ
    pub count : ℕ
    pub message : M

  pub record Queue : Type 0 where
    pub heap : List Item
    pub counter : ℕ

  abbrev pub new_queue : Queue
  new_queue = record { heap = []; counter = 0 }

  -- the order of the tuples; the counts of two items differ, so it does not go on to the messages
  abbrev pub is_before : Item → Item → Bool
  is_before a b = ltb a.priority b.priority || ((a.priority == b.priority) && ltb a.count b.count)

  unfoldable pub heappush : Item → List Item → List Item
  heappush item [] = item ∷ []
  heappush item (a ∷ heap) =
      let rest = heappush item heap in if is_before item a then item ∷ a ∷ heap else a ∷ rest

  -- the priority of a message that has none: `create_priority()`
  abbrev pub priority_or : ℕ → Option ℕ → ℕ
  priority_or now none = now
  priority_or now (some priority) = priority

  unfoldable pub append : ℕ → Option ℕ → M → Queue → Queue
  append now priority message q = record {
    heap =
        heappush
          (record { priority = priority_or now priority; count = q.counter; message = message })
          q.heap;
    counter = q.counter + 1;
  }

  unfoldable pub popleft : Exec Queue M
  popleft q = elim q.heap [
    | [] ↦ (err index_error, q)
    | item ∷ heap ↦ (ok item.message, record q { heap = heap })
  ]
