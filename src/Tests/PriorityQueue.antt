-- ===== src/Tests/PriorityQueue.antt =====
-- Messages of two priorities, and one that has none.
use nimbus_io.Prelude.{ℕ, ◌≡◌, refl, none, some, [], ◌∷◌, ◌++◌, Text, codes, arith}
use nimbus_io.Tools.PriorityQueue.{Item, Queue, append, heappush}
use nimbus_io.Tools.PriorityQueue.Order.{IsValid, of_priority, append-last}

abbrev item : ℕ → ℕ → Text → Item Text
item priority count message = record { priority = priority; count = count; message = message }

abbrev queue : Queue Text
queue = record { heap = item 3 0 (codes "a") ∷ item 5 1 (codes "b") ∷ []; counter = 2 }

queue-IsValid : IsValid Text queue
queue-IsValid = record {
  sorted = ((ground arith, tt), (tt, tt));
  counted = (ground arith, (ground arith, tt));
}

append-last_example :
    of_priority Text 3 (append Text 9 (some 3) (codes "c") queue).heap
    ≡ of_priority Text 3 queue.heap ++ item 3 2 (codes "c") ∷ []
append-last_example = (append-last Text 9 (some 3) (codes "c") queue queue-IsValid).1 3

in_order :
    (append Text 4 none (codes "d") (append Text 9 (some 3) (codes "c") queue)).heap
    ≡ item 3 0 (codes "a") ∷ item 3 2 (codes "c") ∷ item 4 3 (codes "d") ∷ item 5 1 (codes "b") ∷ []
unfolding append heappush
in_order = refl
