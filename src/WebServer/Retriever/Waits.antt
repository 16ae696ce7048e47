-- ===== src/WebServer/Retriever/Waits.antt =====
-- The waits of a round: what the tasks of a sequence return, and which waits are fair.
use nimbus_io.Prelude.{
  ℕ, suc, ◌-◌, ◌≤◌, ◌<◌, ◌≡◌, refl, Bool, true, false, ◌⊎◌, inl, inr, Option, none, some, List, [],
  ◌∷◌, ◌++◌, ltb, ◌==◌, if◌then◌else◌, Bytes, length, arith, Bool-cases, Option-cases, All,
}
use nimbus_io.Prelude.Dicts.{lookup, alter, HasDistinctKeys}
use nimbus_io.Prelude.Tables.{all_where, any_where}
use nimbus_io.WebServer.Retriever.{
  Wait, got, empty, Segments, Retriever, replied, same_number, set_item, process_finished_task,
  end_replies,
}

abbrev pub add_answer : ℕ → Option (Bytes × ℕ × Bool) → Segments → Segments
add_answer n none rest = rest
add_answer n (some (content, padding, completed)) rest = (n, (content, padding)) ∷ rest

-- the segments that the tasks of a sequence returned, in the order of their ends
unfoldable pub answers : ℕ → List Wait → Segments
answers s [] = []
answers s (empty elapsed ∷ waits) = answers s waits
answers s (got task ∷ waits) =
    let rest = answers s waits in
    if task.sequence == s
    then add_answer task.segment_number (process_finished_task task) rest
    else rest

-- how many tasks of a sequence end
unfoldable pub ends_of : ℕ → List Wait → ℕ
ends_of s [] = 0
ends_of s (empty elapsed ∷ waits) = ends_of s waits
ends_of s (got task ∷ waits) =
    let rest = ends_of s waits in if task.sequence == s then suc rest else rest

-- The value of a task that asked for segment `n`: the share with the padding, and whether it is the
-- last one.
abbrev pub IsRight : (ℕ → Bytes) → ℕ → ℕ → Bool → ℕ → Option (Bytes × ℕ × Bool) → Type 0
IsRight share m padding completed n none = Unit
IsRight share m padding completed n (some (content, p, c)) =
    (0 < n) × (n ≤ m) × (content ≡ share (n - 1)) × (p ≡ padding) × (c ≡ completed)

pub set_item-new :
    (n : ℕ) (v : Bytes × ℕ) (segments : Segments)
    → lookup same_number n segments ≡ none
    → set_item n v segments ≡ segments ++ (n, v) ∷ []
unfolding alter lookup
set_item-new n v [] h = refl
set_item-new n v ((k, w) ∷ segments) h = ground (arith, h, set_item-new n v segments)

lookup-other :
    (k n : ℕ) (v : Bytes × ℕ) (segments rest : Segments)
    → lookup same_number k (segments ++ (n, v) ∷ rest) ≡ none
    → (n == k) ≡ false
unfolding lookup
lookup-other k n v [] rest h = ground (arith, h)
lookup-other k n v ((j, w) ∷ segments) rest h = ground (arith, h, lookup-other k n v segments rest)

pub lookup-new :
    (n : ℕ) (v : Bytes × ℕ) (segments rest : Segments)
    → HasDistinctKeys same_number (segments ++ (n, v) ∷ rest)
    → lookup same_number n segments ≡ none
unfolding lookup
lookup-new n v [] rest h = refl
lookup-new n v ((k, w) ∷ segments) rest (new, h) =
    ground (arith, lookup-other k n v segments rest new, lookup-new n v segments rest h)

pub length-answers : (s : ℕ) (waits : List Wait) → length (answers s waits) ≤ ends_of s waits
unfolding answers ends_of
length-answers s [] = omega arith
length-answers s (empty elapsed ∷ waits) = length-answers s waits
length-answers s (got task ∷ waits) =
    let rest = length-answers s waits in
    elim (Bool-cases (task.sequence == s)) [
      | inr other ↦ rw other rest
      | inl same ↦ elim (Option-cases (process_finished_task task)) [
        | inl e ↦ rw (same, e) (omega (arith, rest))
        | inr (v, e) ↦ rw (same, e) (omega (arith, rest))
      ]
    ]

-- The flags of a round that agree.
flags_agree :
    (completed : Bool) (flags : List Bool)
    → All (λ c. c ≡ completed) flags
    → (all_where (λ c. c) (flags ++ completed ∷ []) ≡ completed)
      × (any_where (λ c. c) (flags ++ completed ∷ []) ≡ completed)
unfolding all_where any_where
flags_agree true [] h = (refl, refl)
flags_agree false [] h = (refl, refl)
flags_agree true (c ∷ flags) (e, h) = rw e ((flags_agree true flags h).0, refl)
flags_agree false (c ∷ flags) (e, h) = rw e (refl, (flags_agree false flags h).1)

full :
    (r : Retriever) (segments : Segments)
    → length segments ≡ r.segments_needed
    → ltb (length segments) r.segments_needed ≡ false
full r segments size = ground (arith, size)

pub end_replies-replied :
    (r : Retriever) (n : ℕ) (segments : Segments) (completed : Bool) (flags : List Bool)
    (waits : List Wait)
    → length segments ≡ r.segments_needed
    → All (λ c. c ≡ completed) flags
    → end_replies r
        (record {
          finished_task_count = n;
          result_dict = segments;
          completed_list = flags ++ completed ∷ [];
        })
        waits
      ≡ replied segments completed waits
unfolding end_replies
end_replies-replied r n segments true flags waits size agree =
    rw (full r segments size, (flags_agree true flags agree).0) refl
end_replies-replied r n segments false flags waits size agree =
    let (every, some_one) = flags_agree false flags agree in
    rw (full r segments size, every, some_one) refl

module _ (timeout s : ℕ) (share : ℕ → Bytes) (m padding : ℕ) (completed : Bool) where
  -- A wait of the round: it is not too long, or it gives a stale task, or one with a right value.
  abbrev pub IsFair : Wait → Type 0
  IsFair (empty elapsed) = elapsed ≤ timeout
  IsFair (got task) =
      (task.sequence < s)
      ⊎ ((task.sequence ≡ s)
          × IsRight share m padding completed task.segment_number (process_finished_task task))
