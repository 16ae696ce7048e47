-- ===== src/HandoffServer/PendingHandoffs.antt =====
-- handoff_server/pending_handoffs.py. The heap of heapq, of which only push and pop are used, is a
-- list in ascending order; the dictionary is a function.
pub mod Valid
pub mod Order
use nimbus_io.Prelude.{
  ℕ, Bool, true, false, not, Option, none, some, List, [], ◌∷◌, ◌++◌, ltb, ◌==◌, if◌then◌else◌,
  Text, text_eq,
}
use nimbus_io.Prelude.Exec.{Exec, ok, err, index_error, key_error, assertion_error}
use nimbus_io.Prelude.Tables.{any_where}
use nimbus_io.Database.{SegmentRow}

-- a segment row with the names of the nodes that hold it
abbrev pub Handoff : Type 0
Handoff = SegmentRow × List Text

pub record PendingHandoffs : Type 0 where
  pub heap : List ℕ
  pub dict : ℕ → Option Handoff

abbrev pub no_handoffs : PendingHandoffs
no_handoffs = record { heap = []; dict = λ _. none }

unfoldable pub heappush : ℕ → List ℕ → List ℕ
heappush id [] = id ∷ []
heappush id (a ∷ heap) = let rest = heappush id heap in if ltb a id then a ∷ rest else id ∷ a ∷ heap

abbrev pub set : ℕ → Option Handoff → (ℕ → Option Handoff) → ℕ → Option Handoff
set id entry dict j = if id == j then entry else dict j

-- `source_node_name in source_node_names`
abbrev pub contains_name : Text → List Text → Bool
contains_name name names = any_where (λ n. text_eq n name) names

-- the sources of a segment with one more
abbrev pub with_source : Text → List Text → List Text
with_source name names = if contains_name name names then names else names ++ name ∷ []

unfoldable pub push : SegmentRow → Text → Exec PendingHandoffs (Unit {0})
push incoming source p = elim (p.dict incoming.unified_id) [
  | some (row, names) ↦
      if not (incoming.collection_id == row.collection_id)
      then (err assertion_error, p)
      else if not (text_eq incoming.key row.key)
      then (err assertion_error, p)
      else (
        ok tt,
        record p { dict = set incoming.unified_id (some (row, with_source source names)) p.dict },
      )
  | none ↦ (
    ok tt,
    record {
      heap = heappush incoming.unified_id p.heap;
      dict = set incoming.unified_id (some (incoming, source ∷ [])) p.dict;
    },
  )
]

unfoldable pub pop : Exec PendingHandoffs Handoff
pop p = elim p.heap [
  | [] ↦ (err index_error, p)
  | id ∷ rest ↦ elim (p.dict id) [
    | none ↦ (err key_error, record p { heap = rest })
    | some handoff ↦ (ok handoff, record { heap = rest; dict = set id none p.dict })
  ]
]
