-- ===== src/Tests/HandoffServer.antt =====
-- Pending handoffs of one segment that two nodes hold.
use nimbus_io.Prelude.{ℕ, ◌≡◌, refl, none, some, [], ◌∷◌, codes, text_eq}
use nimbus_io.Prelude.Exec.{ok}
use nimbus_io.Prelude.Tables.{any_where}
use nimbus_io.Database.{final, SegmentRow}
use nimbus_io.HandoffServer.PendingHandoffs.{
  Handoff, PendingHandoffs, no_handoffs, heappush, set, push, pop,
}
use nimbus_io.HandoffServer.PendingHandoffs.Valid.{IsValid, no_handoffs-IsValid}
use nimbus_io.HandoffServer.PendingHandoffs.Order.{push-adds, pop-least}

abbrev pub row : ℕ → SegmentRow
row id = record {
  id = 1;
  collection_id = 1;
  key = codes "k";
  status = final;
  unified_id = id;
  timestamp = record {
    year = 2012;
    month = 3;
    day = 1;
    hour = 9;
    minute = 0;
    second = 0;
    microsecond = 0;
  };
  segment_num = 1;
  conjoined_part = 0;
  file_size = 5;
  file_adler32 = none;
  file_hash = some [];
  file_tombstone_unified_id = none;
  source_node_id = 1;
  handoff_node_id = some 2;
}

abbrev pub one : PendingHandoffs
one = (push (row 10) (codes "node02") no_handoffs).1

one-IsValid : IsValid one
one-IsValid = (push-adds (row 10) (codes "node02") no_handoffs no_handoffs-IsValid tt).1

two_sources :
    (pop (push (row 10) (codes "node03") (push (row 7) (codes "node02") one).1).1).0
    ≡ ok (row 7, codes "node02" ∷ [])
unfolding push pop heappush any_where text_eq
two_sources = refl

push-adds_example : (push (row 10) (codes "node03") one).0 ≡ ok tt
unfolding push text_eq
push-adds_example = (push-adds (row 10) (codes "node03") one one-IsValid (refl, refl)).0

abbrev first : Handoff
first = (row 10, codes "node02" ∷ [])

first-IsValid : IsValid (record { heap = 10 ∷ []; dict = set 10 (some first) (λ _. none) })
unfolding push heappush
first-IsValid = one-IsValid

pop-least_example :
    (h : Handoff) × ((pop (record { heap = 10 ∷ []; dict = set 10 (some first) (λ _. none) })).0
      ≡ ok h)
    × (some first ≡ some h)
    × (h.0.unified_id ≡ 10)
pop-least_example = (pop-least 10 [] (set 10 (some first) (λ _. none)) first-IsValid).0
