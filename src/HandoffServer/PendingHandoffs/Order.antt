-- ===== src/HandoffServer/PendingHandoffs/Order.antt =====
-- Pending handoffs are popped by ascending unified id, each once with all its sources.
use nimbus_io.Prelude.{
  ℕ, ◌<◌, ◌≡◌, refl, true, false, Option, none, some, List, [], ◌∷◌, ◌==◌, if◌then◌else◌, Text,
  text_eq, arith, sym, ap, ◌∙◌, subst, ==-refl, Option-cases, is_none, not, Bool-cases, inl, inr,
  ◌⊎◌, ◌++◌, text_eq→eq, text_eq_refl,
}
use nimbus_io.Prelude.Exec.{ok}
use nimbus_io.Prelude.Members.{IsIn}
use nimbus_io.Prelude.Tables.{any_where}
use nimbus_io.Database.{SegmentRow}
use nimbus_io.HandoffServer.PendingHandoffs.{
  Handoff, PendingHandoffs, heappush, set, contains_name, with_source, push, pop,
}
use nimbus_io.HandoffServer.PendingHandoffs.Valid.{
  holds, IsValid, heappush-Ascending, holds-heappush, same_id, set-named, none-named, holds-low,
  holds-above, held_tail,
}

-- The sources after a push: those of before, if the new one is among them, and else with it at the
-- end.
abbrev pub AreWith : Text → List Text → List Text → Type 0
AreWith source names names' =
    (IsIn source names × (names' ≡ names))
    ⊎ ((¬ IsIn source names) × (names' ≡ names ++ source ∷ []))

-- the entry after a push
abbrev pub IsPushed : SegmentRow → Text → Option Handoff → Option Handoff → Type 0
IsPushed incoming source none entry = entry ≡ some (incoming, source ∷ [])
IsPushed incoming source (some (row, names)) entry =
    (names' : List Text) × (entry ≡ some (row, names')) × AreWith source names names'

contains_name-IsIn :
    (source : Text) (names : List Text) → contains_name source names ≡ true → IsIn source names
unfolding any_where
contains_name-IsIn source [] h = absurd (ground (arith, h))
contains_name-IsIn source (n ∷ names) h = elim (Bool-cases (text_eq n source)) [
  | inl e ↦ inl (text_eq→eq n source e)
  | inr e ↦ inr (contains_name-IsIn source names (ground (arith, h, e)))
]

IsIn-contains_name :
    (source : Text) (names : List Text) → IsIn source names → contains_name source names ≡ true
unfolding any_where
IsIn-contains_name source [] i = elim i [ ]
IsIn-contains_name source (n ∷ names) (inl e) =
    let same : text_eq n source ≡ true = subst (λ t. text_eq n t ≡ true) e (text_eq_refl n) in
    ground (arith, same)
IsIn-contains_name source (n ∷ names) (inr i) = ground (arith, IsIn-contains_name source names i)

with_source-AreWith :
    (source : Text) (names : List Text) → AreWith source names (with_source source names)
with_source-AreWith source names = elim (Bool-cases (contains_name source names)) [
  | inl e ↦ rw e (inl (contains_name-IsIn source names e, refl))
  | inr e ↦ rw e (
      inr (
        (λ i.
            let both : true ≡ false = sym (IsIn-contains_name source names i) ∙ e in
            absurd (ground (arith, both))),
        refl,
      ))
]

-- A row agrees with the one that is held, if any, in its collection and its key.
abbrev pub Agrees : SegmentRow → Option Handoff → Type 0
Agrees incoming none = Unit
Agrees incoming (some (row, names)) =
    (incoming.collection_id ≡ row.collection_id) × (text_eq incoming.key row.key ≡ true)

module _ (incoming : SegmentRow) (source : Text) (p : PendingHandoffs) (v : IsValid p) where
  abbrev uid : ℕ
  uid = incoming.unified_id

  abbrev added : PendingHandoffs
  added = record {
    heap = heappush uid p.heap;
    dict = set uid (some (incoming, source ∷ [])) p.dict;
  }

  abbrev shared : Handoff → PendingHandoffs
  shared h = record p { dict = set uid (some (h.0, with_source source h.1)) p.dict }

  push-added : p.dict uid ≡ none → push incoming source p ≡ (ok tt, added)
  unfolding push
  push-added e = rw (e, push) refl

  push-shared :
      (h : Handoff)
      → p.dict uid ≡ some h
      → (incoming.collection_id ≡ h.0.collection_id) × (text_eq incoming.key h.0.key ≡ true)
      → push incoming source p ≡ (ok tt, shared h)
  unfolding push
  push-shared h e (same, key) = rw (e, push, same, ==-refl h.0.collection_id, key) refl

  absent : p.dict uid ≡ none → holds uid p.heap ≡ false
  absent e = rw (v.held uid, e) refl

  added-IsValid : p.dict uid ≡ none → IsValid added
  added-IsValid e = record {
    ascending = heappush-Ascending uid p.heap (absent e) v.ascending;
    held = λ j. ground (arith, holds-heappush j uid p.heap, v.held j);
    named = set-named uid (incoming, source ∷ []) p.dict refl v.named;
  }

  shared-held :
      (h : Handoff) (j : ℕ)
      → p.dict uid ≡ some h
      → holds j p.heap ≡ not (is_none ((shared h).dict j))
  shared-held h j e = elim (Bool-cases (uid == j)) [
    | inl same ↦ rw same (
        v.held j
        ∙ ap (λ i. not (is_none (p.dict i))) (sym (same_id uid j same))
        ∙ ap (λ o. not (is_none o)) e)
    | inr other ↦ rw other (v.held j)
  ]

  shared-IsValid : (h : Handoff) → p.dict uid ≡ some h → IsValid (shared h)
  shared-IsValid h e = record {
    ascending = v.ascending;
    held = λ j. shared-held h j e;
    named = set-named uid (h.0, with_source source h.1) p.dict (v.named uid h e) v.named;
  }

-- `push` succeeds if the row agrees with the one that is held for its unified id: it keeps the
-- invariant; the entry of the id has the row with this source alone, if there was none, and else the
-- row of before with its sources, to which this one is added at the end unless it is among them; and
-- the other handoffs stay.
pub push-adds :
    (incoming : SegmentRow) (source : Text) (p : PendingHandoffs)
    → IsValid p
    → Agrees incoming (p.dict incoming.unified_id)
    → let (r, p') = push incoming source p in
      (r ≡ ok tt)
      × IsValid p'
      × IsPushed incoming source (p.dict incoming.unified_id) (p'.dict incoming.unified_id)
      × ((j : ℕ) → (incoming.unified_id == j) ≡ false → p'.dict j ≡ p.dict j)
push-adds incoming source p v agrees = elim (Option-cases (p.dict incoming.unified_id)) [
  | inl e ↦
      rw (push-added incoming source p v e, e)
        (
          refl,
          added-IsValid incoming source p v e,
          rw (==-refl incoming.unified_id) refl,
          λ j other. rw other refl,
        )
  | inr (h, e) ↦
      let same = subst (Agrees incoming) e agrees in
      rw (push-shared incoming source p v h e same, e)
        (
          refl,
          shared-IsValid incoming source p v h e,
          rw (==-refl incoming.unified_id)
              (with_source source h.1, refl, with_source-AreWith source h.1),
          λ j other. rw other refl,
        )
]

module _ (id : ℕ) (heap : List ℕ) (dict : ℕ → Option Handoff)
    (v : IsValid (record { heap = id ∷ heap; dict = dict })) where
  abbrev popped : PendingHandoffs
  popped = record { heap = heap; dict = set id none dict }

  first : (h : Handoff) × (dict id ≡ some h)
  unfolding holds
  first = elim (Option-cases (dict id)) [
    | inl e ↦ absurd (ground (arith, v.held id, e))
    | inr found ↦ found
  ]

  pop-popped :
      (h : Handoff)
      → dict id ≡ some h
      → pop (record { heap = id ∷ heap; dict = dict }) ≡ (ok h, popped)
  unfolding pop
  pop-popped h e = rw (e, pop) refl

  popped-held : (j : ℕ) → holds j heap ≡ not (is_none (popped.dict j))
  popped-held j = elim (Bool-cases (id == j)) [
    | inl same ↦
        rw same
          (ap (λ i. holds i heap) (sym (same_id id j same)) ∙ holds-above id heap v.ascending.0)
    | inr other ↦ rw other (held_tail id j heap (not (is_none (dict j))) (v.held j) other)
  ]

  popped-IsValid : IsValid popped
  popped-IsValid = record {
    ascending = v.ascending.1;
    held = popped-held;
    named = λ j g e. v.named j g (none-named id dict v.named j g e).1;
  }

  popped-low : (j : ℕ) (h : Handoff) → popped.dict j ≡ some h → id < j
  popped-low j h e = holds-low id j heap v.ascending.0 (popped-held j ∙ ap (λ o. not (is_none o)) e)

-- `pop` of a valid container that is not empty gives the handoff with the least unified id, with
-- all its sources, keeps the invariant, and removes that handoff only.
pub pop-least :
    (id : ℕ) (heap : List ℕ) (dict : ℕ → Option Handoff)
    → IsValid (record { heap = id ∷ heap; dict = dict })
    → let (r, p') = pop (record { heap = id ∷ heap; dict = dict }) in
      ((h : Handoff) × (r ≡ ok h) × (dict id ≡ some h) × (h.0.unified_id ≡ id))
      × IsValid p'
      × ((j : ℕ) → p'.dict j ≡ (if id == j then none else dict j))
      × ((j : ℕ) (h : Handoff) → p'.dict j ≡ some h → id < j)
pop-least id heap dict v =
    let (h, e) = first id heap dict v in
    rw (pop-popped id heap dict v h e) (
      (h, refl, e, v.named id h e),
      popped-IsValid id heap dict v,
      λ j. refl,
      popped-low id heap dict v,
    )
