-- ===== src/HandoffServer/PendingHandoffs/Valid.antt =====
-- The invariant of the pending handoffs, and how a push and a pop of the heap keep its order.
use nimbus_io.Prelude.{
  ℕ, ◌<◌, ◌≡◌, refl, Bool, true, false, Option, none, some, List, [], ◌∷◌, ◌==◌, if◌then◌else◌,
  arith, All, All-imp, sym, ap, ◌∙◌, is_none, not, ltb, Bool-cases, inl, inr,
}
use nimbus_io.HandoffServer.PendingHandoffs.{Handoff, PendingHandoffs, no_handoffs, heappush, set}

abbrev pub Ascending : List ℕ → Type 0
Ascending [] = Unit
Ascending (a ∷ heap) = All (λ b. a < b) heap × Ascending heap

-- the heap holds an id
unfoldable pub holds : ℕ → List ℕ → Bool
holds j [] = false
holds j (a ∷ heap) = let rest = holds j heap in if a == j then true else rest

-- The heap is in order and without duplicates, and has the keys of the dictionary; each entry stands
-- under the unified id of its row.
pub record IsValid (p : PendingHandoffs) : Type 0 where
  pub ascending : Ascending p.heap
  pub held : (j : ℕ) → holds j p.heap ≡ not (is_none (p.dict j))
  pub named : (j : ℕ) (h : Handoff) → p.dict j ≡ some h → h.0.unified_id ≡ j

pub no_handoffs-IsValid : IsValid no_handoffs
unfolding holds
no_handoffs-IsValid = record {
  ascending = tt;
  held = λ j. refl;
  named = λ j h e. absurd (ground arith);
}

pub holds-heappush :
    (j id : ℕ) (heap : List ℕ)
    → holds j (heappush id heap) ≡ (if id == j then true else holds j heap)
unfolding holds heappush
holds-heappush j id [] = ground arith
holds-heappush j id (a ∷ heap) = ground (arith, holds-heappush j id heap)

All-heappush :
    (a id : ℕ) (heap : List ℕ)
    → a < id
    → All (λ b. a < b) heap
    → All (λ b. a < b) (heappush id heap)
unfolding heappush
All-heappush a id [] h hs = (h, tt)
All-heappush a id (b ∷ heap) h (hb, hs) = elim (Bool-cases (ltb b id)) [
  | inl e ↦ rw e (hb, All-heappush a id heap h hs)
  | inr e ↦ rw e (h, (hb, hs))
]

id_lt : (id a : ℕ) (heap : List ℕ) → holds id (a ∷ heap) ≡ false → ltb a id ≡ false → id < a
unfolding holds
id_lt id a heap new e = ground arith

trans_lt : (a b c : ℕ) → a < b → b < c → a < c
trans_lt a b c h k = omega arith

pub heappush-Ascending :
    (id : ℕ) (heap : List ℕ) → holds id heap ≡ false → Ascending heap → Ascending (heappush id heap)
unfolding heappush holds
heappush-Ascending id [] new asc = (tt, tt)
heappush-Ascending id (a ∷ heap) new (low, asc) = elim (Bool-cases (ltb a id)) [
  | inl e ↦
      rw e
        (All-heappush a id heap (ground arith) low, heappush-Ascending id heap (ground arith) asc)
  | inr e ↦ rw e (
    (
      id_lt id a heap new e,
      All-imp (λ b. a < b) (λ b. id < b) (λ b h. trans_lt id a b (id_lt id a heap new e) h) heap
          low,
    ),
    (low, asc),
  )
]

pub same_id : (a b : ℕ) → (a == b) ≡ true → a ≡ b
same_id a b e = ground arith

-- where a dictionary holds a handoff after one entry was set
module _ (id : ℕ) (entry : Option Handoff) (dict : ℕ → Option Handoff) (j : ℕ) where
  set-same : (id == j) ≡ true → set id entry dict j ≡ entry
  set-same e = rw e refl

  set-other : (id == j) ≡ false → set id entry dict j ≡ dict j
  set-other e = rw e refl

uid_or : ℕ → Option Handoff → ℕ
uid_or d none = d
uid_or d (some h) = h.0.unified_id

some-unified_id : (h g : Handoff) → some h ≡ some g → h.0.unified_id ≡ g.0.unified_id
unfolding uid_or
some-unified_id h g e = ap (uid_or 0) e

pub set-named :
    (id : ℕ) (h : Handoff) (dict : ℕ → Option Handoff)
    → h.0.unified_id ≡ id
    → ((j : ℕ) (g : Handoff) → dict j ≡ some g → g.0.unified_id ≡ j)
    → (j : ℕ) (g : Handoff) → set id (some h) dict j ≡ some g
    → g.0.unified_id ≡ j
set-named id h dict own named j g e = elim (Bool-cases (id == j)) [
  | inl same ↦
      sym (some-unified_id h g (sym (set-same id (some h) dict j same) ∙ e))
      ∙ own
      ∙ same_id id j same
  | inr other ↦ named j g (sym (set-other id (some h) dict j other) ∙ e)
]

pub none-named :
    (id : ℕ) (dict : ℕ → Option Handoff)
    → ((j : ℕ) (g : Handoff) → dict j ≡ some g → g.0.unified_id ≡ j)
    → (j : ℕ) (g : Handoff) → set id none dict j ≡ some g
    → (id == j ≡ false) × (dict j ≡ some g)
none-named id dict named j g e = elim (Bool-cases (id == j)) [
  | inl same ↦ absurd (ground (arith, sym (set-same id none dict j same) ∙ e))
  | inr other ↦ (other, sym (set-other id none dict j other) ∙ e)
]

pub holds-low : (a j : ℕ) (heap : List ℕ) → All (λ b. a < b) heap → holds j heap ≡ true → a < j
unfolding holds
holds-low a j [] low h = absurd (ground arith)
holds-low a j (b ∷ heap) (h, low) held = elim (Bool-cases (b == j)) [
  | inl e ↦ ground (arith, h)
  | inr e ↦ holds-low a j heap low (ground arith)
]

pub holds-above : (id : ℕ) (heap : List ℕ) → All (λ b. id < b) heap → holds id heap ≡ false
holds-above id heap low = elim (Bool-cases (holds id heap)) [
  | inl e ↦ absurd (omega (arith, holds-low id id heap low e))
  | inr e ↦ e
]

pub held_tail :
    (id j : ℕ) (heap : List ℕ) (b : Bool)
    → holds j (id ∷ heap) ≡ b
    → id == j ≡ false
    → holds j heap ≡ b
unfolding holds
held_tail id j heap b h e = ground arith
