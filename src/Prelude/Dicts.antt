-- ===== src/Prelude/Dicts.antt =====
-- Python's dict, as the list of its items, with the test for equal keys as an argument.
use Prim.Native.Nat.{ℕ, ◌+◌}
use mathlib.Core.Path.{◌≡◌, refl, sym, ap, ◌∙◌, subst}
use mathlib.Core.Bool.{Bool, true, false}
use mathlib.Core.Logic.{inl, inr}
use mathlib.Core.Option.{Option, none, some, some_inj}
use mathlib.Core.List.{List, [], ◌∷◌}
use native.Mathlib.Omega.{arith}
use nimbus_io.Prelude.Tests.{if◌then◌else◌, Bool-cases}
use nimbus_io.Prelude.Lists.{All, length}

module _ {K V : Type 0} (same : K → K → Bool) where
  -- `d.get(k)`
  unfoldable pub lookup : K → List (K × V) → Option V
  lookup k [] = none
  lookup k ((j, v) ∷ items) = let rest = lookup k items in if same j k then some v else rest

  -- `d.setdefault(k, default)`, and a change of what it returns
  unfoldable pub alter : K → V → (V → V) → List (K × V) → List (K × V)
  alter k default f [] = (k, f default) ∷ []
  alter k default f ((j, v) ∷ items) =
      let rest = alter k default f items in if same j k then (j, f v) ∷ items else (j, v) ∷ rest

  -- `del d[k]`
  unfoldable pub remove : K → List (K × V) → List (K × V)
  remove k [] = []
  remove k ((j, v) ∷ items) = let rest = remove k items in if same j k then items else (j, v) ∷ rest

  abbrev pub HasDistinctKeys : List (K × V) → Type 0
  HasDistinctKeys [] = Unit
  HasDistinctKeys ((k, v) ∷ items) = (lookup k items ≡ none) × HasDistinctKeys items

module _ {K V : Type 0} (same : K → K → Bool) (g : V → ℕ) where
  -- a number kept under a key, 0 when there is none
  unfoldable pub value_at : K → List (K × V) → ℕ
  value_at k items = elim (lookup same k items) [ none ↦ 0 | some v ↦ g v ]

  unfoldable pub sum_of : List (K × V) → ℕ
  sum_of [] = 0
  sum_of ((k, v) ∷ items) = g v + sum_of items

  pub sum_of-remove :
      (k : K) (v : V) (items : List (K × V))
      → lookup same k items ≡ some v
      → sum_of items ≡ g v + sum_of (remove same k items)
  unfolding lookup remove sum_of
  sum_of-remove k v [] h = absurd (ground (arith, h))
  sum_of-remove k v ((j, w) ∷ items) h = elim (Bool-cases (same j k)) [
    | inl e ↦ rw e (ap (λ x. g x + sum_of items) (some_inj.0 (rw e at h)))
    | inr e ↦ rw e (omega (arith, sum_of-remove k v items (rw e at h)))
  ]

  value_at-nil : (i : K) → value_at i [] ≡ 0
  unfolding value_at lookup
  value_at-nil i = refl

  pub value_at-cons :
      (i j : K) (v : V) (items : List (K × V))
      → value_at i ((j, v) ∷ items) ≡ (if same j i then g v else value_at i items)
  unfolding value_at lookup
  value_at-cons i j v items = elim (Bool-cases (same j i)) [
    | inl e ↦ rw (e, value_at, lookup) refl
    | inr e ↦ rw (e, value_at, lookup) refl
  ]

  pub sum_of-alter_missing :
      (default : V) (k : K) (items : List (K × V))
      → lookup same k items ≡ none
      → sum_of (alter same k default (λ v. default) items) ≡ g default + sum_of items
  unfolding lookup alter sum_of
  sum_of-alter_missing default k [] h = omega arith
  sum_of-alter_missing default k ((j, w) ∷ items) h = elim (Bool-cases (same j k)) [
    | inl e ↦ absurd (ground (arith, h, e))
    | inr e ↦ rw e (omega (arith, sum_of-alter_missing default k items (rw e at h)))
  ]

  pub sum_of-alter_found :
      (default : V) (k : K) (v : V) (items : List (K × V))
      → lookup same k items ≡ some v
      → g v + sum_of (alter same k default (λ v. default) items) ≡ g default + sum_of items
  unfolding lookup alter sum_of
  sum_of-alter_found default k v [] h = absurd (ground (arith, h))
  sum_of-alter_found default k v ((j, w) ∷ items) h = elim (Bool-cases (same j k)) [
    | inl e ↦ let held : g w ≡ g v = ap g (some_inj.0 (rw e at h)) in rw e (omega (arith, held))
    | inr e ↦ rw e (omega (arith, sum_of-alter_found default k v items (rw e at h)))
  ]

  module _ (default : V) (f : V → V) (n : ℕ) (adds : (v : V) → g (f v) ≡ g v + n)
      (empty : g default ≡ 0) where
    pub sum_of-alter :
        (k : K) (items : List (K × V)) → sum_of (alter same k default f items) ≡ sum_of items + n
    unfolding alter sum_of
    sum_of-alter k [] = omega (arith, adds default, empty)
    sum_of-alter k ((j, v) ∷ items) = ground (arith, sum_of-alter k items, adds v)

    pub value_at-alter :
        ((j k : K) → same j k ≡ true → j ≡ k)
        → (i k : K) (items : List (K × V))
        → value_at i (alter same k default f items) ≡ value_at i items + (if same k i then n else 0)
    unfolding alter
    value_at-alter sound i k [] =
        ground (arith, value_at-cons i k (f default) [], adds default, empty, value_at-nil i)
    value_at-alter sound i k ((j, v) ∷ items) = elim (Bool-cases (same j k)) [
      | inl e ↦ rw e (
          ground (
            arith,
            value_at-cons i j (f v) items,
            value_at-cons i j v items,
            adds v,
            ap (λ x. same x i) (sound j k e),
          ))
      | inr e ↦ rw e (elim (Bool-cases (same k i)) [
        | inl e' ↦ ground (
          arith,
          value_at-cons i j v (alter same k default f items),
          value_at-cons i j v items,
          value_at-alter sound i k items,
          ap (λ x. same j x) (sound k i e'),
        )
        | inr e' ↦ ground (
          arith,
          value_at-cons i j v (alter same k default f items),
          value_at-cons i j v items,
          value_at-alter sound i k items,
        )
      ])
    ]

module _ {K V : Type 0} (same : K → K → Bool) (default : V) (f : V → V) where
  pub lookup-alter :
      ((j k : K) → same j k ≡ true → j ≡ k)
      → (i k : K) (items : List (K × V)) → same k i ≡ false
      → lookup same i (alter same k default f items) ≡ lookup same i items
  unfolding lookup alter
  lookup-alter sound i k [] other = ground (arith, other)
  lookup-alter sound i k ((j, v) ∷ items) other = elim (Bool-cases (same j k)) [
    | inl e ↦ rw e (ground (arith, other, ap (λ x. same x i) (sound j k e)))
    | inr e ↦ rw e (ground (arith, lookup-alter sound i k items other))
  ]

  pub alter-HasDistinctKeys :
      ((j k : K) → same j k ≡ true → j ≡ k)
      → ((j k : K) → same j k ≡ same k j)
      → (k : K) (items : List (K × V)) → HasDistinctKeys same items
      → HasDistinctKeys same (alter same k default f items)
  unfolding alter lookup
  alter-HasDistinctKeys sound swap k [] h = (refl, tt)
  alter-HasDistinctKeys sound swap k ((j, v) ∷ items) (new, h) = elim (Bool-cases (same j k)) [
    | inl e ↦ rw e (new, h)
    | inr e ↦ rw e (
      lookup-alter sound j k items (swap k j ∙ e) ∙ new,
      alter-HasDistinctKeys sound swap k items h,
    )
  ]

  pub All-alter :
      (P : V → Type 0)
      → P (f default)
      → ((v : V) → P v → P (f v))
      → (k : K) (items : List (K × V)) → All (λ e. P e.1) items
      → All (λ e. P e.1) (alter same k default f items)
  unfolding alter
  All-alter P start keep k [] h = (start, tt)
  All-alter P start keep k ((j, v) ∷ items) (hv, h) = elim (Bool-cases (same j k)) [
    | inl e ↦ rw e (keep v hv, h)
    | inr e ↦ rw e (hv, All-alter P start keep k items h)
  ]

module _ {K V : Type 0} (same : K → K → Bool) (P : V → Type 0) where
  pub All-remove :
      (k : K) (items : List (K × V))
      → All (λ e. P e.1) items
      → All (λ e. P e.1) (remove same k items)
  unfolding remove
  All-remove k [] h = tt
  All-remove k ((j, v) ∷ items) (hv, h) = elim (Bool-cases (same j k)) [
    | inl e ↦ rw e h
    | inr e ↦ rw e (hv, All-remove k items h)
  ]

  pub All-lookup :
      (k : K) (v : V) (items : List (K × V))
      → All (λ e. P e.1) items
      → lookup same k items ≡ some v
      → P v
  unfolding lookup
  All-lookup k v [] h e = absurd (ground (arith, e))
  All-lookup k v ((j, w) ∷ items) (hw, h) found = elim (Bool-cases (same j k)) [
    | inl e ↦ subst P (some_inj.0 (rw e at found)) hw
    | inr e ↦ All-lookup k v items h (rw e at found)
  ]

-- What a change and a deletion do to the other keys, to the key and to the number of items.
module _ {K V : Type 0} (same : K → K → Bool) (sound : (j k : K) → same j k ≡ true → j ≡ k) where
  pub lookup-alter_same :
      (default : V) (f : V → V) (v : V)
      → ((w : V) → f w ≡ v)
      → ((k : K) → same k k ≡ true)
      → (k : K) (items : List (K × V)) → lookup same k (alter same k default f items) ≡ some v
  unfolding lookup alter
  lookup-alter_same default f v const same_refl k [] = rw (same_refl k) (ap some (const default))
  lookup-alter_same default f v const same_refl k ((j, w) ∷ items) = elim (Bool-cases (same j k)) [
    | inl e ↦ rw e (rw e (ap some (const w)))
    | inr e ↦ rw e (rw e (lookup-alter_same default f v const same_refl k items))
  ]

  pub lookup-remove_other :
      (i k : K) (items : List (K × V))
      → same k i ≡ false
      → lookup same i (remove same k items) ≡ lookup same i items
  unfolding lookup remove
  lookup-remove_other i k [] other = refl
  lookup-remove_other i k ((j, v) ∷ items) other = elim (Bool-cases (same j k)) [
    | inl e ↦ rw e (ground (arith, other, ap (λ x. same x i) (sound j k e)))
    | inr e ↦ rw e (ground (arith, lookup-remove_other i k items other))
  ]

  pub lookup-remove_same :
      (k : K) (items : List (K × V))
      → HasDistinctKeys same items
      → lookup same k (remove same k items) ≡ none
  unfolding lookup remove
  lookup-remove_same k [] h = refl
  lookup-remove_same k ((j, v) ∷ items) (new, h) = elim (Bool-cases (same j k)) [
    | inl e ↦ rw e (ap (λ x. lookup same x items) (sym (sound j k e)) ∙ new)
    | inr e ↦ rw e (rw e (lookup-remove_same k items h))
  ]

  lookup-remove_missing :
      (i k : K) (items : List (K × V))
      → lookup same i items ≡ none
      → lookup same i (remove same k items) ≡ none
  unfolding lookup remove
  lookup-remove_missing i k [] h = refl
  lookup-remove_missing i k ((j, v) ∷ items) h = ground (arith, h, lookup-remove_missing i k items)

  pub remove-HasDistinctKeys :
      (k : K) (items : List (K × V))
      → HasDistinctKeys same items
      → HasDistinctKeys same (remove same k items)
  unfolding remove lookup
  remove-HasDistinctKeys k [] h = tt
  remove-HasDistinctKeys k ((j, v) ∷ items) (new, h) = elim (Bool-cases (same j k)) [
    | inl e ↦ rw e h
    | inr e ↦ rw e (lookup-remove_missing j k items new, remove-HasDistinctKeys k items h)
  ]

  pub length-remove :
      (k : K) (v : V) (items : List (K × V))
      → lookup same k items ≡ some v
      → length items ≡ 1 + length (remove same k items)
  unfolding lookup remove
  length-remove k v [] h = absurd (ground (arith, h))
  length-remove k v ((j, w) ∷ items) h = elim (Bool-cases (same j k)) [
    | inl e ↦ rw e (omega arith)
    | inr e ↦ rw e (omega (arith, length-remove k v items (rw e at h)))
  ]

  pub length-alter_missing :
      (default : V) (f : V → V) (k : K) (items : List (K × V))
      → lookup same k items ≡ none
      → length (alter same k default f items) ≡ 1 + length items
  unfolding lookup alter
  length-alter_missing default f k [] h = omega arith
  length-alter_missing default f k ((j, w) ∷ items) h = elim (Bool-cases (same j k)) [
    | inl e ↦ absurd (ground (arith, h, e))
    | inr e ↦ rw e (omega (arith, length-alter_missing default f k items (rw e at h)))
  ]

  pub length-alter_found :
      (default : V) (f : V → V) (k : K) (v : V) (items : List (K × V))
      → lookup same k items ≡ some v
      → length (alter same k default f items) ≡ length items
  unfolding lookup alter
  length-alter_found default f k v [] h = absurd (ground (arith, h))
  length-alter_found default f k v ((j, w) ∷ items) h = elim (Bool-cases (same j k)) [
    | inl e ↦ rw e (omega arith)
    | inr e ↦ rw e (omega (arith, length-alter_found default f k v items (rw e at h)))
  ]
