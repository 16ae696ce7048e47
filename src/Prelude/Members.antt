-- ===== src/Prelude/Members.antt =====
-- Being an element of a list.
use mathlib.Core.Path.{◌≡◌, refl, sym, ap, ◌∙◌, subst}
use mathlib.Core.Logic.{◌⊎◌, inl, inr}
use mathlib.Core.Bool.{Bool, true, false}
use mathlib.Core.List.{List, [], ◌∷◌}
use nimbus_io.Prelude.Tests.{Bool-cases}
use nimbus_io.Prelude.Lists.{All}
use nimbus_io.Prelude.Tables.{select_where, delete_where}

module _ {A : Type 0} where
  abbrev pub IsIn : A → List A → Type 0
  IsIn x [] = ⊥
  IsIn x (y ∷ ys) = (y ≡ x) ⊎ IsIn x ys

  pub All-IsIn : (P : A → Type 0) (xs : List A) → ((x : A) → IsIn x xs → P x) → All P xs
  All-IsIn P [] h = tt
  All-IsIn P (x ∷ xs) h = (h x (inl refl), All-IsIn P xs (λ y i. h y (inr i)))

  pub IsIn-select_where :
      (p : A → Bool) (x : A) (xs : List A) → IsIn x xs → p x ≡ true → IsIn x (select_where p xs)
  unfolding select_where
  IsIn-select_where p x [] i h = elim i [ ]
  IsIn-select_where p x (y ∷ ys) (inl same) h = rw (ap p same ∙ h) (inl same)
  IsIn-select_where p x (y ∷ ys) (inr later) h = elim (Bool-cases (p y)) [
    | inl e ↦ rw e (inr (IsIn-select_where p x ys later h))
    | inr e ↦ rw e (IsIn-select_where p x ys later h)
  ]

  pub select_where-IsIn :
      (p : A → Bool) (x : A) (xs : List A) → IsIn x (select_where p xs) → IsIn x xs × (p x ≡ true)
  unfolding select_where
  select_where-IsIn p x [] i = elim i [ ]
  select_where-IsIn p x (y ∷ ys) i = elim (Bool-cases (p y)) [
    | inl e ↦
        let i' : (y ≡ x) ⊎ IsIn x (select_where p ys) = rw e at i in
        elim i' [
          | inl same ↦ (inl same, sym (ap p same) ∙ e)
          | inr later ↦ let (there, h) = select_where-IsIn p x ys later in (inr there, h)
        ]
    | inr e ↦ let (later, h) = select_where-IsIn p x ys (rw e at i) in (inr later, h)
  ]

  pub IsIn-delete_where :
      (p : A → Bool) (x : A) (xs : List A) → IsIn x xs → p x ≡ false → IsIn x (delete_where p xs)
  unfolding delete_where
  IsIn-delete_where p x [] i h = elim i [ ]
  IsIn-delete_where p x (y ∷ ys) (inl same) h = rw (ap p same ∙ h) (inl same)
  IsIn-delete_where p x (y ∷ ys) (inr later) h = elim (Bool-cases (p y)) [
    | inl e ↦ rw e (IsIn-delete_where p x ys later h)
    | inr e ↦ rw e (inr (IsIn-delete_where p x ys later h))
  ]

  pub delete_where-IsIn :
      (p : A → Bool) (x : A) (xs : List A) → IsIn x (delete_where p xs) → IsIn x xs × (p x ≡ false)
  unfolding delete_where
  delete_where-IsIn p x [] i = elim i [ ]
  delete_where-IsIn p x (y ∷ ys) i = elim (Bool-cases (p y)) [
    | inr e ↦
        let i' : (y ≡ x) ⊎ IsIn x (delete_where p ys) = rw e at i in
        elim i' [
          | inl same ↦ (inl same, sym (ap p same) ∙ e)
          | inr later ↦ let (there, h) = delete_where-IsIn p x ys later in (inr there, h)
        ]
    | inl e ↦ let (later, h) = delete_where-IsIn p x ys (rw e at i) in (inr later, h)
  ]

  pub All-at : (P : A → Type 0) (x : A) (xs : List A) → All P xs → IsIn x xs → P x
  All-at P x [] h i = elim i [ ]
  All-at P x (y ∷ ys) (hy, h) (inl same) = subst P same hy
  All-at P x (y ∷ ys) (hy, h) (inr later) = All-at P x ys h later
