-- ===== src/Prelude/Sort.antt =====
-- ORDER BY and LIMIT of the databases: a list sorted by a test of two elements, and its first
-- elements.
use mathlib.Core.List.{Perm}
use mathlib.Core.List.Perm
use mathlib.Core.Path.{◌≡◌}
use mathlib.Core.Logic.{inl, inr}
use mathlib.Core.Bool.{Bool, true, false}
use mathlib.Core.List.{List, [], ◌∷◌}
use bangmod_monitor.Prelude.Tests.{if◌then◌else◌, Bool-cases}

-- Whether `x` may stand before `y`, at each pair of neighbours.
abbrev pub IsSorted {ℓ} : {A : Type ℓ} → (A → A → Bool) → List A → Type 0
IsSorted before [] = Unit
IsSorted before (x ∷ []) = Unit
IsSorted before (x ∷ y ∷ l) = (before x y ≡ true) × IsSorted before (y ∷ l)

module _ {ℓ} {A : Type ℓ} (before : A → A → Bool) where
  abbrev insert_by : A → List A → List A
  insert_by x [] = x ∷ []
  insert_by x (y ∷ l) = if before x y then x ∷ y ∷ l else y ∷ insert_by x l

  unfoldable pub sort_by : List A → List A
  sort_by [] = []
  sort_by (x ∷ l) = insert_by x (sort_by l)

  insert_by-perm : (x : A) (l : List A) → Perm (insert_by x l) (x ∷ l)
  insert_by-perm x [] = Perm.refl (x ∷ [])
  insert_by-perm x (y ∷ l) = elim (Bool-cases (before x y)) [
    | inl first ↦ rw first (Perm.refl (x ∷ y ∷ l))
    | inr later ↦ rw later (Perm.trans (Perm.cons y (insert_by-perm x l)) (Perm.swap x y l))
  ]

  -- Sorting loses and adds nothing.
  pub sort_by-perm : (l : List A) → Perm (sort_by l) l
  unfolding sort_by
  sort_by-perm [] = Perm.refl []
  sort_by-perm (x ∷ l) = Perm.trans (insert_by-perm x (sort_by l)) (Perm.cons x (sort_by-perm l))

  module _ (total : (x y : A) → before x y ≡ false → before y x ≡ true) where
    -- The head of the result is one of the two heads.
    insert_by-IsSorted : (x : A) (l : List A) → IsSorted before l → IsSorted before (insert_by x l)
    insert_by-IsSorted x [] s = tt
    insert_by-IsSorted x (y ∷ []) s = elim (Bool-cases (before x y)) [
      | inl first ↦ rw first (first, tt)
      | inr later ↦ rw later (total x y later, tt)
    ]
    insert_by-IsSorted x (y ∷ z ∷ l) (p, s) = elim (Bool-cases (before x y)) [
      | inl first ↦ rw first (first, (p, s))
      | inr later ↦ elim (Bool-cases (before x z)) [
        | inl second ↦ rw (later, second) (total x y later, (second, s))
        | inr third ↦
            let rest : IsSorted before (insert_by x (z ∷ l)) = insert_by-IsSorted x (z ∷ l) s in
            rw (later, third) (p, rw third at rest)
      ]
    ]

    pub sort_by-IsSorted : (l : List A) → IsSorted before (sort_by l)
    unfolding sort_by
    sort_by-IsSorted [] = tt
    sort_by-IsSorted (x ∷ l) = insert_by-IsSorted x (sort_by l) (sort_by-IsSorted l)
