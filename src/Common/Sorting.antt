-- ===== src/Common/Sorting.antt =====
-- `sorted(xs, key=...)`: an insertion sort that keeps the order of equal keys, by a test whether
-- one element may stand before another.
use Prim.Native.Nat.{ℕ, zero, suc}
use mathlib.Core.Path.{◌≡◌, ap, ◌∙◌}
use mathlib.Core.Logic.{◌⊎◌, inl, inr}
use mathlib.Core.Bool.{Bool, true, false}
use mathlib.Core.List.{List, [], ◌∷◌, Memᴰ}
use mathlib.Core.List.Memᴰ
use ai_support_engineering_p.Common.Lists.{take}
use ai_support_engineering_p.Common.Tests.{if◌then◌else◌, Bool-cases}

module _ {A : Type 0} (before : A → A → Bool) where
  unfoldable pub insert_sorted : A → List A → List A
  insert_sorted x [] = x ∷ []
  insert_sorted x (y ∷ ys) = if before x y then x ∷ y ∷ ys else y ∷ insert_sorted x ys

  unfoldable pub sorted : List A → List A
  unfolding insert_sorted
  sorted [] = []
  sorted (x ∷ xs) = insert_sorted x (sorted xs)

  -- Each element may stand before all that follow.
  abbrev pub IsSorted : List A → Type 0
  IsSorted [] = Unit
  IsSorted (x ∷ xs) = ((y : A) → Memᴰ y xs → before x y ≡ true) × IsSorted xs

  insert_sorted-Mem : (x y : A) (ys : List A) → Memᴰ y (insert_sorted x ys) → (y ≡ x) ⊎ Memᴰ y ys
  unfolding insert_sorted
  insert_sorted-Mem x y [] m = Memᴰ.cases_cons m
  insert_sorted-Mem x y (z ∷ ys) m = elim (Bool-cases (before x z)) [
    | inl e ↦ Memᴰ.cases_cons (rw e at m)
    | inr e ↦ elim (Memᴰ.cases_cons {a = y} (rw e at m)) [
      | inl q ↦ inr (Memᴰ.head q)
      | inr k ↦ elim (insert_sorted-Mem x y ys k) [ inl q ↦ inl q | inr k' ↦ inr (Memᴰ.tail k') ]
    ]
  ]

  Mem-insert_sorted : (x y : A) (ys : List A) → (y ≡ x) ⊎ Memᴰ y ys → Memᴰ y (insert_sorted x ys)
  unfolding insert_sorted
  Mem-insert_sorted x y [] (inl q) = Memᴰ.head q
  Mem-insert_sorted x y [] (inr k) = Memᴰ.tail k
  Mem-insert_sorted x y (z ∷ ys) h = elim (Bool-cases (before x z)) [
    | inl e ↦ rw e (elim h [ inl q ↦ Memᴰ.head q | inr k ↦ Memᴰ.tail k ])
    | inr e ↦ rw e (elim h [
      | inl q ↦ Memᴰ.tail (Mem-insert_sorted x y ys (inl q))
      | inr k ↦ elim (Memᴰ.cases_cons k) [
        | inl q ↦ Memᴰ.head q
        | inr k' ↦ Memᴰ.tail (Mem-insert_sorted x y ys (inr k'))
      ]
    ])
  ]

  pub sorted-Mem : (y : A) (xs : List A) → Memᴰ y (sorted xs) → Memᴰ y xs
  unfolding sorted
  sorted-Mem y [] m = m
  sorted-Mem y (x ∷ xs) m = elim (insert_sorted-Mem x y (sorted xs) m) [
    | inl q ↦ Memᴰ.head q
    | inr k ↦ Memᴰ.tail (sorted-Mem y xs k)
  ]

  pub Mem-sorted : (y : A) (xs : List A) → Memᴰ y xs → Memᴰ y (sorted xs)
  unfolding sorted
  Mem-sorted y [] m = m
  Mem-sorted y (x ∷ xs) m =
      Mem-insert_sorted x y (sorted xs)
        (elim (Memᴰ.cases_cons m) [ inl q ↦ inl q | inr k ↦ inr (Mem-sorted y xs k) ])

  module _ (total : (x y : A) → before x y ≡ false → before y x ≡ true)
      (trans : (x y z : A) → before x y ≡ true → before y z ≡ true → before x z ≡ true) where
    insert_sorted-IsSorted : (x : A) (ys : List A) → IsSorted ys → IsSorted (insert_sorted x ys)
    unfolding insert_sorted
    insert_sorted-IsSorted x [] h = ((λ y m. absurd (Memᴰ.not-nil m)), tt)
    insert_sorted-IsSorted x (z ∷ ys) h = elim (Bool-cases (before x z)) [
      | inl e ↦ rw e (
        (λ y m. elim (Memᴰ.cases_cons m) [
          | inl q ↦ ap (before x) q ∙ e
          | inr k ↦ trans x z y e (h.0 y k)
        ]),
        h,
      )
      | inr e ↦ rw e (
        (λ y m. elim (insert_sorted-Mem x y ys m) [
          | inl q ↦ ap (before z) q ∙ total x z e
          | inr k ↦ h.0 y k
        ]),
        insert_sorted-IsSorted x ys h.1,
      )
    ]

    pub sorted-IsSorted : (xs : List A) → IsSorted (sorted xs)
    unfolding sorted
    sorted-IsSorted [] = tt
    sorted-IsSorted (x ∷ xs) = insert_sorted-IsSorted x (sorted xs) (sorted-IsSorted xs)

  pub take-Mem : (n : ℕ) (y : A) (xs : List A) → Memᴰ y (take n xs) → Memᴰ y xs
  take-Mem zero y xs m = absurd (Memᴰ.not-nil m)
  take-Mem (suc n) y [] m = m
  take-Mem (suc n) y (x ∷ xs) m = elim (Memᴰ.cases_cons m) [
    | inl q ↦ Memᴰ.head q
    | inr k ↦ Memᴰ.tail (take-Mem n y xs k)
  ]

  pub take-IsSorted : (n : ℕ) (xs : List A) → IsSorted xs → IsSorted (take n xs)
  take-IsSorted zero xs h = tt
  take-IsSorted (suc n) [] h = tt
  take-IsSorted (suc n) (x ∷ xs) h = ((λ y m. h.0 y (take-Mem n y xs m)), take-IsSorted n xs h.1)

  -- An element of a sorted list is among the first, or all of these may stand before it.
  pub best_first :
      (n : ℕ) (y : A) (xs : List A)
      → IsSorted xs
      → Memᴰ y xs
      → Memᴰ y (take n xs) ⊎ ((x : A) → Memᴰ x (take n xs) → before x y ≡ true)
  best_first zero y xs h m = inr (λ x k. absurd (Memᴰ.not-nil k))
  best_first (suc n) y [] h m = inl m
  best_first (suc n) y (z ∷ xs) h m = elim (Memᴰ.cases_cons m) [
    | inl q ↦ inl (Memᴰ.head q)
    | inr k ↦ elim (best_first n y xs h.1 k) [
      | inl k' ↦ inl (Memᴰ.tail k')
      | inr all ↦ inr λ x j. elim (Memᴰ.cases_cons j) [ inl q ↦ rw q (h.0 y k) | inr j' ↦ all x j' ]
    ]
  ]
